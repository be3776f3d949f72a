-- ===== src/Msi/Irqs.antt =====
-- The interrupts that `a1625_with_msi` allocates, as leases.
use a1625_linux_winboot.Prelude.{
  ℕ, ◌≡◌, refl, sym, ◌∙◌, Bool, true, false, ◌==◌, ==_refl, if◌then◌else◌, ℤ, pos, negsuc, nonzero,
  List, [], ◌∷◌, arith,
}
use a1625_linux_winboot.Kernel.{Ensures, bind, resume, branch}
use a1625_linux_winboot.Kernel.Leases.{Lease, irq, irq_domain, Leases, holds, give_back}
use a1625_linux_winboot.Msi.{check_slot, take_irqs, free_irqs}

abbrev pub irqs : List ℕ → List Lease → List Lease
irqs [] s = s
irqs (x ∷ xs) s = irq x ∷ irqs xs s

-- None of them is held twice.
abbrev pub Fresh : List ℕ → List Lease → Type 0
Fresh [] s = Unit
Fresh (x ∷ xs) s = (holds (irq x) (irqs xs s) ≡ false) × Fresh xs s

-- The interrupts above a part of the list, the lowest one first.
abbrev over : List ℕ → List Lease → List Lease
over [] s = s
over (p ∷ ps) s = over ps (irq p ∷ s)

abbrev FreshOver : List ℕ → List Lease → Type 0
FreshOver [] s = Unit
FreshOver (p ∷ ps) s = (holds (irq p) s ≡ false) × FreshOver ps (irq p ∷ s)

holds-over :
    (l : Lease) (ps : List ℕ) (s : List Lease) → holds l s ≡ true → holds l (over ps s) ≡ true
holds-over l [] s h = h
holds-over l (p ∷ ps) s h = holds-over l ps (irq p ∷ s) (ground arith)

-- What is held below is given back below.
give_back-over :
    (x : ℕ) (ps : List ℕ) (s t : List Lease)
    → holds (irq x) s ≡ true
    → give_back (irq x) s ≡ t
    → FreshOver ps s
    → give_back (irq x) (over ps s) ≡ over ps t
give_back-over x [] s t h e fresh = e
give_back-over x (p ∷ ps) s t h e fresh =
    give_back-over x ps (irq p ∷ s) (irq p ∷ t) (ground arith) (kept (x == p) refl) fresh.1
  where
    kept :
        (b : Bool) → (x == p) ≡ b → (if x == p then s else irq p ∷ give_back (irq x) s) ≡ irq p ∷ t
    kept true same =
        let equal : x ≡ p = ground arith in
        let clash : false ≡ true = sym fresh.0 ∙ rw (sym equal) h in cc
    kept false apart = rw (apart, e) refl

FreshOver-weaken :
    (ps : List ℕ) (s t : List Lease)
    → ((l : Lease) → holds l t ≡ true → holds l s ≡ true)
    → FreshOver ps s
    → FreshOver ps t
FreshOver-weaken [] s t less h = tt
FreshOver-weaken (p ∷ ps) s t less h = (
  ground (arith, less (irq p)),
  FreshOver-weaken ps (irq p ∷ s) (irq p ∷ t) (λ l k. let below = less l in ground arith) h.1,
)

holds-irqs :
    (l : Lease) (xs : List ℕ) (s : List Lease) → holds l s ≡ true → holds l (irqs xs s) ≡ true
holds-irqs l [] s h = h
holds-irqs l (x ∷ xs) s h = let ih = holds-irqs l xs s h in ground arith

free_irqs-over :
    (ps xs : List ℕ) (s : List Lease)
    → FreshOver ps (irqs xs s)
    → Fresh xs s
    → Ensures Leases (free_irqs xs) (λ _ t. t ≡ over ps s) (over ps (irqs xs s))
unfolding free_irqs
free_irqs-over ps [] s above fresh = refl
free_irqs-over ps (x ∷ xs) s above fresh =
    bind Leases (λ _ t. t ≡ over (x ∷ ps) s) (λ _ t. t ≡ over ps s) (free_irqs xs) _ _
      (free_irqs-over (x ∷ ps) xs s (fresh.0, above) fresh.1)
      λ _ t e. rw e (
        holds-over (irq x) ps (irq x ∷ s) (rw (==_refl x) refl),
        λ _ _.
            give_back-over x ps (irq x ∷ s) s (rw (==_refl x) refl) (rw (==_refl x) refl)
              (FreshOver-weaken ps (irq x ∷ irqs xs s) (irq x ∷ s) weaker above),
      )
  where
    weaker : (l : Lease) → holds l (irq x ∷ s) ≡ true → holds l (irq x ∷ irqs xs s) ≡ true
    weaker l h = let below = holds-irqs l xs s in ground arith

pub free_irqs-back :
    (xs : List ℕ) (s : List Lease)
    → Fresh xs s
    → Ensures Leases (free_irqs xs) (λ _ t. t ≡ s) (irqs xs s)
free_irqs-back xs s fresh = free_irqs-over [] xs s tt fresh

abbrev pub Taken : List Lease → ℤ × List ℕ → List Lease → Type 0
Taken s (r, xs) t = (t ≡ irqs xs s) × Fresh xs s

check_slot-back :
    (domain i x : ℕ) (s : List Lease) → Ensures Leases (check_slot domain i x) (λ _ t. t ≡ s) s
unfolding check_slot
check_slot-back domain i x s = (tt, λ _ _. refl)

pub take_irqs-Taken :
    (domain : ℕ) (is xs : List ℕ) (s : List Lease)
    → Fresh xs s
    → holds (irq_domain domain) s ≡ true
    → Ensures Leases (take_irqs domain is xs) (Taken s) (irqs xs s)
unfolding take_irqs
take_irqs-Taken domain [] xs s fresh on = (refl, fresh)
take_irqs-Taken domain (i ∷ is) xs s fresh on = (
  holds-irqs (irq_domain domain) xs s on,
  elim [
    | negsuc e ↦ λ _. (refl, fresh)
    | pos x ↦ λ new.
        let more : Fresh (x ∷ xs) s = (ground arith, fresh) in
        resume Leases (Taken s) (check_slot domain i x) _ (irqs (x ∷ xs) s)
          (check_slot-back domain i x (irqs (x ∷ xs) s))
          λ r.
            branch Leases (Taken s) (nonzero r) _ _ (irqs (x ∷ xs) s) (λ _. (refl, more))
              (λ _. take_irqs-Taken domain is (x ∷ xs) s more on)
  ],
)
