-- ===== src/Msi/Held.antt =====
-- The leases of `a1625_with_msi`, in windows-native/wifi/pmu-probe/a1625_msi.h.
use a1625_linux_winboot.Prelude.{
  ℕ, ◌≡◌, refl, true, false, not, ◌||◌, ◌==◌, ==_refl, ℤ, nonzero, none, some, List, [], ◌∷◌, arith,
}
use a1625_linux_winboot.Kernel.{Prog, Ensures, Keeps, bind, branch, resume, after}
use a1625_linux_winboot.Kernel.Leases.{Lease, node, irq_domain, fwnode, Leases}
use a1625_linux_winboot.Board.{is_j42d_t7000}
use a1625_linux_winboot.Link.Held.{PortMapped, OnPort}
use a1625_linux_winboot.Msi.{
  control_on, base_on, slots, find_busy, find_left, take_irqs, free_irqs, with_slots, switched_on,
  taken_down, switched_back, with_domain, with_fwnode, with_parent, with_aic, with_msi,
}
use a1625_linux_winboot.Msi.Irqs.{Taken, free_irqs-back, take_irqs-Taken}

abbrev Back : List Lease → ℤ → List Lease → Type 0
Back s r t = t ≡ s

find_busy-Keeps : (parent : ℕ) (is : List ℕ) → Keeps Leases (find_busy parent is)
unfolding find_busy
find_busy-Keeps parent [] = record { keeps = λ s. refl }
find_busy-Keeps parent (i ∷ is) = record {
  keeps = λ s. let ih = (find_busy-Keeps parent is).keeps s in ground arith;
}

find_left-Keeps : (parent : ℕ) (is : List ℕ) (r : ℤ) → Keeps Leases (find_left parent is r)
unfolding find_left
find_left-Keeps parent [] r = record { keeps = λ s. refl }
find_left-Keeps parent (i ∷ is) r = record {
  keeps = λ s. (tt, λ virq _. (find_left-Keeps parent is _).keeps s);
}

pub is_j42d_t7000-Keeps : Keeps Leases is_j42d_t7000
unfolding is_j42d_t7000
is_j42d_t7000-Keeps = record { keeps = λ s. ground arith }

module _ (operate : ℕ → Prog ℤ) (orderly : (domain : ℕ) → OnPort (operate domain)) where
  module _ (domain : ℕ) (s : List Lease) (on : PortMapped s) where
    abbrev here : List Lease
    here = irq_domain domain ∷ s

    with_slots-Taken : Ensures Leases (with_slots operate domain) (Taken here) here
    unfolding with_slots
    with_slots-Taken =
        bind Leases (Taken here) (Taken here) (take_irqs domain slots []) _ here
          (take_irqs-Taken domain slots [] here tt (rw (==_refl domain) refl))
          λ (r, xs) t k.
            branch Leases (Taken here) (nonzero r) _ _ t (λ _. k)
              λ _. rw k.0 (
                bind Leases (λ _ t. t ≡ here) (Taken here) (free_irqs xs) _ _
                  (free_irqs-back xs here k.1)
                  λ _ t e. rw e (
                    resume Leases (Taken here) (operate domain) _ here (orderly domain here on)
                      (λ r. (refl, tt))))

    switched_on-Taken : Ensures Leases (switched_on operate domain) (Taken here) here
    unfolding switched_on
    switched_on-Taken = (
      on.2,
      λ _ _. (
        on.3,
        λ _ _. (
          on.2,
          λ control _.
              branch Leases (Taken here) (not (control == control_on)) _ _ here (λ _. (refl, tt))
                λ _. (
                  on.3,
                  λ base _.
                      branch Leases (Taken here) (not (base == base_on)) _ _ here (λ _. (refl, tt))
                        (λ _. with_slots-Taken),
                ),
        ),
      ),
    )

    taken_down-Back :
        (parent : ℕ) (r : ℤ) → Ensures Leases (taken_down domain parent r) (Back s) here
    unfolding taken_down
    taken_down-Back parent r = (
      tt,
      λ used _.
          after (Back s) _ here (find_left-Keeps parent slots _)
            λ r. ground (arith, ==_refl domain),
    )

    switched_back-held :
        (control base : ℕ) (r : ℤ) → Ensures Leases (switched_back control base r) (Back s) s
    unfolding switched_back
    switched_back-held control base r = ground arith

    with_domain-Back :
        (control base parent : ℕ)
        → Ensures Leases (with_domain operate control base parent domain) (Back s) here
    unfolding with_domain
    with_domain-Back control base parent =
        bind Leases (Taken here) (Back s) (switched_on operate domain) _ here switched_on-Taken
          λ (r, xs) t k. rw k.0 (
            bind Leases (λ _ t. t ≡ here) (Back s) (free_irqs xs) _ _ (free_irqs-back xs here k.1)
              λ _ t e. rw e (
                bind Leases (Back s) (Back s) (taken_down domain parent r) _ here
                  (taken_down-Back parent r) λ r t e. rw e (switched_back-held control base r)))

  with_fwnode-Back :
      (control base parent f : ℕ) (s : List Lease)
      → PortMapped s
      → Ensures Leases (with_fwnode operate control base parent f) (Back s) (fwnode f ∷ s)
  unfolding with_fwnode
  with_fwnode-Back control base parent f s on = (
    rw (==_refl f) refl,
    elim [
      | none ↦ λ _. ground (arith, ==_refl f)
      | some domain ↦ λ _.
          bind Leases (Back (fwnode f ∷ s)) (Back s)
            (with_domain operate control base parent domain) _ _
            (with_domain-Back domain (fwnode f ∷ s) on control base parent)
            λ r t e. rw e (ground (arith, ==_refl f))
    ],
  )

  with_parent-OnPort : (control base parent : ℕ) → OnPort (with_parent operate control base parent)
  unfolding with_parent
  with_parent-OnPort control base parent s on =
      after (Back s) _ s (find_busy-Keeps parent slots) λ r.
        branch Leases (Back s) (nonzero r) _ _ s (λ _. refl)
          λ _. (
            tt,
            elim [ none ↦ λ _. refl | some f ↦ λ _. with_fwnode-Back control base parent f s on ],
          )

  with_aic-Back :
      (control base aic : ℕ) (s : List Lease)
      → PortMapped s
      → Ensures Leases (with_aic operate control base aic) (Back (node aic ∷ s)) (node aic ∷ s)
  unfolding with_aic
  with_aic-Back control base aic s on = (
    rw (==_refl aic) refl,
    elim [
      | false ↦ λ _. refl
      | true ↦ λ _. (
        rw (==_refl aic) refl,
        elim [
          | none ↦ λ _. refl
          | some parent ↦ λ _. with_parent-OnPort control base parent (node aic ∷ s) on
        ],
      )
    ],
  )

  -- Whatever the port reads as and the kernel answers, `a1625_with_msi` gives back every interrupt,
  -- the interrupt domain, its firmware node and the reference that it takes, and touches the port
  -- only inside a mapping that is held, if the callback does. An interrupt that the kernel allocates
  -- is taken not to be 0, and not to be one that is allocated already.
  pub with_msi-Leases :
      (s : List Lease) → PortMapped s → Ensures Leases (with_msi operate) (λ _ t. t ≡ s) s
  unfolding with_msi
  with_msi-Leases s on = (
    on.2,
    λ control _. (
      on.3,
      λ base _. after (Back s) _ s is_j42d_t7000-Keeps λ board.
          branch Leases (Back s) (not board || not (control == 0) || not (base == 0)) _ _ s
            (λ _. refl)
            λ _. (
              tt,
              elim [
                | none ↦ λ _. refl
                | some aic ↦ λ _.
                    bind Leases (Back (node aic ∷ s)) (Back s) (with_aic operate control base aic) _
                      _ (with_aic-Back control base aic s on)
                      λ r t e. rw e (ground (arith, ==_refl aic))
              ],
            ),
    ),
  )
