-- ===== src/Msi/Slots/Owners.antt =====
-- Who has which MSI slot.
use mathlib.Core.Path.{subst}
use a1625_linux_winboot.Prelude.{
  ℕ, zero, suc, ◌+◌, ◌^◌, ◌≤◌, ◌<◌, ◌≡◌, ◌≢◌, refl, Bool, true, false, ◌==◌, if◌then◌else◌, ℤ, pos,
  neg, einval, enomem, Option, none, some, List, [], ◌∷◌, ◌++◌, All, arith,
}
use a1625_linux_winboot.Msi.Slots.{
  Bits, inside, Bitmap, BitmapLaws, Region, Slots, bad_count, reserve, undo, commit, bits_from,
  free, clear_slot, Step, reserves, undoes, commits, frees, clears, Reachable, at_first, then_step,
  hwirq, eoi, parent_param,
}

abbrev flag : Bool → ℕ
flag b = if b then 1 else 0

-- How many of the allocations have slot `b`.
abbrev pub holders : (b : ℕ) → List Region → ℕ
holders b [] = 0
holders b (r ∷ rs) = (if inside r.slot (2 ^ r.order) b then 1 else 0) + holders b rs

-- How often slot `b` is to be cleared.
abbrev pub times : (b : ℕ) → List ℕ → ℕ
times b [] = 0
times b (c ∷ cs) = (if b == c then 1 else 0) + times b cs

-- How many callers have slot `b`, in whatever they are at.
abbrev pub owners : (b : ℕ) → Slots → ℕ
owners b s = holders b s.flying + holders b s.live + times b s.leaving

holders-take :
    (b : ℕ) (before after : List Region) (r : Region)
    → holders b (before ++ r ∷ after)
      ≡ (if inside r.slot (2 ^ r.order) b then 1 else 0) + holders b (before ++ after)
holders-take b [] after r = refl
holders-take b (x ∷ before) after r = omega (arith, holders-take b before after r)

times-take :
    (b : ℕ) (before after : List ℕ) (c : ℕ)
    → times b (before ++ c ∷ after) ≡ (if b == c then 1 else 0) + times b (before ++ after)
times-take b [] after c = refl
times-take b (x ∷ before) after c = omega (arith, times-take b before after c)

times-bits_from :
    (b slot n : ℕ) (rest : List ℕ)
    → times b (bits_from slot n ++ rest) ≡ (if inside slot n b then 1 else 0) + times b rest
unfolding bits_from
times-bits_from b slot zero rest = ground arith
times-bits_from b slot (suc n) rest = let ih = times-bits_from b (slot + 1) n rest in ground arith

-- An allocation lies inside the 8 slots, and has as many as were reserved for it.
abbrev pub Fits : Region → Type 0
Fits r = (r.slot + 2 ^ r.order ≤ 8) × (2 ^ r.order ≡ r.count)

-- Each slot that is marked has one owner, and no other slot has any; allocations lie inside the 8.
pub record SlotsOwned (s : Slots) : Type 0 where
  pub one_owner : (b : ℕ) → owners b s ≡ (if s.used b then 1 else 0)
  pub flying_fit : All Fits s.flying
  pub live_fit : All Fits s.live

All-take :
    (before after : List Region) (r : Region)
    → All Fits (before ++ r ∷ after)
    → Fits r × All Fits (before ++ after)
All-take [] after r h = h
All-take (x ∷ before) after r h = let rest = All-take before after r h.1 in (rest.0, (h.0, rest.1))

module _ (m : Bitmap) (laws : BitmapLaws m) where
  bad_count-order : (count : ℕ) → bad_count m count ≡ false → 2 ^ m.order_base_2 count ≡ count
  unfolding bad_count
  bad_count-order count h = laws.exact count (ground arith) (ground arith) (ground arith)

  reserve-SlotsOwned : (count : ℕ) (s : Slots) → SlotsOwned s → SlotsOwned (reserve m count s).1
  unfolding reserve
  reserve-SlotsOwned count s h = by_guard (bad_count m count) refl
    where
      fly : (slot : ℕ) (after : Bits) → Slots
      fly slot after = record s {
        used = after;
        flying = record { slot = slot; order = m.order_base_2 count; count = count } ∷ s.flying;
      }

      by_region :
          (found : Option (ℕ × Bits))
          → 2 ^ m.order_base_2 count ≡ count
          → m.find_free_region s.used 8 (m.order_base_2 count) ≡ found
          → SlotsOwned
              (elim found as (λ _. ℤ × Slots) [
                | none ↦ (neg enomem, s)
                | some (slot, after) ↦ (pos slot, fly slot after)
              ]).1
      by_region none exact e = h
      by_region (some (slot, after)) exact e = record {
        one_owner = λ b.
            let was = laws.was_free s.used 8 (m.order_base_2 count) slot after e b in
            let now = laws.is_set s.used 8 (m.order_base_2 count) slot after e b in
            let had = h.one_owner b in ground arith;
        flying_fit =
            ((laws.in_range s.used 8 (m.order_base_2 count) slot after e, exact), h.flying_fit);
        live_fit = h.live_fit;
      }

      by_guard :
          (bad : Bool)
          → bad_count m count ≡ bad
          → SlotsOwned
              (if bad
                then (neg einval, s)
                else elim (m.find_free_region s.used 8 (m.order_base_2 count)) as (λ _. ℤ × Slots) [
                  | none ↦ (neg enomem, s)
                  | some (slot, after) ↦ (pos slot, fly slot after)
                ]).1
      by_guard true e = h
      by_guard false e = by_region _ (bad_count-order count e) refl

  undo-SlotsOwned :
      (before after : List Region) (r : Region) (s : Slots)
      → s.flying ≡ before ++ r ∷ after
      → SlotsOwned s
      → SlotsOwned (undo m before after r s)
  unfolding undo
  undo-SlotsOwned before after r s e h = record {
    one_owner = λ b.
        let split = flying-take b in
        let now = laws.released s.used r.slot r.order b in let had = h.one_owner b in ground arith;
    flying_fit = (All-take before after r (subst (λ l. All Fits l) e h.flying_fit)).1;
    live_fit = h.live_fit;
  }
    where
      flying-take :
          (b : ℕ)
          → holders b s.flying
            ≡ (if inside r.slot (2 ^ r.order) b then 1 else 0) + holders b (before ++ after)
      flying-take b = rw e (holders-take b before after r)

  commit-SlotsOwned :
      (before after : List Region) (r : Region) (s : Slots)
      → s.flying ≡ before ++ r ∷ after
      → SlotsOwned s
      → SlotsOwned (commit before after r s)
  unfolding commit
  commit-SlotsOwned before after r s e h =
      let parts = All-take before after r (subst (λ l. All Fits l) e h.flying_fit) in
      record {
        one_owner = λ b. let split = flying-take b in let had = h.one_owner b in omega arith;
        flying_fit = parts.1;
        live_fit = (parts.0, h.live_fit);
      }
    where
      flying-take :
          (b : ℕ)
          → holders b s.flying
            ≡ (if inside r.slot (2 ^ r.order) b then 1 else 0) + holders b (before ++ after)
      flying-take b = rw e (holders-take b before after r)

  free-SlotsOwned :
      (before after : List Region) (r : Region) (s : Slots)
      → s.live ≡ before ++ r ∷ after
      → SlotsOwned s
      → SlotsOwned (free before after r s)
  unfolding free
  free-SlotsOwned before after r s e h = record {
    one_owner = λ b.
        let split = live-take b in
        let moved = times-bits_from b r.slot r.count s.leaving in
        let had = h.one_owner b in omega (arith, same b);
    flying_fit = h.flying_fit;
    live_fit = (All-take before after r (subst (λ l. All Fits l) e h.live_fit)).1;
  }
    where
      live-take :
          (b : ℕ)
          → holders b s.live
            ≡ (if inside r.slot (2 ^ r.order) b then 1 else 0) + holders b (before ++ after)
      live-take b = rw e (holders-take b before after r)

      fits : Fits r
      fits = (All-take before after r (subst (λ l. All Fits l) e h.live_fit)).0

      same :
          (b : ℕ)
          → ◌≡◌ {A = ℕ}
              (if inside r.slot (2 ^ r.order) b then 1 else 0)
              (if inside r.slot r.count b then 1 else 0)
      same b = rw fits.1 refl

  clear_slot-SlotsOwned :
      (before after : List ℕ) (c : ℕ) (s : Slots)
      → s.leaving ≡ before ++ c ∷ after
      → SlotsOwned s
      → SlotsOwned (clear_slot m before after c s)
  unfolding clear_slot
  clear_slot-SlotsOwned before after c s e h = record {
    one_owner = λ b.
        let split = leaving-take b in
        let now = laws.cleared s.used c b in let had = h.one_owner b in ground arith;
    flying_fit = h.flying_fit;
    live_fit = h.live_fit;
  }
    where
      leaving-take :
          (b : ℕ) → times b s.leaving ≡ (if b == c then 1 else 0) + times b (before ++ after)
      leaving-take b = rw e (times-take b before after c)

  Step-SlotsOwned : (s t : Slots) → Step m s t → SlotsOwned s → SlotsOwned t
  Step-SlotsOwned s _ (reserves count _) h = reserve-SlotsOwned count s h
  Step-SlotsOwned s _ (undoes before after r _ e) h = undo-SlotsOwned before after r s e h
  Step-SlotsOwned s _ (commits before after r _ e) h = commit-SlotsOwned before after r s e h
  Step-SlotsOwned s _ (frees before after r _ e) h = free-SlotsOwned before after r s e h
  Step-SlotsOwned s _ (clears before after c _ e) h = clear_slot-SlotsOwned before after c s e h

  -- However the callers of `a1625_msi_alloc` and `a1625_msi_free` interleave, and whatever the parent
  -- answers, a slot that is marked as used is had by exactly one of them, and a slot that is not
  -- marked by none; and every allocation lies inside the 8 slots. The bitmap functions do what they
  -- are documented to do.
  pub Reachable-SlotsOwned : (s : Slots) → Reachable m s → SlotsOwned s
  Reachable-SlotsOwned _ at_first = record { one_owner = λ b. refl; flying_fit = tt; live_fit = tt }
  Reachable-SlotsOwned t (then_step s _ before step) =
      Step-SlotsOwned s t step (Reachable-SlotsOwned s before)

  -- When no call is under way and nothing is allocated, no slot is marked as used.
  pub Reachable-idle :
      (s : Slots)
      → Reachable m s
      → s.flying ≡ []
      → s.live ≡ []
      → s.leaving ≡ []
      → (b : ℕ) → s.used b ≡ false
  Reachable-idle s reached flying live leaving b =
      let one = (Reachable-SlotsOwned s reached).one_owner b in
      let nobody : owners b s ≡ 0 = rw (flying, live, leaving) refl in ground arith

-- An interrupt of the allocation has a message from 8 to 15 and a line of the parent from 232 to
-- 239, at the same offset; its EOI is counted at its slot, and nowhere else.
abbrev pub Routed : Region → Type 0
Routed r =
    (i : ℕ) (d : ℕ → ℕ)
    → i < 2 ^ r.order
    → (8 ≤ hwirq r i)
      × (hwirq r i < 16)
      × (parent_param r + i < 240)
      × (hwirq r i + 224 ≡ parent_param r + i)
      × (eoi (hwirq r i) d (r.slot + i) ≡ d (r.slot + i) + 1)
      × ((j : ℕ) → j ≢ r.slot + i → eoi (hwirq r i) d j ≡ d j)

Fits-Routed : (r : Region) → Fits r → Routed r
unfolding hwirq parent_param eoi
Fits-Routed r h i d low =
    (omega arith, omega arith, omega arith, omega arith, ground arith, λ j other. ground arith)

All-Routed : (rs : List Region) → All Fits rs → All Routed rs
All-Routed [] h = tt
All-Routed (r ∷ rs) h = (Fits-Routed r h.0, All-Routed rs h.1)

-- After any interleaving of the calls, each interrupt of each allocation has a message from 8 to 15
-- and a line of the parent from 232 to 239, at the same offset, and its EOI is counted in the
-- counter of its own slot only. The bitmap functions do what they are documented to do.
pub Reachable-Routed : (m : Bitmap) → BitmapLaws m → (s : Slots) → Reachable m s → All Routed s.live
Reachable-Routed m laws s reached =
    All-Routed s.live (Reachable-SlotsOwned m laws s reached).live_fit
