-- ===== src/Examples/Slots.antt =====
-- The allocator of windows-native/wifi/pmu-probe/a1625_msi.h over a first-fit bitmap.
use mathlib.Core.Path.{subst, ap}
use a1625_linux_winboot.Prelude.{
  ℕ, zero, suc, ◌+◌, ◌-◌, bit_and, ◌≢◌, ◌^◌, ◌≤◌, ◌≡◌, refl, sym, ◌∙◌, Bool, true, false, not, ◌&&◌,
  ◌||◌, ◌==◌, leb, if◌then◌else◌, Option, none, some, [], All, arith,
}
use a1625_linux_winboot.Msi.Slots.{
  Bits, inside, Bitmap, BitmapLaws, Slots, no_slots, reserve, commit, Reachable, at_first,
  then_step, reserves, commits, bad_count, Steps,
}
use a1625_linux_winboot.Msi.Slots.Drains.{AllFree, Reachable-Drains}
use a1625_linux_winboot.Msi.Slots.Owners.{
  SlotsOwned, Routed, Reachable-SlotsOwned, Reachable-Routed,
}

abbrev free_at : Bits → (slot n : ℕ) → Bool
free_at used slot zero = true
free_at used slot (suc n) = not (used slot) && free_at used (slot + 1) n

free_at-free :
    (used : Bits) (slot n b : ℕ)
    → free_at used slot n ≡ true
    → inside slot n b ≡ true
    → used b ≡ false
free_at-free used slot zero b h i = ground arith
free_at-free used slot (suc n) b h i =
    let later = free_at-free used (slot + 1) n b in by_flag (b == slot) refl later
  where
    by_flag :
        (same : Bool)
        → (b == slot) ≡ same
        → (free_at used (slot + 1) n ≡ true → inside (slot + 1) n b ≡ true → used b ≡ false)
        → used b ≡ false
    by_flag true e later =
        let at : slot ≡ b = ground arith in subst (λ x. used x ≡ false) at (ground arith)
    by_flag false e later = ground arith

-- The aligned regions from `slot` on, of which `k` are left.
abbrev search : Bits → (bits n slot k : ℕ) → Option ℕ
search used bits n slot zero = none
search used bits n slot (suc k) =
    if leb (slot + n) bits && free_at used slot n
    then some slot
    else search used bits n (slot + n) k

abbrev found : Bits → ℕ → Option ℕ → Option (ℕ × Bits)
found used order none = none
found used order (some slot) = some (slot, λ b. inside slot (2 ^ order) b || used b)

abbrev power_of_2 : ℕ → Bool
power_of_2 n = not (n == 0) && (bit_and n (n - 1) == 0)

abbrev order_to_8 : ℕ → ℕ
order_to_8 n = if leb n 1 then 0 else if leb n 2 then 1 else if leb n 4 then 2 else 3

abbrev first_fit : Bitmap
first_fit = record {
  find_free_region = λ used bits order. found used order (search used bits (2 ^ order) 0 bits);
  release_region = λ used slot order b. not (inside slot (2 ^ order) b) && used b;
  clear_bit = λ c used b. not (b == c) && used b;
  is_power_of_2 = power_of_2;
  order_base_2 = order_to_8;
}

search-free :
    (used : Bits) (bits n slot k s : ℕ)
    → search used bits n slot k ≡ some s
    → (s + n ≤ bits) × (free_at used s n ≡ true)
search-free used bits n slot zero s h = ground arith
search-free used bits n slot (suc k) s h =
    by_flag (leb (slot + n) bits && free_at used slot n) refl h
      (search-free used bits n (slot + n) k s)
  where
    by_flag :
        (here : Bool)
        → (leb (slot + n) bits && free_at used slot n) ≡ here
        → (if here then some slot else search used bits n (slot + n) k) ≡ some s
        → (search used bits n (slot + n) k ≡ some s → (s + n ≤ bits) × (free_at used s n ≡ true))
        → (s + n ≤ bits) × (free_at used s n ≡ true)
    by_flag true e h later =
        let same : slot ≡ s = ground arith in
        subst (λ x. (x + n ≤ bits) × (free_at used x n ≡ true)) same (ground arith)
    by_flag false e h later = later h

abbrev slot_or : ℕ → Option (ℕ × Bits) → ℕ
slot_or d none = d
slot_or d (some (slot, after)) = slot

abbrev bits_or : Bits → Option (ℕ × Bits) → Bits
bits_or d none = d
bits_or d (some (slot, after)) = after

abbrev is_found : Option (ℕ × Bits) → Bool
is_found none = false
is_found (some r) = true

-- What was found is what the search found.
found-search :
    (used : Bits) (order : ℕ) (o : Option ℕ) (slot : ℕ) (after : Bits)
    → found used order o ≡ some (slot, after)
    → (o ≡ some slot) × ((b : ℕ) → after b ≡ (inside slot (2 ^ order) b || used b))
found-search used order none slot after h = let never : false ≡ true = ap is_found h in cc
found-search used order (some s) slot after h =
    let same : s ≡ slot = ap (slot_or 0) h in
    let bits : (λ b. inside s (2 ^ order) b || used b) ≡ after = ap (bits_or used) h in
    (
      ap some same,
      λ b.
          let at : (inside s (2 ^ order) b || used b) ≡ after b = ap (λ f. f b) bits in
          let swap : inside s (2 ^ order) b ≡ inside slot (2 ^ order) b =
            ap (λ x. inside x (2 ^ order) b) same in
          sym at ∙ ap (λ x. x || used b) swap,
    )

order_to_8-exact : (n : ℕ) → n ≢ 0 → n ≤ 8 → power_of_2 n ≡ true → 2 ^ order_to_8 n ≡ n
order_to_8-exact zero ne le h = absurd (ne refl)
order_to_8-exact (suc zero) ne le h = refl
order_to_8-exact (suc (suc zero)) ne le h = refl
order_to_8-exact (suc (suc (suc zero))) ne le h = cc
order_to_8-exact (suc (suc (suc (suc zero)))) ne le h = refl
order_to_8-exact (suc (suc (suc (suc (suc zero))))) ne le h = cc
order_to_8-exact (suc (suc (suc (suc (suc (suc zero)))))) ne le h = cc
order_to_8-exact (suc (suc (suc (suc (suc (suc (suc zero))))))) ne le h = cc
order_to_8-exact (suc (suc (suc (suc (suc (suc (suc (suc zero)))))))) ne le h = refl
order_to_8-exact (suc (suc (suc (suc (suc (suc (suc (suc (suc n))))))))) ne le h = ground arith

first_fit-Laws : BitmapLaws first_fit
first_fit-Laws = record {
  in_range = λ used bits order slot after h.
      (search-free used bits (2 ^ order) 0 bits slot (found-search used order _ slot after h).0).0;
  was_free = λ used bits order slot after h b i.
      free_at-free used slot (2 ^ order) b
        (search-free used bits (2 ^ order) 0 bits slot (found-search used order _ slot after h).0).1
        i;
  is_set = λ used bits order slot after h. (found-search used order _ slot after h).1;
  released = λ used slot order b. refl;
  exact = order_to_8-exact;
  cleared = λ used c b. refl;
}

-- Four interrupts are allocated, and then two more, whose call has not come back from the parent.
abbrev two_calls : Slots
two_calls =
    (reserve first_fit 2
      (commit [] [] (record { slot = 0; order = 2; count = 4 }) (reserve first_fit 4 no_slots).1)).1

two_calls-reached : Reachable first_fit two_calls
unfolding reserve commit bad_count
two_calls-reached =
    then_step _ _
      (then_step _ _ (then_step _ _ at_first (reserves 4 no_slots))
        (commits [] [] (record { slot = 0; order = 2; count = 4 }) _ refl))
      (reserves 2 _)

Reachable-SlotsOwned_example : SlotsOwned two_calls
Reachable-SlotsOwned_example =
    Reachable-SlotsOwned first_fit first_fit-Laws two_calls two_calls-reached

Reachable-Routed_example : All Routed two_calls.live
Reachable-Routed_example = Reachable-Routed first_fit first_fit-Laws two_calls two_calls-reached

-- Two allocations are live or under way, and can be drained.
Reachable-Drains_example : (t : Slots) × Steps first_fit two_calls t × AllFree t
Reachable-Drains_example = Reachable-Drains first_fit first_fit-Laws two_calls two_calls-reached
