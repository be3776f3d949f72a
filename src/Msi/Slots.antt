-- ===== src/Msi/Slots.antt =====
-- windows-native/wifi/pmu-probe/a1625_msi.h: the allocator behind `irq_domain_ops`, with its chip's
-- EOI. The kernel's bitmap functions are an interface; the steps of any number of callers
-- interleave as the mutex lets them.
pub mod Owners
pub mod Drains
use a1625_linux_winboot.Prelude.{
  ℕ, zero, suc, ◌+◌, ◌-◌, ◌^◌, ◌≤◌, ◌≡◌, ◌≢◌, Bool, true, false, not, ◌&&◌, ◌||◌, ◌==◌, leb, ltb,
  if◌then◌else◌, ℤ, pos, neg, einval, enomem, Option, none, some, List, [], ◌∷◌, ◌++◌,
}

-- A bitmap, bit by bit.
abbrev pub Bits : Type 0
Bits = ℕ → Bool

-- Bit `b` is one of the `n` from `slot` on.
abbrev pub inside : (slot n b : ℕ) → Bool
inside slot n b = leb slot b && ltb b (slot + n)

-- The kernel's `bitmap_find_free_region`, which also sets the bits that it finds,
-- `bitmap_release_region` and `clear_bit`, with `is_power_of_2` and `order_base_2`, by which the
-- size of a region is told.
pub record Bitmap : Type 0 where
  pub find_free_region : Bits → (bits order : ℕ) → Option (ℕ × Bits)
  pub release_region : Bits → (slot order : ℕ) → Bits
  pub clear_bit : ℕ → Bits → Bits
  pub is_power_of_2 : ℕ → Bool
  pub order_base_2 : ℕ → ℕ

-- What they are documented to do.
pub record BitmapLaws (m : Bitmap) : Type 0 where
  pub in_range :
      (used : Bits) (bits order slot : ℕ) (after : Bits)
      → m.find_free_region used bits order ≡ some (slot, after)
      → slot + 2 ^ order ≤ bits
  pub was_free :
      (used : Bits) (bits order slot : ℕ) (after : Bits)
      → m.find_free_region used bits order ≡ some (slot, after)
      → (b : ℕ) → inside slot (2 ^ order) b ≡ true
      → used b ≡ false
  pub is_set :
      (used : Bits) (bits order slot : ℕ) (after : Bits)
      → m.find_free_region used bits order ≡ some (slot, after)
      → (b : ℕ) → after b ≡ (inside slot (2 ^ order) b || used b)
  pub released :
      (used : Bits) (slot order b : ℕ)
      → m.release_region used slot order b ≡ (not (inside slot (2 ^ order) b) && used b)
  pub exact : (n : ℕ) → n ≢ 0 → n ≤ 8 → m.is_power_of_2 n ≡ true → 2 ^ m.order_base_2 n ≡ n
  pub cleared : (used : Bits) (c b : ℕ) → m.clear_bit c used b ≡ (not (b == c) && used b)

-- One allocation: `count` interrupts, for which `2 ^ order` slots from `slot` on are reserved.
pub record Region : Type 0 where
  pub slot : ℕ
  pub order : ℕ
  pub count : ℕ

-- The lock's data, with the callers: those between the two locked sections of `a1625_msi_alloc`,
-- the allocations that it returned 0 for, and the slots that calls of `a1625_msi_free` still have
-- to clear.
pub record Slots : Type 0 where
  pub used : Bits
  pub flying : List Region
  pub live : List Region
  pub leaving : List ℕ

abbrev pub no_slots : Slots
no_slots = record { used = λ b. false; flying = []; live = []; leaving = [] }

-- The guard on `count`.
unfoldable pub bad_count : Bitmap → (count : ℕ) → Bool
bad_count m count = (count == 0) || ltb 8 count || not (m.is_power_of_2 count)

-- The first part of `a1625_msi_alloc`, up to the call of the parent: a code, and the state.
unfoldable pub reserve : Bitmap → (count : ℕ) → Slots → ℤ × Slots
reserve m count s =
    if bad_count m count
    then (neg einval, s)
    else elim (m.find_free_region s.used 8 (m.order_base_2 count)) [
      | none ↦ (neg enomem, s)
      | some (slot, after) ↦ (
        pos slot,
        record s {
          used = after;
          flying = record { slot = slot; order = m.order_base_2 count; count = count } ∷ s.flying;
        },
      )
    ]

-- The interrupt of the parent that the slot is asked for by, and that of the domain for the `i`-th
-- interrupt of the allocation.
unfoldable pub parent_param : Region → ℕ
parent_param r = 232 + r.slot

unfoldable pub hwirq : Region → (i : ℕ) → ℕ
hwirq r i = 8 + r.slot + i

-- The parent refused: the rest of `before` and `after` is what the other callers are at.
unfoldable pub undo : Bitmap → (before after : List Region) → Region → Slots → Slots
undo m before after r s = record s {
  used = m.release_region s.used r.slot r.order;
  flying = before ++ after;
}

unfoldable pub commit : (before after : List Region) → Region → Slots → Slots
commit before after r s = record s { flying = before ++ after; live = r ∷ s.live }

-- The bits `data->hwirq - 8` of the allocation, in the order in which they are cleared.
unfoldable pub bits_from : (slot n : ℕ) → List ℕ
bits_from slot zero = []
bits_from slot (suc n) = slot ∷ bits_from (slot + 1) n

-- `a1625_msi_free` begins.
unfoldable pub free : (before after : List Region) → Region → Slots → Slots
free before after r s = record s {
  live = before ++ after;
  leaving = bits_from r.slot r.count ++ s.leaving;
}

-- One round of its loop.
unfoldable pub clear_slot : Bitmap → (before after : List ℕ) → ℕ → Slots → Slots
clear_slot m before after b s = record s { used = m.clear_bit b s.used; leaving = before ++ after }

-- One step of one caller. An allocation is freed once, by who has it.
pub data Step (m : Bitmap) : Slots → Slots → Type 0 where
  reserves : (count : ℕ) (s : Slots) → Step m s (reserve m count s).1
  undoes :
      (before after : List Region) (r : Region) (s : Slots)
      → s.flying ≡ before ++ r ∷ after
      → Step m s (undo m before after r s)
  commits :
      (before after : List Region) (r : Region) (s : Slots)
      → s.flying ≡ before ++ r ∷ after
      → Step m s (commit before after r s)
  frees :
      (before after : List Region) (r : Region) (s : Slots)
      → s.live ≡ before ++ r ∷ after
      → Step m s (free before after r s)
  clears :
      (before after : List ℕ) (b : ℕ) (s : Slots)
      → s.leaving ≡ before ++ b ∷ after
      → Step m s (clear_slot m before after b s)

pub data Reachable (m : Bitmap) : Slots → Type 0 where
  at_first : Reachable m no_slots
  then_step : (s t : Slots) → Reachable m s → Step m s t → Reachable m t

-- Any number of steps.
pub data Steps (m : Bitmap) : Slots → Slots → Type 0 where
  stay : (s : Slots) → Steps m s s
  step_on : (s t u : Slots) → Step m s t → Steps m t u → Steps m s u

-- `a1625_msi_eoi`: the counters after it.
unfoldable pub eoi : (hwirq : ℕ) (delivered : ℕ → ℕ) → ℕ → ℕ
eoi hwirq delivered i =
    if leb 8 hwirq && ltb hwirq 16 && (i == hwirq - 8) then delivered i + 1 else delivered i
