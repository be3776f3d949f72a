-- ===== src/HostCompat.antt =====
-- windows-native/kbuild-host-compat.h: the replacement of `strchrnul` for hosts whose C library has none: `kbuild_strchrnul`.
use a1625_linux_winboot.Prelude.{
  ℕ, zero, suc, ◌%◌, ◌^◌, ◌≤◌, ◌<◌, ◌≡◌, ◌≢◌, ◌⊎◌, inl, refl, Bool, true, false, not, ◌&&◌, ◌==◌,
  if◌then◌else◌, List, [], ◌∷◌, length, arith,
}

-- A string is the list of its bytes, with a NUL behind them; `(char)character` is one byte.
unfoldable pub strchrnul : (text : List ℕ) (character : ℕ) → ℕ
strchrnul [] character = 0
strchrnul (c ∷ text) character =
    let rest = strchrnul text character in
    if not (c == 0) && not (c == character % 2 ^ 8) then suc rest else 0

-- The byte at a place; behind the last one the terminator.
abbrev pub byte_at : List ℕ → ℕ → ℕ
byte_at [] i = 0
byte_at (c ∷ text) zero = c
byte_at (c ∷ text) (suc i) = byte_at text i

-- Place `n` is the first of a byte `b` or of the terminator.
pub record IsFirst (text : List ℕ) (b n : ℕ) : Type 0 where
  pub inside : n ≤ length text
  pub found : (byte_at text n ≡ 0) ⊎ (byte_at text n ≡ b)
  pub before : (i : ℕ) → i < n → (byte_at text i ≢ 0) × (byte_at text i ≢ b)

IsFirst-later :
    (c b : ℕ) (text : List ℕ) (n : ℕ)
    → c ≢ 0
    → c ≢ b
    → IsFirst text b n
    → IsFirst (c ∷ text) b (suc n)
IsFirst-later c b text n not_end other h = record {
  inside = omega (arith, h.inside);
  found = h.found;
  before = λ i low. earlier i low;
}
  where
    earlier : (i : ℕ) → i < suc n → (byte_at (c ∷ text) i ≢ 0) × (byte_at (c ∷ text) i ≢ b)
    earlier zero low = (not_end, other)
    earlier (suc i) low = h.before i (omega arith)

-- `strchrnul` finds the first place of the character, or of the terminator: it lies in the string or
-- at its end, one of the two stands there, and neither stands before it.
pub strchrnul-IsFirst :
    (text : List ℕ) (character : ℕ) → IsFirst text (character % 2 ^ 8) (strchrnul text character)
unfolding strchrnul
strchrnul-IsFirst [] character = record {
  inside = omega arith;
  found = inl refl;
  before = λ i low. ground arith;
}
strchrnul-IsFirst (c ∷ text) character =
    by_flag (not (c == 0) && not (c == character % 2 ^ 8)) refl (strchrnul-IsFirst text character)
  where
    by_flag :
        (on : Bool)
        → (not (c == 0) && not (c == character % 2 ^ 8)) ≡ on
        → IsFirst text (character % 2 ^ 8) (strchrnul text character)
        → IsFirst (c ∷ text) (character % 2 ^ 8) (if on then suc (strchrnul text character) else 0)
    by_flag true e h =
        IsFirst-later c (character % 2 ^ 8) text (strchrnul text character) (ground arith)
          (ground arith) h
    by_flag false e h = record {
      inside = omega arith;
      found = ground arith;
      before = λ i low. ground arith;
    }
