-- ===== src/Prelude/Bits.antt =====
-- Words: the value that an absent device reads as, the complement of a mask, and the law by
-- which a field that was overwritten under a mask is put back.
mod Digit
use Prim.Native.Nat.{min, max}
use Prim.Native.Nat.{ℕ, zero, suc, ◌+◌, ◌-◌, ◌*◌, ◌/◌, ◌%◌, ◌^◌, ◌≤◌, ◌<◌, bit_and, bit_or}
use mathlib.Core.Path.{◌≡◌, refl}
use native.Mathlib.Nat.{pow-suc}
use native.Mathlib.Omega.{arith}
use Digit.{and_digit, or_digit}

-- `~0U`: what an absent or unpowered device reads as.
abbrev pub all_ones : ℕ
all_ones = 0xffff_ffff

-- `~m` of a 32-bit word.
abbrev pub not32 : ℕ → ℕ
not32 m = all_ones - m

-- `(v & ~m) | b`: the field under the mask `m` of the word `v` replaced by `b`.
abbrev pub replace : (v m b : ℕ) → ℕ
replace v m b = bit_or (bit_and v (not32 m)) b

bit_and_half : (a b : ℕ) → bit_and a b / 2 ≡ bit_and (a / 2) (b / 2)
bit_and_half a b = omega (arith, and_digit a b)

bit_and_parity : (a b : ℕ) → bit_and a b % 2 ≡ min (a % 2) (b % 2)
bit_and_parity a b = omega (arith, and_digit a b)

bit_or_half : (a b : ℕ) → bit_or a b / 2 ≡ bit_or (a / 2) (b / 2)
bit_or_half a b = omega (arith, or_digit a b)

bit_or_parity : (a b : ℕ) → bit_or a b % 2 ≡ max (a % 2) (b % 2)
bit_or_parity a b = omega (arith, or_digit a b)

bit_and-zero_bounded : (k a : ℕ) → a ≤ k → bit_and a 0 ≡ 0
bit_and-zero_bounded zero a h = omega (arith, and_digit a 0, zero_left (a / 2))
  where
    zero_left : (c : ℕ) → c ≡ 0 → bit_and c 0 ≡ 0
    zero_left c e = rw e refl
bit_and-zero_bounded (suc k) zero h = refl
bit_and-zero_bounded (suc k) (suc a) h =
    omega (arith, and_digit (suc a) 0, bit_and-zero_bounded k (suc a / 2) (omega arith))

pub bit_and-zero : (a : ℕ) → bit_and a 0 ≡ 0
bit_and-zero a = bit_and-zero_bounded a a (omega arith)

-- `n` is the complement of `m` in `k` bits.
abbrev restored : (v m n b : ℕ) → ℕ
restored v m n b = bit_or (bit_and (bit_or (bit_and v n) b) n) (bit_and v m)

restored_half : (v m n b : ℕ) → restored v m n b / 2 ≡ restored (v / 2) (m / 2) (n / 2) (b / 2)
restored_half v m n b = rw (bit_or_half, bit_and_half, bit_or_half, bit_and_half, bit_and_half) refl

restored_parity : (v m n b : ℕ) → m % 2 + n % 2 ≡ 1 → bit_and b n ≡ 0 → restored v m n b % 2 ≡ v % 2
restored_parity v m n b h disjoint = omega (
  arith,
  bit_or_parity (bit_and (bit_or (bit_and v n) b) n) (bit_and v m),
  bit_and_parity (bit_or (bit_and v n) b) n,
  bit_or_parity (bit_and v n) b,
  bit_and_parity v n,
  bit_and_parity v m,
  bit_and_parity b n,
)

restored_width :
    (k v m n b : ℕ) → v < 2 ^ k → m + n + 1 ≡ 2 ^ k → bit_and b n ≡ 0 → restored v m n b ≡ v
restored_width zero v m n b fits whole disjoint =
    let none_v : v ≡ 0 = omega arith in
    let none_m : m ≡ 0 = omega arith in
    let none_n : n ≡ 0 = omega arith in rw (none_v, none_m, none_n) (rw bit_and-zero refl)
restored_width (suc k) v m n b fits whole disjoint = omega (
  arith,
  pow-suc 2 k,
  restored_half v m n b,
  restored_parity v m n b (omega (arith, pow-suc 2 k)) disjoint,
  restored_width k (v / 2) (m / 2) (n / 2) (b / 2) (omega (arith, pow-suc 2 k))
      (omega (arith, pow-suc 2 k)) (omega (arith, bit_and_half b n)),
)

-- Writing a field and then its saved value back gives the word that was there before.
pub replace-replace :
    (v m b : ℕ)
    → v < 2 ^ 32
    → m < 2 ^ 32
    → bit_and b (not32 m) ≡ 0
    → replace (replace v m b) m (bit_and v m) ≡ v
replace-replace v m b v_fits m_fits disjoint =
    restored_width 32 v m (not32 m) b v_fits (omega arith) disjoint
