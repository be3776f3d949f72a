-- ===== src/PciScan/Caps.antt =====
-- The walks along the capability lists. `none` stands for no result: they return a position or a
-- negative code.
pub mod Range
pub mod Walk
use a1625_linux_winboot.Prelude.{
  ℕ, zero, suc, ◌+◌, ◌/◌, ◌^◌, Bool, not, ◌||◌, ◌==◌, ltb, if◌then◌else◌, ℤ, pos, neg, enoent,
  einval, bit_and,
}
use a1625_linux_winboot.Prelude.Bits.{all_ones}
use a1625_linux_winboot.Kernel.{Prog, ret, ◌>>=◌, readb, readl}
use a1625_linux_winboot.PciScan.Regs.{capability_list}

-- `pos < 0x40 || pos > 0xfc || (pos & 3)`
abbrev pub bad_position : ℕ → Bool
bad_position p = ltb p 0x40 || ltb 0xfc p || not (bit_and p 3 == 0)

-- The loop with `n` rounds left.
unfoldable pub cap_walk : (cfg id n position : ℕ) → Prog ℤ
cap_walk cfg id zero position = ret (neg enoent)
cap_walk cfg id (suc n) position =
    if position == 0
    then ret (neg enoent)
    else if bad_position position
    then ret (neg einval)
    else do
      found ← readb (cfg + position)
      if found == id
          then ret (pos position)
          else do next ← readb (cfg + position + 1); cap_walk cfg id n next

unfoldable pub scan_cap : (cfg id : ℕ) → Prog ℤ
scan_cap cfg id = do first ← readb (cfg + capability_list); cap_walk cfg id 48 first

-- `pos < 0x100 || pos > 0xffc || (pos & 3)`
abbrev pub bad_ext_position : ℕ → Bool
bad_ext_position p = ltb p 0x100 || ltb 0xffc p || not (bit_and p 3 == 0)

-- `PCI_EXT_CAP_ID` and `PCI_EXT_CAP_NEXT` of a header.
abbrev pub ext_cap_id : ℕ → ℕ
ext_cap_id header = bit_and header 0xffff

abbrev pub ext_cap_next : ℕ → ℕ
ext_cap_next header = bit_and (header / 2 ^ 20) 0xffc

unfoldable pub extcap_walk : (cfg id n position : ℕ) → Prog ℤ
extcap_walk cfg id zero position = ret (neg enoent)
extcap_walk cfg id (suc n) position =
    if position == 0
    then ret (neg enoent)
    else if bad_ext_position position
    then ret (neg einval)
    else do
      header ← readl (cfg + position)
      if (header == 0) || (header == all_ones)
          then ret (neg enoent)
          else if ext_cap_id header == id
          then ret (pos position)
          else extcap_walk cfg id n (ext_cap_next header)

unfoldable pub scan_extcap : (cfg id : ℕ) → Prog ℤ
scan_extcap cfg id = extcap_walk cfg id 256 0x100
