-- ===== src/PciScan/Caps/Range.antt =====
-- Where the capability walks may end, on any hardware.
use a1625_linux_winboot.Prelude.{ℕ, zero, suc, ◌≤◌, ◌==◌, ◌||◌, ℤ, pos, negsuc, arith}
use a1625_linux_winboot.Prelude.Bits.{all_ones}
use a1625_linux_winboot.Kernel.{Ensures, branch}
use a1625_linux_winboot.Kernel.Anything.{Anything}
use a1625_linux_winboot.PciScan.Caps.{
  bad_position, bad_ext_position, ext_cap_id, cap_walk, scan_cap, extcap_walk, scan_extcap,
}

abbrev pub Between : (low high : ℕ) → ℤ → Type 0
Between low high (pos q) = (low ≤ q) × (q ≤ high)
Between low high (negsuc e) = Unit

module _ (cfg id : ℕ) where
  cap_walk-Between :
      (n p : ℕ) → Ensures Anything (cap_walk cfg id n p) (λ r _. Between 0x40 0xfc r) tt
  unfolding cap_walk
  cap_walk-Between zero p = tt
  cap_walk-Between (suc n) p =
      branch Anything (λ r _. Between 0x40 0xfc r) (p == 0) _ _ tt (λ _. tt)
        λ _.
          branch Anything (λ r _. Between 0x40 0xfc r) (bad_position p) _ _ tt (λ _. tt)
            λ good. (
              tt,
              λ found _.
                  branch Anything (λ r _. Between 0x40 0xfc r) (found == id) _ _ tt
                    (λ _. ground arith) (λ _. (tt, λ next _. cap_walk-Between n next)),
            )

  -- A position that `a1625_scan_cap` returns lies between 0x40 and 0xfc, whatever the device reads
  -- as.
  pub scan_cap-Between : Ensures Anything (scan_cap cfg id) (λ r _. Between 0x40 0xfc r) tt
  unfolding scan_cap
  scan_cap-Between = (tt, λ first _. cap_walk-Between 48 first)

  extcap_walk-Between :
      (n p : ℕ) → Ensures Anything (extcap_walk cfg id n p) (λ r _. Between 0x100 0xffc r) tt
  unfolding extcap_walk
  extcap_walk-Between zero p = tt
  extcap_walk-Between (suc n) p =
      branch Anything (λ r _. Between 0x100 0xffc r) (p == 0) _ _ tt (λ _. tt)
        λ _.
          branch Anything (λ r _. Between 0x100 0xffc r) (bad_ext_position p) _ _ tt (λ _. tt)
            λ good. (
              tt,
              λ header _.
                  branch Anything (λ r _. Between 0x100 0xffc r)
                    ((header == 0) || (header == all_ones)) _ _ tt (λ _. tt)
                    λ _.
                      branch Anything (λ r _. Between 0x100 0xffc r) (ext_cap_id header == id) _ _
                        tt (λ _. ground arith) (λ _. extcap_walk-Between n _),
            )

  pub scan_extcap-Between : Ensures Anything (scan_extcap cfg id) (λ r _. Between 0x100 0xffc r) tt
  unfolding scan_extcap
  scan_extcap-Between = extcap_walk-Between 256 0x100
