-- ===== src/PciScan/Core/Held.antt =====
-- The accesses of the PCI core, as leases.
use a1625_linux_winboot.Prelude.{
  ℕ, ◌+◌, ◌<◌, ◌≤◌, ◌≡◌, refl, true, ℤ, pos, negsuc, List, [], ◌∷◌, All, arith,
}
use a1625_linux_winboot.Kernel.{
  Ensures, bind, resume, ConfigRequest, config_read, config_write, CoreCall,
}
use a1625_linux_winboot.Kernel.Leases.{Lease, Leases, mapped}
use a1625_linux_winboot.PciScan.Controls.{Scan}
use a1625_linux_winboot.PciScan.Controls.Spared.{ControlApart}
use a1625_linux_winboot.PciScan.Access.{scan_read, scan_write}
use a1625_linux_winboot.PciScan.Access.Mastering.{verdict-Inside}
use a1625_linux_winboot.PciScan.Core.{serve, core_call}

-- Both configuration spaces lie inside mappings that are held.
abbrev pub ConfigMapped : (rc ep : ℕ) → List Lease → Type 0
ConfigMapped rc ep s = (a : ℕ) → a < 4096 → (mapped (rc + a) s ≡ true) × (mapped (ep + a) s ≡ true)

-- A scan of these two spaces, whose controls and MSI capability are as `save_controls` leaves them.
pub record Sound (rc ep : ℕ) (scan : Scan) : Type 0 where
  pub at_rc : scan.rc ≡ rc
  pub at_ep : scan.ep ≡ ep
  pub apart : All ControlApart scan.controls
  pub cap_low : scan.msi_cap ≤ 0xfc

module _ (rc ep : ℕ) (s : List Lease) (on : ConfigMapped rc ep s) where
  scan_read-Same :
      (scan : Scan) (bus devfn : ℕ) (place : ℤ) (size : ℕ)
      → Sound rc ep scan
      → Ensures Leases (scan_read scan bus devfn place size) (λ _ t. t ≡ s) s
  unfolding scan_read
  scan_read-Same scan bus devfn (negsuc e) size h = ground arith
  scan_read-Same scan bus devfn (pos place) size h =
      let a = h.at_rc in let b = h.at_ep in let c = on place in ground arith

  scan_write-Sound :
      (scan : Scan) (bus devfn : ℕ) (place : ℤ) (size value : ℕ)
      → Sound rc ep scan
      → Ensures Leases
          (scan_write scan bus devfn place size value)
          (λ r t. (t ≡ s) × Sound rc ep r.1)
          s
  unfolding scan_write
  scan_write-Sound scan bus devfn (negsuc e) size value h =
      let a = h.at_rc in let b = h.at_ep in let c = h.apart in ground arith
  scan_write-Sound scan bus devfn (pos place) size value h =
      let a = h.at_rc in
      let b = h.at_ep in
      let c = h.apart in
      let d = on place in ground (arith, verdict-Inside scan bus place size value h.apart)

  pub serve-Sound :
      (requests : List ConfigRequest) (scan : Scan)
      → Sound rc ep scan
      → Ensures Leases (serve scan requests) (λ sc t. (t ≡ s) × Sound rc ep sc) s
  unfolding serve
  serve-Sound [] scan h = (refl, h)
  serve-Sound (config_read bus devfn place size ∷ rest) scan h =
      resume Leases (λ sc t. (t ≡ s) × Sound rc ep sc) (scan_read scan bus devfn place size) _ s
        (scan_read-Same scan bus devfn place size h) (λ _. serve-Sound rest scan h)
  serve-Sound (config_write bus devfn place size value ∷ rest) scan h =
      bind Leases (λ r t. (t ≡ s) × Sound rc ep r.1) (λ sc t. (t ≡ s) × Sound rc ep sc)
        (scan_write scan bus devfn place size value) _ s
        (scan_write-Sound scan bus devfn place size value h)
        λ (r, sc) t k. rw k.0 (serve-Sound rest sc k.1)

  pub core_call-Sound :
      (c : CoreCall) (handle : ℕ) (scan : Scan)
      → Sound rc ep scan
      → Ensures Leases (core_call c handle scan) (λ r t. (t ≡ s) × Sound rc ep r.1) s
  unfolding core_call
  core_call-Sound c handle scan h = (
    tt,
    λ q _.
        bind Leases (λ sc t. (t ≡ s) × Sound rc ep sc) (λ r t. (t ≡ s) × Sound rc ep r.1)
          (serve scan q.1) _ s (serve-Sound q.1 scan h) (λ sc t k. k),
  )
