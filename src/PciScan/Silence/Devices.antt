-- ===== src/PciScan/Silence/Devices.antt =====
-- The accesses of the PCI core and the callback of the walk, with no driver bound.
use a1625_linux_winboot.Prelude.{
  ℕ, ◌+◌, ◌≤◌, ◌⊎◌, refl, Bool, true, false, not, ◌&&◌, ◌||◌, ◌==◌, if◌then◌else◌, ℤ, pos, negsuc,
  nonzero, negative, Option, none, some, List, [], ◌∷◌, bit_and, arith,
}
use a1625_linux_winboot.Kernel.{
  Prog, ret, ◌>>=◌, Ensures, bind, branch, mono, readl, ConfigRequest, config_read, config_write,
  CoreCall, PciDev,
}
use a1625_linux_winboot.PciScan.Controls.{Scan, is_some}
use a1625_linux_winboot.PciScan.Access.{scan_read, scan_write}
use a1625_linux_winboot.PciScan.Access.Mastering.{Unmastered, IsQuiet, scan_write-Quiet}
use a1625_linux_winboot.PciScan.Core.{serve, core_call}
use a1625_linux_winboot.PciScan.Identify.{
  dart_regs, rejected_if, is_slot_8, is_enabled, msi_flags_qsize, irq_data, msi_programmed,
  with_vector, endpoint_msi, is_radio, bad_bar, counted, check_command, any_reserved, check_iommu,
  check_radio, identify, walk,
}
use a1625_linux_winboot.Kernel.ReadOnly.{ReadOnly}
use a1625_linux_winboot.PciScan.Silence.Reading.{Reads, unmastered}

scan_read-Reads :
    (scan : Scan) (bus devfn : ℕ) (place : ℤ) (size : ℕ)
    → Reads (scan_read scan bus devfn place size)
unfolding scan_read
scan_read-Reads scan bus devfn (negsuc e) size = ground arith
scan_read-Reads scan bus devfn (pos place) size = ground arith

msi_programmed-Reads : (scan : Scan) → Reads (msi_programmed scan)
unfolding msi_programmed
msi_programmed-Reads scan = ground arith

module _ (rc ep : ℕ) (disjoint : (rc + 4096 ≤ ep) ⊎ (ep + 4096 ≤ rc)) where
  abbrev Good : ℤ × Scan → Unit {0} → Type 0
  Good r t = IsQuiet rc ep r.1

  abbrev GoodScan : Scan → Unit {0} → Type 0
  GoodScan s t = IsQuiet rc ep s

  -- What only reads may come before.
  pub reading :
      {A : Type 0} {B : Type 0} (Q : B → Unit {0} → Type 0) (m : Prog A) (f : A → Prog B)
      → Reads m
      → ((a : A) → Ensures (Unmastered rc ep) (f a) Q tt)
      → Ensures (Unmastered rc ep) (m >>= f) Q tt
  reading Q m f h rest =
      bind (Unmastered rc ep) (λ _ _. Unit {0}) Q m f tt (unmastered rc ep (λ _. Unit {0}) m h)
        (λ a _ _. rest a)

  serve-Quiet :
      (requests : List ConfigRequest) (scan : Scan)
      → IsQuiet rc ep scan
      → Ensures (Unmastered rc ep) (serve scan requests) GoodScan tt
  unfolding serve
  serve-Quiet [] scan q = q
  serve-Quiet (config_read bus devfn place size ∷ rest) scan q =
      reading GoodScan (scan_read scan bus devfn place size) _
        (scan_read-Reads scan bus devfn place size) (λ _. serve-Quiet rest scan q)
  serve-Quiet (config_write bus devfn place size value ∷ rest) scan q =
      bind (Unmastered rc ep) Good GoodScan (scan_write scan bus devfn place size value) _ tt
        (mono (Unmastered rc ep) _ Good (scan_write scan bus devfn place size value) tt
          (scan_write-Quiet rc ep disjoint scan bus devfn place size value q) (λ r _ k. k.0))
        (λ (r, s) _ k. serve-Quiet rest s k)

  pub core_call-Quiet :
      (c : CoreCall) (handle : ℕ) (scan : Scan)
      → IsQuiet rc ep scan
      → Ensures (Unmastered rc ep) (core_call c handle scan) Good tt
  unfolding core_call
  core_call-Quiet c handle scan q = (
    (tt, tt),
    λ a _.
        bind (Unmastered rc ep) GoodScan Good (serve scan a.1) _ tt (serve-Quiet a.1 scan q)
          (λ s _ k. k),
  )

  IsQuiet-rejected :
      (b : Bool) (scan : Scan) → IsQuiet rc ep scan → IsQuiet rc ep (rejected_if b scan)
  IsQuiet-rejected b scan q = record {
    at_rc = q.at_rc;
    at_ep = q.at_ep;
    inactive = q.inactive;
    apart = q.apart;
  }

  IsQuiet-marked :
      (scan : Scan) → IsQuiet rc ep scan → IsQuiet rc ep (record scan { rejected = true })
  IsQuiet-marked scan q = record {
    at_rc = q.at_rc;
    at_ep = q.at_ep;
    inactive = q.inactive;
    apart = q.apart;
  }

  irq_data-Reads : (domain : Option ℕ) (irq : ℤ) → Reads (irq_data domain irq)
  unfolding irq_data
  irq_data-Reads none irq = tt
  irq_data-Reads (some d) (pos i) = (refl, λ _ _. tt)
  irq_data-Reads (some d) (negsuc e) = tt

  with_vector-Quiet :
      (dev : ℕ) (scan : Scan)
      → IsQuiet rc ep scan
      → Ensures (Unmastered rc ep) (with_vector dev scan) Good tt
  unfolding with_vector
  with_vector-Quiet dev scan q = (
    (tt, tt),
    λ irq _.
        reading Good (irq_data scan.msi_domain irq) _ (irq_data-Reads scan.msi_domain irq) λ found.
          (
            (tt, tt),
            λ flags _.
                reading Good
                  (if is_slot_8 found && is_enabled flags && (bit_and flags msi_flags_qsize == 0)
                    then msi_programmed scan
                    else ret false)
                  _
                  (branch ReadOnly (λ _ _. Unit {0})
                    (is_slot_8 found && is_enabled flags && (bit_and flags msi_flags_qsize == 0)) _
                    _ tt (λ _. msi_programmed-Reads scan) (λ _. tt))
                  λ good. (
                    (tt, tt),
                    λ requests _.
                        bind (Unmastered rc ep) GoodScan Good (serve scan requests) _ tt
                          (serve-Quiet requests scan q) (λ s _ k. ((tt, tt), λ _ _. k)),
                  ),
          ),
  )

  endpoint_msi-Quiet :
      (dev : ℕ) (scan : Scan)
      → IsQuiet rc ep scan
      → Ensures (Unmastered rc ep) (endpoint_msi dev scan) Good tt
  unfolding endpoint_msi
  endpoint_msi-Quiet dev scan q = (
    (tt, tt),
    λ a _.
        bind (Unmastered rc ep) GoodScan Good (serve scan a.1) _ tt (serve-Quiet a.1 scan q)
          λ s _ k.
            branch (Unmastered rc ep) Good (negative a.0) _ _ tt (λ _. k)
              (λ _. with_vector-Quiet dev s k),
  )

  check_command-Quiet :
      (d : PciDev) (scan : Scan)
      → IsQuiet rc ep scan
      → Ensures (Unmastered rc ep) (check_command d scan) GoodScan tt
  unfolding check_command
  check_command-Quiet d scan q = (
    (tt, tt),
    λ driver _.
        branch (Unmastered rc ep) GoodScan driver _ _ tt (λ _. IsQuiet-marked scan q)
          λ _. ((tt, tt), λ command _. IsQuiet-rejected _ scan q),
  )

  check_iommu-Quiet :
      (d : PciDev) (scan : Scan)
      → IsQuiet rc ep scan
      → Ensures (Unmastered rc ep) (check_iommu d scan) Good tt
  unfolding check_iommu
  check_iommu-Quiet d scan q = (
    (tt, tt),
    λ found _.
        branch (Unmastered rc ep) Good
          (not (elim found [ none ↦ false | some domain ↦ domain.is_dma ])) _ _ tt
          (λ _. IsQuiet-marked scan q)
          λ _. (
            (tt, tt),
            λ regions _. (
              (tt, tt),
              λ ok _.
                  branch (Unmastered rc ep) Good (not ok) _ _ tt (λ _. IsQuiet-marked scan q)
                    λ _.
                      reading Good
                        (if not (any_reserved regions)
                          then ret true
                          else do enabled ← readl (dart_regs + 0xc); ret (not (enabled == 0x80)))
                        _
                        (branch ReadOnly (λ _ _. Unit {0}) (not (any_reserved regions)) _ _ tt
                          (λ _. tt) (λ _. (refl, λ _ _. tt)))
                        (λ bad. ((tt, tt), λ _ _. IsQuiet-rejected bad scan q)),
            ),
          ),
  )

  check_radio-Quiet :
      (d : PciDev) (scan : Scan)
      → IsQuiet rc ep scan
      → Ensures (Unmastered rc ep) (check_radio d scan) GoodScan tt
  unfolding check_radio
  check_radio-Quiet d scan q =
      bind (Unmastered rc ep) GoodScan GoodScan _ _ tt
        (branch (Unmastered rc ep) GoodScan
          (is_radio d && is_some scan.msi_domain && not scan.bind_firmware && not scan.rejected) _ _
          tt
          (λ _.
            bind (Unmastered rc ep) Good GoodScan (endpoint_msi d.dev scan) _ tt
              (endpoint_msi-Quiet d.dev scan q) (λ (r, s) _ k. IsQuiet-rejected (nonzero r) s k))
          (λ _. q))
        (λ s _ k. assigned (is_radio d && s.assign_memory) s k)
    where
      assigned :
          (b : Bool) (s : Scan)
          → IsQuiet rc ep s
          → IsQuiet rc ep
              (if b then rejected_if (bad_bar d.bar0 0x8000 || bad_bar d.bar2 0x40_0000) s else s)
      assigned true s k = IsQuiet-rejected _ s k
      assigned false s k = k

  identify-Quiet :
      (d : PciDev) (scan : Scan)
      → IsQuiet rc ep scan
      → Ensures (Unmastered rc ep) (identify d scan) Good tt
  unfolding identify
  identify-Quiet d scan q =
      bind (Unmastered rc ep) GoodScan Good (check_command d (counted d scan)) _ tt
        (check_command-Quiet d (counted d scan)
          (record { at_rc = q.at_rc; at_ep = q.at_ep; inactive = q.inactive; apart = q.apart }))
        λ s _ k.
          bind (Unmastered rc ep) Good Good
            (if is_radio d && s.require_iommu then check_iommu d s else ret (pos 0, s)) _ tt
            (branch (Unmastered rc ep) Good (is_radio d && s.require_iommu) _ _ tt
              (λ _. check_iommu-Quiet d s k) (λ _. k))
            λ (r, s) _ k.
              branch (Unmastered rc ep) Good (nonzero r) _ _ tt (λ _. k)
                λ _.
                  bind (Unmastered rc ep) GoodScan Good (check_radio d s) _ tt
                    (check_radio-Quiet d s k) (λ s _ k. k)

  pub walk-Quiet :
      (ds : List PciDev) (scan : Scan)
      → IsQuiet rc ep scan
      → Ensures (Unmastered rc ep) (walk ds scan) GoodScan tt
  unfolding walk
  walk-Quiet [] scan q = q
  walk-Quiet (d ∷ ds) scan q =
      bind (Unmastered rc ep) Good GoodScan (identify d scan) _ tt (identify-Quiet d scan q)
        λ (r, s) _ k.
          branch (Unmastered rc ep) GoodScan (nonzero r) _ _ tt (λ _. k) (λ _. walk-Quiet ds s k)
