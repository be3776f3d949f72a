-- ===== src/PciScan/Identify.antt =====
-- `a1625_scan_identify`, the callback of `pci_walk_bus`, and `a1625_scan_endpoint_msi`.
pub mod Held
use a1625_linux_winboot.Prelude.{
  ◌%◌, ◌^◌, ℕ, ◌+◌, ◌-◌, Bool, true, false, not, ◌&&◌, ◌||◌, ◌==◌, leb, ltb, if◌then◌else◌, ℤ, pos,
  negsuc, neg, nonzero, negative, eio, enodev, Option, none, some, List, [], ◌∷◌, bit_and,
}
use a1625_linux_winboot.Kernel.{
  Prog, ret, ◌>>=◌, ◌>>◌, PciDev, Resource, ResvRegion, readw, readl, ioremap, iounmap, dev_driver,
  irq_domain_get_irq_data, iommu_get_domain_for_dev, iommu_resv_regions, pci_alloc_irq_vectors,
  pci_irq_vector, pci_free_irq_vectors,
}
use a1625_linux_winboot.PciScan.Regs
use a1625_linux_winboot.PciScan.Controls.{Scan, is_some}
use a1625_linux_winboot.PciScan.Core.{serve}

abbrev pub dart_regs : ℕ
dart_regs = 0x6_0200_2000

abbrev pub rejected_if : Bool → Scan → Scan
rejected_if b scan = record scan { rejected = scan.rejected || b }

-- PCI_MSI_FLAGS_QSIZE
abbrev pub msi_flags_qsize : ℕ
msi_flags_qsize = 0x70

-- The interrupt is slot 8 of the domain, on the controller's line 0x100e8.
abbrev pub is_slot_8 : Option (ℕ × Option ℕ) → Bool
is_slot_8 none = false
is_slot_8 (some (hwirq, none)) = false
is_slot_8 (some (hwirq, some parent)) = (hwirq == 8) && (parent == 0x100e8)

abbrev pub is_enabled : ℕ → Bool
is_enabled flags = not (bit_and flags Regs.msi_flags_enable == 0)

unfoldable pub irq_data : Option ℕ → ℤ → Prog (Option (ℕ × Option ℕ))
irq_data (some domain) (pos irq) = irq_domain_get_irq_data domain irq
irq_data domain irq = ret none

-- The registers of the capability, each read only if those before it hold.
unfoldable pub msi_programmed : (scan : Scan) → Prog Bool
msi_programmed scan = do
  low ← readl (scan.ep + scan.msi_cap + Regs.msi_address_lo)
  if not (low == 0xbfff_f000) then ret false else do
    high ← if scan.msi_64 then readl (scan.ep + scan.msi_cap + Regs.msi_address_hi) else ret 0
    if not (high == 0) then ret false else do
      word ←
          readw
            (scan.ep + scan.msi_cap + (if scan.msi_64 then Regs.msi_data_64 else Regs.msi_data_32))
      ret (word == 8)

-- With the vector allocated.
unfoldable pub with_vector : (dev : ℕ) → Scan → Prog (ℤ × Scan)
with_vector dev scan = do
  irq ← pci_irq_vector dev
  found ← irq_data scan.msi_domain irq
  flags ← readw (scan.ep + scan.msi_cap + Regs.msi_flags)
  good ←
      if is_slot_8 found && is_enabled flags && (bit_and flags msi_flags_qsize == 0)
      then msi_programmed scan
      else ret false
  requests ← pci_free_irq_vectors dev
  scan ← serve scan requests
  flags ← readw (scan.ep + scan.msi_cap + Regs.msi_flags)
  ret (if is_enabled flags then neg eio else if good then pos 0 else neg eio, scan)

-- The code, and the scan behind the accesses that the PCI core makes for the vector.
unfoldable pub endpoint_msi : (dev : ℕ) → Scan → Prog (ℤ × Scan)
endpoint_msi dev scan = do
  (r, requests) ← pci_alloc_irq_vectors dev
  scan ← serve scan requests
  if negative r then ret (r, scan) else with_vector dev scan

-- `PCI_DEVFN(1, 0)` is 8.
abbrev pub is_root : PciDev → Bool
is_root d =
    (d.bus == 0)
    && (d.devfn == 8)
    && (d.vendor == 0x106b)
    && (d.device_id == 0x1002)
    && (d.class == 0x06_0400)

abbrev pub is_radio : PciDev → Bool
is_radio d =
    (d.bus == 1)
    && (d.devfn == 0)
    && (d.vendor == 0x14e4)
    && (d.device_id == 0x43a3)
    && (d.class == 0x02_8000)

abbrev pub is_reservation : ResvRegion → Bool
is_reservation g = (g.start == 0xbfff_f000) && (g.size == 4096) && g.is_msi

abbrev pub any_reserved : List ResvRegion → Bool
any_reserved [] = false
any_reserved (g ∷ gs) = is_reservation g || any_reserved gs

-- A driver is bound, or the function masters the bus.
unfoldable pub check_command : PciDev → Scan → Prog Scan
check_command d scan = do
  driver ← dev_driver d.dev
  if driver then ret (record scan { rejected = true }) else do
    command ← readw ((if is_radio d then scan.ep else scan.rc) + Regs.command)
    ret (rejected_if (not (bit_and command Regs.command_master == 0)) scan)

-- The radio's DMA is translated, and stream 0 alone is enabled.
unfoldable pub check_iommu : PciDev → Scan → Prog (ℤ × Scan)
check_iommu d scan = do
  found ← iommu_get_domain_for_dev d.dev
  if not (elim found [ none ↦ false | some domain ↦ domain.is_dma ])
      then ret (neg enodev, record scan { rejected = true })
      else do
        regions ← iommu_resv_regions d.dev
        ok ← ioremap dart_regs 0x100
        if not ok then ret (pos 0, record scan { rejected = true }) else do
          bad ←
              if not (any_reserved regions)
              then ret true
              else do enabled ← readl (dart_regs + 0xc); ret (not (enabled == 0x80))
          iounmap dart_regs
          ret (pos 0, rejected_if bad scan)

-- `resource_size` is `end - start + 1` in 64 bits.
abbrev pub bad_bar : Resource → (expected : ℕ) → Bool
bad_bar r expected =
    not r.claimed
    || not r.is_mem
    || r.is_unset
    || not ((2 ^ 64 + r.last + 1 - r.start) % 2 ^ 64 == expected)
    || ltb r.start 0x7_c000_0000
    || ltb 0x7_ffff_ffff r.last

-- From the check of the MSI to the end.
unfoldable pub check_radio : PciDev → Scan → Prog Scan
check_radio d scan = do
  scan ←
      if is_radio d && is_some scan.msi_domain && not scan.bind_firmware && not scan.rejected
      then (do (r, scan) ← endpoint_msi d.dev scan; ret (rejected_if (nonzero r) scan))
      else ret scan
  ret (
      if is_radio d && scan.assign_memory
      then rejected_if (bad_bar d.bar0 0x8000 || bad_bar d.bar2 0x40_0000) scan
      else scan)

-- The device is counted; another than these two is not expected.
abbrev pub counted : PciDev → Scan → Scan
counted d scan =
    rejected_if (not (is_root d) && not (is_radio d)) (record scan { devices = scan.devices + 1 })

unfoldable pub identify : PciDev → Scan → Prog (ℤ × Scan)
identify d scan = do
  scan ← check_command d (counted d scan)
  (r, scan) ← if is_radio d && scan.require_iommu then check_iommu d scan else ret (pos 0, scan)
  if nonzero r then ret (r, scan) else do
    scan ← check_radio d scan
    ret (if is_root d || is_radio d then pos 0 else neg enodev, scan)

-- `pci_walk_bus`, which stops at the first code other than 0.
unfoldable pub walk : List PciDev → Scan → Prog Scan
walk [] scan = ret scan
walk (d ∷ ds) scan = do (r, scan) ← identify d scan; if nonzero r then ret scan else walk ds scan
