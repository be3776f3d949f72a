-- ===== src/Ready.antt =====
-- windows-native/wifi/pmu-probe/a1625_pcie_domains.c: what the module does with a prepared port:
-- the snapshots of the root port and of the DART, and `observe_ready_phy`, the callback of the PHY.
pub mod Held
pub mod Callees
use a1625_linux_winboot.Prelude.{
  ℕ, ◌+◌, ◌/◌, ◌^◌, Bool, true, false, not, ◌&&◌, ◌||◌, ◌==◌, leb, if◌then◌else◌, ℤ, pos, neg,
  nonzero, ebusy, enodev, enomem, Option, none, some, List, [], ◌∷◌, bit_and,
}
use a1625_linux_winboot.Prelude.Bits.{all_ones}
use a1625_linux_winboot.Kernel.{
  Prog, ret, ◌>>=◌, ◌>>◌, request_mem_region, release_mem_region, ioremap, iounmap, readl,
}
use a1625_linux_winboot.Phy.{with_pcie_phy}
use a1625_linux_winboot.Radio.{radio_pulse}
use a1625_linux_winboot.Domains.{with_pcie_domains}
use a1625_linux_winboot.Params.{Params, init}
use a1625_linux_winboot.Link.{observe_held_radio}
use a1625_linux_winboot.Endpoint.{rc, ep, snapshot_endpoint}
use a1625_linux_winboot.Msi.{with_msi, msi_probe}
use a1625_linux_winboot.DeviceTree.Dart.{with_dart}
use a1625_linux_winboot.DeviceTree.Map.{dart_map}
use a1625_linux_winboot.PciScan.Firmware.{Hold}
use a1625_linux_winboot.PciScan.Host.{Options, pci_scan}
use a1625_linux_winboot.Chip.{snapshot_chip}

abbrev pub dart : ℕ
dart = 0x6_0200_2000

abbrev pub dart_offsets : List ℕ
dart_offsets = 0x0 ∷ 0xc ∷ 0x10 ∷ 0x40 ∷ 0x44 ∷ 0x48 ∷ 0x4c ∷ []

-- `value` at `offset` where the DART must be idle, or be reset.
abbrev unexpected : (idle reset_expected : Bool) (offset value : ℕ) → Bool
unexpected idle reset_expected offset value =
    (idle && (offset == 0xc) && not (value == 0))
    || (reset_expected && leb 0x40 offset && not (value == 0))

unfoldable pub dart_walk : (idle reset_expected : Bool) → List ℕ → Prog ℤ
dart_walk idle reset_expected [] = ret (pos 0)
dart_walk idle reset_expected (o ∷ os) = do
  value ← readl (dart + o)
  if value == all_ones
      then ret (neg enodev)
      else if unexpected idle reset_expected o value
      then ret (neg ebusy)
      else dart_walk idle reset_expected os

-- With the block claimed.
unfoldable pub dart_state : (idle reset_expected : Bool) → Prog ℤ
dart_state idle reset_expected = do
  ok ← ioremap dart 0x2000
  if not ok
      then ret (neg enomem)
      else do r ← dart_walk idle reset_expected dart_offsets; iounmap dart; ret r

unfoldable pub snapshot_dart : Params → (reset_expected : Bool) → Prog ℤ
snapshot_dart p reset_expected = do
  owned ← request_mem_region dart 0x2000
  if not owned then ret (neg ebusy) else do
    r ← dart_state (p.probe_dart || p.scan_iommu) reset_expected
    release_mem_region dart 0x2000
    ret r

unfoldable pub root_port : Prog ℤ
root_port = do
  id ← readl rc
  if not (bit_and id 0xffff == 0x106b) then ret (neg enodev) else do
    class ← readl (rc + 8)
    ret (if not (class / 2 ^ 16 == 0x0604) then neg enodev else pos 0)

unfoldable pub snapshot_root_port : Prog ℤ
snapshot_root_port = do
  owned ← request_mem_region rc 0x1000
  if not owned then ret (neg ebusy) else do
    ok ← ioremap rc 0x1000
    r ← if not ok then ret (neg enomem) else do r ← root_port; iounmap rc; ret r
    release_mem_region rc 0x1000
    ret r

-- `if (!ret && wanted) ret = stage;`
unfoldable pub then_if : ℤ → Bool → Prog ℤ → Prog ℤ
then_if r wanted stage = if not (nonzero r) && wanted then stage else ret r

-- `scan_dart` and `scan_msi_domain`, which the callbacks set for the time of the scan, are the
-- arguments `scan_dart` and `scan_msi_domain`.
abbrev pub options : Params → Hold → (scan_dart scan_msi_domain : Option ℕ) → Options
options p h scan_dart scan_msi_domain = record {
  dart = scan_dart;
  msi_domain = scan_msi_domain;
  assign_memory = p.assign_memory;
  bind_firmware = p.bind_firmware;
  hold_seconds = p.hold_seconds;
  hold_until_signal = p.hold_until_signal;
  hold = h;
}

unfoldable pub endpoint : Params → Hold → (scan_dart scan_msi_domain : Option ℕ) → Prog ℤ
endpoint p h scan_dart scan_msi_domain = snapshot_endpoint (record {
  identify_chip = p.identify_chip;
  snapshot_chip = snapshot_chip p.inspect_erom;
  scan_pci = p.scan_pci;
  pci_scan = pci_scan (options p h scan_dart scan_msi_domain) rc ep;
})

unfoldable pub observe_radio : Params → Hold → (scan_dart scan_msi_domain : Option ℕ) → Prog ℤ
observe_radio p h scan_dart scan_msi_domain =
    radio_pulse true
      (observe_held_radio p.train_link p.identify_endpoint (endpoint p h scan_dart scan_msi_domain))

unfoldable pub observe_radio_with_dart : Params → Hold → Option ℕ → (dart : ℕ) → Prog ℤ
observe_radio_with_dart p h scan_msi_domain dart = observe_radio p h (some dart) scan_msi_domain

unfoldable pub observe_pci_with_msi : Params → Hold → (domain : ℕ) → Prog ℤ
observe_pci_with_msi p h domain =
    with_dart (some (observe_radio_with_dart p h (some domain))) p.test_dma_range

unfoldable pub observe_ready_phy : Params → Hold → Prog ℤ
observe_ready_phy p h = do
  r ← if p.inspect_rc then snapshot_root_port else ret (pos 0)
  r ← then_if r p.inspect_dart (snapshot_dart p false)
  r ← then_if r p.probe_msi msi_probe
  r ←
      then_if r p.probe_dart
        (with_dart (if p.map_dart then some dart_map else none) p.test_dma_range)
  r ← then_if r p.probe_dart (snapshot_dart p true)
  r ← then_if r p.scan_msi (with_msi (observe_pci_with_msi p h))
  r ←
      then_if r (p.scan_iommu && not p.scan_msi)
        (with_dart (some (observe_radio_with_dart p h none)) p.test_dma_range)
  r ← then_if r p.scan_iommu (snapshot_dart p true)
  then_if r (p.pulse_radio && not p.scan_iommu) (observe_radio p h none none)

-- `run_domain_observation`, the callback of the power domains.
unfoldable pub snapshot_registers : Params → Hold → Prog ℤ
snapshot_registers p h =
    with_pcie_phy p.prepare_port p.inspect_prefix p.test_refclk (observe_ready_phy p h)

-- `a1625_pcie_domains_init`, with the call that it makes.
unfoldable pub domains_init : Params → Hold → Prog ℤ
domains_init p h = init p (
    with_pcie_domains p.cycle p.force_active
      (if p.snapshot then some (snapshot_registers p h) else none))
