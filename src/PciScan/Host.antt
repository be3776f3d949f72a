-- ===== src/PciScan/Host.antt =====
-- `a1625_pci_scan`: what is read first, the host bridge for the time of the scan, and what is
-- written back. The fields that it sets in the bridge, its device and the device's parent are the
-- kernel's.
pub mod Written
pub mod Back
pub mod Before
pub mod Kept
pub mod Bridge
pub mod Held
use a1625_linux_winboot.Prelude.{
  ℕ, ◌+◌, ◌*◌, Bool, true, false, not, ◌&&◌, ◌||◌, ◌==◌, if◌then◌else◌, ℤ, pos, neg, nonzero, eio,
  ebusy, enomem, Option, none, some, List, [], ◌∷◌, bit_and, bit_or,
}
use a1625_linux_winboot.Kernel.{
  Prog, ret, ◌>>=◌, ◌>>◌, pointer, failure, scan_root_bus_bridge, size_bridges, assign_resources,
  stop_root_bus, remove_root_bus, readw, readl, writew, writel, of_node_get, pci_find_bus,
  pci_walk_bus, bridge_has_bus, root_device_register, root_device_unregister, pci_alloc_host_bridge,
  pci_free_host_bridge, request_resource, release_resource,
}
use a1625_linux_winboot.DeviceTree.{cleaned}
use a1625_linux_winboot.DeviceTree.Dart.{put_node}
use a1625_linux_winboot.DeviceTree.PciNode.{PciNode, no_node, pci_node_create, pci_node_remove}
use a1625_linux_winboot.PciScan.Regs
use a1625_linux_winboot.PciScan.Controls.{Control, Scan, is_some, save_controls}
use a1625_linux_winboot.PciScan.Core.{core_call}
use a1625_linux_winboot.PciScan.Identify.{walk}
use a1625_linux_winboot.PciScan.Firmware.{Hold, firmware}

-- The arguments of `a1625_pci_scan` but for the two mappings.
pub record Options : Type 0 where
  pub dart : Option ℕ
  pub msi_domain : Option ℕ
  pub assign_memory : Bool
  pub bind_firmware : Bool
  pub hold_seconds : ℕ
  pub hold_until_signal : Bool
  pub hold : Hold

abbrev pub fresh : Options → (rc ep : ℕ) → Scan
fresh o rc ep = record {
  rc = rc;
  ep = ep;
  rejected = false;
  devices = 0;
  controls = [];
  require_iommu = is_some o.dart;
  msi_domain = o.msi_domain;
  msi_cap = 0;
  msi_64 = false;
  assign_memory = o.assign_memory;
  bind_firmware = o.bind_firmware;
  firmware_active = false;
  hold_seconds = o.hold_seconds;
  hold_until_signal = o.hold_until_signal;
}

-- What is read before the scan. Both command registers must read as 0, and it is 0 that is written
-- back.
pub record Baseline : Type 0 where
  pub control : ℕ
  pub bus_numbers : ℕ
  pub rc_bars : List (ℕ × ℕ)
  pub ep_bars : List (ℕ × ℕ)
  pub rc_rom : ℕ
  pub ep_rom : ℕ

-- The BARs with the values that they read as.
unfoldable pub read_bars : (cfg : ℕ) → List ℕ → Prog (List (ℕ × ℕ))
read_bars cfg [] = ret []
read_bars cfg (place ∷ places) = do
  value ← readl (cfg + place)
  rest ← read_bars cfg places
  ret ((cfg + place, value) ∷ rest)

abbrev pub rc_places : List ℕ
rc_places = 0x10 ∷ 0x14 ∷ []

abbrev pub ep_places : List ℕ
ep_places = 0x10 ∷ 0x14 ∷ 0x18 ∷ 0x1c ∷ 0x20 ∷ 0x24 ∷ []

-- The reads up to the saved controls, with `none` for -EBUSY.
unfoldable pub read_baseline : (rc ep : ℕ) → Prog (Option Baseline)
read_baseline rc ep = do
  rc_command ← readw (rc + Regs.command)
  ep_command ← readw (ep + Regs.command)
  if not (rc_command == 0) || not (ep_command == 0) then ret none else do
    control ← readw (rc + Regs.bridge_control)
    bus_numbers ← readl (rc + Regs.primary_bus)
    if not (bit_and bus_numbers 0xff_ffff == 0x01_0100)
          || not (bit_and control Regs.bridge_ctl_bus_reset == 0)
        then ret none
        else do
          rc_bars ← read_bars rc rc_places
          ep_bars ← read_bars ep ep_places
          rc_rom ← readl (rc + Regs.rom_address1)
          ep_rom ← readl (ep + Regs.rom_address)
          ret (
              if not (bit_and (bit_or rc_rom ep_rom) Regs.rom_address_enable == 0)
              then none
              else some (record {
                control = control;
                bus_numbers = bus_numbers;
                rc_bars = rc_bars;
                ep_bars = ep_bars;
                rc_rom = rc_rom;
                ep_rom = ep_rom;
              }))

-- `if (...) ret = -EIO;`
abbrev pub eio_if : Bool → ℤ → ℤ
eio_if bad r = if bad then neg eio else r

-- One saved control, written back and read.
unfoldable pub restore_control : (rc ep : ℕ) → Control → ℤ → Prog ℤ
restore_control rc ep c r = do
  if c.size == 2
      then writew c.saved ((if c.bus == 0 then rc else ep) + c.place)
      else writel c.saved ((if c.bus == 0 then rc else ep) + c.place)
  observed ←
      if c.size == 2
      then readw ((if c.bus == 0 then rc else ep) + c.place)
      else readl ((if c.bus == 0 then rc else ep) + c.place)
  ret (eio_if (not (bit_and observed c.mask == c.saved)) r)

-- The last control first.
unfoldable pub restore_controls : (rc ep : ℕ) → List Control → ℤ → Prog ℤ
restore_controls rc ep [] r = ret r
restore_controls rc ep (c ∷ cs) r = do r ← restore_controls rc ep cs r; restore_control rc ep c r

unfoldable pub restore_bars : List (ℕ × ℕ) → ℤ → Prog ℤ
restore_bars [] r = ret r
restore_bars ((at, value) ∷ bars) r = do
  writel value at
  observed ← readl at
  restore_bars bars (eio_if (not (observed == value)) r)

-- The last comparison, each register read only if those before it are as they were.
unfoldable pub compare : (rc ep : ℕ) → Baseline → Prog Bool
compare rc ep b = do
  rc_command ← readw (rc + Regs.command)
  if not (rc_command == 0) then ret false else do
    ep_command ← readw (ep + Regs.command)
    if not (ep_command == 0) then ret false else do
      rc_rom ← readl (rc + Regs.rom_address1)
      if not (rc_rom == b.rc_rom) then ret false else do
        ep_rom ← readl (ep + Regs.rom_address)
        if not (ep_rom == b.ep_rom) then ret false else do
          bus_numbers ← readl (rc + Regs.primary_bus)
          if not (bus_numbers == b.bus_numbers)
              then ret false
              else do control ← readw (rc + Regs.bridge_control); ret (control == b.control)

-- The ROMs, the bus numbers and the bridge's control.
unfoldable pub restore_last : (rc ep : ℕ) → Baseline → ℤ → Prog ℤ
restore_last rc ep b r = do
  writel b.rc_rom (rc + Regs.rom_address1)
  writel b.ep_rom (ep + Regs.rom_address)
  writel b.bus_numbers (rc + Regs.primary_bus)
  writew b.control (rc + Regs.bridge_control)
  same ← compare rc ep b
  ret (eio_if (not same) r)

unfoldable pub restore_header : (rc ep : ℕ) → Baseline → ℤ → Prog ℤ
restore_header rc ep b r = do
  writew 0 (ep + Regs.command)
  writew 0 (rc + Regs.command)
  r ← restore_bars b.rc_bars r
  r ← restore_bars b.ep_bars r
  restore_last rc ep b r

unfoldable pub restore : (rc ep : ℕ) → Baseline → Scan → ℤ → Prog ℤ
restore rc ep b scan r = do
  r ← restore_controls rc ep scan.controls r
  r ← restore_header rc ep b r
  ret (eio_if scan.rejected r)

-- With the bus scanned.
unfoldable pub enumerated : Options → (bridge : ℕ) → Scan → Prog (ℤ × Scan)
enumerated o bridge scan = do
  (_, scan) ← if o.assign_memory then core_call size_bridges bridge scan else ret (pos 0, scan)
  (_, scan) ← if o.assign_memory then core_call assign_resources bridge scan else ret (pos 0, scan)
  devices ← pci_walk_bus bridge
  scan ← walk devices scan
  if scan.rejected || not (scan.devices == 2)
      then ret (neg eio, scan)
      else if o.bind_firmware
      then firmware o.hold scan
      else ret (pos 0, scan)

-- With the bridge's windows: the scan, and the removal of its bus.
unfoldable pub on_bridge : Options → (bridge : ℕ) → Scan → Prog (ℤ × Scan)
on_bridge o bridge scan = do
  (r, scan) ← core_call scan_root_bus_bridge bridge scan
  (r, scan) ← if nonzero r then ret (r, scan) else enumerated o bridge scan
  bus ← bridge_has_bus bridge
  (_, scan) ← if bus then core_call stop_root_bus bridge scan else ret (pos 0, scan)
  (_, scan) ← if bus then core_call remove_root_bus bridge scan else ret (pos 0, scan)
  pci_free_host_bridge bridge
  ret (r, scan)

abbrev pub memory_start : ℕ
memory_start = 0x7_c000_0000

abbrev pub memory_end : ℕ
memory_end = 0x7_ffff_ffff

-- With the bridge allocated.
unfoldable pub with_bridge : Options → Baseline → (rc ep bridge : ℕ) → Scan → Prog ℤ
with_bridge o b rc ep bridge scan =
    if not o.assign_memory
    then (do (r, scan) ← on_bridge o bridge scan; restore rc ep b scan r)
    else do
      r ← request_resource memory_start memory_end
      if nonzero r then (do pci_free_host_bridge bridge; ret r) else do
        (r, scan) ← on_bridge o bridge scan
        released ← release_resource memory_start memory_end
        restore rc ep b scan (eio_if (nonzero released) r)

-- `of_node_get`, which does nothing with NULL.
unfoldable pub get_node : Option ℕ → Prog (Unit {0})
get_node none = ret tt
get_node (some node) = of_node_get node

-- With the node, if there is one.
unfoldable pub hosted : Options → Baseline → (rc ep : ℕ) → (node : Option ℕ) → Scan → Prog ℤ
hosted o b rc ep node scan = do
  made ← root_device_register "a1625-pci-scan"
  elim made [
    | failure n ↦ ret (neg (n + 1))
    | pointer parent ↦ do
      get_node node
      made ← pci_alloc_host_bridge
      r ← elim made [ none ↦ ret (neg enomem) | some bridge ↦ with_bridge o b rc ep bridge scan ]
      put_node node
      root_device_unregister parent
      ret r
  ]

-- With the controls saved.
unfoldable pub saved : Options → Baseline → (rc ep : ℕ) → Scan → Prog ℤ
saved o b rc ep scan = elim o.dart [
  | none ↦ hosted o b rc ep none scan
  | some dart ↦ do
    (r, state) ← pci_node_create dart
    r ← if nonzero r then ret r else hosted o b rc ep state.node scan
    cleanup ← pci_node_remove state
    ret (cleaned cleanup r)
]

-- With the baseline read.
unfoldable pub from_baseline : Options → (rc ep : ℕ) → Option Baseline → Prog ℤ
from_baseline o rc ep none = ret (neg ebusy)
from_baseline o rc ep (some b) = do
  (r, scan) ← save_controls (fresh o rc ep)
  if nonzero r then ret r else saved o b rc ep scan

unfoldable pub pci_scan : Options → (rc ep : ℕ) → Prog ℤ
pci_scan o rc ep = do
  found ← pci_find_bus 0
  if is_some found then ret (neg ebusy) else do
    rc_id ← readl rc
    if not (rc_id == 0x1002_106b) then ret (neg ebusy) else do
      ep_id ← readl ep
      if not (ep_id == 0x43a3_14e4)
          then ret (neg ebusy)
          else do b ← read_baseline rc ep; from_baseline o rc ep b
