-- ===== src/PciScan/Firmware.antt =====
-- The driver of the radio, bound for a time: `a1625_scan_fault_tables`, `a1625_hold_wifi` and
-- `a1625_scan_firmware`. The driver runs beside this code until it is released; all of its
-- configuration accesses count as those of the calls that bind and release it.
pub mod Held
pub mod Ends
use a1625_linux_winboot.Prelude.{
  ℕ, zero, suc, ◌+◌, ◌*◌, ◌-◌, ◌/◌, ◌%◌, ◌^◌, Bool, true, false, not, ◌&&◌, ◌||◌, ◌==◌, leb, ltb,
  if◌then◌else◌, ℤ, pos, neg, nonzero, negative, eio, enodev, enomem, einval, Option, none, some,
  List, [], ◌∷◌, bit_and,
}
use a1625_linux_winboot.Kernel.{
  Prog, ret, ◌>>=◌, ◌>>◌, IommuDomain, bus_add_device, device_attach, device_release_driver,
  clear_master, readl, ioremap, iounmap, msleep, dev_driver, device_lock, device_unlock,
  iommu_get_domain_for_dev, iommu_iova_to_phys, pfn_valid, read_once, dev_get_by_name,
  netdev_parent, dev_put, jiffies, signal_pending, msleep_interruptible, pci_find_bus, pci_get_slot,
  pci_dev_put, device_set_driver_override,
}
use a1625_linux_winboot.PciScan.Controls.{Scan, is_some}
use a1625_linux_winboot.PciScan.Core.{core_call}
use a1625_linux_winboot.PciScan.Identify.{dart_regs}

-- BIT(31)
abbrev pub has_top_bit : ℕ → Bool
has_top_bit value = not (bit_and value 0x8000_0000 == 0)

-- The rounds that are left, and the error register as it was read last.
unfoldable pub wait_fault : (rounds error : ℕ) → Prog ℕ
wait_fault zero error = ret error
wait_fault (suc n) error = do
  error ← readl (dart_regs + 0x10)
  if has_top_bit error then ret error else do msleep 10; wait_fault n error

unfoldable pub translated : Option IommuDomain → (address : ℕ) → Prog ℕ
translated none address = ret 0
translated (some domain) address = iommu_iova_to_phys domain.handle address

-- One root table: its entry for the address.
unfoldable pub fault_table : Option IommuDomain → (address table : ℕ) → Prog (Unit {0})
fault_table domain address table = do
  translated domain (bit_and address 0x3fff_ffff + table * 2 ^ 30)
  ttbr ← readl (dart_regs + 0x40 + 4 * table)
  if not (has_top_bit ttbr) then ret tt else do
    valid ← pfn_valid (bit_and ttbr 0xff_ffff)
    if not valid then ret tt else do
      read_once (bit_and ttbr 0xff_ffff * 2 ^ 12 + 8 * bit_and (address / 2 ^ 21) 0x1ff)
      ret tt

unfoldable pub each_table : Option IommuDomain → (address : ℕ) → List ℕ → Prog (Unit {0})
each_table domain address [] = ret tt
each_table domain address (table ∷ tables) = do
  fault_table domain address table
  each_table domain address tables

-- With the DART's registers mapped.
unfoldable pub watch_fault : Option IommuDomain → Prog (Unit {0})
watch_fault domain = do
  error ← wait_fault 2000 0
  if not (has_top_bit error)
      then ret tt
      else do address ← readl (dart_regs + 0x1c); each_table domain address (0 ∷ 1 ∷ 2 ∷ 3 ∷ [])

unfoldable pub fault_tables : (dev : ℕ) → Prog ℤ
fault_tables dev = do
  domain ← iommu_get_domain_for_dev dev
  ok ← ioremap dart_regs 0x100
  if not ok then ret (neg enomem) else do watch_fault domain; iounmap dart_regs; ret (pos 0)

-- `time_before(a, b)`: the difference of two 64-bit counters is negative.
abbrev pub time_before : (a b : ℕ) → Bool
time_before a b = leb (2 ^ 63) ((a + (2 ^ 64 - b)) % 2 ^ 64)

unfoldable pub goes_on : (until_signal : Bool) (deadline : ℕ) → Prog Bool
goes_on true deadline = ret true
goes_on false deadline = do now ← jiffies; ret (time_before now deadline)

-- The device is still bound, and its DART has seen no fault.
unfoldable pub healthy : (dev : ℕ) → Prog Bool
healthy dev = do
  device_lock dev
  bound ← dev_driver dev
  device_unlock dev
  if not bound
      then ret false
      else do error ← readl (dart_regs + 0x10); ret (not (has_top_bit error))

-- The loop with `n` rounds left; `none` if it is still running then.
unfoldable pub hold_loop : (dev : ℕ) (until_signal : Bool) (deadline n : ℕ) → Prog (Option ℤ)
hold_loop dev until_signal deadline zero = ret none
hold_loop dev until_signal deadline (suc n) = do
  on ← goes_on until_signal deadline
  if not on then ret (some (pos 0)) else do
    signal ← signal_pending
    if signal then ret (some (pos 0)) else do
      good ← healthy dev
      if not good
          then ret (some (neg eio))
          else do msleep_interruptible 100; hold_loop dev until_signal deadline n

-- How long to hold: HZ is the kernel's, and `rounds` bounds the loop.
pub record Hold : Type 0 where
  pub hz : ℕ
  pub rounds : ℕ

-- `seconds * HZ` is a product of 32-bit integers, and jiffies is of 64 bits.
unfoldable pub hold_for : Hold → (dev seconds : ℕ) (until_signal : Bool) → Prog (Option ℤ)
hold_for h dev seconds until_signal = do
  now ← jiffies
  r ← hold_loop dev until_signal ((now + seconds * h.hz % 2 ^ 32) % 2 ^ 64) h.rounds
  signal_pending
  iounmap dart_regs
  ret r

-- With the network device, which is not needed any more.
unfoldable pub hold_device :
    Hold → (dev seconds : ℕ) (until_signal : Bool) (netdev : ℕ) → Prog (Option ℤ)
hold_device h dev seconds until_signal netdev = do
  parent ← netdev_parent netdev
  dev_put netdev
  if not (parent == dev) then ret (some (neg enodev)) else do
    ok ← ioremap dart_regs 0x100
    if not ok then ret (some (neg enomem)) else hold_for h dev seconds until_signal

unfoldable pub hold_wifi : Hold → (dev seconds : ℕ) (until_signal : Bool) → Prog (Option ℤ)
hold_wifi h dev seconds until_signal =
    if (seconds == 0) && not until_signal then ret (some (pos 0)) else do
      found ← dev_get_by_name "wlan0"
      elim found [
        | none ↦ ret (some (neg enodev))
        | some netdev ↦ hold_device h dev seconds until_signal netdev
      ]

-- A hold that is still running after `rounds` rounds ends there as one that a signal ends.
abbrev pub ended : Option ℤ → ℤ
ended none = pos 0
ended (some r) = r

-- The registers of the DART that are logged.
unfoldable pub log_dart : Prog (Unit {0})
log_dart = do
  readl (dart_regs + 0xc)
  readl (dart_regs + 0x10)
  readl (dart_regs + 0x1c)
  readl (dart_regs + 0x40)
  readl (dart_regs + 0x44)
  readl (dart_regs + 0x48)
  readl (dart_regs + 0x4c)
  ret tt

-- With the driver attached.
unfoldable pub observe : Hold → (dev : ℕ) → Scan → Prog ℤ
observe h dev scan = do
  r ← fault_tables dev
  device_lock dev
  dev_driver dev
  device_unlock dev
  if nonzero r
      then ret r
      else do r ← hold_wifi h dev scan.hold_seconds scan.hold_until_signal; ret (ended r)

-- From `detach:` to `put:`.
unfoldable pub detach : (dev : ℕ) → ℤ → Scan → Prog (ℤ × Scan)
detach dev r scan = do
  (_, scan) ← core_call device_release_driver dev scan
  ok ← ioremap dart_regs 0x100
  if ok then (do log_dart; iounmap dart_regs) else ret tt
  (_, scan) ← core_call clear_master dev scan
  ret (if ok then r else neg enomem, scan)

-- With the endpoint's device.
unfoldable pub with_driver : Hold → (dev : ℕ) → Scan → Prog (ℤ × Scan)
with_driver h dev scan = do
  r ← device_set_driver_override dev "brcmfmac"
  if nonzero r then ret (r, scan) else do
    (_, scan) ← core_call bus_add_device dev (record scan { firmware_active = true })
    (r, scan) ← core_call device_attach dev scan
    r ← if negative r then ret r else observe h dev scan
    detach dev r scan

abbrev pub not_ready : Scan → Bool
not_ready scan =
    not scan.require_iommu
    || not (is_some scan.msi_domain)
    || not scan.assign_memory
    || scan.rejected

unfoldable pub firmware : Hold → Scan → Prog (ℤ × Scan)
firmware h scan = do
  child ← pci_find_bus 1
  elim child [
    | none ↦ ret (neg einval, scan)
    | some bus ↦ if not_ready scan then ret (neg einval, scan) else do
      found ← pci_get_slot bus 0
      elim found [
        | none ↦ ret (neg enodev, scan)
        | some dev ↦ do
          (r, scan) ← with_driver h dev scan
          pci_dev_put dev
          ret (if negative r then r else pos 0, scan)
      ]
  ]
