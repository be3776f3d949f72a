-- ===== src/PciScan/Access.antt =====
-- The configuration accesses that the enumeration may make: `a1625_scan_config`,
-- `a1625_scan_read` and `a1625_scan_write`, with the filter of writes.
pub mod Header
pub mod Mastering
use a1625_linux_winboot.Prelude.{
  ℕ, ◌+◌, ◌-◌, Bool, true, false, not, ◌&&◌, ◌||◌, ◌==◌, ltb, leb, if◌then◌else◌, ℤ, pos, negsuc,
  Option, none, some, List, [], ◌∷◌, bit_and,
}
use a1625_linux_winboot.Prelude.Bits.{all_ones}
use a1625_linux_winboot.Kernel.{Prog, ret, ◌>>=◌, ◌>>◌, readb, readw, readl, writew, writel}
use a1625_linux_winboot.PciScan.Regs
use a1625_linux_winboot.PciScan.Controls.{Control, Scan, pm_mask, lnkctl_mask}

-- The PCIBIOS_* codes of the kernel's pci.h.
abbrev pub successful : ℤ
successful = pos 0

abbrev pub device_not_found : ℤ
device_not_found = pos 0x86

abbrev pub bad_register_number : ℤ
bad_register_number = pos 0x87

abbrev pub set_failed : ℤ
set_failed = pos 0x88

-- `PCI_DEVFN(1, 0)` is 8.
unfoldable pub config : (scan : Scan) (bus devfn : ℕ) → Option ℕ
config scan bus devfn =
    if (bus == 0) && (devfn == 8)
    then some scan.rc
    else if (bus == 1) && (devfn == 0)
    then some scan.ep
    else none

-- `bit_and value mask` has no bit set.
abbrev pub clear : ℕ → ℕ → Bool
clear value mask = bit_and value mask == 0

read_at : (address size : ℕ) → Prog ℕ
read_at address size =
    if size == 4 then readl address else if size == 2 then readw address else readb address

-- The code and the value.
unfoldable pub scan_read : (scan : Scan) (bus devfn : ℕ) (place : ℤ) (size : ℕ) → Prog (ℤ × ℕ)
unfolding config read_at
scan_read scan bus devfn (negsuc e) size = elim (config scan bus devfn) [
  | none ↦ ret (device_not_found, all_ones)
  | some cfg ↦ ret (bad_register_number, all_ones)
]
scan_read scan bus devfn (pos place) size = elim (config scan bus devfn) [
  | none ↦ ret (device_not_found, all_ones)
  | some cfg ↦
      if ltb 4096 (place + size)
        || not ((size == 1) || (size == 2) || (size == 4))
        || not (bit_and place (size - 1) == 0)
      then ret (bad_register_number, all_ones)
      else do value ← read_at (cfg + place) size; ret (successful, value)
]

-- Before the saved controls are looked up.
unfoldable pub header_allows : (active : Bool) (bus place size value : ℕ) → Bool
header_allows active bus place size value =
    let on_command =
      (place == Regs.command) && (size == 2) && (clear value Regs.command_master || active) in
    let on_bar =
      if (size == 4)
        && leb 0x10 place
        && leb place (if bus == 0 then 0x14 else 0x24)
        && (bit_and place 3 == 0)
      then true
      else on_command in
    let on_buses =
      if (bus == 0) && (place == Regs.primary_bus) && (size == 4)
      then (bit_and value 0xff_ffff == 0x01_0100) || (bit_and value 0xff_ffff == 0)
      else on_bar in
    let on_bridge =
      if (bus == 0) && (place == Regs.bridge_control) && (size == 2)
      then clear value Regs.bridge_ctl_bus_reset
      else on_buses in
    if (place == (if bus == 0 then Regs.rom_address1 else Regs.rom_address)) && (size == 4)
    then clear value Regs.rom_address_enable
    else on_bridge

-- One saved control: whether it takes the value.
abbrev pub takes : Control → ℕ → Bool
takes c value =
    if c.mask == lnkctl_mask
    then clear value Regs.exp_lnkctl_ld
    else if c.mask == pm_mask
    then clear value Regs.pm_ctrl_state_mask
    else true

abbrev pub is_at : Control → (bus place size : ℕ) → Bool
is_at c bus place size = (c.bus == bus) && (c.place == place) && (c.size == size)

-- The loop over the controls: the last that is at the place decides.
unfoldable pub controls_allow : List Control → (bus place size value : ℕ) → Bool → Bool
controls_allow [] bus place size value allowed = allowed
controls_allow (c ∷ cs) bus place size value allowed =
    controls_allow cs bus place size value
      (if is_at c bus place size then takes c value else allowed)

-- What goes to the hardware: width and value.
pub record Access : Type 0 where
  pub allowed : Bool
  pub width : ℕ
  pub word : ℕ

-- With the driver bound the endpoint has three places more.
unfoldable pub firmware_allows : (place size value : ℕ) → Bool → Access
firmware_allows place size value allowed =
    let on_window =
      if (place == 0x80) && (size == 4)
      then (bit_and value 0xfff == 0) && leb 0x1800_0000 value && leb value 0x1810_f000
      else allowed in
    if (place == 0xbc) && (size == 4)
    then record { allowed = clear value Regs.exp_lnkctl_ld; width = 2; word = bit_and value 0xffff }
    else record {
      allowed = if (place == 0x98) && (size == 4) then value == 1 else on_window;
      width = size;
      word = value;
    }

-- The verdict on a write, with what is written.
unfoldable pub verdict : (scan : Scan) (bus place size value : ℕ) → Access
verdict scan bus place size value =
    let listed =
      controls_allow scan.controls bus place size value
        (header_allows scan.firmware_active bus place size value) in
    let access : Access =
      if (bus == 1) && scan.firmware_active
      then firmware_allows place size value listed
      else record { allowed = listed; width = size; word = value } in
    if (bus == 0) && (place == Regs.sec_status) && (access.width == 2) && (access.word == 0xffff)
    then record access { allowed = true }
    else access

write_at : (address width word : ℕ) → Prog (Unit {0})
write_at address width word = if width == 2 then writew word address else writel word address

-- The code, and the scan with `rejected` set by a refusal. No place below 0 is among the allowed.
unfoldable pub scan_write :
    (scan : Scan) (bus devfn : ℕ) (place : ℤ) (size value : ℕ) → Prog (ℤ × Scan)
unfolding config write_at
scan_write scan bus devfn (negsuc e) size value = elim (config scan bus devfn) [
  | none ↦ ret (device_not_found, scan)
  | some cfg ↦ ret (set_failed, record scan { rejected = true })
]
scan_write scan bus devfn (pos place) size value = elim (config scan bus devfn) [
  | none ↦ ret (device_not_found, scan)
  | some cfg ↦
      if not (verdict scan bus place size value).allowed
      then ret (set_failed, record scan { rejected = true })
      else do
        write_at (cfg + place) (verdict scan bus place size value).width
            (verdict scan bus place size value).word
        ret (successful, scan)
]
