-- ===== src/PciScan/Controls.antt =====
-- The controls that the scan saves before it starts: `struct a1625_scan_control`, the part of
-- `struct a1625_scan` that describes one scan, and `a1625_scan_save_controls`.
pub mod Spared
pub mod Walked
pub mod Held
use a1625_linux_winboot.Prelude.{
  ℕ, ◌+◌, ◌-◌, Bool, true, false, not, ◌&&◌, ◌||◌, ◌==◌, ltb, if◌then◌else◌, ℤ, pos, negsuc, neg,
  nonzero, negative, enodev, ebusy, Option, none, some, List, [], ◌∷◌, ◌++◌, bit_and,
}
use a1625_linux_winboot.Prelude.Bits.{all_ones}
use a1625_linux_winboot.Kernel.{Prog, ret, ◌>>=◌, readw, readl}
use a1625_linux_winboot.PciScan.Caps.{scan_cap, scan_extcap}
use a1625_linux_winboot.PciScan.Regs

pub record Control : Type 0 where
  pub bus : ℕ
  pub place : ℕ
  pub size : ℕ
  pub saved : ℕ
  pub mask : ℕ

-- `where` and `size` of the source are `place` and `size`. The array `controls` with its count
-- `nr_controls` is the list of the controls in the order in which they were saved.
pub record Scan : Type 0 where
  pub rc : ℕ
  pub ep : ℕ
  pub rejected : Bool
  pub devices : ℕ
  pub controls : List Control
  pub require_iommu : Bool
  pub msi_domain : Option ℕ
  pub msi_cap : ℕ
  pub msi_64 : Bool
  pub assign_memory : Bool
  pub bind_firmware : Bool
  pub firmware_active : Bool
  pub hold_seconds : ℕ
  pub hold_until_signal : Bool

abbrev pub is_some : Option ℕ → Bool
is_some none = false
is_some (some d) = true

-- `bus ? scan->ep : scan->rc`
abbrev pub config_of : Scan → ℕ → ℕ
config_of scan bus = if bus == 0 then scan.rc else scan.ep

abbrev pub pm_mask : ℕ
pm_mask = 0xffff - Regs.pm_ctrl_pme_status

abbrev pub lnkctl_mask : ℕ
lnkctl_mask = 0xffff - Regs.exp_lnkctl_rl

-- `a1625_scan_save_control`, of a control that goes to the end of the list.
unfoldable pub save_control : (scan : Scan) (bus place size mask : ℕ) → Prog Scan
save_control scan bus place size mask = do
  value ←
      if size == 2 then readw (config_of scan bus + place) else readl (config_of scan bus + place)
  ret (record scan {
    controls =
        scan.controls
        ++ record { bus = bus; place = place; size = size; saved = bit_and value mask; mask = mask }
          ∷ [];
  })

-- A control to save: bus, place, size and mask.
abbrev pub Wanted : Type 0
Wanted = ℕ × ℕ × ℕ × ℕ

unfoldable pub save_all : Scan → List Wanted → Prog Scan
save_all scan [] = ret scan
save_all scan ((bus, place, size, mask) ∷ rest) = do
  saved ← save_control scan bus place size mask
  save_all saved rest

-- The offset in a code that is not negative.
abbrev pub offset : ℤ → ℕ
offset (pos n) = n
offset (negsuc n) = 0

-- A capability is missing, or its controls would lie outside configuration space.
abbrev pub unusable : (pm exp l1ss : ℤ) → Bool
unusable pm exp l1ss =
    negative pm
    || negative exp
    || negative l1ss
    || ltb 0xfe (offset exp + Regs.exp_devctl2)
    || ltb 0xffc (offset l1ss + Regs.l1ss_ctl2)

-- The body of the loop over the two functions: the code, and the scan with five controls more.
unfoldable pub save_bus : Scan → ℕ → Prog (ℤ × Scan)
save_bus scan bus = do
  pm ← scan_cap (config_of scan bus) Regs.cap_id_pm
  exp ← scan_cap (config_of scan bus) Regs.cap_id_exp
  l1ss ← scan_extcap (config_of scan bus) Regs.ext_cap_id_l1ss
  if unusable pm exp l1ss then ret (neg enodev, scan) else do
    control ← readw (config_of scan bus + offset pm + Regs.pm_ctrl)
    if not (bit_and control Regs.pm_ctrl_state_mask == 0) then ret (neg ebusy, scan) else do
      saved ← save_all scan (
          (bus, offset pm + Regs.pm_ctrl, 2, pm_mask)
          ∷ (bus, offset exp + Regs.exp_devctl2, 2, 0xffff)
          ∷ (bus, offset exp + Regs.exp_lnkctl, 2, lnkctl_mask)
          ∷ (bus, offset l1ss + Regs.l1ss_ctl1, 4, all_ones)
          ∷ (bus, offset l1ss + Regs.l1ss_ctl2, 4, all_ones)
          ∷ [])
      ret (pos 0, saved)

-- The bridge windows of the root port.
abbrev pub windows : (assign_memory : Bool) → List Wanted
windows assign_memory =
    (0, Regs.io_base, 2, 0xffff)
    ∷ (0, Regs.pref_memory_base, 4, all_ones)
    ∷ (if assign_memory
        then (0, Regs.memory_base, 4, all_ones)
          ∷ (0, Regs.pref_base_upper32, 4, all_ones)
          ∷ (0, Regs.pref_limit_upper32, 4, all_ones)
          ∷ (0, Regs.io_base_upper16, 4, all_ones)
          ∷ []
        else [])

-- The registers of the MSI capability at `cap`, by its flags.
abbrev pub msi_registers : (cap : ℕ) (wide maskable : Bool) → List Wanted
msi_registers cap wide maskable =
    (1, cap + Regs.msi_flags, 2, 0xffff)
    ∷ (1, cap + Regs.msi_address_lo, 4, all_ones)
    ∷ ((if wide then (1, cap + Regs.msi_address_hi, 4, all_ones) ∷ [] else [])
        ++ (1, cap + (if wide then Regs.msi_data_64 else Regs.msi_data_32), 2, 0xffff)
          ∷ (if maskable
              then (1, cap + (if wide then Regs.msi_mask_64 else Regs.msi_mask_32), 4, all_ones)
                ∷ []
              else []))

-- What the driver's watchdog writes besides.
abbrev pub watchdog : List Wanted
watchdog =
    (1, 0x80, 4, all_ones)
    ∷ (1, 0xdc, 2, 0xffff)
    ∷ (1, 0x228, 4, all_ones)
    ∷ (1, 0x4e0, 4, all_ones)
    ∷ (1, 0x4f4, 4, all_ones)
    ∷ []

-- The MSI capability is missing, or lies too far up.
abbrev pub no_room : ℤ → Bool
no_room cap = negative cap || ltb 0xe8 (offset cap)

unfoldable pub save_msi : Scan → Prog (ℤ × Scan)
save_msi scan = do
  cap ← scan_cap scan.ep Regs.cap_id_msi
  if no_room cap then ret (neg enodev, scan) else do
    flags ← readw (scan.ep + offset cap + Regs.msi_flags)
    if not (bit_and flags Regs.msi_flags_enable == 0) then ret (neg ebusy, scan) else do
      let wide : Bool = not (bit_and flags Regs.msi_flags_64bit == 0)
      let maskable : Bool = not (bit_and flags Regs.msi_flags_maskbit == 0)
      saved ←
          save_all (record scan { msi_cap = offset cap; msi_64 = wide })
            (msi_registers (offset cap) wide maskable)
      ret (pos 0, saved)

-- The code, and the scan as the function leaves it behind the pointer.
unfoldable pub save_controls : Scan → Prog (ℤ × Scan)
unfolding save_bus save_msi
save_controls scan = do
  (r, scan) ← save_bus scan 0
  if nonzero r then ret (r, scan) else do
    (r, scan) ← save_bus scan 1
    if nonzero r then ret (r, scan) else do
      scan ← save_all scan (windows scan.assign_memory)
      (r, scan) ← if is_some scan.msi_domain then save_msi scan else ret (pos 0, scan)
      if nonzero r then ret (r, scan) else do
        scan ← save_all scan (if scan.bind_firmware then watchdog else [])
        ret (pos 0, scan)
