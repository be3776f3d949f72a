-- ===== src/Examples/Scan.antt =====
-- windows-native/wifi/pmu-probe/a1625_pci_scan.h at concrete inputs.
use a1625_linux_winboot.Prelude.{
  pos, ℕ, ◌+◌, ◌≤◌, ◌≡◌, refl, ◌⊎◌, inl, true, false, some, [], ◌∷◌, ◌==◌, if◌then◌else◌, arith,
}
use a1625_linux_winboot.Kernel.{Ensures}
use a1625_linux_winboot.Kernel.Anything.{Anything}
use a1625_linux_winboot.Kernel.ConfigSpace.{Config, Fixed}
use a1625_linux_winboot.PciScan.Caps.{scan_cap}
use a1625_linux_winboot.PciScan.Caps.Walk.{Outcome, scan_cap-Outcome}
use a1625_linux_winboot.PciScan.Caps.Range.{Between, scan_cap-Between}
use a1625_linux_winboot.PciScan.Controls.{Scan, save_controls, pm_mask}
use a1625_linux_winboot.PciScan.Controls.Spared.{Holds, save_controls-Holds}
use a1625_linux_winboot.PciScan.Access.{verdict, header_allows, controls_allow, firmware_allows}
use a1625_linux_winboot.PciScan.Access.Header.{HeaderWrite, verdict-HeaderSafe}
use a1625_linux_winboot.PciScan.Access.Mastering.{
  Unmastered, IsQuiet, write_all, verdict-Inside, write_all-Quiet,
}

-- The power management capability at 0x48, behind one of another kind at 0x40.
abbrev two_caps : Config
two_caps = record {
  byte = λ a.
      if a == 0x34
      then 0x40
      else if a == 0x40
      then 5
      else if a == 0x41
      then 0x48
      else if a == 0x48
      then 1
      else 0;
  word = λ a. 0;
}

scan_cap-Outcome_example :
    Ensures Fixed (scan_cap 0 1) (λ r _. Outcome two_caps 0 1 48 0x40 r) two_caps
scan_cap-Outcome_example = scan_cap-Outcome two_caps 0 1

scan_cap-Between_example : Ensures Anything (scan_cap 0 1) (λ r _. Between 0x40 0xfc r) tt
scan_cap-Between_example = scan_cap-Between 0 1

abbrev fresh : Scan
fresh = record {
  rc = 0x6_1000_8000;
  ep = 0x6_1010_0000;
  rejected = false;
  devices = 0;
  controls = [];
  require_iommu = true;
  msi_domain = some 7;
  msi_cap = 0;
  msi_64 = false;
  assign_memory = true;
  bind_firmware = true;
  firmware_active = false;
  hold_seconds = 0;
  hold_until_signal = false;
}

save_controls-Holds_example : Ensures Anything (save_controls fresh) (λ r _. Holds 26 r.1) tt
save_controls-Holds_example = save_controls-Holds fresh refl

-- The power management control of the endpoint was saved.
abbrev saved : Scan
saved = record fresh {
  controls = record { bus = 1; place = 0x4c; size = 2; saved = 0; mask = pm_mask } ∷ [];
}

command_allowed : (verdict saved 1 4 2 2).allowed ≡ true
unfolding verdict header_allows controls_allow firmware_allows
command_allowed = refl

-- D3 is refused, and so is the master bit.
sleep_refused : (verdict saved 1 0x4c 2 3).allowed ≡ false
unfolding verdict header_allows controls_allow firmware_allows
sleep_refused = refl

verdict-HeaderSafe_example :
    HeaderWrite false saved.controls 1 4 2 2
    × ((verdict saved 1 4 2 2).width ≡ 2)
    × ((verdict saved 1 4 2 2).word ≡ 2)
verdict-HeaderSafe_example =
    verdict-HeaderSafe saved 1 4 2 2 (omega arith) (omega arith) command_allowed

verdict-Inside_example : (4 + 2 ≤ 4096) × (◌≡◌ {A = ℕ} 2 2 ⊎ ◌≡◌ {A = ℕ} 2 4)
verdict-Inside_example = verdict-Inside saved 1 4 2 2 (omega arith) command_allowed

write_all-Quiet_example :
    Ensures
      (Unmastered 0x6_1000_8000 0x6_1010_0000)
      (write_all saved false
        (record { bus = 1; devfn = 0; place = pos 4; size = 2; value = 6 } ∷ []))
      (λ r _. IsQuiet 0x6_1000_8000 0x6_1010_0000 r.1 × (r.0 ≡ true → r.1.rejected ≡ true))
      tt
write_all-Quiet_example =
    write_all-Quiet 0x6_1000_8000 0x6_1010_0000 (inl (omega arith)) saved false
      (record { bus = 1; devfn = 0; place = pos 4; size = 2; value = 6 } ∷ [])
      (record { at_rc = refl; at_ep = refl; inactive = refl; apart = omega arith }) (λ e. e)
