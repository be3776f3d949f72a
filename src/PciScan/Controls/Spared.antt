-- ===== src/PciScan/Controls/Spared.antt =====
-- What the list of saved controls can hold.
use a1625_linux_winboot.Prelude.{
  ℕ, ◌+◌, ◌≤◌, ◌≡◌, ◌⊎◌, Bool, true, false, not, ◌==◌, if◌then◌else◌, ℤ, pos, negsuc, nonzero,
  negative, List, [], ◌∷◌, ◌++◌, length, length-append, All, All-append, bit_and, arith,
}
use a1625_linux_winboot.Kernel.{ret, readw, readl, Ensures, bind, branch}
use a1625_linux_winboot.Kernel.Anything.{Anything}
use a1625_linux_winboot.PciScan.Caps.Range.{Between, scan_cap-Between, scan_extcap-Between}
use a1625_linux_winboot.PciScan.Regs
use a1625_linux_winboot.PciScan.Controls.{
  Control, Scan, Wanted, config_of, is_some, offset, unusable, no_room, save_control, save_all,
  save_bus, windows, msi_registers, watchdog, save_msi, save_controls,
}

-- A control lies behind the standard header, or is one of the root port's windows, 0x1c..0x30;
-- and it lies inside the function's 4 KiB, two or four bytes wide.
abbrev pub Apart : (bus place size : ℕ) → Type 0
Apart bus place size =
    ((0x40 ≤ place) ⊎ ((bus ≡ 0) × (0x1c ≤ place) × (place ≤ 0x30)))
    × (place + size ≤ 4096)
    × ((size ≡ 2) ⊎ (size ≡ 4))

abbrev pub ControlApart : Control → Type 0
ControlApart c = Apart c.bus c.place c.size

abbrev WantedApart : Wanted → Type 0
WantedApart (bus, place, size, mask) = Apart bus place size

-- At most `n` controls, all of them apart.
pub record Holds (n : ℕ) (scan : Scan) : Type 0 where
  pub bounded : length scan.controls ≤ n
  pub apart : All ControlApart scan.controls

Holds-le : (n m : ℕ) (scan : Scan) → Holds n scan → n ≤ m → Holds m scan
Holds-le n m scan h fits = record { bounded = omega (arith, h.bounded); apart = h.apart }

Holds-append :
    (n : ℕ) (scan : Scan) (c : Control)
    → Holds n scan
    → ControlApart c
    → Holds (n + 1) (record scan { controls = scan.controls ++ c ∷ [] })
Holds-append n scan c h apart = record {
  bounded = omega (arith, h.bounded, length-append scan.controls (c ∷ []));
  apart = All-append ControlApart scan.controls (c ∷ []) h.apart (apart, tt);
}

save_control-Holds :
    (scan : Scan) (bus place size mask n : ℕ)
    → Holds n scan
    → Apart bus place size
    → Ensures Anything (save_control scan bus place size mask) (λ s _. Holds (n + 1) s) tt
unfolding save_control
save_control-Holds scan bus place size mask n h apart =
    bind Anything (λ _ _. Unit {0}) (λ s _. Holds (n + 1) s)
      (if size == 2 then readw (config_of scan bus + place) else readl (config_of scan bus + place))
      _ tt (ground arith) (λ value _ _. Holds-append n scan _ h apart)

save_all-Holds :
    (scan : Scan) (l : List Wanted) (n m : ℕ)
    → Holds n scan
    → All WantedApart l
    → n + length l ≤ m
    → Ensures Anything (save_all scan l) (λ s _. Holds m s) tt
unfolding save_all
save_all-Holds scan [] n m h apart fits = Holds-le n m scan h (omega arith)
save_all-Holds scan ((bus, place, size, mask) ∷ rest) n m h apart fits =
    bind Anything (λ s _. Holds (n + 1) s) (λ s _. Holds m s)
      (save_control scan bus place size mask) _ tt
      (save_control-Holds scan bus place size mask n h apart.0)
      (λ s _ h'. save_all-Holds s rest (n + 1) m h' apart.1 (omega arith))

le-offset : (low high : ℕ) (r : ℤ) → Between low high r → negative r ≡ false → low ≤ offset r
le-offset low high (pos q) h given = h.0
le-offset low high (negsuc e) h given = cc

offset-le : (low high : ℕ) (r : ℤ) → Between low high r → offset r ≤ high
offset-le low high (pos q) h = h.1
offset-le low high (negsuc e) h = omega arith

registers :
    (cap : ℕ) (wide maskable : Bool)
    → 0x40 ≤ cap
    → cap ≤ 0xfc
    → All WantedApart (msi_registers cap wide maskable)
registers base false false low high = omega arith
registers base false true low high = omega arith
registers base true false low high = omega arith
registers base true true low high = omega arith

room_for : (cap n : ℕ) (wide maskable : Bool) → n + length (msi_registers cap wide maskable) ≤ n + 5
room_for base n false false = omega arith
room_for base n false true = omega arith
room_for base n true false = omega arith
room_for base n true true = omega arith

module _ (scan : Scan) (bus n : ℕ) (h : Holds n scan) where
  save_bus-Holds : Ensures Anything (save_bus scan bus) (λ r _. Holds (n + 5) r.1) tt
  unfolding save_bus
  save_bus-Holds =
      bind Anything (λ r _. Between 0x40 0xfc r) (λ r _. Holds (n + 5) r.1) _ _ tt
        (scan_cap-Between (config_of scan bus) Regs.cap_id_pm)
        λ pm _ pm_between.
          bind Anything (λ r _. Between 0x40 0xfc r) (λ r _. Holds (n + 5) r.1) _ _ tt
            (scan_cap-Between (config_of scan bus) Regs.cap_id_exp)
            λ exp _ exp_between.
              bind Anything (λ r _. Between 0x100 0xffc r) (λ r _. Holds (n + 5) r.1) _ _ tt
                (scan_extcap-Between (config_of scan bus) Regs.ext_cap_id_l1ss)
                λ l1ss _ l1ss_between.
                  branch Anything (λ r _. Holds (n + 5) r.1) (unusable pm exp l1ss) _ _ tt
                    (λ _. weaker)
                    λ usable. (
                      tt,
                      λ control _.
                          branch Anything (λ r _. Holds (n + 5) r.1)
                            (not (bit_and control Regs.pm_ctrl_state_mask == 0)) _ _ tt
                            (λ _. weaker)
                            λ _.
                              bind Anything (λ s _. Holds (n + 5) s) (λ r _. Holds (n + 5) r.1) _ _
                                tt
                                (save_all-Holds scan _ n (n + 5) h
                                  (let pm_at = le-offset 0x40 0xfc pm pm_between (ground arith) in
                                    let exp_at =
                                      le-offset 0x40 0xfc exp exp_between (ground arith) in
                                    let l1ss_at =
                                      le-offset 0x100 0xffc l1ss l1ss_between (ground arith) in
                                    let pm_top = offset-le 0x40 0xfc pm pm_between in
                                    let exp_top = offset-le 0x40 0xfc exp exp_between in
                                    let l1ss_top : offset l1ss + 0xc ≤ 0xffc = ground arith in
                                    omega arith)
                                  (omega arith))
                                (λ s _ h'. h'),
                    )
    where
      weaker : Holds (n + 5) scan
      weaker = Holds-le n (n + 5) scan h (omega arith)

  -- The MSI capability and its registers.
  save_msi-Holds : Ensures Anything (save_msi scan) (λ r _. Holds (n + 5) r.1) tt
  unfolding save_msi
  save_msi-Holds =
      bind Anything (λ r _. Between 0x40 0xfc r) (λ r _. Holds (n + 5) r.1) _ _ tt
        (scan_cap-Between scan.ep Regs.cap_id_msi)
        λ cap _ between.
          branch Anything (λ r _. Holds (n + 5) r.1) (no_room cap) _ _ tt (λ _. weaker)
            λ room. (
              tt,
              λ flags _.
                  branch Anything (λ r _. Holds (n + 5) r.1)
                    (not (bit_and flags Regs.msi_flags_enable == 0)) _ _ tt (λ _. weaker)
                    λ _.
                      bind Anything (λ s _. Holds (n + 5) s) (λ r _. Holds (n + 5) r.1) _ _ tt
                        (save_all-Holds _ _ n (n + 5)
                          (record { bounded = h.bounded; apart = h.apart })
                          (registers (offset cap) _ _
                            (le-offset 0x40 0xfc cap between (ground arith))
                            (offset-le 0x40 0xfc cap between))
                          (room_for (offset cap) n _ _))
                        (λ s _ h'. h'),
            )
    where
      weaker : Holds (n + 5) scan
      weaker = Holds-le n (n + 5) scan h (omega arith)

windows-Apart : (assign_memory : Bool) → All WantedApart (windows assign_memory)
windows-Apart false = omega arith
windows-Apart true = omega arith

windows-fit : (n : ℕ) (assign_memory : Bool) → n + length (windows assign_memory) ≤ n + 6
windows-fit n false = omega arith
windows-fit n true = omega arith

watchdog-Apart : (bind : Bool) → All WantedApart (if bind then watchdog else [])
watchdog-Apart false = tt
watchdog-Apart true = omega arith

watchdog-fit : (bind : Bool) → 21 + length (if bind then watchdog else []) ≤ 26
watchdog-fit false = omega arith
watchdog-fit true = omega arith

-- Whatever the hardware reads as, `a1625_scan_save_controls` fills at most the 26 places of the
-- array `controls`, and every control that it saves lies behind the standard header or is one of
-- the root port's windows, inside the function's 4 KiB: it is never the command register, a bus
-- number or a BAR.
pub save_controls-Holds :
    (scan : Scan)
    → scan.controls ≡ []
    → Ensures Anything (save_controls scan) (λ r _. Holds 26 r.1) tt
unfolding save_controls
save_controls-Holds scan none_yet =
    bind Anything (λ r _. Holds 5 r.1) (λ r _. Holds 26 r.1) (save_bus scan 0) _ tt
      (save_bus-Holds scan 0 0 start)
      λ (r, s) _ h.
        branch Anything (λ r _. Holds 26 r.1) (nonzero r) _ _ tt
          (λ _. Holds-le 5 26 s h (omega arith))
          λ _.
            bind Anything (λ r _. Holds 10 r.1) (λ r _. Holds 26 r.1) (save_bus s 1) _ tt
              (save_bus-Holds s 1 5 h)
              λ (r, s) _ h.
                branch Anything (λ r _. Holds 26 r.1) (nonzero r) _ _ tt
                  (λ _. Holds-le 10 26 s h (omega arith))
                  λ _.
                    bind Anything (λ s _. Holds 16 s) (λ r _. Holds 26 r.1) _ _ tt
                      (save_all-Holds s _ 10 16 h (windows-Apart s.assign_memory)
                        (windows-fit 10 s.assign_memory))
                      λ s _ h.
                        bind Anything (λ r _. Holds 21 r.1) (λ r _. Holds 26 r.1)
                          (if is_some s.msi_domain then save_msi s else ret (pos 0, s)) _ tt
                          (branch Anything (λ r _. Holds 21 r.1) (is_some s.msi_domain) _ _ tt
                            (λ _. save_msi-Holds s 0 16 h) (λ _. Holds-le 16 21 s h (omega arith)))
                          λ (r, s) _ h.
                            branch Anything (λ r _. Holds 26 r.1) (nonzero r) _ _ tt
                              (λ _. Holds-le 21 26 s h (omega arith))
                              λ _.
                                bind Anything (λ s _. Holds 26 s) (λ r _. Holds 26 r.1) _ _ tt
                                  (save_all-Holds s (if s.bind_firmware then watchdog else []) 21 26
                                    h (watchdog-Apart s.bind_firmware)
                                    (watchdog-fit s.bind_firmware))
                                  (λ s _ h. h)
  where
    start : Holds 0 scan
    start = record { bounded = rw none_yet (omega arith); apart = rw none_yet tt }
