-- ===== src/PciScan/Silence/Written.antt =====
-- What `a1625_pci_scan` reads first and writes back, and the bus master bits.
use a1625_linux_winboot.Prelude.{
  ℕ, ◌+◌, ◌≤◌, ◌≡◌, ◌⊎◌, inl, inr, refl, Bool, true, false, not, ◌||◌, ◌==◌, if◌then◌else◌, ℤ,
  Option, none, some, List, [], ◌∷◌, All, bit_and, bit_or, arith,
}
use a1625_linux_winboot.Kernel.{Ensures, bind, branch}
use a1625_linux_winboot.PciScan.Regs
use a1625_linux_winboot.PciScan.Controls.{Control, Scan}
use a1625_linux_winboot.PciScan.Controls.Spared.{ControlApart}
use a1625_linux_winboot.PciScan.Access.Mastering.{Unmastered, Clear, IsQuiet}
use a1625_linux_winboot.PciScan.Host.{
  Baseline, read_bars, rc_places, ep_places, read_baseline, restore_control, restore_controls,
  restore_bars, compare, restore_last, restore_header, restore,
}
use a1625_linux_winboot.PciScan.Silence.Reading.{Reads, unmastered}

module _ (rc ep : ℕ) (disjoint : (rc + 4096 ≤ ep) ⊎ (ep + 4096 ≤ rc)) where
  abbrev Done : {A : Type 0} → A → Unit {0} → Type 0
  Done a t = Unit {0}

  -- A word apart from both command registers.
  abbrev pub WordClear : ℕ × ℕ → Type 0
  WordClear (at, value) = Clear at 4 (rc + 4) × Clear at 4 (ep + 4)

  pub record BarsClear (b : Baseline) : Type 0 where
    pub rc_bars : All WordClear b.rc_bars
    pub ep_bars : All WordClear b.ep_bars

  restore_control-Quiet :
      (c : Control) (r : ℤ)
      → ControlApart c
      → Ensures (Unmastered rc ep) (restore_control rc ep c r) Done tt
  unfolding restore_control
  restore_control-Quiet c r apart = ground arith

  restore_controls-Quiet :
      (cs : List Control) (r : ℤ)
      → All ControlApart cs
      → Ensures (Unmastered rc ep) (restore_controls rc ep cs r) Done tt
  unfolding restore_controls
  restore_controls-Quiet [] r apart = tt
  restore_controls-Quiet (c ∷ cs) r apart =
      bind (Unmastered rc ep) Done Done (restore_controls rc ep cs r) _ tt
        (restore_controls-Quiet cs r apart.1) (λ r _ _. restore_control-Quiet c r apart.0)

  restore_bars-Quiet :
      (bars : List (ℕ × ℕ)) (r : ℤ)
      → All WordClear bars
      → Ensures (Unmastered rc ep) (restore_bars bars r) Done tt
  unfolding restore_bars
  restore_bars-Quiet [] r clear = tt
  restore_bars-Quiet ((at, value) ∷ bars) r clear =
      (clear.0, λ _ _. ((tt, tt), λ observed _. restore_bars-Quiet bars _ clear.1))

  compare-Reads : (b : Baseline) → Reads (compare rc ep b)
  unfolding compare
  compare-Reads b = ground arith

  restore_last-Quiet :
      (b : Baseline) (r : ℤ) → Ensures (Unmastered rc ep) (restore_last rc ep b r) Done tt
  unfolding restore_last
  restore_last-Quiet b r = (
    omega arith,
    λ _ _. (
      omega arith,
      λ _ _. (
        omega arith,
        λ _ _. (
          (inl (omega arith), inl (omega arith)),
          λ _ _.
              bind (Unmastered rc ep) Done Done (compare rc ep b) _ tt
                (unmastered rc ep (λ _. Unit {0}) (compare rc ep b) (compare-Reads b))
                (λ _ _ _. tt),
        ),
      ),
    ),
  )

  pub restore-Quiet :
      (b : Baseline) (scan : Scan) (r : ℤ)
      → BarsClear b
      → IsQuiet rc ep scan
      → Ensures (Unmastered rc ep) (restore rc ep b scan r) Done tt
  unfolding restore restore_header
  restore-Quiet b scan r clear q =
      bind (Unmastered rc ep) Done Done (restore_controls rc ep scan.controls r) _ tt
        (restore_controls-Quiet scan.controls r q.apart)
        λ r _ _.
          bind (Unmastered rc ep) Done Done (restore_header rc ep b r) _ tt
            (
              (inr (ground arith), inr (ground arith)),
              λ _ _. (
                (inr (ground arith), inr (ground arith)),
                λ _ _.
                    bind (Unmastered rc ep) Done Done (restore_bars b.rc_bars r) _ tt
                      (restore_bars-Quiet b.rc_bars r clear.rc_bars)
                      λ r _ _.
                        bind (Unmastered rc ep) Done Done (restore_bars b.ep_bars r) _ tt
                          (restore_bars-Quiet b.ep_bars r clear.ep_bars)
                          (λ r _ _. restore_last-Quiet b r),
              ),
            )
            (λ _ _ _. tt)

  -- Behind the command register, in one of the two functions.
  abbrev Bar : ℕ → Type 0
  Bar place = (0x10 ≤ place) × (place + 4 ≤ 4096)

  abbrev pub BarsRead : Option Baseline → Unit {0} → Type 0
  BarsRead none t = Unit
  BarsRead (some b) t = BarsClear b

  read_bars-Clear :
      (cfg : ℕ) (places : List ℕ)
      → (cfg ≡ rc) ⊎ (cfg ≡ ep)
      → All Bar places
      → Ensures (Unmastered rc ep) (read_bars cfg places) (λ l _. All WordClear l) tt
  unfolding read_bars
  read_bars-Clear cfg [] which bars = tt
  read_bars-Clear cfg (place ∷ places) which bars = (
    (tt, tt),
    λ value _.
        bind (Unmastered rc ep) (λ l _. All WordClear l) (λ l _. All WordClear l)
          (read_bars cfg places) _ tt (read_bars-Clear cfg places which bars.1)
          (λ l _ k. (omega (arith, bars.0, which), k)),
  )

  pub read_baseline-Clear : Ensures (Unmastered rc ep) (read_baseline rc ep) BarsRead tt
  unfolding read_baseline
  read_baseline-Clear = (
    (tt, tt),
    λ rc_command _. (
      (tt, tt),
      λ ep_command _.
          branch (Unmastered rc ep) BarsRead (not (rc_command == 0) || not (ep_command == 0)) _ _ tt
            (λ _. tt)
            λ _. (
              (tt, tt),
              λ control _. (
                (tt, tt),
                λ buses _.
                    branch (Unmastered rc ep) BarsRead
                      (not (bit_and buses 0xff_ffff == 0x01_0100)
                        || not (bit_and control Regs.bridge_ctl_bus_reset == 0))
                      _ _ tt (λ _. tt)
                      λ _.
                        bind (Unmastered rc ep) (λ l _. All WordClear l) BarsRead
                          (read_bars rc rc_places) _ tt
                          (read_bars-Clear rc rc_places (inl refl) (omega arith))
                          λ rc_bars _ k.
                            bind (Unmastered rc ep) (λ l _. All WordClear l) BarsRead
                              (read_bars ep ep_places) _ tt
                              (read_bars-Clear ep ep_places (inr refl) (omega arith))
                              λ ep_bars _ j. (
                                (tt, tt),
                                λ rc_rom _. (
                                  (tt, tt),
                                  λ ep_rom _.
                                      kept
                                        (not (
                                          bit_and (bit_or rc_rom ep_rom) Regs.rom_address_enable
                                          == 0))
                                        (record { rc_bars = k; ep_bars = j }),
                                ),
                              ),
              ),
            ),
    ),
  )
    where
      kept : (b : Bool) {x : Baseline} → BarsClear x → BarsRead (if b then none else some x) tt
      kept true h = tt
      kept false h = h
