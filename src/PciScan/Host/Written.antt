-- ===== src/PciScan/Host/Written.antt =====
-- What `a1625_pci_scan` writes back, as leases.
use a1625_linux_winboot.Prelude.{
  ℕ, ◌+◌, ◌<◌, ◌≡◌, refl, true, not, ◌==◌, if◌then◌else◌, ℤ, List, [], ◌∷◌, All, arith,
}
use a1625_linux_winboot.Kernel.{Prog, Ensures, branch, resume, readw, readl, writew, writel}
use a1625_linux_winboot.Kernel.Leases.{Lease, mapped, Leases}
use a1625_linux_winboot.PciScan.Regs
use a1625_linux_winboot.PciScan.Controls.{Control, Scan}
use a1625_linux_winboot.PciScan.Controls.Spared.{ControlApart}
use a1625_linux_winboot.PciScan.Core.Held.{ConfigMapped, Sound}
use a1625_linux_winboot.PciScan.Host.{
  Baseline, restore_control, restore_controls, restore_bars, compare, restore_last, restore_header,
  restore,
}

abbrev pub Same : {A : Type 0} → Prog A → List Lease → Type 0
Same m s = Ensures Leases m (λ _ t. t ≡ s) s

abbrev pub Small : ℕ → Type 0
Small a = a < 4096

-- Each address stands inside one of the two spaces.
abbrev pub Inside : (rc ep : ℕ) → ℕ × ℕ → Type 0
Inside rc ep (at, value) = (s : List Lease) → ConfigMapped rc ep s → mapped at s ≡ true

-- The BARs that were read stand inside the two spaces.
pub record BarsInside (rc ep : ℕ) (b : Baseline) : Type 0 where
  pub rc_bars : All (Inside rc ep) b.rc_bars
  pub ep_bars : All (Inside rc ep) b.ep_bars

module _ (rc ep : ℕ) where
  restore_control-Same :
      (s : List Lease)
      → ConfigMapped rc ep s
      → (c : Control) (r : ℤ) → ControlApart c
      → Same (restore_control rc ep c r) s
  unfolding restore_control
  restore_control-Same s on c r apart =
      let at = on c.place in
      let inside : mapped ((if c.bus == 0 then rc else ep) + c.place) s ≡ true = ground arith in
      resume Leases (λ _ t. t ≡ s)
        (if c.size == 2
          then writew c.saved ((if c.bus == 0 then rc else ep) + c.place)
          else writel c.saved ((if c.bus == 0 then rc else ep) + c.place))
        _ s
        (branch Leases (λ _ t. t ≡ s) (c.size == 2) _ _ s (λ _. (inside, λ _ _. refl))
          (λ _. (inside, λ _ _. refl)))
        λ _.
          resume Leases (λ _ t. t ≡ s)
            (if c.size == 2
              then readw ((if c.bus == 0 then rc else ep) + c.place)
              else readl ((if c.bus == 0 then rc else ep) + c.place))
            _ s
            (branch Leases (λ _ t. t ≡ s) (c.size == 2) _ _ s (λ _. (inside, λ _ _. refl))
              (λ _. (inside, λ _ _. refl)))
            (λ _. refl)

  restore_controls-Same :
      (s : List Lease)
      → ConfigMapped rc ep s
      → (cs : List Control) (r : ℤ) → All ControlApart cs
      → Same (restore_controls rc ep cs r) s
  unfolding restore_controls
  restore_controls-Same s on [] r apart = refl
  restore_controls-Same s on (c ∷ cs) r apart =
      resume Leases (λ _ t. t ≡ s) (restore_controls rc ep cs r) _ s
        (restore_controls-Same s on cs r apart.1) (λ r. restore_control-Same s on c r apart.0)

  restore_bars-Same :
      (s : List Lease)
      → ConfigMapped rc ep s
      → (bars : List (ℕ × ℕ)) (r : ℤ) → All (Inside rc ep) bars
      → Same (restore_bars bars r) s
  unfolding restore_bars
  restore_bars-Same s on [] r inside = refl
  restore_bars-Same s on ((at, value) ∷ bars) r inside =
      (inside.0 s on, λ _ _. (inside.0 s on, λ observed _. restore_bars-Same s on bars _ inside.1))

  compare-Same : (s : List Lease) → ConfigMapped rc ep s → (b : Baseline) → Same (compare rc ep b) s
  unfolding compare
  compare-Same s on b = (
    (on Regs.command (omega arith)).0,
    λ rc_command _.
        branch Leases (λ _ t. t ≡ s) (not (rc_command == 0)) _ _ s (λ _. refl)
          λ _. (
            (on Regs.command (omega arith)).1,
            λ ep_command _.
                branch Leases (λ _ t. t ≡ s) (not (ep_command == 0)) _ _ s (λ _. refl)
                  λ _. (
                    (on Regs.rom_address1 (omega arith)).0,
                    λ rc_rom _.
                        branch Leases (λ _ t. t ≡ s) (not (rc_rom == b.rc_rom)) _ _ s (λ _. refl)
                          λ _. (
                            (on Regs.rom_address (omega arith)).1,
                            λ ep_rom _.
                                branch Leases (λ _ t. t ≡ s) (not (ep_rom == b.ep_rom)) _ _ s
                                  (λ _. refl)
                                  λ _. (
                                    (on Regs.primary_bus (omega arith)).0,
                                    λ buses _.
                                        branch Leases (λ _ t. t ≡ s) (not (buses == b.bus_numbers))
                                          _ _ s (λ _. refl)
                                          λ _.
                                            ((on Regs.bridge_control (omega arith)).0, λ _ _. refl),
                                  ),
                          ),
                  ),
          ),
  )

  restore_last-Same :
      (s : List Lease)
      → ConfigMapped rc ep s
      → (b : Baseline) (r : ℤ) → Same (restore_last rc ep b r) s
  unfolding restore_last
  restore_last-Same s on b r = (
    (on Regs.rom_address1 (omega arith)).0,
    λ _ _. (
      (on Regs.rom_address (omega arith)).1,
      λ _ _. (
        (on Regs.primary_bus (omega arith)).0,
        λ _ _. (
          (on Regs.bridge_control (omega arith)).0,
          λ _ _.
              resume Leases (λ _ t. t ≡ s) (compare rc ep b) _ s (compare-Same s on b) (λ _. refl),
        ),
      ),
    ),
  )

  pub restore-Same :
      (s : List Lease)
      → ConfigMapped rc ep s
      → (b : Baseline) (scan : Scan) (r : ℤ) → BarsInside rc ep b
      → Sound rc ep scan
      → Same (restore rc ep b scan r) s
  unfolding restore restore_header
  restore-Same s on b scan r bars h =
      resume Leases (λ _ t. t ≡ s) (restore_controls rc ep scan.controls r) _ s
        (restore_controls-Same s on scan.controls r h.apart)
        λ r.
          resume Leases (λ _ t. t ≡ s) (restore_header rc ep b r) _ s
            (
              (on Regs.command (omega arith)).1,
              λ _ _. (
                (on Regs.command (omega arith)).0,
                λ _ _.
                    resume Leases (λ _ t. t ≡ s) (restore_bars b.rc_bars r) _ s
                      (restore_bars-Same s on b.rc_bars r bars.rc_bars)
                      λ r.
                        resume Leases (λ _ t. t ≡ s) (restore_bars b.ep_bars r) _ s
                          (restore_bars-Same s on b.ep_bars r bars.ep_bars)
                          λ r. restore_last-Same s on b r,
              ),
            )
            (λ _. refl)
