-- ===== src/Params/Stages.antt =====
-- The stages that the module's parameters ask for.
use a1625_linux_winboot.Prelude.{
  ◌≤◌, ◌≡◌, ◌≢◌, refl, ◌⊎◌, Bool, true, false, ◌||◌, if◌then◌else◌, ℤ, pos, neg, nonzero, ecanceled,
  List, [], ◌∷◌, All, arith,
}
use a1625_linux_winboot.Kernel.{Prog, Monitor, Ensures, bind, branch}
use a1625_linux_winboot.Params.{Params, conflicts, any, init}

abbrev pub Accepted : Params → Type 0
Accepted p = any (conflicts p) ≡ false

any-All : (bs : List Bool) → any bs ≡ false → All (λ b. b ≡ false) bs
unfolding any
any-All [] h = tt
any-All (true ∷ bs) h = cc
any-All (false ∷ bs) h = (refl, any-All bs h)

-- The power domains are cycled and the port is prepared, with the clock tested.
pub record PortStage (p : Params) : Type 0 where
  pub cycle : p.cycle ≡ true
  pub snapshot : p.snapshot ≡ true
  pub prepare_port : p.prepare_port ≡ true
  pub inspect_prefix : p.inspect_prefix ≡ true
  pub test_refclk : p.test_refclk ≡ true

-- The radio is powered: domains are forced active, and no diagnostic of a silent radio runs.
pub record RadioStage (p : Params) : Type 0 where
  pub port : PortStage p
  pub pulse_radio : p.pulse_radio ≡ true
  pub force_active : p.force_active ≡ true
  pub inspect_rc : p.inspect_rc ≡ true
  pub no_probe_dart : p.probe_dart ≡ false
  pub no_map_dart : p.map_dart ≡ false
  pub no_probe_msi : p.probe_msi ≡ false

-- The kernel enumerates the endpoint.
pub record ScanStage (p : Params) : Type 0 where
  pub radio : RadioStage p
  pub train_link : p.train_link ≡ true
  pub identify_endpoint : p.identify_endpoint ≡ true
  pub no_identify_chip : p.identify_chip ≡ false
  pub no_inspect_erom : p.inspect_erom ≡ false

-- The endpoint's driver is bound.
pub record FirmwareStage (p : Params) : Type 0 where
  pub scan : ScanStage p
  pub scan_pci : p.scan_pci ≡ true
  pub inspect_dart : p.inspect_dart ≡ true
  pub scan_iommu : p.scan_iommu ≡ true
  pub scan_msi : p.scan_msi ≡ true
  pub assign_memory : p.assign_memory ≡ true

module _ (p : Params) (accepted : Accepted p) where
  test_refclk-PortStage : p.test_refclk ≡ true → PortStage p
  unfolding conflicts
  test_refclk-PortStage h = let clear = any-All _ accepted in ground arith

  -- What the checks of the callees ask for.
  pub requested :
      (p.force_active ≡ true → p.cycle ≡ true)
      × (p.snapshot ≡ true → p.cycle ≡ true)
      × (p.inspect_prefix ≡ true → p.prepare_port ≡ true)
      × (p.test_refclk ≡ true → p.inspect_prefix ≡ true)
  unfolding conflicts
  requested =
      let clear = any-All _ accepted in (ground arith, ground arith, ground arith, ground arith)

  pulse_radio-RadioStage : p.pulse_radio ≡ true → RadioStage p
  unfolding conflicts
  pulse_radio-RadioStage h = let clear = any-All _ accepted in ground (arith, test_refclk-PortStage)

  scan_pci-ScanStage : p.scan_pci ≡ true → ScanStage p
  unfolding conflicts
  scan_pci-ScanStage h = let clear = any-All _ accepted in ground (arith, pulse_radio-RadioStage)

  -- Accepted parameters bind the firmware driver only with every earlier stage switched on and
  -- every diagnostic that wants a silent radio or its own BAR mapping switched off.
  pub bind_firmware-FirmwareStage : p.bind_firmware ≡ true → FirmwareStage p
  unfolding conflicts
  bind_firmware-FirmwareStage h =
      let clear = any-All _ accepted in ground (arith, scan_pci-ScanStage)

  -- With accepted parameters a hold is of at most 3600 seconds; unless it is of none, the driver
  -- is bound and the hold does not wait for a signal; a hold until a signal has the driver bound
  -- too.
  pub hold_bounds :
      (p.hold_seconds ≤ 3600)
      × ((p.hold_seconds ≡ 0) ⊎ ((p.bind_firmware ≡ true) × (p.hold_until_signal ≡ false)))
      × ((p.hold_until_signal ≡ false) ⊎ (p.bind_firmware ≡ true))
  unfolding conflicts
  hold_bounds = let clear = any-All _ accepted in ground arith

  -- Accepted parameters that pulse the radio, probe its DART or probe the MSI controller cycle the
  -- domains, force them active and test the clock.
  pub needs_force_active :
      (p.pulse_radio || p.probe_dart || p.probe_msi) ≡ true
      → (p.force_active ≡ true) × (p.test_refclk ≡ true) × (p.cycle ≡ true)
  unfolding conflicts
  needs_force_active h = let clear = any-All _ accepted in ground (arith, test_refclk-PortStage)

-- Whatever the observation does within its protocol, and whatever it returns, `init` does not
-- return 0.
pub init-ne-zero :
    (M : Monitor) (p : Params) (observation : Prog ℤ) (s : M.State)
    → Ensures M observation (λ _ _. Unit {0}) s
    → Ensures M (init p observation) (λ r _. r ≢ pos 0) s
unfolding init
init-ne-zero M p observation s h =
    branch M (λ r _. r ≢ pos 0) (any (conflicts p)) _ _ s (λ _. ground arith)
      λ _. bind M (λ _ _. Unit {0}) (λ r _. r ≢ pos 0) observation _ s h (λ r t _. result r)
  where
    result : (r : ℤ) → (if nonzero r then r else neg ecanceled) ≢ pos 0
    result r = ground arith
