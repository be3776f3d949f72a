-- ===== src/Params.antt =====
-- windows-native/wifi/pmu-probe/a1625_pcie_domains.c: the module's parameters, the checks that
-- `a1625_pcie_domains_init` makes on them before anything else, and its return value.
pub mod Stages
use a1625_linux_winboot.Prelude.{
  ℕ, Bool, true, false, not, ◌&&◌, ◌||◌, ◌==◌, ltb, if◌then◌else◌, ℤ, neg, nonzero, einval,
  ecanceled, List, [], ◌∷◌,
}
use a1625_linux_winboot.Kernel.{Prog, ret, ◌>>=◌}

pub record Params : Type 0 where
  pub cycle : Bool
  pub force_active : Bool
  pub snapshot : Bool
  pub prepare_port : Bool
  pub inspect_prefix : Bool
  pub test_refclk : Bool
  pub inspect_rc : Bool
  pub inspect_dart : Bool
  pub probe_msi : Bool
  pub probe_dart : Bool
  pub map_dart : Bool
  pub test_dma_range : Bool
  pub pulse_radio : Bool
  pub train_link : Bool
  pub identify_endpoint : Bool
  pub identify_chip : Bool
  pub inspect_erom : Bool
  pub scan_pci : Bool
  pub scan_iommu : Bool
  pub scan_msi : Bool
  pub assign_memory : Bool
  pub bind_firmware : Bool
  pub hold_seconds : ℕ
  pub hold_until_signal : Bool

-- The conditions of the `if`s that return -EINVAL, in their order.
unfoldable pub conflicts : Params → List Bool
conflicts p =
    (p.snapshot && not p.cycle)
    ∷ (p.force_active && not p.cycle)
    ∷ (p.prepare_port && (not p.snapshot || not p.cycle))
    ∷ (p.inspect_prefix && not p.prepare_port)
    ∷ (p.inspect_rc && not p.inspect_prefix)
    ∷ (p.test_refclk && not p.inspect_prefix)
    ∷ (p.inspect_dart && not p.test_refclk)
    ∷ (p.probe_dart && (not p.inspect_dart || not p.force_active || p.pulse_radio))
    ∷ (p.map_dart && not p.probe_dart)
    ∷ (p.test_dma_range && not p.map_dart && not p.scan_iommu)
    ∷ (p.pulse_radio && (not p.test_refclk || not p.inspect_rc || not p.force_active))
    ∷ (p.train_link && not p.pulse_radio)
    ∷ (p.identify_endpoint && not p.train_link)
    ∷ (p.identify_chip && not p.identify_endpoint)
    ∷ (p.inspect_erom && not p.identify_chip)
    ∷ (p.scan_pci && (not p.identify_endpoint || p.identify_chip))
    ∷ (p.scan_iommu && (not p.scan_pci || not p.inspect_dart || p.probe_dart || p.map_dart))
    ∷ (p.scan_msi && not p.scan_iommu)
    ∷ (p.assign_memory && not p.scan_msi)
    ∷ (p.bind_firmware && not p.assign_memory)
    ∷ (not (p.hold_seconds == 0) && (not p.bind_firmware || ltb 3600 p.hold_seconds))
    ∷ (p.hold_until_signal && (not p.bind_firmware || not (p.hold_seconds == 0)))
    ∷ (p.probe_msi && (not p.test_refclk || not p.force_active || p.pulse_radio || p.probe_dart))
    ∷ []

unfoldable pub any : List Bool → Bool
any [] = false
any (b ∷ bs) = if b then true else any bs

-- `with_pcie_domains` is `a1625_with_pcie_domains` at the module's parameters and callback.
unfoldable pub init : Params → Prog ℤ → Prog ℤ
unfolding any conflicts
init p with_pcie_domains =
    if any (conflicts p)
    then ret (neg einval)
    else do r ← with_pcie_domains; ret (if nonzero r then r else neg ecanceled)
