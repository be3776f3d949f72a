-- ===== src/Examples/Params.antt =====
-- The parameters of windows-native/wifi/pmu-probe/a1625_pcie_domains.c at concrete values.
use a1625_linux_winboot.Prelude.{◌≡◌, ◌≢◌, ◌≤◌}
use a1625_linux_winboot.Prelude.{true, false, pos, refl, ◌⊎◌}
use a1625_linux_winboot.Kernel.{ret, Ensures}
use a1625_linux_winboot.Kernel.Anything.{Anything}
use a1625_linux_winboot.Params.{Params, conflicts, any, init}
use a1625_linux_winboot.Params.Stages.{
  FirmwareStage, bind_firmware-FirmwareStage, hold_bounds, needs_force_active, init-ne-zero,
}

-- The parameters of a session that holds the radio for ten minutes.
abbrev pub wifi_session : Params
wifi_session = record {
  cycle = true;
  force_active = true;
  snapshot = true;
  prepare_port = true;
  inspect_prefix = true;
  test_refclk = true;
  inspect_rc = true;
  inspect_dart = true;
  probe_msi = false;
  probe_dart = false;
  map_dart = false;
  test_dma_range = true;
  pulse_radio = true;
  train_link = true;
  identify_endpoint = true;
  identify_chip = false;
  inspect_erom = false;
  scan_pci = true;
  scan_iommu = true;
  scan_msi = true;
  assign_memory = true;
  bind_firmware = true;
  hold_seconds = 600;
  hold_until_signal = false;
}

pub accepted : any (conflicts wifi_session) ≡ false
unfolding any conflicts
accepted = refl

-- A hold of more than an hour is refused.
too_long : any (conflicts (record wifi_session { hold_seconds = 3601 })) ≡ true
unfolding any conflicts
too_long = refl

bind_firmware-FirmwareStage_example : FirmwareStage wifi_session
bind_firmware-FirmwareStage_example = bind_firmware-FirmwareStage wifi_session accepted refl

hold_bounds_example :
    (wifi_session.hold_seconds ≤ 3600)
    × ((wifi_session.hold_seconds ≡ 0) ⊎ ((true ≡ true) × (false ≡ false)))
    × ((false ≡ false) ⊎ (true ≡ true))
hold_bounds_example = hold_bounds wifi_session accepted

needs_force_active_example : (true ≡ true) × (true ≡ true) × (true ≡ true)
needs_force_active_example = needs_force_active wifi_session accepted refl

init-ne-zero_example : Ensures Anything (init wifi_session (ret (pos 0))) (λ r _. r ≢ pos 0) tt
init-ne-zero_example = init-ne-zero Anything wifi_session (ret (pos 0)) tt tt
