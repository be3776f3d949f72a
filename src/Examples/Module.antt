-- ===== src/Examples/Module.antt =====
-- windows-native/wifi/pmu-probe/a1625_pcie_domains.c and a1625_pcie_domains.h at concrete inputs.
use a1625_linux_winboot.Prelude.{
  ◌≡◌, ◌≢◌, refl, ◌||◌, true, false, pos, neg, eio, nonzero, some, [],
}
use a1625_linux_winboot.Kernel.{Op, ret, Ensures, ret-Keeps}
use a1625_linux_winboot.Kernel.Leases.{Leases}
use a1625_linux_winboot.Domains.{with_pcie_domains}
use a1625_linux_winboot.Domains.Held.{with_pcie_domains-Leases}
use a1625_linux_winboot.Domains.Failures.{Failures, Shown, with_pcie_domains-Shown}
use a1625_linux_winboot.Link.{observe_held_radio}
use a1625_linux_winboot.Link.Reset.{ResetLow, observe_held_radio-Low}
use a1625_linux_winboot.Chip.{snapshot_chip}
use a1625_linux_winboot.Chip.Back.{ReadBack, AllSame, untouched, snapshot_chip-Back}
use a1625_linux_winboot.Chip.Mastering.{snapshot_chip-Unmastered}
use a1625_linux_winboot.PciScan.Access.Mastering.{Unmastered}
use a1625_linux_winboot.Endpoint.{rc, ep}
use a1625_linux_winboot.PciScan.Firmware.{Hold}
use a1625_linux_winboot.Ready.{snapshot_registers, domains_init}
use a1625_linux_winboot.Ready.Held.{domains_init-Leases}
use a1625_linux_winboot.Ready.Callees.{first_call, callees_accept}
use a1625_linux_winboot.Examples.Params.{wifi_session, accepted}

with_pcie_domains-Leases_example :
    Ensures Leases (with_pcie_domains true true (some (ret (pos 0)))) (λ _ t. t ≡ []) []
with_pcie_domains-Leases_example =
    with_pcie_domains-Leases true true (some (ret (pos 0))) [] (ret-Keeps (pos 0))

with_pcie_domains-Shown_example :
    Ensures Failures (with_pcie_domains true true (some (ret (pos 0)))) Shown false
with_pcie_domains-Shown_example = with_pcie_domains-Shown true true (some (ret (pos 0))) refl

observe_held_radio-Low_example :
    Ensures
      (ResetLow 3)
      (observe_held_radio true true (ret (pos 0)) 5 3)
      (λ r low. (nonzero r || low) ≡ true)
      true
observe_held_radio-Low_example = observe_held_radio-Low 3 true true (ret (pos 0)) 5

snapshot_chip-Back_example :
    Ensures ReadBack (snapshot_chip true) (λ r s. r ≢ neg eio → AllSame s) untouched
snapshot_chip-Back_example = snapshot_chip-Back true

abbrev hundred_ticks : Hold
hundred_ticks = record { hz = 100; rounds = 400000 }

domains_init-Leases_example :
    Ensures Leases (domains_init wifi_session hundred_ticks) (λ _ t. t ≡ []) []
domains_init-Leases_example = domains_init-Leases wifi_session hundred_ticks []

callees_accept_example :
    (first_call (domains_init wifi_session hundred_ticks)
      ≡ some (Op.of_root_is_compatible "apple,j42d"))
    × (first_call (snapshot_registers wifi_session hundred_ticks)
        ≡ some (Op.of_root_is_compatible "apple,j42d"))
callees_accept_example = callees_accept wifi_session hundred_ticks accepted

snapshot_chip-Unmastered_example :
    Ensures (Unmastered rc ep) (snapshot_chip true) (λ _ _. Unit {0}) tt
snapshot_chip-Unmastered_example = snapshot_chip-Unmastered true
