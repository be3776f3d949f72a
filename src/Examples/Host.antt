-- ===== src/Examples/Host.antt =====
-- windows-native/wifi/pmu-probe/a1625_pci_scan.h, a1625_msi.h and the modules that add device tree
-- nodes, at concrete inputs.
use a1625_linux_winboot.Prelude.{◌≡◌, refl, inl, true, false, pos, none, some, [], ◌∷◌, arith}
use a1625_linux_winboot.Kernel.{ret, ◌>>=◌, Ensures, Keeps}
use a1625_linux_winboot.Kernel.Leases.{mapping, Leases}
use a1625_linux_winboot.Phy.{port}
use a1625_linux_winboot.Msi.{with_msi}
use a1625_linux_winboot.Msi.Held.{with_msi-Leases}
use a1625_linux_winboot.DeviceTree.Dart.{with_dart}
use a1625_linux_winboot.DeviceTree.Dart.Held.{with_dart-Leases}
use a1625_linux_winboot.DeviceTree.Map.{dart_map}
use a1625_linux_winboot.DeviceTree.Map.Held.{dart_map-Leases}
use a1625_linux_winboot.DeviceTree.PciNode.{pci_node_create, pci_node_remove}
use a1625_linux_winboot.DeviceTree.PciNode.Held.{pci_node_remove-pci_node_create}
use a1625_linux_winboot.Endpoint.{rc, ep}
use a1625_linux_winboot.Endpoint.Held.{endpoint_held}
use a1625_linux_winboot.PciScan.Firmware.{Hold, hold_for}
use a1625_linux_winboot.PciScan.Firmware.Ends.{Ticking, returned, hold_for-Returned}
use a1625_linux_winboot.PciScan.Access.Mastering.{Unmastered}
use a1625_linux_winboot.Chip.Back.{ReadBack, untouched}
use a1625_linux_winboot.PciScan.Host.Back.{ReadAsFirst}
use a1625_linux_winboot.PciScan.Host.Kept.{pci_scan-ReadAsFirst}
use a1625_linux_winboot.PciScan.Silence.{pci_scan-Unmastered}
use a1625_linux_winboot.PciScan.Host.{Options, pci_scan}
use a1625_linux_winboot.PciScan.Host.Held.{pci_scan-Leases}

-- The driver is bound for a minute.
abbrev bound_minute : Options
bound_minute = record {
  dart = some 7;
  msi_domain = some 9;
  assign_memory = true;
  bind_firmware = true;
  hold_seconds = 60;
  hold_until_signal = false;
  hold = record { hz = 100; rounds = 6002 };
}

pci_scan-Leases_example :
    Ensures Leases (pci_scan bound_minute rc ep) (λ _ t. t ≡ endpoint_held []) (endpoint_held [])
pci_scan-Leases_example =
    pci_scan-Leases rc ep (endpoint_held []) (λ a low. (ground arith, ground arith)) bound_minute

with_msi-Leases_example :
    Ensures Leases
      (with_msi (λ domain. ret (pos 0)))
      (λ _ t. t ≡ mapping port 0x1000 ∷ [])
      (mapping port 0x1000 ∷ [])
with_msi-Leases_example =
    with_msi-Leases (λ domain. ret (pos 0)) (λ domain s on. refl) (mapping port 0x1000 ∷ [])
      (refl, refl, refl, refl)

with_dart-Leases_example :
    Ensures Leases
      (with_dart (some dart_map) true)
      (λ _ t. t ≡ mapping port 0x1000 ∷ [])
      (mapping port 0x1000 ∷ [])
with_dart-Leases_example =
    with_dart-Leases (some dart_map) (λ dart s on. (dart_map-Leases dart).keeps s) true
      (mapping port 0x1000 ∷ []) (refl, refl, refl, refl)

dart_map-Leases_example : Keeps Leases (dart_map 7)
dart_map-Leases_example = dart_map-Leases 7

pci_node_remove-pci_node_create_example :
    Ensures Leases (pci_node_create 7 >>= λ (r, state). pci_node_remove state) (λ _ t. t ≡ []) []
pci_node_remove-pci_node_create_example = pci_node_remove-pci_node_create 7 []

-- A minute at 100 ticks a second.
abbrev minute : Hold
minute = record { hz = 100; rounds = 6002 }

hold_for-Returned_example :
    Ensures Ticking (hold_for minute 7 60 false) (λ r _. returned r ≡ true) none
hold_for-Returned_example = hold_for-Returned minute 7 60 (omega arith) (omega arith)

-- The scan alone, without a DART.
abbrev listed : Options
listed = record bound_minute { dart = none; msi_domain = none; bind_firmware = false }

pci_scan-Unmastered_example :
    Ensures (Unmastered rc ep) (pci_scan listed rc ep) (λ _ _. Unit {0}) tt
pci_scan-Unmastered_example = pci_scan-Unmastered rc ep (inl (omega arith)) listed refl

pci_scan-ReadAsFirst_example :
    Ensures ReadBack
      (pci_scan bound_minute rc ep)
      (λ r s. r ≡ pos 0 → ReadAsFirst rc ep s)
      untouched
pci_scan-ReadAsFirst_example = pci_scan-ReadAsFirst rc ep (inl (omega arith)) bound_minute
