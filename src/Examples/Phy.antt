-- ===== src/Examples/Phy.antt =====
-- windows-native/wifi/pmu-probe/a1625_pcie_phy.h at concrete inputs.
use a1625_linux_winboot.Prelude.{◌≡◌, refl, true, pos, []}
use a1625_linux_winboot.Kernel.{ret, Ensures, ret-Keeps}
use a1625_linux_winboot.Kernel.Registers.{Contents, Registers}
use a1625_linux_winboot.Kernel.Leases.{Leases}
use a1625_linux_winboot.Phy.{with_pcie_phy}
use a1625_linux_winboot.Phy.Restore.{Restores, with_pcie_phy-Restores}
use a1625_linux_winboot.Phy.Held.{with_pcie_phy-Leases}

abbrev zeros : Contents
zeros a = 0

with_pcie_phy-Restores_example :
    Ensures Registers (with_pcie_phy true true true (ret (pos 0))) (Restores zeros) zeros
with_pcie_phy-Restores_example =
    with_pcie_phy-Restores true true true (ret (pos 0)) zeros (ret-Keeps (pos 0))

with_pcie_phy-Leases_example :
    Ensures Leases (with_pcie_phy true true true (ret (pos 0))) (λ _ t. t ≡ []) []
with_pcie_phy-Leases_example = with_pcie_phy-Leases true true true (ret (pos 0)) [] refl
