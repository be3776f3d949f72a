-- ===== src/DeviceTree.antt =====
-- The device tree nodes that the modules add for a time, in windows-native/wifi/pmu-probe:
-- a1625_dart_lifetime.h (DeviceTree/Dart), a1625_dart_map.h (DeviceTree/Map) and a1625_pci_node.h
-- (DeviceTree/PciNode). Here is what they share: a changeset is told by a number of its own.
pub mod Dart
pub mod Map
pub mod PciNode
pub mod Held
use a1625_linux_winboot.Prelude.{ℕ, Bool, if◌then◌else◌, ℤ, pos, nonzero, List, [], ◌∷◌}
use a1625_linux_winboot.Kernel.{
  Prog, ret, ◌>>=◌, ◌>>◌, of_changeset_revert, of_node_is_detached, of_detach_node,
  of_node_clear_populated,
}

abbrev pub dart_changes : ℕ
dart_changes = 1

abbrev pub map_changes : ℕ
map_changes = 2

abbrev pub pci_changes : ℕ
pci_changes = 3

-- The phandle by which clients name the DART.
abbrev pub dart_phandle : ℕ
dart_phandle = 0xa162_5001

-- `if (!ret) ret = ...` in a row.
unfoldable pub in_turn : List (Prog ℤ) → Prog ℤ
in_turn [] = ret (pos 0)
in_turn (m ∷ ms) = do r ← m; if nonzero r then ret r else in_turn ms

-- `cleanup = ...; if (cleanup) ret = cleanup;`
abbrev pub cleaned : (cleanup r : ℤ) → ℤ
cleaned cleanup r = if nonzero cleanup then cleanup else r

-- `if (!of_node_check_flag(node, OF_DETACHED))`: what is left of the node is detached; then its
-- flag is cleared.
unfoldable pub detached : (node : ℕ) → ℤ → Prog ℤ
detached node r = do
  gone ← of_node_is_detached node
  cleanup ← if gone then ret (pos 0) else of_detach_node node
  of_node_clear_populated node
  ret (cleaned cleanup r)

-- `if (applied)`: the changeset is reverted.
unfoldable pub reverted : (changes : ℕ) (applied : Bool) → ℤ → Prog ℤ
reverted changes applied r = do
  cleanup ← if applied then of_changeset_revert changes else ret (pos 0)
  ret (cleaned cleanup r)
