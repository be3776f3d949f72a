-- ===== src/DeviceTree/PciNode.antt =====
-- windows-native/wifi/pmu-probe/a1625_pci_node.h: the node that routes the endpoint's DMA to the DART.
pub mod Held
use a1625_linux_winboot.Prelude.{
  ℕ, Bool, true, false, not, ◌==◌, if◌then◌else◌, ℤ, pos, neg, nonzero, enomem, ebusy, einval,
  Option, none, some, List, [], ◌∷◌,
}
use a1625_linux_winboot.Kernel.{
  Prog, ret, ◌>>=◌, ◌>>◌, of_find_node_by_path, of_node_put, of_node_set_populated,
  of_node_is_detached, of_detach_node, of_node_clear_populated, of_changeset_init,
  of_changeset_create_node, of_changeset_add_prop_strings, of_changeset_add_prop_u32s,
  of_changeset_apply, of_changeset_revert, of_changeset_destroy, dev_node_phandle, dev_node_parent,
}
use a1625_linux_winboot.DeviceTree.{pci_changes, dart_phandle, in_turn, cleaned, detached}

-- The changeset of the record is `pci_changes`.
pub record PciNode : Type 0 where
  pub node : Option ℕ
  pub applied : Bool

abbrev pub no_node : PciNode
no_node = record { node = none; applied = false }

unfoldable pub remove_node : Option ℕ → ℤ → Prog ℤ
remove_node none r = do of_changeset_destroy pci_changes; ret r
remove_node (some node) r = do
  r ← detached node r
  of_changeset_destroy pci_changes
  of_node_put node
  ret r

unfoldable pub pci_node_remove : PciNode → Prog ℤ
pci_node_remove state = do
  r ← if state.applied then of_changeset_revert pci_changes else ret (pos 0)
  remove_node state.node r

unfoldable pub pci_properties : (node : ℕ) → List (Prog ℤ)
pci_properties node =
    of_changeset_add_prop_strings pci_changes node "device_type" ("pci" ∷ [])
    ∷ of_changeset_add_prop_u32s pci_changes node "#address-cells" (3 ∷ [])
    ∷ of_changeset_add_prop_u32s pci_changes node "#size-cells" (2 ∷ [])
    ∷ of_changeset_add_prop_u32s pci_changes node "bus-range" (0 ∷ 1 ∷ [])
    ∷ of_changeset_add_prop_u32s pci_changes node "iommu-map" (0x100 ∷ dart_phandle ∷ 0 ∷ 1 ∷ [])
    ∷ of_changeset_add_prop_u32s pci_changes node "iommu-map-mask" (0xffff ∷ [])
    ∷ []

-- With the node created.
unfoldable pub fill_node : (node : ℕ) → Prog (ℤ × PciNode)
fill_node node = do
  r ← in_turn (pci_properties node)
  if nonzero r then ret (r, record { node = some node; applied = false }) else do
    of_node_set_populated node
    r ← of_changeset_apply pci_changes
    ret (r, record { node = some node; applied = not (nonzero r) })

-- The code, and the record as it is left.
unfoldable pub pci_node_create : (dart : ℕ) → Prog (ℤ × PciNode)
pci_node_create dart = do
  of_changeset_init pci_changes
  phandle ← dev_node_phandle dart
  if not (elim phandle [ none ↦ false | some h ↦ h == dart_phandle ])
      then ret (neg einval, no_node)
      else do
        found ← of_find_node_by_path "/soc/pcie@610000000"
        elim found [
          | some existing ↦ do of_node_put existing; ret (neg ebusy, no_node)
          | none ↦ do
            parent ← dev_node_parent dart
            made ← of_changeset_create_node pci_changes parent "pcie@610000000"
            elim made [ none ↦ ret (neg enomem, no_node) | some node ↦ fill_node node ]
        ]
