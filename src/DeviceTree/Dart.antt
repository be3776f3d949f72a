-- ===== src/DeviceTree/Dart.antt =====
-- windows-native/wifi/pmu-probe/a1625_dart_lifetime.h: the DART's node, and its driver bound to it
-- for the time of one callback.
pub mod Held
use a1625_linux_winboot.Prelude.{
  ℕ, Bool, true, false, not, ◌||◌, ◌==◌, if◌then◌else◌, ℤ, pos, neg, nonzero, enomem, ebusy, enodev,
  einval, Option, none, some, List, [], ◌∷◌, ◌++◌, ◌-◌, ◌+◌,
}
use a1625_linux_winboot.Kernel.{
  Prog, ret, ◌>>=◌, ◌>>◌, of_find_node_by_path, of_find_node_by_phandle, of_node_phandle,
  of_node_is_compatible, of_node_put, of_node_set_populated, of_node_clear_populated,
  of_changeset_init, of_changeset_create_node, of_changeset_add_prop_strings,
  of_changeset_add_prop_u32s, of_changeset_move_first_to_tail, of_changeset_apply,
  of_changeset_destroy, of_address_to_resource, of_platform_device_create,
  platform_device_unregister, device_lock, device_unlock, dev_driver_is,
}
use a1625_linux_winboot.Board.{is_j42d_t7000}
use a1625_linux_winboot.DeviceTree.{dart_changes, dart_phandle, in_turn, detached, reverted}

abbrev pub Client : Type 0
Client = (dart : ℕ) → Prog ℤ

abbrev pub has : Option Client → Bool
has none = false
has (some operate) = true

-- The properties of the node; `phandle` is the interrupt controller's.
unfoldable pub properties : (test_dma_range : Bool) (node phandle : ℕ) → List (Prog ℤ)
properties test_dma_range node phandle =
    of_changeset_add_prop_strings dart_changes node "compatible"
      ("apple,t7000-dart" ∷ "apple,s5l8960x-dart" ∷ [])
    ∷ of_changeset_add_prop_u32s dart_changes node "reg" (6 ∷ 0x0200_2000 ∷ 0 ∷ 0x2000 ∷ [])
    ∷ of_changeset_add_prop_u32s dart_changes node "interrupt-parent" (phandle ∷ [])
    ∷ of_changeset_add_prop_u32s dart_changes node "interrupts" (0 ∷ 216 ∷ 4 ∷ [])
    ∷ of_changeset_add_prop_u32s dart_changes node "#iommu-cells" (1 ∷ [])
    ∷ (if test_dma_range
        then of_changeset_add_prop_u32s dart_changes node "apple,dma-range"
            (0 ∷ 0x8000_0000 ∷ 0 ∷ 0x4000_0000 ∷ [])
          ∷ []
        else [])

-- For a client: the node gets the phandle, unless another node has it.
unfoldable pub name_node : (node : ℕ) → Prog ℤ
name_node node = do
  found ← of_find_node_by_phandle dart_phandle
  elim found [
    | some existing ↦ do of_node_put existing; ret (neg ebusy)
    | none ↦ of_changeset_add_prop_u32s dart_changes node "phandle" (dart_phandle ∷ [])
  ]

unfoldable pub described :
    (operate : Option Client) (test_dma_range : Bool) (node phandle : ℕ) → Prog ℤ
described operate test_dma_range node phandle =
    in_turn
      (properties test_dma_range node phandle ++ (if has operate then name_node node ∷ [] else []))

abbrev pub run_client : Option Client → ℕ → Prog ℤ
run_client none pdev = ret (pos 0)
run_client (some operate) pdev = operate pdev

-- With the platform device: the callback runs if the DART's driver is bound.
unfoldable pub bound : (operate : Option Client) (pdev : ℕ) → Prog ℤ
bound operate pdev = do
  device_lock pdev
  ours ← dev_driver_is pdev "apple-dart"
  device_unlock pdev
  r ← if ours then run_client operate pdev else ret (neg enodev)
  platform_device_unregister pdev
  ret r

-- The resource that the applied node must describe: `resource_size` is `end - start + 1`.
abbrev pub fits : ℤ × ℕ × ℕ → ℤ
fits (r, start, last) =
    if nonzero r
    then r
    else if not (start == 0x6_0200_2000) || not (last + 1 - start == 0x2000)
    then neg einval
    else pos 0

-- From `applied = true` to `clear_flag:`.
unfoldable pub applied : (operate : Option Client) (node : ℕ) → Prog ℤ
applied operate node = do
  resource ← of_address_to_resource node
  if nonzero (fits resource) then ret (fits resource) else do
    of_node_clear_populated node
    made ← of_platform_device_create node
    elim made [ none ↦ ret (neg enodev) | some pdev ↦ bound operate pdev ]

-- From the change of order to `destroy:`.
unfoldable pub attached : (operate : Option Client) (node : ℕ) → Prog ℤ
attached operate node = do
  if has operate then of_changeset_move_first_to_tail dart_changes else ret tt
  of_node_set_populated node
  applied_r ← of_changeset_apply dart_changes
  r ← if nonzero applied_r then ret applied_r else applied operate node
  of_node_set_populated node
  r ← reverted dart_changes (not (nonzero applied_r)) r
  detached node r

-- With the node created.
unfoldable pub with_node :
    (operate : Option Client) (test_dma_range : Bool) (phandle node : ℕ) → Prog ℤ
with_node operate test_dma_range phandle node = do
  r ← described operate test_dma_range node phandle
  if nonzero r then ret r else attached operate node

-- With the nodes of the bus and of the interrupt controller.
unfoldable pub with_changes :
    (operate : Option Client) (test_dma_range : Bool) (soc phandle : ℕ) → Prog ℤ
with_changes operate test_dma_range soc phandle = do
  of_changeset_init dart_changes
  made ← of_changeset_create_node dart_changes soc "iommu@602002000"
  elim made [
    | none ↦ do of_changeset_destroy dart_changes; ret (neg enomem)
    | some node ↦ do
      r ← with_node operate test_dma_range phandle node
      of_changeset_destroy dart_changes
      of_node_put node
      ret r
  ]

-- The interrupt controller must have a phandle.
unfoldable pub with_aic : (operate : Option Client) (test_dma_range : Bool) (soc aic : ℕ) → Prog ℤ
with_aic operate test_dma_range soc aic = do
  phandle ← of_node_phandle aic
  if phandle == 0 then ret (neg enodev) else do
    ours ← of_node_is_compatible aic "apple,aic"
    if not ours then ret (neg enodev) else with_changes operate test_dma_range soc phandle

-- `of_node_put`, which does nothing with NULL.
unfoldable pub put_node : Option ℕ → Prog (Unit {0})
put_node none = ret tt
put_node (some node) = of_node_put node

unfoldable pub with_parents : (operate : Option Client) (test_dma_range : Bool) → Prog ℤ
with_parents operate test_dma_range = do
  soc ← of_find_node_by_path "/soc"
  aic ← of_find_node_by_path "/soc/interrupt-controller@20e100000"
  r ← elim soc [
    | none ↦ ret (neg enodev)
    | some s ↦ elim aic [ none ↦ ret (neg enodev) | some a ↦ with_aic operate test_dma_range s a ]
  ]
  put_node aic
  put_node soc
  ret r

-- `operate` is the callback at its context, or `none` for NULL.
unfoldable pub with_dart : (operate : Option Client) (test_dma_range : Bool) → Prog ℤ
with_dart operate test_dma_range = do
  board ← is_j42d_t7000
  if not board then ret (neg enodev) else do
    found ← of_find_node_by_path "/soc/iommu@602002000"
    elim found [
      | some existing ↦ do of_node_put existing; ret (neg ebusy)
      | none ↦ with_parents operate test_dma_range
    ]
