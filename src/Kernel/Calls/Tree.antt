-- ===== src/Kernel/Calls/Tree.antt =====
-- The kernel's functions as programs of one call: the device tree and its changesets.
use Prim.Native.String.{String}
use a1625_linux_winboot.Prelude.{ℕ, ℤ, Bool, Option, List}
use a1625_linux_winboot.Kernel.Operations.{Op}
use a1625_linux_winboot.Kernel.Programs.{Prog, request}

abbrev pub of_find_node_by_phandle : (phandle : ℕ) → Prog (Option ℕ)
of_find_node_by_phandle phandle = request (Op.of_find_node_by_phandle phandle)

abbrev pub of_node_phandle : (node : ℕ) → Prog ℕ
of_node_phandle node = request (Op.of_node_phandle node)

abbrev pub of_node_get : (node : ℕ) → Prog (Unit {0})
of_node_get node = request (Op.of_node_get node)

abbrev pub of_node_set_populated : (node : ℕ) → Prog (Unit {0})
of_node_set_populated node = request (Op.of_node_set_populated node)

abbrev pub of_node_clear_populated : (node : ℕ) → Prog (Unit {0})
of_node_clear_populated node = request (Op.of_node_clear_populated node)

abbrev pub of_node_is_detached : (node : ℕ) → Prog Bool
of_node_is_detached node = request (Op.of_node_is_detached node)

abbrev pub of_detach_node : (node : ℕ) → Prog ℤ
of_detach_node node = request (Op.of_detach_node node)

abbrev pub of_changeset_init : (cs : ℕ) → Prog (Unit {0})
of_changeset_init cs = request (Op.of_changeset_init cs)

abbrev pub of_changeset_apply : (cs : ℕ) → Prog ℤ
of_changeset_apply cs = request (Op.of_changeset_apply cs)

abbrev pub of_changeset_revert : (cs : ℕ) → Prog ℤ
of_changeset_revert cs = request (Op.of_changeset_revert cs)

abbrev pub of_changeset_destroy : (cs : ℕ) → Prog (Unit {0})
of_changeset_destroy cs = request (Op.of_changeset_destroy cs)

abbrev pub of_changeset_create_node : (cs parent : ℕ) → String → Prog (Option ℕ)
of_changeset_create_node cs parent a = request (Op.of_changeset_create_node cs parent a)

abbrev pub of_changeset_add_prop_strings : (cs node : ℕ) → String → List String → Prog ℤ
of_changeset_add_prop_strings cs node a b = request (Op.of_changeset_add_prop_strings cs node a b)

abbrev pub of_changeset_add_prop_u32s : (cs node : ℕ) → String → List ℕ → Prog ℤ
of_changeset_add_prop_u32s cs node a b = request (Op.of_changeset_add_prop_u32s cs node a b)

abbrev pub of_changeset_move_first_to_tail : (cs : ℕ) → Prog (Unit {0})
of_changeset_move_first_to_tail cs = request (Op.of_changeset_move_first_to_tail cs)

abbrev pub of_address_to_resource : (node : ℕ) → Prog (ℤ × ℕ × ℕ)
of_address_to_resource node = request (Op.of_address_to_resource node)

abbrev pub of_platform_device_create : (node : ℕ) → Prog (Option ℕ)
of_platform_device_create node = request (Op.of_platform_device_create node)

abbrev pub dev_driver_is : (dev : ℕ) → String → Prog Bool
dev_driver_is dev a = request (Op.dev_driver_is dev a)

abbrev pub dev_node_phandle : (dev : ℕ) → Prog (Option ℕ)
dev_node_phandle dev = request (Op.dev_node_phandle dev)

abbrev pub dev_node_parent : (dev : ℕ) → Prog ℕ
dev_node_parent dev = request (Op.dev_node_parent dev)

abbrev pub dev_set_of_node : (dev node : ℕ) → Prog (Unit {0})
dev_set_of_node dev node = request (Op.dev_set_of_node dev node)
