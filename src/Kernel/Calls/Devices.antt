-- ===== src/Kernel/Calls/Devices.antt =====
-- The kernel's functions as programs of one call: devices, regmaps, pins and power domains.
use Prim.Native.String.{String}
use a1625_linux_winboot.Prelude.{ℕ, ℤ, Bool, Option}
use a1625_linux_winboot.Kernel.Operations.{Op, PtrOrErr}
use a1625_linux_winboot.Kernel.Programs.{Prog, request}

abbrev pub of_root_is_compatible : String → Prog Bool
of_root_is_compatible a = request (Op.of_root_is_compatible a)

abbrev pub of_find_node_by_path : String → Prog (Option ℕ)
of_find_node_by_path a = request (Op.of_find_node_by_path a)

abbrev pub of_node_is_compatible : (node : ℕ) → String → Prog Bool
of_node_is_compatible node a = request (Op.of_node_is_compatible node a)

abbrev pub of_node_put : (node : ℕ) → Prog (Unit {0})
of_node_put node = request (Op.of_node_put node)

abbrev pub of_find_device_by_node : (node : ℕ) → Prog (Option ℕ)
of_find_device_by_node node = request (Op.of_find_device_by_node node)

abbrev pub of_find_i2c_device_by_node : (node : ℕ) → Prog (Option ℕ)
of_find_i2c_device_by_node node = request (Op.of_find_i2c_device_by_node node)

abbrev pub put_device : (dev : ℕ) → Prog (Unit {0})
put_device dev = request (Op.put_device dev)

abbrev pub device_lock : (dev : ℕ) → Prog (Unit {0})
device_lock dev = request (Op.device_lock dev)

abbrev pub device_unlock : (dev : ℕ) → Prog (Unit {0})
device_unlock dev = request (Op.device_unlock dev)

abbrev pub dev_driver : (dev : ℕ) → Prog Bool
dev_driver dev = request (Op.dev_driver dev)

abbrev pub i2c_addr : (client : ℕ) → Prog ℕ
i2c_addr client = request (Op.i2c_addr client)

abbrev pub dev_get_regmap : (dev : ℕ) → Prog (Option ℕ)
dev_get_regmap dev = request (Op.dev_get_regmap dev)

abbrev pub regmap_read : (map reg : ℕ) → Prog (ℤ × ℕ)
regmap_read map reg = request (Op.regmap_read map reg)

abbrev pub regmap_read_bypassed : (map reg : ℕ) → Prog (ℤ × ℕ)
regmap_read_bypassed map reg = request (Op.regmap_read_bypassed map reg)

abbrev pub regmap_write : (map reg value : ℕ) → Prog ℤ
regmap_write map reg value = request (Op.regmap_write map reg value)

abbrev pub regmap_update_bits : (map reg mask value : ℕ) → Prog ℤ
regmap_update_bits map reg mask value = request (Op.regmap_update_bits map reg mask value)

abbrev pub regmap_read_poll_timeout : (map reg : ℕ) → Prog (ℤ × ℕ)
regmap_read_poll_timeout map reg = request (Op.regmap_read_poll_timeout map reg)

abbrev pub gpiod_get : (dev gpio_dev : ℕ) → Prog PtrOrErr
gpiod_get dev gpio_dev = request (Op.gpiod_get dev gpio_dev)

abbrev pub gpiod_put : (desc : ℕ) → Prog (Unit {0})
gpiod_put desc = request (Op.gpiod_put desc)

abbrev pub gpiod_add_lookup_table : (dev gpio_dev : ℕ) → Prog (Unit {0})
gpiod_add_lookup_table dev gpio_dev = request (Op.gpiod_add_lookup_table dev gpio_dev)

abbrev pub gpiod_remove_lookup_table : (dev gpio_dev : ℕ) → Prog (Unit {0})
gpiod_remove_lookup_table dev gpio_dev = request (Op.gpiod_remove_lookup_table dev gpio_dev)

abbrev pub gpiod_direction_output_raw : (desc value : ℕ) → Prog ℤ
gpiod_direction_output_raw desc value = request (Op.gpiod_direction_output_raw desc value)

abbrev pub syscon_node_to_regmap : (node : ℕ) → Prog PtrOrErr
syscon_node_to_regmap node = request (Op.syscon_node_to_regmap node)

abbrev pub platform_device_register_simple : (id : ℕ) → Prog PtrOrErr
platform_device_register_simple id = request (Op.platform_device_register_simple id)

abbrev pub platform_device_unregister : (dev : ℕ) → Prog (Unit {0})
platform_device_unregister dev = request (Op.platform_device_unregister dev)

abbrev pub of_genpd_add_device : (node dev : ℕ) → Prog ℤ
of_genpd_add_device node dev = request (Op.of_genpd_add_device node dev)

abbrev pub pm_genpd_remove_device : (dev : ℕ) → Prog ℤ
pm_genpd_remove_device dev = request (Op.pm_genpd_remove_device dev)

abbrev pub pm_runtime_enable : (dev : ℕ) → Prog (Unit {0})
pm_runtime_enable dev = request (Op.pm_runtime_enable dev)

abbrev pub pm_runtime_disable : (dev : ℕ) → Prog (Unit {0})
pm_runtime_disable dev = request (Op.pm_runtime_disable dev)

abbrev pub pm_runtime_resume_and_get : (dev : ℕ) → Prog ℤ
pm_runtime_resume_and_get dev = request (Op.pm_runtime_resume_and_get dev)

abbrev pub pm_runtime_put_sync_suspend : (dev : ℕ) → Prog ℤ
pm_runtime_put_sync_suspend dev = request (Op.pm_runtime_put_sync_suspend dev)
