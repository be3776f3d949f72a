-- ===== src/Kernel/Operations.antt =====
-- The kernel's functions that the modules call, with the type of what each answers. None of them
-- is code of this repository: nothing is assumed of an answer but its type.
use a1625_linux_winboot.Prelude.{ℕ, Bool, ℤ, Option, List}
use Prim.Native.String.{String}

-- What a function answers that returns a pointer or an error: `failure n` is `ERR_PTR(-(n + 1))`.
pub data PtrOrErr : Type 0 where
  pointer : (handle : ℕ) → PtrOrErr
  failure : (n : ℕ) → PtrOrErr

-- What the PCI core asks of the configuration space of one function, through the `pci_ops` that it
-- was given.
pub data ConfigRequest : Type 0 where
  config_read : (bus devfn : ℕ) (place : ℤ) (size : ℕ) → ConfigRequest
  config_write : (bus devfn : ℕ) (place : ℤ) (size value : ℕ) → ConfigRequest

-- The calls of the PCI core and of the driver core that may access configuration space.
pub data CoreCall : Type 0 where
  scan_root_bus_bridge size_bridges assign_resources stop_root_bus remove_root_bus : CoreCall
  bus_add_device device_attach device_release_driver clear_master : CoreCall

-- A resource of a device.
pub record Resource : Type 0 where
  pub claimed : Bool
  pub is_mem : Bool
  pub is_unset : Bool
  pub start : ℕ
  pub last : ℕ

-- A device that `pci_walk_bus` hands to its callback.
pub record PciDev : Type 0 where
  pub dev : ℕ
  pub bus : ℕ
  pub devfn : ℕ
  pub vendor : ℕ
  pub device_id : ℕ
  pub class : ℕ
  pub bar0 : Resource
  pub bar2 : Resource

-- An IOMMU domain with its aperture.
pub record IommuDomain : Type 0 where
  pub handle : ℕ
  pub is_dma : Bool
  pub aperture_start : ℕ
  pub aperture_end : ℕ

-- A reserved region of an IOMMU: `is_msi` tells the type IOMMU_RESV_MSI.
pub record ResvRegion : Type 0 where
  pub start : ℕ
  pub size : ℕ
  pub is_msi : Bool

-- An `__iomem` pointer is the physical address that it maps; any other pointer is a handle.
pub data Op : Type 0 where
  request_mem_region release_mem_region ioremap : (base size : ℕ) → Op
  iounmap : (base : ℕ) → Op
  readb readw readl : (address : ℕ) → Op
  writew writel : (value address : ℕ) → Op
  readl_poll_timeout : (address : ℕ) → Op
  udelay msleep : ℕ → Op
  of_root_is_compatible : String → Op
  of_find_node_by_path : String → Op
  of_node_is_compatible : (node : ℕ) → String → Op
  of_node_put : (node : ℕ) → Op
  of_find_device_by_node of_find_i2c_device_by_node : (node : ℕ) → Op
  put_device device_lock device_unlock : (dev : ℕ) → Op
  dev_driver : (dev : ℕ) → Op
  i2c_addr : (client : ℕ) → Op
  dev_get_regmap : (dev : ℕ) → Op
  regmap_read regmap_read_bypassed : (map reg : ℕ) → Op
  regmap_write : (map reg value : ℕ) → Op
  regmap_update_bits : (map reg mask value : ℕ) → Op
  regmap_read_poll_timeout : (map reg : ℕ) → Op
  gpiod_get : (dev gpio_dev : ℕ) → Op
  gpiod_put : (desc : ℕ) → Op
  gpiod_add_lookup_table gpiod_remove_lookup_table : (dev gpio_dev : ℕ) → Op
  gpiod_direction_output_raw : (desc value : ℕ) → Op
  syscon_node_to_regmap : (node : ℕ) → Op
  platform_device_register_simple : (id : ℕ) → Op
  platform_device_unregister : (dev : ℕ) → Op
  of_genpd_add_device : (node dev : ℕ) → Op
  pm_genpd_remove_device : (dev : ℕ) → Op
  pm_runtime_enable pm_runtime_disable : (dev : ℕ) → Op
  pm_runtime_resume_and_get pm_runtime_put_sync_suspend : (dev : ℕ) → Op
  irq_find_matching_fwspec : (node : ℕ) → Op
  irq_find_mapping : (domain hwirq : ℕ) → Op
  irq_domain_alloc_named_fwnode : Op
  irq_domain_free_fwnode : (fwnode : ℕ) → Op
  msi_create_parent_irq_domain : (parent fwnode : ℕ) → Op
  irq_domain_remove : (domain : ℕ) → Op
  irq_domain_alloc_irqs : (domain : ℕ) → Op
  irq_domain_free_irqs : (irq : ℕ) → Op
  irq_domain_get_irq_data : (domain irq : ℕ) → Op
  msi_used : (domain : ℕ) → Op
  of_find_node_by_phandle : (phandle : ℕ) → Op
  of_node_phandle : (node : ℕ) → Op
  of_node_get : (node : ℕ) → Op
  of_node_set_populated of_node_clear_populated of_node_is_detached : (node : ℕ) → Op
  of_detach_node : (node : ℕ) → Op
  of_changeset_init of_changeset_apply of_changeset_revert of_changeset_destroy : (cs : ℕ) → Op
  of_changeset_create_node : (cs parent : ℕ) → String → Op
  of_changeset_add_prop_strings : (cs node : ℕ) → String → List String → Op
  of_changeset_add_prop_u32s : (cs node : ℕ) → String → List ℕ → Op
  of_changeset_move_first_to_tail : (cs : ℕ) → Op
  of_address_to_resource : (node : ℕ) → Op
  of_platform_device_create : (node : ℕ) → Op
  dev_driver_is : (dev : ℕ) → String → Op
  dev_node_phandle dev_node_parent : (dev : ℕ) → Op
  dev_set_of_node : (dev node : ℕ) → Op
  platform_driver_register platform_driver_unregister : String → Op
  platform_device_alloc : String → Op
  platform_device_add_data : (dev : ℕ) (value : ℤ) → Op
  platform_device_add platform_device_put : (dev : ℕ) → Op
  alloc_page : Op
  free_page page_to_phys : (page : ℕ) → Op
  dma_map_page : (dev page : ℕ) → Op
  dma_mapping_error dma_unmap_page : (dev address : ℕ) → Op
  iommu_get_domain_for_dev : (dev : ℕ) → Op
  iommu_iova_to_phys : (domain address : ℕ) → Op
  iommu_resv_regions : (dev : ℕ) → Op
  pci_find_bus : (number : ℕ) → Op
  root_device_register : String → Op
  root_device_unregister : (dev : ℕ) → Op
  pci_alloc_host_bridge : Op
  pci_free_host_bridge : (bridge : ℕ) → Op
  request_resource release_resource : (start last : ℕ) → Op
  pci_core : CoreCall → (handle : ℕ) → Op
  pci_walk_bus : (bridge : ℕ) → Op
  bridge_has_bus : (bridge : ℕ) → Op
  pci_get_slot : (bus devfn : ℕ) → Op
  pci_dev_put : (dev : ℕ) → Op
  device_set_driver_override : (dev : ℕ) → String → Op
  pci_alloc_irq_vectors pci_irq_vector pci_free_irq_vectors : (dev : ℕ) → Op
  pfn_valid : (pfn : ℕ) → Op
  read_once : (address : ℕ) → Op
  dev_get_by_name : String → Op
  netdev_parent dev_put : (netdev : ℕ) → Op
  jiffies signal_pending : Op
  msleep_interruptible : ℕ → Op

-- A NULL pointer is `none`; a function that fills `*value` answers its return code and the value.
abbrev pub Ans : Op → Type 0
Ans (Op.request_mem_region b s) = Bool
Ans (Op.ioremap b s) = Bool
Ans (Op.readb a) = ℕ
Ans (Op.readw a) = ℕ
Ans (Op.readl a) = ℕ
Ans (Op.readl_poll_timeout a) = ℤ × ℕ
Ans (Op.of_root_is_compatible c) = Bool
Ans (Op.of_find_node_by_path p) = Option ℕ
Ans (Op.of_node_is_compatible n c) = Bool
Ans (Op.of_find_device_by_node n) = Option ℕ
Ans (Op.of_find_i2c_device_by_node n) = Option ℕ
Ans (Op.dev_driver d) = Bool
Ans (Op.i2c_addr c) = ℕ
Ans (Op.dev_get_regmap d) = Option ℕ
Ans (Op.regmap_read m r) = ℤ × ℕ
Ans (Op.regmap_read_bypassed m r) = ℤ × ℕ
Ans (Op.regmap_write m r v) = ℤ
Ans (Op.regmap_update_bits m r b v) = ℤ
Ans (Op.regmap_read_poll_timeout m r) = ℤ × ℕ
Ans (Op.gpiod_get d g) = PtrOrErr
Ans (Op.gpiod_direction_output_raw d v) = ℤ
Ans (Op.syscon_node_to_regmap n) = PtrOrErr
Ans (Op.platform_device_register_simple i) = PtrOrErr
Ans (Op.of_genpd_add_device n d) = ℤ
Ans (Op.pm_genpd_remove_device d) = ℤ
Ans (Op.pm_runtime_resume_and_get d) = ℤ
Ans (Op.pm_runtime_put_sync_suspend d) = ℤ
Ans (Op.irq_find_matching_fwspec n) = Option ℕ
Ans (Op.irq_find_mapping d h) = ℕ
Ans Op.irq_domain_alloc_named_fwnode = Option ℕ
Ans (Op.msi_create_parent_irq_domain p f) = Option ℕ
Ans (Op.irq_domain_alloc_irqs d) = ℤ
Ans (Op.irq_domain_get_irq_data d i) = Option (ℕ × Option ℕ)
Ans (Op.msi_used d) = ℕ
Ans (Op.of_find_node_by_phandle p) = Option ℕ
Ans (Op.of_node_phandle n) = ℕ
Ans (Op.of_node_is_detached n) = Bool
Ans (Op.of_detach_node n) = ℤ
Ans (Op.of_changeset_apply c) = ℤ
Ans (Op.of_changeset_revert c) = ℤ
Ans (Op.of_changeset_create_node c p n) = Option ℕ
Ans (Op.of_changeset_add_prop_strings c n p v) = ℤ
Ans (Op.of_changeset_add_prop_u32s c n p v) = ℤ
Ans (Op.of_address_to_resource n) = ℤ × ℕ × ℕ
Ans (Op.of_platform_device_create n) = Option ℕ
Ans (Op.dev_driver_is d n) = Bool
Ans (Op.dev_node_phandle d) = Option ℕ
Ans (Op.dev_node_parent d) = ℕ
Ans (Op.platform_driver_register n) = ℤ
Ans (Op.platform_device_alloc n) = Option ℕ
Ans (Op.platform_device_add_data d v) = ℤ
Ans (Op.platform_device_add d) = ℤ × Bool
Ans Op.alloc_page = Option ℕ
Ans (Op.page_to_phys p) = ℕ
Ans (Op.dma_map_page d p) = ℕ
Ans (Op.dma_mapping_error d a) = Bool
Ans (Op.iommu_get_domain_for_dev d) = Option IommuDomain
Ans (Op.iommu_iova_to_phys d a) = ℕ
Ans (Op.iommu_resv_regions d) = List ResvRegion
Ans (Op.pci_find_bus n) = Option ℕ
Ans (Op.root_device_register n) = PtrOrErr
Ans Op.pci_alloc_host_bridge = Option ℕ
Ans (Op.request_resource a b) = ℤ
Ans (Op.release_resource a b) = ℤ
Ans (Op.pci_core c h) = ℤ × List ConfigRequest
Ans (Op.pci_walk_bus b) = List PciDev
Ans (Op.bridge_has_bus b) = Bool
Ans (Op.pci_get_slot b d) = Option ℕ
Ans (Op.device_set_driver_override d n) = ℤ
Ans (Op.pci_alloc_irq_vectors d) = ℤ × List ConfigRequest
Ans (Op.pci_free_irq_vectors d) = List ConfigRequest
Ans (Op.pci_irq_vector d) = ℤ
Ans (Op.pfn_valid p) = Bool
Ans (Op.read_once a) = ℕ
Ans (Op.dev_get_by_name n) = Option ℕ
Ans (Op.netdev_parent n) = ℕ
Ans Op.jiffies = ℕ
Ans Op.signal_pending = Bool
Ans _ = Unit
