-- ===== src/Kernel/Leases.antt =====
-- What a program holds: claimed regions, mappings, references, locks and descriptors, and the
-- devices that it registers, attaches to a power domain, enables and resumes. The monitor requires
-- that only what is held is given back, that a register is touched only inside a mapping that is
-- held, that a device's regmap is looked up only under the device's lock, and that a device is
-- enabled only while it is attached, and resumed only while it is enabled.
use a1625_linux_winboot.Prelude.{
  ℕ, ◌+◌, Bool, true, false, ◌≡◌, ◌==◌, ltb, leb, ◌&&◌, ◌||◌, if◌then◌else◌, List, [], ◌∷◌, Option,
  none, some, ℤ, pos, negsuc, nonzero, negative,
}
use a1625_linux_winboot.Kernel.Operations.{Op, Ans, PtrOrErr, pointer, failure}
use a1625_linux_winboot.Kernel.Protocol.{Monitor}

pub data Lease : Type 0 where
  region mapping : (base size : ℕ) → Lease
  node device lock descriptor : (handle : ℕ) → Lease
  consumer attached enabled resumed : (handle : ℕ) → Lease
  irq_domain fwnode irq changeset applied page dma window : (handle : ℕ) → Lease
  root bridge netdev vectors : (handle : ℕ) → Lease
  driver : Lease

-- A mapping is given back by its address alone.
abbrev pub same : Lease → Lease → Bool
same (region a n) (region b m) = (a == b) && (n == m)
same (mapping a n) (mapping b m) = a == b
same (node a) (node b) = a == b
same (device a) (device b) = a == b
same (lock a) (lock b) = a == b
same (descriptor a) (descriptor b) = a == b
same (consumer a) (consumer b) = a == b
same (attached a) (attached b) = a == b
same (enabled a) (enabled b) = a == b
same (resumed a) (resumed b) = a == b
same (irq_domain a) (irq_domain b) = a == b
same (fwnode a) (fwnode b) = a == b
same (irq a) (irq b) = a == b
same (changeset a) (changeset b) = a == b
same (applied a) (applied b) = a == b
same (page a) (page b) = a == b
same (dma a) (dma b) = a == b
same (window a) (window b) = a == b
same (root a) (root b) = a == b
same (bridge a) (bridge b) = a == b
same (netdev a) (netdev b) = a == b
same (vectors a) (vectors b) = a == b
same driver driver = true
same _ _ = false

abbrev pub holds : Lease → List Lease → Bool
holds l [] = false
holds l (x ∷ xs) = same l x || holds l xs

abbrev pub give_back : Lease → List Lease → List Lease
give_back l [] = []
give_back l (x ∷ xs) = if same l x then xs else x ∷ give_back l xs

abbrev pub covers : ℕ → Lease → Bool
covers a (mapping b n) = leb b a && ltb a (b + n)
covers a _ = false

abbrev pub mapped : ℕ → List Lease → Bool
mapped a [] = false
mapped a (x ∷ xs) = covers a x || mapped a xs

abbrev gain : (ℕ → Lease) → Option ℕ → List Lease → List Lease
gain l none s = s
gain l (some h) s = l h ∷ s

abbrev gain_pointer : (ℕ → Lease) → PtrOrErr → List Lease → List Lease
gain_pointer l (failure e) s = s
gain_pointer l (pointer h) s = l h ∷ s

abbrev gain_success : Lease → ℤ → List Lease → List Lease
gain_success l r s = if nonzero r then s else l ∷ s

-- A device that cannot be detached is retained: what it holds is the kernel's from there on.
abbrev detach : ℕ → ℤ → List Lease → List Lease
detach c r s =
    if nonzero r
    then give_back (consumer c) (give_back (attached c) s)
    else give_back (attached c) s

abbrev gain_irq : ℤ → List Lease → List Lease
gain_irq (pos n) s = irq n ∷ s
gain_irq (negsuc n) s = s

-- A device that is added is registered from there on.
abbrev promote : ℕ → ℤ → List Lease → List Lease
promote d r s = if nonzero r then s else consumer d ∷ give_back (device d) s

abbrev next : List Lease → (o : Op) → Ans o → List Lease
next s (Op.request_mem_region b n) r = if r then region b n ∷ s else s
next s (Op.release_mem_region b n) r = give_back (region b n) s
next s (Op.ioremap b n) r = if r then mapping b n ∷ s else s
next s (Op.iounmap b) r = give_back (mapping b 0) s
next s (Op.of_find_node_by_path p) r = gain node r s
next s (Op.of_node_put n) r = give_back (node n) s
next s (Op.of_find_device_by_node n) r = gain device r s
next s (Op.of_find_i2c_device_by_node n) r = gain device r s
next s (Op.put_device d) r = give_back (device d) s
next s (Op.device_lock d) r = lock d ∷ s
next s (Op.device_unlock d) r = give_back (lock d) s
next s (Op.gpiod_get d g) r = gain_pointer descriptor r s
next s (Op.gpiod_put d) r = give_back (descriptor d) s
next s (Op.platform_device_register_simple i) r = gain_pointer consumer r s
next s (Op.platform_device_unregister d) r = give_back (consumer d) s
next s (Op.of_genpd_add_device n d) r = gain_success (attached d) r s
next s (Op.pm_genpd_remove_device d) r = detach d r s
next s (Op.pm_runtime_enable d) r = enabled d ∷ s
next s (Op.pm_runtime_disable d) r = give_back (enabled d) s
next s (Op.pm_runtime_resume_and_get d) r = if negative r then s else resumed d ∷ s
next s (Op.pm_runtime_put_sync_suspend d) r = give_back (resumed d) s
next s (Op.msi_create_parent_irq_domain p f) r = gain irq_domain r s
next s (Op.irq_domain_remove d) r = give_back (irq_domain d) s
next s (Op.irq_domain_alloc_irqs d) r = gain_irq r s
next s (Op.irq_domain_free_irqs i) r = give_back (irq i) s
next s Op.irq_domain_alloc_named_fwnode r = gain fwnode r s
next s (Op.irq_domain_free_fwnode f) r = give_back (fwnode f) s
next s (Op.of_find_node_by_phandle p) r = gain node r s
next s (Op.of_node_get n) r = node n ∷ s
next s (Op.of_changeset_init c) r = changeset c ∷ s
next s (Op.of_changeset_destroy c) r = give_back (changeset c) s
next s (Op.of_changeset_create_node c p n) r = gain node r s
next s (Op.of_changeset_apply c) r = gain_success (applied c) r s
next s (Op.of_changeset_revert c) r = give_back (applied c) s
next s (Op.of_platform_device_create n) r = gain consumer r s
next s (Op.platform_driver_register n) r = gain_success driver r s
next s (Op.platform_driver_unregister n) r = give_back driver s
next s (Op.platform_device_alloc n) r = gain device r s
next s (Op.platform_device_add d) r = promote d r.0 s
next s (Op.platform_device_put d) r = give_back (device d) s
next s Op.alloc_page r = gain page r s
next s (Op.free_page p) r = give_back (page p) s
next s (Op.dma_map_page d p) r = dma r ∷ s
next s (Op.dma_mapping_error d a) r = if r then give_back (dma a) s else s
next s (Op.dma_unmap_page d a) r = give_back (dma a) s
next s (Op.root_device_register n) r = gain_pointer root r s
next s (Op.root_device_unregister d) r = give_back (root d) s
next s Op.pci_alloc_host_bridge r = gain bridge r s
next s (Op.pci_free_host_bridge b) r = give_back (bridge b) s
next s (Op.request_resource a b) r = gain_success (window a) r s
next s (Op.release_resource a b) r = give_back (window a) s
next s (Op.pci_get_slot b d) r = gain device r s
next s (Op.pci_dev_put d) r = give_back (device d) s
next s (Op.pci_alloc_irq_vectors d) r = if negative r.0 then s else vectors d ∷ s
next s (Op.pci_free_irq_vectors d) r = give_back (vectors d) s
next s (Op.dev_get_by_name n) r = gain netdev r s
next s (Op.dev_put n) r = give_back (netdev n) s
next s _ r = s

-- A device may be locked by who has a reference to it or has registered it.
abbrev Referenced : ℕ → List Lease → Type 0
Referenced d s = (holds (device d) s || holds (consumer d) s) ≡ true

abbrev Permits : List Lease → Op → Type 0
Permits s (Op.release_mem_region b n) = holds (region b n) s ≡ true
Permits s (Op.iounmap b) = holds (mapping b 0) s ≡ true
Permits s (Op.of_node_put n) = holds (node n) s ≡ true
Permits s (Op.of_node_is_compatible n c) = holds (node n) s ≡ true
Permits s (Op.of_find_device_by_node n) = holds (node n) s ≡ true
Permits s (Op.of_find_i2c_device_by_node n) = holds (node n) s ≡ true
Permits s (Op.put_device d) = holds (device d) s ≡ true
Permits s (Op.device_lock d) = Referenced d s
Permits s (Op.device_unlock d) = (holds (lock d) s ≡ true) × Referenced d s
Permits s (Op.dev_get_regmap d) = holds (lock d) s ≡ true
Permits s (Op.gpiod_put d) = holds (descriptor d) s ≡ true
Permits s (Op.gpiod_direction_output_raw d v) = holds (descriptor d) s ≡ true
Permits s (Op.readb a) = mapped a s ≡ true
Permits s (Op.readw a) = mapped a s ≡ true
Permits s (Op.readl a) = mapped a s ≡ true
Permits s (Op.writew v a) = mapped a s ≡ true
Permits s (Op.writel v a) = mapped a s ≡ true
Permits s (Op.readl_poll_timeout a) = mapped a s ≡ true
Permits s (Op.platform_device_unregister d) = holds (consumer d) s ≡ true
Permits s (Op.of_genpd_add_device n d) = (holds (node n) s ≡ true) × (holds (consumer d) s ≡ true)
Permits s (Op.pm_genpd_remove_device d) =
    (holds (attached d) s ≡ true) × (holds (consumer d) s ≡ true)
Permits s (Op.pm_runtime_enable d) = holds (attached d) s ≡ true
Permits s (Op.pm_runtime_disable d) = holds (enabled d) s ≡ true
Permits s (Op.pm_runtime_resume_and_get d) = holds (enabled d) s ≡ true
Permits s (Op.pm_runtime_put_sync_suspend d) = holds (resumed d) s ≡ true
Permits s (Op.syscon_node_to_regmap n) = holds (node n) s ≡ true
Permits s (Op.irq_domain_remove d) = holds (irq_domain d) s ≡ true
Permits s (Op.irq_domain_alloc_irqs d) = holds (irq_domain d) s ≡ true
Permits s (Op.irq_domain_free_irqs i) = holds (irq i) s ≡ true
Permits s (Op.irq_domain_free_fwnode f) = holds (fwnode f) s ≡ true
Permits s (Op.msi_create_parent_irq_domain p f) = holds (fwnode f) s ≡ true
Permits s (Op.irq_find_matching_fwspec n) = holds (node n) s ≡ true
Permits s (Op.of_node_phandle n) = holds (node n) s ≡ true
Permits s (Op.of_node_get n) = holds (node n) s ≡ true
Permits s (Op.of_node_set_populated n) = holds (node n) s ≡ true
Permits s (Op.of_node_clear_populated n) = holds (node n) s ≡ true
Permits s (Op.of_node_is_detached n) = holds (node n) s ≡ true
Permits s (Op.of_detach_node n) = holds (node n) s ≡ true
Permits s (Op.of_changeset_create_node c p n) = holds (changeset c) s ≡ true
Permits s (Op.of_changeset_add_prop_strings c n p v) =
    (holds (changeset c) s ≡ true) × (holds (node n) s ≡ true)
Permits s (Op.of_changeset_add_prop_u32s c n p v) =
    (holds (changeset c) s ≡ true) × (holds (node n) s ≡ true)
Permits s (Op.of_changeset_move_first_to_tail c) = holds (changeset c) s ≡ true
Permits s (Op.of_changeset_apply c) = holds (changeset c) s ≡ true
Permits s (Op.of_changeset_revert c) = holds (applied c) s ≡ true
Permits s (Op.of_changeset_destroy c) = holds (changeset c) s ≡ true
Permits s (Op.of_address_to_resource n) = holds (node n) s ≡ true
Permits s (Op.of_platform_device_create n) = holds (node n) s ≡ true
Permits s (Op.dev_driver_is d n) = holds (lock d) s ≡ true
Permits s (Op.dev_set_of_node d n) = holds (node n) s ≡ true
Permits s (Op.platform_driver_unregister n) = holds driver s ≡ true
Permits s (Op.platform_device_add_data d v) = holds (device d) s ≡ true
Permits s (Op.platform_device_add d) = (holds (device d) s ≡ true) × (holds driver s ≡ true)
Permits s (Op.platform_device_put d) = holds (device d) s ≡ true
Permits s (Op.free_page p) = holds (page p) s ≡ true
Permits s (Op.page_to_phys p) = holds (page p) s ≡ true
Permits s (Op.dma_map_page d p) = holds (page p) s ≡ true
Permits s (Op.dma_unmap_page d a) = holds (dma a) s ≡ true
Permits s (Op.root_device_unregister d) = holds (root d) s ≡ true
Permits s (Op.pci_free_host_bridge b) = holds (bridge b) s ≡ true
Permits s (Op.release_resource a b) = holds (window a) s ≡ true
Permits s (Op.pci_dev_put d) = holds (device d) s ≡ true
Permits s (Op.pci_free_irq_vectors d) = holds (vectors d) s ≡ true
Permits s (Op.netdev_parent n) = holds (netdev n) s ≡ true
Permits s (Op.dev_put n) = holds (netdev n) s ≡ true
Permits s _ = Unit

-- The kernel may answer anything, but an interrupt that it allocates is not 0, and is not one that
-- is held already.
abbrev FreshIrq : ℤ → List Lease → Type 0
FreshIrq (pos n) s = ((n == 0) || holds (irq n) s) ≡ false
FreshIrq (negsuc n) s = Unit

abbrev Answers : List Lease → (o : Op) → Ans o → Type 0
Answers s (Op.irq_domain_alloc_irqs d) r = FreshIrq r s
Answers s _ r = Unit

abbrev pub Leases : Monitor
Leases = record { State = List Lease; next = next; Permits = Permits; Answers = Answers }
