-- ===== src/Kernel/Calls/Dma.antt =====
-- The kernel's functions as programs of one call: platform devices and the IOMMU.
use Prim.Native.String.{String}
use a1625_linux_winboot.Prelude.{ℕ, ℤ, Bool, Option, List}
use a1625_linux_winboot.Kernel.Operations.{Op, IommuDomain, ResvRegion}
use a1625_linux_winboot.Kernel.Programs.{Prog, request}

abbrev pub platform_driver_register : String → Prog ℤ
platform_driver_register a = request (Op.platform_driver_register a)

abbrev pub platform_driver_unregister : String → Prog (Unit {0})
platform_driver_unregister a = request (Op.platform_driver_unregister a)

abbrev pub platform_device_alloc : String → Prog (Option ℕ)
platform_device_alloc a = request (Op.platform_device_alloc a)

abbrev pub platform_device_add_data : (dev : ℕ) (value : ℤ) → Prog ℤ
platform_device_add_data dev value = request (Op.platform_device_add_data dev value)

abbrev pub platform_device_add : (dev : ℕ) → Prog (ℤ × Bool)
platform_device_add dev = request (Op.platform_device_add dev)

abbrev pub platform_device_put : (dev : ℕ) → Prog (Unit {0})
platform_device_put dev = request (Op.platform_device_put dev)

abbrev pub alloc_page : Prog (Option ℕ)
alloc_page = request Op.alloc_page

abbrev pub free_page : (page : ℕ) → Prog (Unit {0})
free_page page = request (Op.free_page page)

abbrev pub page_to_phys : (page : ℕ) → Prog ℕ
page_to_phys page = request (Op.page_to_phys page)

abbrev pub dma_map_page : (dev page : ℕ) → Prog ℕ
dma_map_page dev page = request (Op.dma_map_page dev page)

abbrev pub dma_mapping_error : (dev address : ℕ) → Prog Bool
dma_mapping_error dev address = request (Op.dma_mapping_error dev address)

abbrev pub dma_unmap_page : (dev address : ℕ) → Prog (Unit {0})
dma_unmap_page dev address = request (Op.dma_unmap_page dev address)

abbrev pub iommu_get_domain_for_dev : (dev : ℕ) → Prog (Option IommuDomain)
iommu_get_domain_for_dev dev = request (Op.iommu_get_domain_for_dev dev)

abbrev pub iommu_iova_to_phys : (domain address : ℕ) → Prog ℕ
iommu_iova_to_phys domain address = request (Op.iommu_iova_to_phys domain address)

abbrev pub iommu_resv_regions : (dev : ℕ) → Prog (List ResvRegion)
iommu_resv_regions dev = request (Op.iommu_resv_regions dev)
