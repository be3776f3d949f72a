-- ===== src/DeviceTree/Map.antt =====
-- windows-native/wifi/pmu-probe/a1625_dart_map.h: a DMA client of the DART, whose driver maps one
-- page, looks it up and unmaps it.
pub mod Held
use a1625_linux_winboot.Prelude.{
  ℕ, ◌+◌, ◌-◌, Bool, true, false, not, ◌&&◌, ◌||◌, ◌==◌, leb, if◌then◌else◌, ℤ, pos, neg, nonzero,
  eio, enomem, ebusy, enodev, einval, Option, none, some, List, [], ◌∷◌,
}
use a1625_linux_winboot.Kernel.{
  Prog, ret, ◌>>=◌, ◌>>◌, IommuDomain, readl, ioremap, iounmap, of_find_node_by_path,
  of_node_phandle, of_node_put, of_node_set_populated, of_changeset_init, of_changeset_create_node,
  of_changeset_add_prop_u32s, of_changeset_apply, of_changeset_destroy, dev_node_phandle,
  dev_node_parent, dev_set_of_node, dev_driver, platform_driver_register,
  platform_driver_unregister, platform_device_alloc, platform_device_add_data, platform_device_add,
  platform_device_put, platform_device_unregister, alloc_page, free_page, page_to_phys,
  dma_map_page, dma_mapping_error, dma_unmap_page, iommu_get_domain_for_dev, iommu_iova_to_phys,
}
use a1625_linux_winboot.DeviceTree.{map_changes, dart_phandle, detached, reverted}

abbrev pub dart_regs : ℕ
dart_regs = 0x6_0200_2000

-- PAGE_SIZE of the kernels that the module is built for.
abbrev pub page_size : ℕ
page_size = 4096

-- The address lies below 4 GiB and in the domain's aperture.
abbrev pub in_aperture : IommuDomain → ℕ → Bool
in_aperture domain address =
    leb (address + 4095) 0xffff_ffff
    && leb domain.aperture_start address
    && leb (address + page_size - 1) domain.aperture_end

-- Both ends of the page translate to it.
unfoldable pub translates : IommuDomain → (address page : ℕ) → Prog ℤ
translates domain address page = do
  first ← iommu_iova_to_phys domain.handle address
  phys ← page_to_phys page
  if not (first == phys) then ret (neg eio) else do
    last ← iommu_iova_to_phys domain.handle (address + page_size - 1)
    ret (if not (last == phys + page_size - 1) then neg eio else pos 0)

-- With the page mapped.
unfoldable pub mapped : IommuDomain → (dev page address : ℕ) → Prog ℤ
mapped domain dev page address = do
  r ← if in_aperture domain address then translates domain address page else ret (neg eio)
  dma_unmap_page dev address
  still ← iommu_iova_to_phys domain.handle address
  ret (if not (still == 0) then neg eio else r)

unfoldable pub with_page : IommuDomain → (dev page : ℕ) → Prog ℤ
with_page domain dev page = do
  address ← dma_map_page dev page
  failed ← dma_mapping_error dev address
  r ← if failed then ret (neg eio) else mapped domain dev page address
  free_page page
  ret r

-- With the DART's registers mapped: only stream 0 may be enabled.
unfoldable pub with_regs : IommuDomain → (dev : ℕ) → Prog ℤ
with_regs domain dev = do
  enabled ← readl (dart_regs + 0xc)
  if not (enabled == 0x80) then ret (neg enodev) else do
    made ← alloc_page
    elim made [ none ↦ ret (neg enomem) | some page ↦ with_page domain dev page ]

-- The driver's probe, which leaves its code in the device's platform data.
unfoldable pub map_probe : (dev : ℕ) → Prog ℤ
map_probe dev = do
  found ← iommu_get_domain_for_dev dev
  elim found [
    | none ↦ ret (neg enodev)
    | some domain ↦ if not domain.is_dma then ret (neg enodev) else do
      ok ← ioremap dart_regs 0x100
      if not ok then ret (neg enomem) else do r ← with_regs domain dev; iounmap dart_regs; ret r
  ]

-- The device is registered. Its platform data held -ENODEV; the probe, if it ran, has written its
-- code there.
unfoldable pub added : (pdev : ℕ) (probed : Bool) → Prog ℤ
added pdev probed = do
  result ← if probed then map_probe pdev else ret (neg enodev)
  driver ← dev_driver pdev
  platform_device_unregister pdev
  ret (if driver then result else if nonzero result then result else neg enodev)

-- With the device allocated.
unfoldable pub with_pdev : (node pdev : ℕ) → Prog ℤ
with_pdev node pdev = do
  dev_set_of_node pdev node
  r ← platform_device_add_data pdev (neg enodev)
  if nonzero r then (do platform_device_put pdev; ret r) else do
    (r, probed) ← platform_device_add pdev
    if nonzero r then (do platform_device_put pdev; ret r) else added pdev probed

-- With the driver registered.
unfoldable pub registered : (node : ℕ) → Prog ℤ
registered node = do
  made ← platform_device_alloc "a1625-dart-map"
  r ← elim made [ none ↦ ret (neg enomem) | some pdev ↦ with_pdev node pdev ]
  platform_driver_unregister "a1625-dart-map"
  ret r

-- With the changeset applied.
unfoldable pub with_driver : (node : ℕ) → Prog ℤ
with_driver node = do
  r ← platform_driver_register "a1625-dart-map"
  if nonzero r then ret r else registered node

unfoldable pub with_node : (node : ℕ) → Prog ℤ
with_node node = do
  r ← of_changeset_add_prop_u32s map_changes node "iommus" (dart_phandle ∷ 0 ∷ [])
  if nonzero r then ret r else do
    of_node_set_populated node
    applied_r ← of_changeset_apply map_changes
    r ← if nonzero applied_r then ret applied_r else with_driver node
    r ← reverted map_changes (not (nonzero applied_r)) r
    detached node r

unfoldable pub with_changes : (parent : ℕ) → Prog ℤ
with_changes parent = do
  of_changeset_init map_changes
  made ← of_changeset_create_node map_changes parent "a1625-dart-map"
  elim made [
    | none ↦ do of_changeset_destroy map_changes; ret (neg enomem)
    | some node ↦ do r ← with_node node; of_changeset_destroy map_changes; of_node_put node; ret r
  ]

-- The callback of `a1625_with_dart`. `dart->of_node` has the phandle that the callback was promised.
unfoldable pub dart_map : (dart : ℕ) → Prog ℤ
dart_map dart = do
  phandle ← dev_node_phandle dart
  if not (elim phandle [ none ↦ false | some h ↦ h == dart_phandle ]) then ret (neg einval) else do
    found ← of_find_node_by_path "/soc/a1625-dart-map"
    elim found [
      | some existing ↦ do of_node_put existing; ret (neg ebusy)
      | none ↦ do parent ← dev_node_parent dart; with_changes parent
    ]
