-- ===== src/Ready/Held.antt =====
-- The leases of the whole module of windows-native/wifi/pmu-probe/a1625_pcie_domains.c.
use a1625_linux_winboot.Prelude.{
  ℕ, ◌<◌, ◌≡◌, refl, Bool, true, false, not, ◌&&◌, ◌||◌, ◌==◌, if◌then◌else◌, ℤ, pos, nonzero,
  Option, none, some, List, [], ◌∷◌, All, arith,
}
use a1625_linux_winboot.Prelude.Bits.{all_ones}
use a1625_linux_winboot.Kernel.{Prog, ret, Ensures, Keeps, branch, resume}
use a1625_linux_winboot.Kernel.Leases.{Lease, region, mapping, Leases}
use a1625_linux_winboot.Params.{Params, any, conflicts, init}
use a1625_linux_winboot.Phy.Held.{with_pcie_phy-Leases}
use a1625_linux_winboot.Radio.Held.{radio_pulse-Leases}
use a1625_linux_winboot.Domains.{with_pcie_domains}
use a1625_linux_winboot.Domains.Held.{Orderly, with_pcie_domains-Leases}
use a1625_linux_winboot.Endpoint.Held.{endpoint_held, snapshot_endpoint-Leases}
use a1625_linux_winboot.Chip.Held.{snapshot_chip-Leases}
use a1625_linux_winboot.Link.{observe_held_radio}
use a1625_linux_winboot.Link.Held.{OnPort, observe_held_radio-Leases}
use a1625_linux_winboot.Endpoint.{rc, ep}
use a1625_linux_winboot.Msi.{with_msi, msi_probe}
use a1625_linux_winboot.Msi.Held.{with_msi-Leases}
use a1625_linux_winboot.DeviceTree.Dart.{with_dart}
use a1625_linux_winboot.DeviceTree.Dart.Held.{ClientOrderly, with_dart-Leases}
use a1625_linux_winboot.DeviceTree.Map.{dart_map}
use a1625_linux_winboot.DeviceTree.Map.Held.{dart_map-Leases}
use a1625_linux_winboot.PciScan.Firmware.{Hold}
use a1625_linux_winboot.PciScan.Host.Held.{pci_scan-Leases}
use a1625_linux_winboot.Ready.{
  dart, unexpected, dart_walk, dart_offsets, dart_state, snapshot_dart, root_port,
  snapshot_root_port, then_if, options, endpoint, observe_radio, observe_radio_with_dart,
  observe_pci_with_msi, observe_ready_phy, snapshot_registers, domains_init,
}

abbrev Back : List Lease → ℤ → List Lease → Type 0
Back s r t = t ≡ s

abbrev InDart : ℕ → Type 0
InDart o = o < 0x2000

dart_walk-held :
    (idle expected : Bool) (offsets : List ℕ) (s : List Lease)
    → All InDart offsets
    → Ensures Leases
        (dart_walk idle expected offsets)
        (Back (mapping dart 0x2000 ∷ s))
        (mapping dart 0x2000 ∷ s)
unfolding dart_walk
dart_walk-held idle expected [] s inside = refl
dart_walk-held idle expected (o ∷ os) s inside = (
  ground arith,
  λ v _.
      branch Leases (Back (mapping dart 0x2000 ∷ s)) (v == all_ones) _ _ _ (λ _. refl)
        λ _.
          branch Leases (Back (mapping dart 0x2000 ∷ s)) (unexpected idle expected o v) _ _ _
            (λ _. refl) λ _. dart_walk-held idle expected os s inside.1,
)

dart_state-held :
    (idle expected : Bool) (s : List Lease)
    → Ensures Leases
        (dart_state idle expected)
        (Back (region dart 0x2000 ∷ s))
        (region dart 0x2000 ∷ s)
unfolding dart_state
dart_state-held idle expected s = (
  tt,
  elim [
    | false ↦ λ _. refl
    | true ↦ λ _.
        resume Leases (Back (region dart 0x2000 ∷ s)) (dart_walk idle expected dart_offsets) _ _
          (dart_walk-held idle expected dart_offsets (region dart 0x2000 ∷ s) (ground arith))
          (λ r. ground arith)
  ],
)

snapshot_dart-Keeps : (p : Params) (expected : Bool) → Keeps Leases (snapshot_dart p expected)
unfolding snapshot_dart
snapshot_dart-Keeps p expected = record {
  keeps = λ s. (
    tt,
    elim [
      | false ↦ λ _. refl
      | true ↦ λ _.
          resume Leases (Back s) (dart_state (p.probe_dart || p.scan_iommu) expected) _ _
            (dart_state-held (p.probe_dart || p.scan_iommu) expected s) (λ r. ground arith)
    ],
  );
}

snapshot_root_port-Keeps : Keeps Leases snapshot_root_port
unfolding snapshot_root_port root_port
snapshot_root_port-Keeps = record { keeps = λ s. ground arith }

then_if-Keeps :
    (r : ℤ) (wanted : Bool) (stage : Prog ℤ)
    → Keeps Leases stage
    → Keeps Leases (then_if r wanted stage)
unfolding then_if
then_if-Keeps r wanted stage h = record {
  keeps =
      λ s. branch Leases (Back s) (not (nonzero r) && wanted) _ _ s (λ _. h.keeps s) (λ _. refl);
}

then_if-OnPort :
    (r : ℤ) (wanted : Bool) (stage : Prog ℤ) → OnPort stage → OnPort (then_if r wanted stage)
unfolding then_if
then_if-OnPort r wanted stage h s on =
    branch Leases (Back s) (not (nonzero r) && wanted) _ _ s (λ _. h s on) (λ _. refl)

module _ (p : Params) (h : Hold) where
  endpoint-Keeps : (dart domain : Option ℕ) → Keeps Leases (endpoint p h dart domain)
  unfolding endpoint
  endpoint-Keeps dart domain = record {
    keeps = λ s. snapshot_endpoint-Leases s _ (snapshot_chip-Leases s p.inspect_erom) (
        pci_scan-Leases rc ep (endpoint_held s) (λ a low. (ground arith, ground arith))
          (options p h dart domain));
  }

  observe_radio-OnPort : (dart domain : Option ℕ) → OnPort (observe_radio p h dart domain)
  unfolding observe_radio
  observe_radio-OnPort dart domain s on =
      radio_pulse-Leases true
        (observe_held_radio p.train_link p.identify_endpoint (endpoint p h dart domain)) s
        λ gpio_dev pmu desc gpio_map.
          observe_held_radio-Leases (endpoint p h dart domain) (endpoint-Keeps dart domain) desc _
            on p.train_link p.identify_endpoint gpio_map

  around-OnPort :
      (domain : Option ℕ)
      → OnPort (with_dart (some (observe_radio_with_dart p h domain)) p.test_dma_range)
  unfolding observe_radio_with_dart
  around-OnPort domain =
      with_dart-Leases (some (observe_radio_with_dart p h domain))
        (λ dart. observe_radio-OnPort (some dart) domain) p.test_dma_range

  with_msi-OnPort : OnPort (with_msi (observe_pci_with_msi p h))
  unfolding observe_pci_with_msi
  with_msi-OnPort =
      with_msi-Leases (observe_pci_with_msi p h) (λ domain. around-OnPort (some domain))

  msi_probe-OnPort : OnPort msi_probe
  unfolding msi_probe
  msi_probe-OnPort = with_msi-Leases (λ domain. ret (pos 0)) (λ domain s on. refl)

  dart-OnPort : OnPort (with_dart (if p.map_dart then some dart_map else none) p.test_dma_range)
  dart-OnPort =
      with_dart-Leases (if p.map_dart then some dart_map else none) (client p.map_dart)
        p.test_dma_range
    where
      client : (b : Bool) → ClientOrderly (if b then some dart_map else none)
      client true = λ dart s on. (dart_map-Leases dart).keeps s
      client false = tt

  observe_ready_phy-OnPort : OnPort (observe_ready_phy p h)
  unfolding observe_ready_phy
  observe_ready_phy-OnPort s on =
      let dart : (expected : Bool) → OnPort (snapshot_dart p expected) =
        λ expected s _. (snapshot_dart-Keeps p expected).keeps s in
      resume Leases (Back s) (if p.inspect_rc then snapshot_root_port else ret (pos 0)) _ s
        (branch Leases (Back s) p.inspect_rc _ _ s (λ _. snapshot_root_port-Keeps.keeps s)
          (λ _. refl))
        λ r. resume Leases (Back s) _ _ s (then_if-OnPort r _ _ (dart false) s on) λ r.
          resume Leases (Back s) _ _ s (then_if-OnPort r _ _ msi_probe-OnPort s on) λ r.
            resume Leases (Back s) _ _ s (then_if-OnPort r _ _ dart-OnPort s on) λ r.
              resume Leases (Back s) _ _ s (then_if-OnPort r _ _ (dart true) s on) λ r.
                resume Leases (Back s) _ _ s (then_if-OnPort r _ _ with_msi-OnPort s on) λ r.
                  resume Leases (Back s) _ _ s (then_if-OnPort r _ _ (around-OnPort none) s on) λ r.
                    resume Leases (Back s) _ _ s (then_if-OnPort r _ _ (dart true) s on)
                      λ r. then_if-OnPort r _ _ (observe_radio-OnPort none none) s on

  snapshot_registers-Keeps : Keeps Leases (snapshot_registers p h)
  unfolding snapshot_registers
  snapshot_registers-Keeps = record {
    keeps = λ s.
        with_pcie_phy-Leases p.prepare_port p.inspect_prefix p.test_refclk (observe_ready_phy p h) s
          (observe_ready_phy-OnPort _ (refl, refl, refl, refl));
  }

  observation-Orderly :
      (snapshot : Bool) → Orderly (if snapshot then some (snapshot_registers p h) else none)
  observation-Orderly true = snapshot_registers-Keeps
  observation-Orderly false = tt

  -- Whatever the kernel and the devices answer, and whatever the parameters are, the module's init
  -- function gives back all that it or one of its diagnostics takes: regions, mappings, references,
  -- locks, descriptors, power-domain consumers, interrupts and their domain, changesets of the
  -- device tree, the DMA page, the host bridge. It touches registers only inside mappings that are
  -- held, through all of the nested callbacks: domains, PHY, MSI, DART, radio, link, endpoint and
  -- PCI scan. An interrupt that the kernel allocates is taken not to be 0, and not to be one that is
  -- allocated already. A changeset, a node and a memory window count as given back when the kernel is
  -- asked to take them back, whatever it answers.
  pub domains_init-Leases : (s : List Lease) → Ensures Leases (domains_init p h) (λ _ t. t ≡ s) s
  unfolding domains_init init
  domains_init-Leases s =
      branch Leases (Back s) (any (conflicts p)) _ _ s (λ _. refl)
        λ _.
          resume Leases (Back s)
            (with_pcie_domains p.cycle p.force_active
              (if p.snapshot then some (snapshot_registers p h) else none))
            _ s
            (with_pcie_domains-Leases p.cycle p.force_active _ s (observation-Orderly p.snapshot))
            (λ _. refl)
