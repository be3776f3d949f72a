-- ===== src/PciScan/Host/Bridge.antt =====
-- The host bridge for the time of the scan, as leases.
use a1625_linux_winboot.Prelude.{
  ℕ, ◌≡◌, refl, Bool, true, false, not, ◌||◌, ◌==◌, ==_refl, if◌then◌else◌, ℤ, pos, neg, nonzero,
  enomem, Option, none, some, List, ◌∷◌, arith,
}
use a1625_linux_winboot.Kernel.{
  ret, ◌>>=◌, ◌>>◌, Ensures, bind, branch, pointer, failure, scan_root_bus_bridge, size_bridges,
  assign_resources, stop_root_bus, remove_root_bus, CoreCall, pci_alloc_host_bridge,
  pci_free_host_bridge, release_resource, root_device_unregister,
}
use a1625_linux_winboot.Kernel.Leases.{Lease, node, root, bridge, window, Leases, holds, give_back}
use a1625_linux_winboot.DeviceTree.Dart.{put_node}
use a1625_linux_winboot.PciScan.Controls.{Scan}
use a1625_linux_winboot.PciScan.Core.{core_call}
use a1625_linux_winboot.PciScan.Core.Held.{ConfigMapped, Sound, core_call-Sound}
use a1625_linux_winboot.PciScan.Identify.{walk}
use a1625_linux_winboot.PciScan.Identify.Held.{walk-Good}
use a1625_linux_winboot.PciScan.Firmware.Held.{firmware-Good}
use a1625_linux_winboot.PciScan.Host.{
  Options, Baseline, eio_if, restore, enumerated, on_bridge, memory_start, memory_end, with_bridge,
  get_node, hosted,
}
use a1625_linux_winboot.PciScan.Host.Written.{Same, BarsInside, restore-Same}

-- A reference to the node, if there is one.
abbrev pub HasNode : Option ℕ → List Lease → Type 0
HasNode none s = Unit
HasNode (some n) s = holds (node n) s ≡ true

abbrev pub with_node : Option ℕ → List Lease → List Lease
with_node none s = s
with_node (some n) s = node n ∷ s

module _ (rc ep : ℕ) where
  module _ (s : List Lease) (on : ConfigMapped rc ep s) where
    abbrev Good : ℤ × Scan → List Lease → Type 0
    Good r t = (t ≡ s) × Sound rc ep r.1

    -- A call of the core that may be left out.
    core_if-Good :
        (b : Bool) (c : CoreCall) (handle : ℕ) (scan : Scan)
        → Sound rc ep scan
        → Ensures Leases (if b then core_call c handle scan else ret (pos 0, scan)) Good s
    core_if-Good b c handle scan h =
        branch Leases Good b _ _ s (λ _. core_call-Sound rc ep s on c handle scan h)
          (λ _. (refl, h))

    enumerated-Good :
        (o : Options) (bus : ℕ) (scan : Scan)
        → Sound rc ep scan
        → Ensures Leases (enumerated o bus scan) Good s
    unfolding enumerated
    enumerated-Good o bus scan h =
        bind Leases Good Good
          (if o.assign_memory then core_call size_bridges bus scan else ret (pos 0, scan)) _ s
          (core_if-Good o.assign_memory size_bridges bus scan h)
          λ (_, scan) t k. rw k.0 (
            bind Leases Good Good
              (if o.assign_memory then core_call assign_resources bus scan else ret (pos 0, scan)) _
              s (core_if-Good o.assign_memory assign_resources bus scan k.1)
              λ (_, scan) t k. rw k.0 (
                tt,
                λ devices _.
                    bind Leases (λ sc t. (t ≡ s) × Sound rc ep sc) Good (walk devices scan) _ s
                      (walk-Good rc ep s on devices scan k.1)
                      λ sc t k. rw k.0 (
                        branch Leases Good (sc.rejected || not (sc.devices == 2)) _ _ s
                          (λ _. (refl, k.1))
                          λ _.
                            branch Leases Good o.bind_firmware _ _ s
                              (λ _. firmware-Good rc ep s on o.hold sc k.1) (λ _. (refl, k.1))),
              ))

  on_bridge-Good :
      (here : List Lease) (on : ConfigMapped rc ep here) (o : Options) (br : ℕ) (scan : Scan)
      → holds (bridge br) here ≡ true
      → Sound rc ep scan
      → Ensures Leases
          (on_bridge o br scan)
          (λ r t. (t ≡ give_back (bridge br) here) × Sound rc ep r.1)
          here
  unfolding on_bridge
  on_bridge-Good here on o br scan held h =
      bind Leases (Good here on) back (core_call scan_root_bus_bridge br scan) _ here
        (core_call-Sound rc ep here on scan_root_bus_bridge br scan h)
        λ (r, scan) t k. rw k.0 (
          bind Leases (Good here on) back
            (if nonzero r then ret (r, scan) else enumerated o br scan) _ here
            (branch Leases (Good here on) (nonzero r) _ _ here (λ _. (refl, k.1))
              (λ _. enumerated-Good here on o br scan k.1))
            λ (r, scan) t k. rw k.0 (
              tt,
              λ bus _.
                  bind Leases (Good here on) back
                    (if bus then core_call stop_root_bus br scan else ret (pos 0, scan)) _ here
                    (core_if-Good here on bus stop_root_bus br scan k.1)
                    λ (_, scan) t k. rw k.0 (
                      bind Leases (Good here on) back
                        (if bus then core_call remove_root_bus br scan else ret (pos 0, scan)) _
                        here (core_if-Good here on bus remove_root_bus br scan k.1)
                        λ (_, scan) t k. rw k.0 (held, λ _ _. (refl, k.1))),
            ))
    where
      back : ℤ × Scan → List Lease → Type 0
      back r t = (t ≡ give_back (bridge br) here) × Sound rc ep r.1

  -- The bridge is given back; then everything is restored.
  scanned-back :
      (s : List Lease)
      → ConfigMapped rc ep s
      → (o : Options) (b : Baseline) (br : ℕ) (scan : Scan) → BarsInside rc ep b
      → Sound rc ep scan
      → Ensures Leases
          (do (r, scan) ← on_bridge o br scan; restore rc ep b scan r)
          (λ _ t. t ≡ s)
          (bridge br ∷ s)
  scanned-back s on o b br scan bars h =
      bind Leases (λ r t. (t ≡ give_back (bridge br) (bridge br ∷ s)) × Sound rc ep r.1)
        (λ _ t. t ≡ s) (on_bridge o br scan) _ (bridge br ∷ s)
        (on_bridge-Good (bridge br ∷ s) on o br scan (rw (==_refl br) refl) h)
        λ (r, scan) t k. rw (k.0, ==_refl br) (restore-Same rc ep s on b scan r bars k.1)

  with_bridge-back :
      (s : List Lease)
      → ConfigMapped rc ep s
      → (o : Options) (b : Baseline) (br : ℕ) (scan : Scan) → BarsInside rc ep b
      → Sound rc ep scan
      → Ensures Leases (with_bridge o b rc ep br scan) (λ _ t. t ≡ s) (bridge br ∷ s)
  unfolding with_bridge
  with_bridge-back s on o b br scan bars h =
      branch Leases (λ _ t. t ≡ s) (not o.assign_memory) _ _ (bridge br ∷ s)
        (λ _. scanned-back s on o b br scan bars h) λ _. (tt, λ r _. by_flag (nonzero r) r)
    where
      by_flag :
          (failed : Bool) (r : ℤ)
          → Ensures Leases
              (if failed then (do pci_free_host_bridge br; ret r) else do
                (r, scan) ← on_bridge o br scan
                released ← release_resource memory_start memory_end
                restore rc ep b scan (eio_if (nonzero released) r))
              (λ _ t. t ≡ s)
              (if failed then bridge br ∷ s else window memory_start ∷ bridge br ∷ s)
      by_flag true r = ground (arith, ==_refl br)
      by_flag false r =
          bind Leases
            (λ r t.
              (t ≡ give_back (bridge br) (window memory_start ∷ bridge br ∷ s)) × Sound rc ep r.1)
            (λ _ t. t ≡ s) (on_bridge o br scan) _ (window memory_start ∷ bridge br ∷ s)
            (on_bridge-Good (window memory_start ∷ bridge br ∷ s) on o br scan
              (rw (==_refl br) refl) h)
            λ (r, scan) t k.
              rw (k.0, ==_refl br) (refl, λ released _. restore-Same rc ep s on b scan _ bars k.1)

  get_node-Taken :
      (n : Option ℕ) (s : List Lease)
      → HasNode n s
      → Ensures Leases (get_node n) (λ _ t. t ≡ with_node n s) s
  unfolding get_node
  get_node-Taken none s h = refl
  get_node-Taken (some k) s h = (h, λ _ _. refl)

  put_node-back :
      (n : Option ℕ) (s : List Lease) → Ensures Leases (put_node n) (λ _ t. t ≡ s) (with_node n s)
  unfolding put_node
  put_node-back none s = refl
  put_node-back (some k) s = ground (arith, ==_refl k)

  pub hosted-Same :
      (s : List Lease)
      → ConfigMapped rc ep s
      → (o : Options) (b : Baseline) (n : Option ℕ) (scan : Scan) → HasNode n s
      → BarsInside rc ep b
      → Sound rc ep scan
      → Same (hosted o b rc ep n scan) s
  unfolding hosted
  hosted-Same s on o b n scan held bars h =
      (tt, elim [ failure e ↦ λ _. refl | pointer parent ↦ λ _. under parent n held ])
    where
      under :
          (parent : ℕ) (n : Option ℕ)
          → HasNode n s
          → Ensures Leases
              (do
                get_node n
                made ← pci_alloc_host_bridge
                r ← elim made [ none ↦ ret (neg enomem) | some br ↦ with_bridge o b rc ep br scan ]
                put_node n
                root_device_unregister parent
                ret r)
              (λ _ t. t ≡ s)
              (root parent ∷ s)
      under parent n held =
          bind Leases (λ _ t. t ≡ with_node n (root parent ∷ s)) (λ _ t. t ≡ s) (get_node n) _ _
            (get_node-Taken n (root parent ∷ s) (below n held))
            λ _ t e. rw e (
              tt,
              elim [
                | none ↦ λ _. closed parent n (neg enomem)
                | some br ↦ λ _.
                    bind Leases (λ _ t. t ≡ with_node n (root parent ∷ s)) (λ _ t. t ≡ s)
                      (with_bridge o b rc ep br scan) _ (bridge br ∷ with_node n (root parent ∷ s))
                      (with_bridge-back (with_node n (root parent ∷ s)) (over n) o b br scan bars h)
                      λ r t e. rw e (closed parent n r)
              ],
            )
        where
          below : (n : Option ℕ) → HasNode n s → HasNode n (root parent ∷ s)
          below none h = tt
          below (some k) h = h

          over : (n : Option ℕ) → ConfigMapped rc ep (with_node n (root parent ∷ s))
          over none = on
          over (some k) = on

          closed :
              (parent : ℕ) (n : Option ℕ) (r : ℤ)
              → Ensures Leases
                  (do put_node n; root_device_unregister parent; ret r)
                  (λ _ t. t ≡ s)
                  (with_node n (root parent ∷ s))
          closed parent n r =
              bind Leases (λ _ t. t ≡ root parent ∷ s) (λ _ t. t ≡ s) (put_node n) _ _
                (put_node-back n (root parent ∷ s)) λ _ t e. rw e (ground (arith, ==_refl parent))
