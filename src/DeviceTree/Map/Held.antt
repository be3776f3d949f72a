-- ===== src/DeviceTree/Map/Held.antt =====
-- The leases of `a1625_dart_map`, in windows-native/wifi/pmu-probe/a1625_dart_map.h.
use a1625_linux_winboot.Prelude.{
  ℕ, ◌≡◌, refl, Bool, true, false, not, ◌==◌, ==_refl, if◌then◌else◌, ℤ, neg, enodev, nonzero, none,
  some, List, ◌∷◌, arith,
}
use a1625_linux_winboot.Kernel.{ret, IommuDomain, Ensures, Keeps, bind, branch, resume}
use a1625_linux_winboot.Kernel.Leases.{
  Lease, node, changeset, consumer, device, driver, page, dma, mapping, Leases, holds,
}
use a1625_linux_winboot.DeviceTree.{map_changes, dart_phandle}
use a1625_linux_winboot.DeviceTree.Held.{Same, installed-Same}
use a1625_linux_winboot.DeviceTree.Map.{
  dart_regs, in_aperture, translates, with_page, with_regs, map_probe, added, with_pdev,
  with_driver, registered, with_node, with_changes, dart_map,
}
use a1625_linux_winboot.DeviceTree.Map

translates-Same :
    (domain : IommuDomain) (address p : ℕ) (s : List Lease)
    → holds (page p) s ≡ true
    → Same s (translates domain address p)
unfolding translates
translates-Same domain address p s on = ground arith

mapped-back :
    (domain : IommuDomain) (dev p address : ℕ) (s : List Lease)
    → holds (page p) s ≡ true
    → Ensures Leases (Map.mapped domain dev p address) (λ _ t. t ≡ s) (dma address ∷ s)
unfolding Map.mapped
mapped-back domain dev p address s on =
    resume Leases (λ _ t. t ≡ s) _ _ (dma address ∷ s)
      (branch Leases (λ _ t. t ≡ dma address ∷ s) (in_aperture domain address) _ _ _
        (λ _. translates-Same domain address p (dma address ∷ s) on) (λ _. refl))
      λ r. ground (arith, ==_refl address)

with_page-back :
    (domain : IommuDomain) (dev p : ℕ) (s : List Lease)
    → Ensures Leases (with_page domain dev p) (λ _ t. t ≡ s) (page p ∷ s)
unfolding with_page
with_page-back domain dev p s = (
  rw (==_refl p) refl,
  λ address _. (
    tt,
    elim [
      | true ↦ λ _. rw (==_refl address) (ground (arith, ==_refl p))
      | false ↦ λ _.
          bind Leases (λ _ t. t ≡ page p ∷ s) (λ _ t. t ≡ s) (Map.mapped domain dev p address) _ _
            (mapped-back domain dev p address (page p ∷ s) (rw (==_refl p) refl))
            λ r t e. rw e (ground (arith, ==_refl p))
    ],
  ),
)

with_regs-Same :
    (domain : IommuDomain) (dev : ℕ) (s : List Lease)
    → Same (mapping dart_regs 0x100 ∷ s) (with_regs domain dev)
unfolding with_regs
with_regs-Same domain dev s = (
  refl,
  λ enabled _.
      branch Leases (λ _ t. t ≡ mapping dart_regs 0x100 ∷ s) (not (enabled == 0x80)) _ _ _
        (λ _. refl)
        λ _. (
          tt,
          elim [
            | none ↦ λ _. refl
            | some p ↦ λ _. with_page-back domain dev p (mapping dart_regs 0x100 ∷ s)
          ],
        ),
)

map_probe-Same : (dev : ℕ) (s : List Lease) → Same s (map_probe dev)
unfolding map_probe
map_probe-Same dev s = (
  tt,
  elim [
    | none ↦ λ _. refl
    | some domain ↦ λ _.
        branch Leases (λ _ t. t ≡ s) (not domain.is_dma) _ _ s (λ _. refl)
          λ _. (
            tt,
            elim [
              | false ↦ λ _. refl
              | true ↦ λ _.
                  resume Leases (λ _ t. t ≡ s) (with_regs domain dev) _
                    (mapping dart_regs 0x100 ∷ s) (with_regs-Same domain dev s) λ r. ground arith
            ],
          )
  ],
)

added-back :
    (pdev : ℕ) (probed : Bool) (s : List Lease)
    → Ensures Leases (added pdev probed) (λ _ t. t ≡ s) (consumer pdev ∷ s)
unfolding added
added-back pdev probed s =
    resume Leases (λ _ t. t ≡ s) (if probed then map_probe pdev else ret (neg enodev)) _
      (consumer pdev ∷ s)
      (branch Leases (λ _ t. t ≡ consumer pdev ∷ s) probed _ _ _
        (λ _. map_probe-Same pdev (consumer pdev ∷ s)) (λ _. refl))
      λ r. ground (arith, ==_refl pdev)

with_pdev-back :
    (n pdev : ℕ) (s : List Lease)
    → holds (node n) s ≡ true
    → holds driver s ≡ true
    → Ensures Leases (with_pdev n pdev) (λ _ t. t ≡ s) (device pdev ∷ s)
unfolding with_pdev
with_pdev-back n pdev s on ready = (
  on,
  λ _ _. (
    rw (==_refl pdev) refl,
    λ r _.
        branch Leases (λ _ t. t ≡ s) (nonzero r) _ _ (device pdev ∷ s)
          (λ _. ground (arith, ==_refl pdev))
          λ _. (
            (rw (==_refl pdev) refl, ready),
            λ (r, probed) _. let again = added-back pdev probed s in ground (arith, ==_refl pdev),
          ),
  ),
)

registered-back :
    (n : ℕ) (s : List Lease)
    → holds (node n) s ≡ true
    → Ensures Leases (registered n) (λ _ t. t ≡ s) (driver ∷ s)
unfolding registered
registered-back n s on = (
  tt,
  elim [
    | none ↦ λ _. ground arith
    | some pdev ↦ λ _.
        bind Leases (λ _ t. t ≡ driver ∷ s) (λ _ t. t ≡ s) (with_pdev n pdev) _ _
          (with_pdev-back n pdev (driver ∷ s) on refl) λ r t e. rw e (ground arith)
  ],
)

with_driver-Same : (n : ℕ) (s : List Lease) → holds (node n) s ≡ true → Same s (with_driver n)
unfolding with_driver
with_driver-Same n s on = (tt, λ r _. by_flag (nonzero r) r)
  where
    by_flag :
        (failed : Bool) (r : ℤ)
        → Ensures Leases
            (if failed then ret r else registered n)
            (λ _ t. t ≡ s)
            (if failed then s else driver ∷ s)
    by_flag true r = refl
    by_flag false r = registered-back n s on

with_node-Same : (n : ℕ) (s : List Lease) → Same (node n ∷ changeset map_changes ∷ s) (with_node n)
unfolding with_node
with_node-Same n s = (
  (refl, rw (==_refl n) refl),
  λ r _.
      branch Leases (λ _ t. t ≡ node n ∷ changeset map_changes ∷ s) (nonzero r) _ _ _ (λ _. refl)
        λ _. (
          rw (==_refl n) refl,
          λ _ _. (
            refl,
            λ r _.
                installed-Same (nonzero r) map_changes n r (with_driver n) (ret tt) _
                  (rw (==_refl n) refl) (λ t h. refl) (with_driver-Same n _ (rw (==_refl n) refl)),
          ),
        ),
)

-- Whatever the kernel answers, the DMA client `a1625_dart_map` gives back every reference, its
-- page and the page's DMA mapping, the mapping of the DART's registers, its driver and platform
-- device, and its changeset, which it has reverted; and it reads the DART's registers only inside a
-- mapping that it holds. A changeset counts as reverted when the kernel is asked to, whatever it
-- answers.
pub dart_map-Leases : (dart : ℕ) → Keeps Leases (dart_map dart)
unfolding dart_map with_changes
dart_map-Leases dart = record {
  keeps = λ s. (
    tt,
    λ phandle _.
        branch Leases (λ _ t. t ≡ s)
          (not (elim phandle [ none ↦ false | some h ↦ h == dart_phandle ])) _ _ s (λ _. refl)
          λ _. (
            tt,
            elim [
              | some existing ↦ λ _. ground (arith, ==_refl existing)
              | none ↦ λ _. (
                tt,
                λ parent _. (
                  tt,
                  λ _ _. (
                    refl,
                    elim [
                      | none ↦ λ _. ground arith
                      | some n ↦ λ _.
                          resume Leases (λ _ t. t ≡ s) (with_node n) _
                            (node n ∷ changeset map_changes ∷ s) (with_node-Same n s)
                            λ r. ground (arith, ==_refl n)
                    ],
                  ),
                ),
              )
            ],
          ),
  );
}
