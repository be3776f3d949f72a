-- ===== src/PciScan/Silence.antt =====
-- The bus master bits during `a1625_pci_scan` when no driver is bound, in
-- windows-native/wifi/pmu-probe/a1625_pci_scan.h.
pub mod Reading
pub mod Devices
pub mod Written
use a1625_linux_winboot.Prelude.{
  ℕ, ◌+◌, ◌≤◌, ◌≡◌, ◌⊎◌, refl, Bool, true, false, not, ◌||◌, ◌==◌, if◌then◌else◌, ℤ, pos, neg,
  nonzero, eio, enomem, Option, none, some, List, arith,
}
use a1625_linux_winboot.Kernel.{
  Prog, ret, ◌>>=◌, ◌>>◌, Ensures, bind, branch, mono, root_device_unregister, pointer, failure,
  CoreCall, scan_root_bus_bridge, size_bridges, assign_resources, stop_root_bus, remove_root_bus,
}
use a1625_linux_winboot.DeviceTree.{cleaned}
use a1625_linux_winboot.DeviceTree.Dart.{put_node}
use a1625_linux_winboot.DeviceTree.PciNode.{pci_node_create, pci_node_remove}
use a1625_linux_winboot.PciScan.Controls.{Scan, is_some, save_controls}
use a1625_linux_winboot.PciScan.Controls.Spared.{Holds, save_controls-Holds}
use a1625_linux_winboot.PciScan.Controls.Walked.{anyhow}
use a1625_linux_winboot.PciScan.Access.Mastering.{Unmastered, IsQuiet}
use a1625_linux_winboot.PciScan.Core.{core_call}
use a1625_linux_winboot.PciScan.Identify.{walk}
use a1625_linux_winboot.PciScan.Silence.Reading.{
  Reads, unmastered, SameScan, save_controls-Reads, pci_node_create-Reads, pci_node_remove-Reads,
}
use a1625_linux_winboot.PciScan.Silence.Devices.{reading, core_call-Quiet, walk-Quiet}
use a1625_linux_winboot.PciScan.Silence.Written.{
  BarsClear, BarsRead, restore-Quiet, read_baseline-Clear,
}
use a1625_linux_winboot.PciScan.Host.{
  Options, fresh, Baseline, read_baseline, eio_if, restore, enumerated, on_bridge, with_bridge,
  get_node, hosted, saved, from_baseline, pci_scan,
}

module _ (rc ep : ℕ) (disjoint : (rc + 4096 ≤ ep) ⊎ (ep + 4096 ≤ rc)) (o : Options)
    (unbound : o.bind_firmware ≡ false) where
  abbrev Good : ℤ × Scan → Unit {0} → Type 0
  Good r t = IsQuiet rc ep r.1

  abbrev Done : {A : Type 0} → A → Unit {0} → Type 0
  Done a t = Unit {0}

  core_if-Quiet :
      (b : Bool) (c : CoreCall) (handle : ℕ) (scan : Scan)
      → IsQuiet rc ep scan
      → Ensures
          (Unmastered rc ep)
          (if b then core_call c handle scan else ret (pos 0, scan))
          Good
          tt
  core_if-Quiet b c handle scan q =
      branch (Unmastered rc ep) Good b _ _ tt (λ _. core_call-Quiet rc ep disjoint c handle scan q)
        (λ _. q)

  enumerated-Quiet :
      (bus : ℕ) (scan : Scan)
      → IsQuiet rc ep scan
      → Ensures (Unmastered rc ep) (enumerated o bus scan) Good tt
  unfolding enumerated
  enumerated-Quiet bus scan q =
      bind (Unmastered rc ep) Good Good
        (if o.assign_memory then core_call size_bridges bus scan else ret (pos 0, scan)) _ tt
        (core_if-Quiet o.assign_memory size_bridges bus scan q)
        λ (_, scan) _ q.
          bind (Unmastered rc ep) Good Good
            (if o.assign_memory then core_call assign_resources bus scan else ret (pos 0, scan)) _
            tt (core_if-Quiet o.assign_memory assign_resources bus scan q)
            λ (_, scan) _ q. (
              (tt, tt),
              λ devices _.
                  bind (Unmastered rc ep) (λ s _. IsQuiet rc ep s) Good (walk devices scan) _ tt
                    (walk-Quiet rc ep disjoint devices scan q)
                    λ s _ q.
                      branch (Unmastered rc ep) Good (s.rejected || not (s.devices == 2)) _ _ tt
                        (λ _. q) λ _. rw unbound q,
            )

  on_bridge-Quiet :
      (br : ℕ) (scan : Scan)
      → IsQuiet rc ep scan
      → Ensures (Unmastered rc ep) (on_bridge o br scan) Good tt
  unfolding on_bridge
  on_bridge-Quiet br scan q =
      bind (Unmastered rc ep) Good Good (core_call scan_root_bus_bridge br scan) _ tt
        (core_call-Quiet rc ep disjoint scan_root_bus_bridge br scan q)
        λ (r, scan) _ q.
          bind (Unmastered rc ep) Good Good
            (if nonzero r then ret (r, scan) else enumerated o br scan) _ tt
            (branch (Unmastered rc ep) Good (nonzero r) _ _ tt (λ _. q)
              (λ _. enumerated-Quiet br scan q))
            λ (r, scan) _ q. (
              (tt, tt),
              λ bus _.
                  bind (Unmastered rc ep) Good Good
                    (if bus then core_call stop_root_bus br scan else ret (pos 0, scan)) _ tt
                    (core_if-Quiet bus stop_root_bus br scan q)
                    λ (_, scan) _ q.
                      bind (Unmastered rc ep) Good Good
                        (if bus then core_call remove_root_bus br scan else ret (pos 0, scan)) _ tt
                        (core_if-Quiet bus remove_root_bus br scan q)
                        (λ (_, scan) _ q. ((tt, tt), λ _ _. q)),
            )

  with_bridge-Quiet :
      (b : Baseline) (br : ℕ) (scan : Scan)
      → BarsClear rc ep disjoint b
      → IsQuiet rc ep scan
      → Ensures (Unmastered rc ep) (with_bridge o b rc ep br scan) Done tt
  unfolding with_bridge
  with_bridge-Quiet b br scan clear q =
      branch (Unmastered rc ep) Done (not o.assign_memory) _ _ tt
        (λ _.
          bind (Unmastered rc ep) Good Done (on_bridge o br scan) _ tt (on_bridge-Quiet br scan q)
            (λ (r, scan) _ q. restore-Quiet rc ep disjoint b scan r clear q))
        λ _. (
          (tt, tt),
          λ r _.
              branch (Unmastered rc ep) Done (nonzero r) _ _ tt (λ _. ((tt, tt), λ _ _. tt))
                λ _.
                  bind (Unmastered rc ep) Good Done (on_bridge o br scan) _ tt
                    (on_bridge-Quiet br scan q)
                    λ (r, scan) _ q.
                      ((tt, tt), λ released _. restore-Quiet rc ep disjoint b scan _ clear q),
        )

  get_node-Reads : (n : Option ℕ) → Reads (get_node n)
  unfolding get_node
  get_node-Reads none = tt
  get_node-Reads (some n) = (refl, λ _ _. tt)

  put_node-Reads : (n : Option ℕ) → Reads (put_node n)
  unfolding put_node
  put_node-Reads none = tt
  put_node-Reads (some n) = (refl, λ _ _. tt)

  hosted-Quiet :
      (b : Baseline) (n : Option ℕ) (scan : Scan)
      → BarsClear rc ep disjoint b
      → IsQuiet rc ep scan
      → Ensures (Unmastered rc ep) (hosted o b rc ep n scan) Done tt
  unfolding hosted
  hosted-Quiet b n scan clear q = (
    (tt, tt),
    elim [
      | failure e ↦ λ _. tt
      | pointer parent ↦ λ _. reading rc ep disjoint Done (get_node n) _ (get_node-Reads n) λ _. (
        (tt, tt),
        elim [
          | none ↦ λ _. closed parent (neg enomem)
          | some br ↦ λ _.
              bind (Unmastered rc ep) Done Done (with_bridge o b rc ep br scan) _ tt
                (with_bridge-Quiet b br scan clear q) (λ r _ _. closed parent r)
        ],
      )
    ],
  )
    where
      closed :
          (parent : ℕ) (r : ℤ)
          → Ensures (Unmastered rc ep) (do put_node n; root_device_unregister parent; ret r) Done tt
      closed parent r =
          reading rc ep disjoint Done (put_node n) _ (put_node-Reads n) (λ _. ((tt, tt), λ _ _. tt))

  saved-Quiet :
      (b : Baseline) (scan : Scan)
      → BarsClear rc ep disjoint b
      → IsQuiet rc ep scan
      → Ensures (Unmastered rc ep) (saved o b rc ep scan) Done tt
  unfolding saved
  saved-Quiet b scan clear q = cases o.dart
    where
      cases :
          (dart : Option ℕ)
          → Ensures
              (Unmastered rc ep)
              (elim dart [
                | none ↦ hosted o b rc ep none scan
                | some d ↦ do
                  (r, state) ← pci_node_create d
                  r ← if nonzero r then ret r else hosted o b rc ep state.node scan
                  cleanup ← pci_node_remove state
                  ret (cleaned cleanup r)
              ])
              Done
              tt
      cases none = hosted-Quiet b none scan clear q
      cases (some d) =
          reading rc ep disjoint Done (pci_node_create d) _ (pci_node_create-Reads d) λ (r, state).
            bind (Unmastered rc ep) Done Done
              (if nonzero r then ret r else hosted o b rc ep state.node scan) _ tt
              (branch (Unmastered rc ep) Done (nonzero r) _ _ tt (λ _. tt)
                (λ _. hosted-Quiet b state.node scan clear q))
              λ r _ _.
                reading rc ep disjoint Done (pci_node_remove state) _ (pci_node_remove-Reads state)
                  (λ _. tt)

  -- What is known of the scan once its controls are saved.
  fresh-Quiet : Ensures (Unmastered rc ep) (save_controls (fresh o rc ep)) Good tt
  fresh-Quiet =
      mono (Unmastered rc ep) (λ r _. Holds 26 r.1 × SameScan (fresh o rc ep) r.1) Good _ tt
        (anyhow (Unmastered rc ep) (λ r. Holds 26 r.1) (λ r _. SameScan (fresh o rc ep) r.1)
          (save_controls (fresh o rc ep)) tt (save_controls-Holds (fresh o rc ep) refl)
          (unmastered rc ep (λ r. SameScan (fresh o rc ep) r.1) (save_controls (fresh o rc ep))
            (save_controls-Reads (fresh o rc ep))))
        λ (r, s) _ k. record {
          at_rc = k.1.at_rc;
          at_ep = k.1.at_ep;
          inactive = k.1.inactive;
          apart = k.0.apart;
        }

  -- Unless the driver is to be bound, a whole run of `a1625_pci_scan` sets the bus master bit of
  -- neither function: not by the accesses of the PCI core, whatever they are, and not by what it
  -- restores, whatever the hardware read as. The two configuration spaces do not overlap.
  pub pci_scan-Unmastered : Ensures (Unmastered rc ep) (pci_scan o rc ep) (λ _ _. Unit {0}) tt
  unfolding pci_scan from_baseline
  pci_scan-Unmastered = (
    (tt, tt),
    λ found _.
        branch (Unmastered rc ep) Done (is_some found) _ _ tt (λ _. tt)
          λ _. (
            (tt, tt),
            λ rc_id _.
                branch (Unmastered rc ep) Done (not (rc_id == 0x1002_106b)) _ _ tt (λ _. tt)
                  λ _. (
                    (tt, tt),
                    λ ep_id _.
                        branch (Unmastered rc ep) Done (not (ep_id == 0x43a3_14e4)) _ _ tt (λ _. tt)
                          λ _.
                            bind (Unmastered rc ep) (BarsRead rc ep disjoint) Done
                              (read_baseline rc ep) _ tt (read_baseline-Clear rc ep disjoint)
                              (λ b _ k. with_baseline b k),
                  ),
          ),
  )
    where
      with_baseline :
          (b : Option Baseline)
          → BarsRead rc ep disjoint b tt
          → Ensures (Unmastered rc ep) (from_baseline o rc ep b) Done tt
      with_baseline none k = tt
      with_baseline (some b) k =
          bind (Unmastered rc ep) Good Done (save_controls (fresh o rc ep)) _ tt fresh-Quiet
            λ (r, scan) _ q.
              branch (Unmastered rc ep) Done (nonzero r) _ _ tt (λ _. tt)
                (λ _. saved-Quiet b scan k q)
