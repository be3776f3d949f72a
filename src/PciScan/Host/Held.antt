-- ===== src/PciScan/Host/Held.antt =====
-- `a1625_pci_scan`, as leases.
use a1625_linux_winboot.Prelude.{
  ℕ, ◌+◌, ◌<◌, ◌≡◌, refl, ◌⊎◌, inl, inr, Bool, true, false, not, ◌||◌, ◌==◌, ==_refl, if◌then◌else◌,
  nonzero, Option, none, some, List, [], ◌∷◌, All, bit_and, bit_or, arith,
}
use a1625_linux_winboot.Kernel.{ret, ◌>>=◌, Ensures, bind, branch, resume}
use a1625_linux_winboot.Kernel.Leases.{Lease, mapped, Leases}
use a1625_linux_winboot.DeviceTree.{cleaned}
use a1625_linux_winboot.DeviceTree.PciNode.{PciNode, pci_node_create, pci_node_remove}
use a1625_linux_winboot.DeviceTree.PciNode.Held.{
  node_held, pci_node_create-Kept, pci_node_remove-back,
}
use a1625_linux_winboot.PciScan.Regs
use a1625_linux_winboot.PciScan.Controls.{Scan, is_some, save_controls}
use a1625_linux_winboot.PciScan.Controls.Held.{save_controls-Sound}
use a1625_linux_winboot.PciScan.Core.Held.{ConfigMapped, Sound}
use a1625_linux_winboot.PciScan.Host.{
  Options, fresh, Baseline, read_bars, rc_places, ep_places, read_baseline, hosted, saved,
  from_baseline, pci_scan,
}
use a1625_linux_winboot.PciScan.Host.Written.{Same, Small, Inside, BarsInside}
use a1625_linux_winboot.PciScan.Host.Bridge.{HasNode, hosted-Same}

module _ (rc ep : ℕ) where
  -- What the node keeps maps nothing.
  node_held-on :
      (state : PciNode) (s : List Lease)
      → ConfigMapped rc ep s
      → ConfigMapped rc ep (node_held state s)
  node_held-on state s on = cases state.applied state.node
    where
      cases :
          (done : Bool) (n : Option ℕ)
          → ConfigMapped rc ep (node_held (record { node = n; applied = done }) s)
      cases true none = on
      cases true (some n) = on
      cases false none = on
      cases false (some n) = on

  node_held-HasNode : (state : PciNode) (s : List Lease) → HasNode state.node (node_held state s)
  node_held-HasNode state s = cases state.applied state.node
    where
      cases :
          (done : Bool) (n : Option ℕ)
          → HasNode n (node_held (record { node = n; applied = done }) s)
      cases true none = tt
      cases true (some n) = rw (==_refl n) refl
      cases false none = tt
      cases false (some n) = rw (==_refl n) refl

  saved-Same :
      (s : List Lease)
      → ConfigMapped rc ep s
      → (o : Options) (b : Baseline) (scan : Scan) → BarsInside rc ep b
      → Sound rc ep scan
      → Same (saved o b rc ep scan) s
  unfolding saved
  saved-Same s on o b scan bars h = cases o.dart
    where
      cases :
          (dart : Option ℕ)
          → Same
              (elim dart [
                | none ↦ hosted o b rc ep none scan
                | some d ↦ do
                  (r, state) ← pci_node_create d
                  r ← if nonzero r then ret r else hosted o b rc ep state.node scan
                  cleanup ← pci_node_remove state
                  ret (cleaned cleanup r)
              ])
              s
      cases none = hosted-Same rc ep s on o b none scan tt bars h
      cases (some d) =
          bind Leases (λ r t. t ≡ node_held r.1 s) (λ _ t. t ≡ s) (pci_node_create d) _ s
            (pci_node_create-Kept d s)
            λ (r, state) t e. rw e (
              resume Leases (λ _ t. t ≡ s)
                (if nonzero r then ret r else hosted o b rc ep state.node scan) _
                (node_held state s)
                (branch Leases (λ _ t. t ≡ node_held state s) (nonzero r) _ _ _ (λ _. refl)
                  (λ _.
                    hosted-Same rc ep (node_held state s) (node_held-on state s on) o b state.node
                      scan (node_held-HasNode state s) bars h))
                λ r.
                  bind Leases (λ _ t. t ≡ s) (λ _ t. t ≡ s) (pci_node_remove state) _ _
                    (pci_node_remove-back state s) (λ _ t k. k))

  -- What a read of the baseline leaves.
  abbrev ReadBack : List Lease → Option Baseline → List Lease → Type 0
  ReadBack s none t = t ≡ s
  ReadBack s (some b) t = (t ≡ s) × BarsInside rc ep b

  read_bars-Inside :
      (cfg : ℕ) (places : List ℕ) (s : List Lease)
      → ConfigMapped rc ep s
      → (cfg ≡ rc) ⊎ (cfg ≡ ep)
      → All Small places
      → Ensures Leases (read_bars cfg places) (λ l t. (t ≡ s) × All (Inside rc ep) l) s
  unfolding read_bars
  read_bars-Inside cfg [] s on which small = (refl, tt)
  read_bars-Inside cfg (place ∷ places) s on which small = (
    inside s on,
    λ value _.
        bind Leases (λ l t. (t ≡ s) × All (Inside rc ep) l) (λ l t. (t ≡ s) × All (Inside rc ep) l)
          (read_bars cfg places) _ s (read_bars-Inside cfg places s on which small.1)
          λ l t k. (k.0, (inside, k.1)),
  )
    where
      inside : (t : List Lease) → ConfigMapped rc ep t → mapped (cfg + place) t ≡ true
      inside t on = let at = on place small.0 in ground arith

  read_baseline-ReadBack :
      (s : List Lease) → ConfigMapped rc ep s → Ensures Leases (read_baseline rc ep) (ReadBack s) s
  unfolding read_baseline
  read_baseline-ReadBack s on = (
    (on Regs.command (omega arith)).0,
    λ rc_command _. (
      (on Regs.command (omega arith)).1,
      λ ep_command _.
          branch Leases (ReadBack s) (not (rc_command == 0) || not (ep_command == 0)) _ _ s
            (λ _. refl)
            λ _. (
              (on Regs.bridge_control (omega arith)).0,
              λ control _. (
                (on Regs.primary_bus (omega arith)).0,
                λ buses _.
                    branch Leases (ReadBack s)
                      (not (bit_and buses 0xff_ffff == 0x01_0100)
                        || not (bit_and control Regs.bridge_ctl_bus_reset == 0))
                      _ _ s (λ _. refl)
                      λ _.
                        bind Leases (λ l t. (t ≡ s) × All (Inside rc ep) l) (ReadBack s)
                          (read_bars rc rc_places) _ s
                          (read_bars-Inside rc rc_places s on (inl refl) (omega arith))
                          λ rc_bars t k. rw k.0 (
                            bind Leases (λ l t. (t ≡ s) × All (Inside rc ep) l) (ReadBack s)
                              (read_bars ep ep_places) _ s
                              (read_bars-Inside ep ep_places s on (inr refl) (omega arith))
                              λ ep_bars t j. rw j.0 (
                                (on Regs.rom_address1 (omega arith)).0,
                                λ rc_rom _. (
                                  (on Regs.rom_address (omega arith)).1,
                                  λ ep_rom _.
                                      kept
                                        (not (
                                          bit_and (bit_or rc_rom ep_rom) Regs.rom_address_enable
                                          == 0))
                                        (record { rc_bars = k.1; ep_bars = j.1 }),
                                ),
                              )),
              ),
            ),
    ),
  )
    where
      kept :
          (b : Bool) {x : Baseline} → BarsInside rc ep x → ReadBack s (if b then none else some x) s
      kept true h = refl
      kept false h = (refl, h)

  -- Whatever the kernel and both functions answer, `a1625_pci_scan` gives back all that it takes:
  -- the node of the host bridge with its changeset, the bridge's parent, the bridge, its memory
  -- window, the network device, the endpoint's device and its interrupt vector, and its mappings of
  -- the DART. Every access of a register, its own or one that the PCI core or the driver makes through
  -- it, lies inside a mapping that is held. The caller holds mappings of both configuration spaces.
  -- A changeset, a node and a memory window count as given back when the kernel is asked to take them
  -- back, whatever it answers.
  pub pci_scan-Leases :
      (s : List Lease)
      → ((a : ℕ) → a < 4096 → (mapped (rc + a) s ≡ true) × (mapped (ep + a) s ≡ true))
      → (o : Options) → Ensures Leases (pci_scan o rc ep) (λ _ t. t ≡ s) s
  unfolding pci_scan from_baseline
  pci_scan-Leases s on o = (
    tt,
    λ found _.
        branch Leases (λ _ t. t ≡ s) (is_some found) _ _ s (λ _. refl)
          λ _. (
            let z = on 0 (omega arith) in ground arith,
            λ rc_id _.
                branch Leases (λ _ t. t ≡ s) (not (rc_id == 0x1002_106b)) _ _ s (λ _. refl)
                  λ _. (
                    let z = on 0 (omega arith) in ground arith,
                    λ ep_id _.
                        branch Leases (λ _ t. t ≡ s) (not (ep_id == 0x43a3_14e4)) _ _ s (λ _. refl)
                          λ _.
                            bind Leases (ReadBack s) (λ _ t. t ≡ s) (read_baseline rc ep) _ s
                              (read_baseline-ReadBack s on) (λ b t k. with_baseline b t k),
                  ),
          ),
  )
    where
      with_baseline :
          (b : Option Baseline) (t : List Lease)
          → ReadBack s b t
          → Ensures Leases (from_baseline o rc ep b) (λ _ t. t ≡ s) t
      with_baseline none t k = k
      with_baseline (some b) t k = rw k.0 (
          bind Leases (λ r t. (t ≡ s) × Sound rc ep r.1) (λ _ t. t ≡ s)
            (save_controls (fresh o rc ep)) _ s
            (save_controls-Sound rc ep s on (fresh o rc ep)
              (record { at_rc = refl; at_ep = refl; cap_low = omega arith }) refl)
            λ (r, scan) t j. rw j.0 (
              branch Leases (λ _ t. t ≡ s) (nonzero r) _ _ s (λ _. refl)
                (λ _. saved-Same s on o b scan k.1 j.1)))
