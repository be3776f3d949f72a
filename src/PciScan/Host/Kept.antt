-- ===== src/PciScan/Host/Kept.antt =====
-- A whole run of `a1625_pci_scan`: the registers that it compares last are tied to their first
-- reads.
use a1625_linux_winboot.Prelude.{
  ℕ, ◌+◌, ◌≤◌, ◌≡◌, refl, ◌⊎◌, Bool, true, not, ◌==◌, if◌then◌else◌, ℤ, pos, neg, nonzero, Option,
  none, some, ebusy, enomem, arith,
}
use a1625_linux_winboot.Kernel.{
  Prog, ret, ◌>>=◌, of_detach_node, pointer, failure, Ensures, bind, branch, resume,
}
use a1625_linux_winboot.DeviceTree.{cleaned, detached}
use a1625_linux_winboot.DeviceTree.Dart.{put_node}
use a1625_linux_winboot.DeviceTree.PciNode.{PciNode, remove_node, pci_node_create, pci_node_remove}
use a1625_linux_winboot.Chip.Back.{Reads, ReadBack, untouched}
use a1625_linux_winboot.PciScan.Controls.{Scan, is_some, save_controls}
use a1625_linux_winboot.PciScan.Host.{
  Options, Baseline, fresh, read_baseline, on_bridge, with_bridge, get_node, hosted, saved,
  from_baseline, pci_scan,
}
use a1625_linux_winboot.PciScan.Host.Before.{Read, read_baseline-Read}
use a1625_linux_winboot.PciScan.Host.Back.{ReadAsFirst, First, any-First, restore-Back}

-- A code of 0 says that all is back.
abbrev pub Back : (rc ep : ℕ) → ℤ → Reads → Type 0
Back rc ep r s = r ≡ pos 0 → ReadAsFirst rc ep s

put_node-Same : (node : Option ℕ) (s : Reads) → Ensures ReadBack (put_node node) (λ _ t. t ≡ s) s
unfolding put_node
put_node-Same none s = refl
put_node-Same (some node) s = (tt, λ _ _. refl)

detached-Same : (node : ℕ) (r : ℤ) (s : Reads) → Ensures ReadBack (detached node r) (λ _ t. t ≡ s) s
unfolding detached
detached-Same node r s = (
  tt,
  λ gone _.
      resume ReadBack (λ _ t. t ≡ s) (if gone then ret (pos 0) else of_detach_node node) _ s
        (branch ReadBack (λ _ t. t ≡ s) gone (ret (pos 0)) _ s (λ _. refl) (λ _. (tt, λ _ _. refl)))
        (λ cleanup. (tt, λ _ _. refl)),
)

pci_node_remove-Same :
    (state : PciNode) (s : Reads) → Ensures ReadBack (pci_node_remove state) (λ _ t. t ≡ s) s
unfolding pci_node_remove remove_node
pci_node_remove-Same state s =
    resume ReadBack (λ _ t. t ≡ s) _ _ s
      (branch ReadBack (λ _ t. t ≡ s) state.applied _ _ s (λ _. (tt, λ _ _. refl)) (λ _. refl))
      (λ r. by_node state.node r)
  where
    by_node : (node : Option ℕ) (r : ℤ) → Ensures ReadBack (remove_node node r) (λ _ t. t ≡ s) s
    by_node none r = (tt, λ _ _. refl)
    by_node (some node) r =
        resume ReadBack (λ _ t. t ≡ s) (detached node r) _ s (detached-Same node r s)
          (λ q. (tt, λ _ _. (tt, λ _ _. refl)))

module _ (rc ep : ℕ) (disjoint : (rc + 4096 ≤ ep) ⊎ (ep + 4096 ≤ rc)) where
  module _ (b : Baseline) where
    with_bridge-Back :
        (o : Options) (bridge : ℕ) (scan : Scan) (s : Reads)
        → First rc ep b s
        → Ensures ReadBack (with_bridge o b rc ep bridge scan) (Back rc ep) s
    unfolding with_bridge
    with_bridge-Back o bridge scan s f =
        branch ReadBack (Back rc ep) (not o.assign_memory) _ _ s
          (λ _.
            bind ReadBack (λ _ t. First rc ep b t) (Back rc ep) (on_bridge o bridge scan) _ s
              (any-First rc ep disjoint b _ s f)
              (λ (r, scan) t k. restore-Back rc ep disjoint b scan r t k))
          (λ _. (
            tt,
            λ r _.
                branch ReadBack (Back rc ep) (nonzero r) _ _ s
                  (λ bad. (tt, λ _ _ zero. ground arith))
                  (λ _.
                    bind ReadBack (λ _ t. First rc ep b t) (Back rc ep) (on_bridge o bridge scan) _
                      s (any-First rc ep disjoint b _ s f)
                      (λ (r, scan) t k.
                        (tt, λ released _. restore-Back rc ep disjoint b scan _ t k))),
          ))

    hosted-Back :
        (o : Options) (node : Option ℕ) (scan : Scan) (s : Reads)
        → First rc ep b s
        → Ensures ReadBack (hosted o b rc ep node scan) (Back rc ep) s
    unfolding hosted
    hosted-Back o node scan s f = (
      tt,
      elim [
        | failure n ↦ λ _ zero. ground arith
        | pointer parent ↦ λ _.
            bind ReadBack (λ _ t. First rc ep b t) (Back rc ep) (get_node node) _ s
              (any-First rc ep disjoint b _ s f)
              λ _ t k. (
                tt,
                λ made _.
                    bind ReadBack (Back rc ep) (Back rc ep) _ _ t (on_made made t k) (λ r u back.
                      resume ReadBack (Back rc ep) (put_node node) _ u (put_node-Same node u)
                        (λ _. (tt, λ _ _. back))),
              )
      ],
    )
      where
        on_made :
            (made : Option ℕ) (t : Reads)
            → First rc ep b t
            → Ensures ReadBack
                (elim made as (λ _. Prog ℤ) [
                  | none ↦ ret (neg enomem)
                  | some bridge ↦ with_bridge o b rc ep bridge scan
                ])
                (Back rc ep)
                t
        on_made none t k = λ zero. ground arith
        on_made (some bridge) t k = with_bridge-Back o bridge scan t k

    saved-Back :
        (o : Options) (scan : Scan) (s : Reads)
        → First rc ep b s
        → Ensures ReadBack (saved o b rc ep scan) (Back rc ep) s
    unfolding saved
    saved-Back o scan s f = by_dart o.dart
      where
        ended : (cleanup r : ℤ) (t : Reads) → Back rc ep r t → Back rc ep (cleaned cleanup r) t
        ended cleanup r t back zero = back (ground arith)

        by_dart :
            (dart : Option ℕ)
            → Ensures ReadBack
                (elim dart as (λ _. Prog ℤ) [
                  | none ↦ hosted o b rc ep none scan
                  | some d ↦ do
                    (r, state) ← pci_node_create d
                    r ← if nonzero r then ret r else hosted o b rc ep state.node scan
                    cleanup ← pci_node_remove state
                    ret (cleaned cleanup r)
                ])
                (Back rc ep)
                s
        by_dart none = hosted-Back o none scan s f
        by_dart (some d) =
            bind ReadBack (λ _ t. First rc ep b t) (Back rc ep) (pci_node_create d) _ s
              (any-First rc ep disjoint b _ s f)
              λ (r, state) t k.
                bind ReadBack (Back rc ep) (Back rc ep)
                  (if nonzero r then ret r else hosted o b rc ep state.node scan) _ t
                  (branch ReadBack (Back rc ep) (nonzero r) (ret r) _ t (λ bad zero. ground arith)
                    (λ _. hosted-Back o state.node scan t k))
                  λ r u back.
                    resume ReadBack (Back rc ep) (pci_node_remove state) _ u
                      (pci_node_remove-Same state u) (λ cleanup. ended cleanup r u back)

  -- When `a1625_pci_scan` returns 0, whatever the registers read as and whatever the kernel answers,
  -- the first and the last read of each command register found 0, and the last read of each ROM
  -- register, of the root port's bus numbers and of its bridge control found what the first read of
  -- it in this run found; and each of the last reads came after the last write to the register's
  -- address. The two configuration spaces do not overlap.
  pub pci_scan-ReadAsFirst :
      (o : Options)
      → Ensures ReadBack (pci_scan o rc ep) (λ r s. r ≡ pos 0 → ReadAsFirst rc ep s) untouched
  unfolding pci_scan from_baseline
  pci_scan-ReadAsFirst o = (
    tt,
    λ found _.
        branch ReadBack (Back rc ep) (is_some found) (ret (neg ebusy)) _ untouched (refused _ _)
          λ _. (
            tt,
            λ rc_id _.
                branch ReadBack (Back rc ep) (not (rc_id == 0x1002_106b)) (ret (neg ebusy)) _ _
                  (refused _ _)
                  λ _. (
                    tt,
                    λ ep_id _.
                        branch ReadBack (Back rc ep) (not (ep_id == 0x43a3_14e4)) (ret (neg ebusy))
                          _ _ (refused _ _)
                          λ _.
                            bind ReadBack (Read rc ep disjoint) (Back rc ep) (read_baseline rc ep) _
                              _ (read_baseline-Read rc ep disjoint _ (ground arith))
                              (λ b t k. after_baseline b t k),
                  ),
          ),
  )
    where
      refused : (b : Bool) (s : Reads) → b ≡ true → Back rc ep (neg ebusy) s
      refused b s t zero = ground arith

      after_baseline :
          (b : Option Baseline) (t : Reads)
          → Read rc ep disjoint b t
          → Ensures ReadBack (from_baseline o rc ep b) (Back rc ep) t
      after_baseline none t k = λ zero. ground arith
      after_baseline (some b) t k =
          bind ReadBack (λ _ t. First rc ep b t) (Back rc ep) (save_controls (fresh o rc ep)) _ t
            (any-First rc ep disjoint b _ t k)
            λ (r, scan) u l.
              branch ReadBack (Back rc ep) (nonzero r) (ret r) _ u (λ bad zero. ground arith)
                (λ _. saved-Back b o scan u l)
