-- ===== src/DeviceTree/PciNode/Held.antt =====
-- The leases of `a1625_pci_node_create` and `a1625_pci_node_remove`, in
-- windows-native/wifi/pmu-probe/a1625_pci_node.h.
use a1625_linux_winboot.Prelude.{
  ℕ, ◌≡◌, refl, Bool, true, false, not, ◌==◌, ==_refl, if◌then◌else◌, ℤ, nonzero, Option, none,
  some, List, ◌∷◌, All, arith,
}
use a1625_linux_winboot.Kernel.{◌>>=◌, Ensures, bind, branch, resume}
use a1625_linux_winboot.Kernel.Leases.{Lease, node, changeset, applied, Leases}
use a1625_linux_winboot.DeviceTree.{pci_changes, dart_phandle}
use a1625_linux_winboot.DeviceTree.Held.{Same, in_turn-Same, detached-Same}
use a1625_linux_winboot.DeviceTree.PciNode.{
  PciNode, remove_node, pci_node_remove, pci_properties, fill_node, pci_node_create,
}

-- What the record keeps.
abbrev nodes : Option ℕ → List Lease → List Lease
nodes none s = changeset pci_changes ∷ s
nodes (some n) s = node n ∷ changeset pci_changes ∷ s

abbrev pub node_held : PciNode → List Lease → List Lease
node_held state s =
    if state.applied then applied pci_changes ∷ nodes state.node s else nodes state.node s

remove_node-back :
    (n : Option ℕ) (r : ℤ) (s : List Lease)
    → Ensures Leases (remove_node n r) (λ _ t. t ≡ s) (nodes n s)
unfolding remove_node
remove_node-back none r s = ground arith
remove_node-back (some n) r s =
    resume Leases (λ _ t. t ≡ s) _ _ (node n ∷ changeset pci_changes ∷ s)
      (detached-Same n r _ (rw (==_refl n) refl)) λ r. ground (arith, ==_refl n)

pub pci_node_remove-back :
    (state : PciNode) (s : List Lease)
    → Ensures Leases (pci_node_remove state) (λ _ t. t ≡ s) (node_held state s)
unfolding pci_node_remove
pci_node_remove-back state s = by_flag state.applied
  where
    by_flag :
        (done : Bool)
        → Ensures Leases
            (pci_node_remove (record { node = state.node; applied = done }))
            (λ _ t. t ≡ s)
            (node_held (record { node = state.node; applied = done }) s)
    by_flag true = (refl, λ r _. remove_node-back state.node r s)
    by_flag false = remove_node-back state.node _ s

pci_properties-Same :
    (n : ℕ) (s : List Lease) → All (Same (node n ∷ changeset pci_changes ∷ s)) (pci_properties n)
unfolding pci_properties
pci_properties-Same n s = ground (arith, ==_refl n)

fill_node-Kept :
    (n : ℕ) (s : List Lease)
    → Ensures Leases (fill_node n) (λ r t. t ≡ node_held r.1 s) (node n ∷ changeset pci_changes ∷ s)
unfolding fill_node
fill_node-Kept n s =
    resume Leases (λ r t. t ≡ node_held r.1 s) _ _ (node n ∷ changeset pci_changes ∷ s)
      (in_turn-Same (pci_properties n) _ (pci_properties-Same n s))
      λ r.
        branch Leases (λ r t. t ≡ node_held r.1 s) (nonzero r) _ _ _ (λ _. refl)
          λ _. (rw (==_refl n) refl, λ _ _. (refl, λ r _. by_flag (nonzero r)))
  where
    by_flag :
        (failed : Bool)
        → (if failed
            then node n ∷ changeset pci_changes ∷ s
            else applied pci_changes ∷ node n ∷ changeset pci_changes ∷ s)
          ≡ node_held (record { node = some n; applied = not failed }) s
    by_flag true = refl
    by_flag false = refl

pub pci_node_create-Kept :
    (dart : ℕ) (s : List Lease)
    → Ensures Leases (pci_node_create dart) (λ r t. t ≡ node_held r.1 s) s
unfolding pci_node_create
pci_node_create-Kept dart s = (
  tt,
  λ _ _. (
    tt,
    λ phandle _.
        branch Leases (λ r t. t ≡ node_held r.1 s)
          (not (elim phandle [ none ↦ false | some h ↦ h == dart_phandle ])) _ _ _ (λ _. refl)
          λ _. (
            tt,
            elim [
              | some existing ↦ λ _. ground (arith, ==_refl existing)
              | none ↦ λ _. (
                tt,
                λ parent _. (refl, elim [ none ↦ λ _. refl | some n ↦ λ _. fill_node-Kept n s ]),
              )
            ],
          ),
  ),
)

-- Whatever the kernel answers, `a1625_pci_node_remove` gives back all that a call of
-- `a1625_pci_node_create` before it has left in its record, wherever that call stopped: the node,
-- and the changeset, reverted if it was applied. They count as given back when the kernel is asked
-- to revert and to detach them, whatever it answers.
pub pci_node_remove-pci_node_create :
    (dart : ℕ) (s : List Lease)
    → Ensures Leases (do (r, state) ← pci_node_create dart; pci_node_remove state) (λ _ t. t ≡ s) s
pci_node_remove-pci_node_create dart s =
    bind Leases (λ r t. t ≡ node_held r.1 s) (λ _ t. t ≡ s) (pci_node_create dart) _ s
      (pci_node_create-Kept dart s) λ (r, state) t e. rw e (pci_node_remove-back state s)
