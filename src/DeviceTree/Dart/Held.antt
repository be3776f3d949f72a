-- ===== src/DeviceTree/Dart/Held.antt =====
-- The leases of `a1625_with_dart`, in windows-native/wifi/pmu-probe/a1625_dart_lifetime.h.
use a1625_linux_winboot.Prelude.{
  ℕ, ◌≡◌, refl, Bool, true, false, not, ◌==◌, ==_refl, if◌then◌else◌, neg, enodev, nonzero, Option,
  none, some, List, [], ◌∷◌, All, All-append, arith,
}
use a1625_linux_winboot.Kernel.{
  ret, Ensures, branch, resume, after, of_node_set_populated, of_changeset_move_first_to_tail,
}
use a1625_linux_winboot.Kernel.Leases.{Lease, node, changeset, consumer, applied, Leases, holds}
use a1625_linux_winboot.Msi.Held.{is_j42d_t7000-Keeps}
use a1625_linux_winboot.Link.Held.{PortMapped, OnPort}
use a1625_linux_winboot.DeviceTree.{dart_changes}
use a1625_linux_winboot.DeviceTree.Held.{Same, in_turn-Same, installed-Same}
use a1625_linux_winboot.DeviceTree.Dart
use a1625_linux_winboot.DeviceTree.Dart.{
  Client, has, properties, name_node, described, run_client, bound, fits, with_node, attached,
  with_changes, with_aic, put_node, with_parents, with_dart,
}

-- The callback, if there is one, gives back what it takes.
abbrev pub ClientOrderly : Option Client → Type 0
ClientOrderly none = Unit
ClientOrderly (some operate) = (pdev : ℕ) → OnPort (operate pdev)

module _ (n phandle : ℕ) (s : List Lease) where
  abbrev made : List Lease
  made = node n ∷ changeset dart_changes ∷ s

  properties-Same : (test : Bool) → All (Same made) (properties test n phandle)
  unfolding properties
  properties-Same false = ground (arith, ==_refl n)
  properties-Same true = ground (arith, ==_refl n)

  name_node-Same : Same made (name_node n)
  unfolding name_node
  name_node-Same = (
    tt,
    elim [
      | none ↦ λ _. ground (arith, ==_refl n)
      | some existing ↦ λ _. ground (arith, ==_refl existing)
    ],
  )

  described-Same :
      (operate : Option Client) (test : Bool) → Same made (described operate test n phandle)
  unfolding described
  described-Same none test =
      in_turn-Same _ made
        (All-append (Same made) (properties test n phandle) [] (properties-Same test) tt)
  described-Same (some operate) test = in_turn-Same _ made (
      All-append (Same made) (properties test n phandle) (name_node n ∷ []) (properties-Same test)
        (name_node-Same, tt))

module _ (operate : Option Client) (orderly : ClientOrderly operate) where
  run_client-OnPort : (pdev : ℕ) → OnPort (run_client operate pdev)
  run_client-OnPort pdev s on = cases operate orderly
    where
      cases : (o : Option Client) → ClientOrderly o → Same s (run_client o pdev)
      cases none h = refl
      cases (some f) h = h pdev s on

  bound-back :
      (pdev : ℕ) (s : List Lease)
      → PortMapped s
      → Ensures Leases (bound operate pdev) (λ _ t. t ≡ s) (consumer pdev ∷ s)
  unfolding bound
  bound-back pdev s on = (
    ground (arith, ==_refl pdev),
    λ _ _. (
      ground (arith, ==_refl pdev),
      λ ours _. (
        ground (arith, ==_refl pdev),
        λ _ _. rw (==_refl pdev) (
            resume Leases (λ _ t. t ≡ s)
              (if ours then run_client operate pdev else ret (neg enodev)) _ (consumer pdev ∷ s)
              (branch Leases (λ _ t. t ≡ consumer pdev ∷ s) ours _ _ _
                (λ _. run_client-OnPort pdev (consumer pdev ∷ s) on) (λ _. refl))
              λ r. ground (arith, ==_refl pdev)),
      ),
    ),
  )

  applied-back :
      (n : ℕ) (s : List Lease)
      → PortMapped s
      → holds (node n) s ≡ true
      → Same s (Dart.applied operate n)
  unfolding Dart.applied
  applied-back n s on held = (
    held,
    λ resource _.
        branch Leases (λ _ t. t ≡ s) (nonzero (Dart.fits resource)) _ _ s (λ _. refl)
          λ _. (
            held,
            λ _ _. (held, elim [ none ↦ λ _. refl | some pdev ↦ λ _. bound-back pdev s on ]),
          ),
  )

  module _ (n : ℕ) (s : List Lease) (on : PortMapped s) where
    abbrev here : List Lease
    here = node n ∷ changeset dart_changes ∷ s

    attached-Same : Same here (attached operate n)
    unfolding attached
    attached-Same =
        resume Leases (λ _ t. t ≡ here) _ _ here (moved (has operate))
          λ _. (
            rw (==_refl n) refl,
            λ _ _. (
              refl,
              λ r _.
                  installed-Same (nonzero r) dart_changes n r (Dart.applied operate n)
                    (of_node_set_populated n) here (rw (==_refl n) refl) (λ t h. (h, λ _ _. refl))
                    (applied-back n (applied dart_changes ∷ here) on (rw (==_refl n) refl)),
            ),
          )
      where
        moved :
            (b : Bool)
            → Ensures Leases
                (if b then of_changeset_move_first_to_tail dart_changes else ret tt)
                (λ _ t. t ≡ here)
                here
        moved true = (refl, λ _ _. refl)
        moved false = refl

    with_node-Same : (test : Bool) (phandle : ℕ) → Same here (with_node operate test phandle n)
    unfolding with_node
    with_node-Same test phandle =
        resume Leases (λ _ t. t ≡ here) (described operate test n phandle) _ here
          (described-Same n phandle s operate test)
          λ r. branch Leases (λ _ t. t ≡ here) (nonzero r) _ _ here (λ _. refl) (λ _. attached-Same)

  with_aic-Same :
      (test : Bool) (soc aic : ℕ) (s : List Lease)
      → PortMapped s
      → holds (node aic) s ≡ true
      → Same s (with_aic operate test soc aic)
  unfolding with_aic with_changes
  with_aic-Same test soc aic s on held = (
    held,
    λ phandle _.
        branch Leases (λ _ t. t ≡ s) (phandle == 0) _ _ s (λ _. refl)
          λ _. (
            held,
            λ ours _.
                branch Leases (λ _ t. t ≡ s) (not ours) _ _ s (λ _. refl)
                  λ _. (
                    tt,
                    λ _ _. (
                      refl,
                      elim [
                        | none ↦ λ _. ground arith
                        | some n ↦ λ _.
                            resume Leases (λ _ t. t ≡ s) (with_node operate test phandle n) _
                              (node n ∷ changeset dart_changes ∷ s)
                              (with_node-Same n s on test phandle) λ r. ground (arith, ==_refl n)
                      ],
                    ),
                  ),
          ),
  )

  with_parents-Same :
      (test : Bool) (s : List Lease) → PortMapped s → Same s (with_parents operate test)
  unfolding with_parents put_node
  with_parents-Same test s on = (
    tt,
    elim [
      | none ↦ λ _. (tt, elim [ none ↦ λ _. refl | some aic ↦ λ _. ground (arith, ==_refl aic) ])
      | some soc ↦ λ _. (
        tt,
        elim [
          | none ↦ λ _. ground (arith, ==_refl soc)
          | some aic ↦ λ _.
              resume Leases (λ _ t. t ≡ s) (with_aic operate test soc aic) _
                (node aic ∷ node soc ∷ s)
                (with_aic-Same test soc aic (node aic ∷ node soc ∷ s) on (rw (==_refl aic) refl))
                λ r. ground (arith, ==_refl aic, ==_refl soc)
        ],
      )
    ],
  )

  -- Whatever the kernel answers, `a1625_with_dart` gives back every reference that it takes, reverts
  -- and destroys its changeset, unregisters the platform device that it creates, and asks for the
  -- device's driver only under the device's lock. So it is with a callback that gives back what it
  -- takes while the port is mapped, and with none. A changeset or a node counts as given back when
  -- the kernel is asked to revert or to detach it, whatever it answers.
  pub with_dart-Leases : (test : Bool) → OnPort (with_dart operate test)
  unfolding with_dart
  with_dart-Leases test s on =
      after (λ _ t. t ≡ s) _ s is_j42d_t7000-Keeps
        λ board.
          branch Leases (λ _ t. t ≡ s) (not board) _ _ s (λ _. refl)
            λ _. (
              tt,
              elim [
                | some existing ↦ λ _. ground (arith, ==_refl existing)
                | none ↦ λ _. with_parents-Same test s on
              ],
            )
