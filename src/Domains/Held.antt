-- ===== src/Domains/Held.antt =====
-- The leases of `a1625_with_pcie_domains`, in windows-native/wifi/pmu-probe/a1625_pcie_domains.h.
use a1625_linux_winboot.Prelude.{
  ℕ, ◌+◌, ◌≡◌, refl, sym, Bool, true, false, not, ◌&&◌, ◌||◌, ==_refl, if◌then◌else◌, ℤ, pos,
  nonzero, Option, none, some, List, [], ◌∷◌, arith,
}
use a1625_linux_winboot.Kernel.{
  Prog, ret, ◌>>=◌, Ensures, bind, branch, Keeps, after, ret-Keeps, pointer, failure,
}
use a1625_linux_winboot.Kernel.Leases.{Lease, Leases}
use a1625_linux_winboot.Board.{is_j42d_t7000}
use a1625_linux_winboot.Domains.{
  Domain, domains, baseline, for_each, register, power_up, force, powered_up, release_all, verify,
  cycled, given, called, with_pcie_domains,
}
use a1625_linux_winboot.Domains.Release.{registered, awake, active, release_all-back}
use a1625_linux_winboot.Domains.Acquire.{
  all_idle, AllRegistered, for_each-register, registered-EnabledIn, SameGrips, for_each-power_up,
  awake-asleep,
}

baseline-Keeps : (map : ℕ) (cycle : Bool) (ds : List Domain) → Keeps Leases (baseline map cycle ds)
unfolding baseline
baseline-Keeps map cycle [] = record { keeps = λ s. refl }
baseline-Keeps map cycle (d ∷ ds) = record {
  keeps = λ s. let ih = (baseline-Keeps map cycle ds).keeps s in ground arith;
}

verify-Keeps : (map : ℕ) (ds : List Domain) (r : ℤ) → Keeps Leases (verify map ds r)
unfolding verify
verify-Keeps map [] r = record { keeps = λ s. refl }
verify-Keeps map (d ∷ ds) r = record { keeps = λ s. (tt, λ _ _. (verify-Keeps map ds _).keeps s) }

-- The domains keep their consumers and their activity.
record Forced (ds : List Domain) (s : List Lease) (p : ℤ × List Domain) (t : List Lease)
    : Type 0 where
  state : t ≡ s
  grips : SameGrips ds p.1
  awakes : (rs : List ℕ) → awake p.1 rs ≡ awake ds rs

record ForcedOne (d : Domain) (s : List Lease) (p : ℤ × Domain) (t : List Lease) : Type 0 where
  state : t ≡ s
  consumer : p.1.consumer ≡ d.consumer
  attached : p.1.attached ≡ d.attached
  resumed : p.1.resumed ≡ d.resumed

force-ForcedOne :
    (map i : ℕ) (d : Domain) (s : List Lease) → Ensures Leases (force map i d) (ForcedOne d s) s
unfolding force
force-ForcedOne map i d s = ground arith

for_each-force :
    (map i : ℕ) (ds : List Domain) (s : List Lease)
    → Ensures Leases (for_each (force map) i ds) (Forced ds s) s
unfolding for_each
for_each-force map i [] s = record { state = refl; grips = λ _. refl; awakes = λ _. refl }
for_each-force map i (d ∷ ds) s =
    bind Leases (ForcedOne d s) (Forced (d ∷ ds) s) (force map i d) _ s (force-ForcedOne map i d s)
      λ (r, e) t p.
        branch Leases (Forced (d ∷ ds) s) (nonzero r) _ _ t
          (λ bad. record {
            state = p.state;
            grips = λ s. rw (p.consumer, p.attached) refl;
            awakes = λ rs. rw (p.consumer, p.resumed) refl;
          })
          λ good. rw p.state (
            bind Leases (Forced ds s) (Forced (d ∷ ds) s) (for_each (force map) (i + 1) ds) _ s
              (for_each-force map (i + 1) ds s)
              λ (q, es) u k. record {
                state = k.state;
                grips = λ s. rw (p.consumer, p.attached) (k.grips _);
                awakes = λ rs. rw (p.consumer, p.resumed) (k.awakes _);
              })

-- What the array says is held is held.
abbrev Told : List Lease → ℤ × List Domain → List Lease → Type 0
Told s (r, ds) t = t ≡ active (awake ds []) (registered ds s)

module _ (map : ℕ) (force_active : Bool) (operate : Prog ℤ) (orderly : Keeps Leases operate) where
  -- From the resumed domains on.
  operated-Told :
      (ds : List Domain) (s : List Lease)
      → Ensures Leases
          (do
            (r, ds) ← if force_active then for_each (force map) 0 ds else ret (pos 0, ds)
            if nonzero r then ret (r, ds) else do r ← operate; ret (r, ds))
          (Told s)
          (active (awake ds []) (registered ds s))
  operated-Told ds s =
      let here = active (awake ds []) (registered ds s) in
      bind Leases (Forced ds here) (Told s)
        (if force_active then for_each (force map) 0 ds else ret (pos 0, ds)) _ here
        (branch Leases (Forced ds here) force_active _ _ here (λ _. for_each-force map 0 ds here)
          λ _. record { state = refl; grips = λ _. refl; awakes = λ _. refl })
        λ (r, es) t p.
          branch Leases (Told s) (nonzero r) _ _ t
            (λ bad. rw (p.state, p.awakes [], p.grips s) refl)
            λ good. after (Told s) _ t orderly λ r. rw (p.state, p.awakes [], p.grips s) refl

  powered_up-Told :
      (ds : List Domain) (s : List Lease)
      → Ensures Leases (powered_up map force_active operate (all_idle ds)) (Told s) s
  unfolding powered_up
  powered_up-Told ds s =
      bind Leases (AllRegistered s) (Told s) (for_each register 0 (all_idle ds)) _ s
        (for_each-register 0 ds s)
        λ (r, es) t p.
          branch Leases (Told s) (nonzero r) _ _ t (λ bad. rw (p.0, awake-asleep es [] p.1) refl)
            λ good. rw p.0 (
              bind Leases _ (Told s) (for_each (power_up map) 0 es) _ _
                (for_each-power_up map 0 es [] (registered es s)
                  (registered-EnabledIn es s (p.2 good)) (p.2 good) p.1)
                λ (q, fs) u k.
                  branch Leases (Told s) (nonzero q) _ _ u (λ bad. rw (k.0, k.1 s) refl)
                    λ good. rw (k.0, sym (k.1 s)) (operated-Told fs s))

  cycled-Keeps : (cycle : Bool) → Keeps Leases (cycled map cycle force_active operate)
  unfolding cycled
  cycled-Keeps cycle = record {
    keeps = λ s.
        after (λ _ t. t ≡ s) _ s (baseline-Keeps map cycle domains)
          λ r.
            branch Leases (λ _ t. t ≡ s) (nonzero r || not cycle) _ _ s (λ _. refl)
              λ _.
                bind Leases (Told s) (λ _ t. t ≡ s) (powered_up map force_active operate domains) _
                  s (powered_up-Told domains s)
                  λ (q, ds) t told. rw told (
                    bind Leases (λ _ t. t ≡ s) (λ _ t. t ≡ s) (release_all map ds q) _ _
                      (release_all-back map ds q [] s)
                      λ r t e. rw e ((verify-Keeps map ds r).keeps s));
  }

is_j42d_t7000-Keeps : Keeps Leases is_j42d_t7000
unfolding is_j42d_t7000
is_j42d_t7000-Keeps = record { keeps = λ s. ground arith }

-- The callback, if there is one, gives back what it takes.
abbrev pub Orderly : Option (Prog ℤ) → Type 0
Orderly none = Unit
Orderly (some operate) = Keeps Leases operate

called-Keeps : (operate : Option (Prog ℤ)) → Orderly operate → Keeps Leases (called operate)
called-Keeps none h = ret-Keeps (pos 0)
called-Keeps (some p) h = h

-- Whatever the kernel answers, `a1625_with_pcie_domains` gives back every reference that it takes;
-- resumes a consumer only while it is enabled and attached; and suspends, disables, detaches and
-- unregisters on every way out exactly the consumers that it resumed, enabled, attached and
-- registered. A consumer that the kernel refuses to detach counts as the kernel's. So it is if the
-- callback gives back what it takes.
pub with_pcie_domains-Leases :
    (cycle force_active : Bool) (operate : Option (Prog ℤ)) (s : List Lease)
    → Orderly operate
    → Ensures Leases (with_pcie_domains cycle force_active operate) (λ _ t. t ≡ s) s
unfolding with_pcie_domains
with_pcie_domains-Leases cycle force_active operate s orderly =
    branch Leases (λ _ t. t ≡ s) (not cycle && (force_active || given operate)) _ _ s (λ _. refl)
      λ _.
        after (λ _ t. t ≡ s) _ s is_j42d_t7000-Keeps
          λ board.
            branch Leases (λ _ t. t ≡ s) (not board) _ _ s (λ _. refl)
              λ _. (
                tt,
                elim [
                  | none ↦ λ _. refl
                  | some n ↦ λ _. (
                    ground arith,
                    elim [
                      | false ↦ λ _. ground arith
                      | true ↦ λ _. (
                        ground arith,
                        elim [
                          | failure e ↦ λ _. ground arith
                          | pointer m ↦ λ _. (
                            ground arith,
                            λ _ _. rw (==_refl n) (
                                (cycled-Keeps m force_active _ (called-Keeps operate orderly)
                                    cycle).keeps
                                  s),
                          )
                        ],
                      )
                    ],
                  )
                ],
              )
