-- ===== src/Domains/Failures.antt =====
-- The failures of the regmap and of runtime power management in `a1625_with_pcie_domains`.
use a1625_linux_winboot.Prelude.{
  ℕ, ◌+◌, ◌≡◌, refl, Bool, true, false, not, ◌&&◌, ◌||◌, if◌then◌else◌, ℤ, pos, nonzero, negative,
  bit_and, ◌==◌, Option, none, some, List, [], ◌∷◌, arith,
}
use a1625_linux_winboot.Kernel.{
  Op, Ans, Prog, ret, ◌>>=◌, Monitor, Ensures, bind, branch, pointer, failure,
}
use a1625_linux_winboot.Board.{is_j42d_t7000}
use a1625_linux_winboot.Domains.{
  Domain, domains, baseline, for_each, attach, register, power_up, force, powered_up, detach,
  release_one, release_all, verify, cycled, given, called, with_pcie_domains, busy_bits,
}

abbrev next : Bool → (o : Op) → Ans o → Bool
next b (Op.regmap_read m a) r = b || nonzero r.0
next b (Op.regmap_update_bits m a k v) r = b || nonzero r
next b (Op.regmap_read_poll_timeout m a) r = b || nonzero r.0
next b (Op.of_genpd_add_device n d) r = b || nonzero r
next b (Op.pm_genpd_remove_device d) r = b || nonzero r
next b (Op.pm_runtime_resume_and_get d) r = b || negative r
next b (Op.pm_runtime_put_sync_suspend d) r = b || negative r
next b _ r = b

-- Whether such a call has failed.
abbrev pub Failures : Monitor
Failures = record { State = Bool; next = next; Permits = λ s o. Unit; Answers = λ s o r. Unit }

-- A failure shows in the code.
abbrev pub Shown : ℤ → Bool → Type 0
Shown r failed = (not failed || nonzero r) ≡ true

abbrev ShownBy : {A : Type 0} → ℤ × A → Bool → Type 0
ShownBy (r, a) failed = Shown r failed

attach-Shown : (n c : ℕ) (d : Domain) → Ensures Failures (attach n c d) ShownBy false
unfolding attach
attach-Shown n c d = ground arith

register-Shown : (i : ℕ) (d : Domain) → Ensures Failures (register i d) ShownBy false
unfolding register
register-Shown i d = (
  tt,
  elim [
    | none ↦ λ _. refl
    | some n ↦ λ _. (
      tt,
      elim [
        | false ↦ λ _. ground arith
        | true ↦
            λ _. (tt, elim [ failure e ↦ λ _. ground arith | pointer c ↦ λ _. attach-Shown n c d ])
      ],
    )
  ],
)

power_up-Shown : (map i : ℕ) (d : Domain) → Ensures Failures (power_up map i d) ShownBy false
unfolding power_up
power_up-Shown map i d = ground arith

force-Shown : (map i : ℕ) (d : Domain) → Ensures Failures (force map i d) ShownBy false
unfolding force
force-Shown map i d = ground arith

unfailed : (r : ℤ) (t : Bool) → Shown r t → nonzero r ≡ false → t ≡ false
unfailed r t p good = ground arith

for_each-Shown :
    (body : ℕ → Domain → Prog (ℤ × Domain))
    → ((i : ℕ) (d : Domain) → Ensures Failures (body i d) ShownBy false)
    → (i : ℕ) (ds : List Domain) → Ensures Failures (for_each body i ds) ShownBy false
unfolding for_each
for_each-Shown body h i [] = refl
for_each-Shown body h i (d ∷ ds) =
    bind Failures ShownBy ShownBy (body i d) _ false (h i d) λ (r, e) t p.
      branch Failures ShownBy (nonzero r) _ _ t (λ bad. p)
        λ good. rw (unfailed r t p good) (
          bind Failures ShownBy ShownBy (for_each body (i + 1) ds) _ false
            (for_each-Shown body h (i + 1) ds) (λ _ _ q. q))

detach-Shown :
    (a : Bool) (c : ℕ) (r : ℤ) (t : Bool) → Shown r t → Ensures Failures (detach a c r) Shown t
unfolding detach
detach-Shown a c r t h = ground arith

release_one-Shown :
    (map : ℕ) (d : Domain) (r : ℤ) (t : Bool)
    → Shown r t
    → Ensures Failures (release_one map d r) Shown t
unfolding release_one
release_one-Shown map d r t h = by_flags d.consumer d.forced d.resumed
  where
    by_flags :
        (o : Option ℕ) (f w : Bool)
        → Ensures Failures
            (release_one map (record d { consumer = o; forced = f; resumed = w }) r)
            Shown
            t
    by_flags none f w = h
    by_flags (some c) true true =
        (tt, λ q _. (tt, λ p _. detach-Shown d.attached c _ _ (ground arith)))
    by_flags (some c) true false = (tt, λ q _. detach-Shown d.attached c _ _ (ground arith))
    by_flags (some c) false true = (tt, λ p _. detach-Shown d.attached c _ _ (ground arith))
    by_flags (some c) false false = detach-Shown d.attached c r t h

release_all-Shown :
    (map : ℕ) (ds : List Domain) (r : ℤ) (t : Bool)
    → Shown r t
    → Ensures Failures (release_all map ds r) Shown t
unfolding release_all
release_all-Shown map [] r t h = h
release_all-Shown map (d ∷ ds) r t h =
    bind Failures Shown Shown (release_all map ds r) _ t (release_all-Shown map ds r t h)
      λ q u k. release_one-Shown map d q u k

verify-Shown :
    (map : ℕ) (ds : List Domain) (r : ℤ) (t : Bool)
    → Shown r t
    → Ensures Failures (verify map ds r) Shown t
unfolding verify
verify-Shown map [] r t h = h
verify-Shown map (d ∷ ds) r t h = (tt, λ a _. verify-Shown map ds _ _ (ground arith))

baseline-Shown :
    (map : ℕ) (cycle : Bool) (ds : List Domain)
    → Ensures Failures (baseline map cycle ds) Shown false
unfolding baseline
baseline-Shown map cycle [] = refl
baseline-Shown map cycle (d ∷ ds) = (
  tt,
  λ a _.
      branch Failures Shown (nonzero a.0) _ _ _ (λ bad. ground arith)
        λ good. rw good (
          branch Failures Shown (cycle && not (bit_and a.1 busy_bits == 0)) _ _ false (λ _. refl)
            λ _. baseline-Shown map cycle ds),
)

module _ (map : ℕ) (force_active : Bool) (operate : Prog ℤ)
    (open_about_it : Ensures Failures operate Shown false) where
  powered_up-Shown :
      (ds : List Domain) → Ensures Failures (powered_up map force_active operate ds) ShownBy false
  unfolding powered_up
  powered_up-Shown ds =
      bind Failures ShownBy ShownBy (for_each register 0 ds) _ false
        (for_each-Shown register register-Shown 0 ds)
        λ (r, es) t p.
          branch Failures ShownBy (nonzero r) _ _ t (λ bad. p)
            λ good. rw (unfailed r t p good) (
              bind Failures ShownBy ShownBy (for_each (power_up map) 0 es) _ false
                (for_each-Shown (power_up map) (power_up-Shown map) 0 es)
                λ (r, fs) t p.
                  branch Failures ShownBy (nonzero r) _ _ t (λ bad. p)
                    λ good. rw (unfailed r t p good) (operated-Shown fs))
    where
      operated-Shown :
          (ds : List Domain)
          → Ensures Failures
              (do
                (r, ds) ← if force_active then for_each (force map) 0 ds else ret (pos 0, ds)
                if nonzero r then ret (r, ds) else do r ← operate; ret (r, ds))
              ShownBy
              false
      operated-Shown ds =
          bind Failures ShownBy ShownBy
            (if force_active then for_each (force map) 0 ds else ret (pos 0, ds)) _ false
            (branch Failures ShownBy force_active _ _ false
              (λ _. for_each-Shown (force map) (force-Shown map) 0 ds) (λ _. refl))
            λ (r, es) t p.
              branch Failures ShownBy (nonzero r) _ _ t (λ bad. p)
                λ good.
                  rw (unfailed r t p good)
                    (bind Failures Shown ShownBy operate _ false open_about_it (λ _ _ q. q))

  cycled-Shown :
      (cycle : Bool) → Ensures Failures (cycled map cycle force_active operate) Shown false
  unfolding cycled
  cycled-Shown cycle =
      bind Failures Shown Shown (baseline map cycle domains) _ false
        (baseline-Shown map cycle domains)
        λ r t p.
          branch Failures Shown (nonzero r || not cycle) _ _ t (λ _. p)
            λ on. rw (unfailed r t p (ground arith)) (
              bind Failures ShownBy Shown (powered_up map force_active operate domains) _ false
                (powered_up-Shown domains)
                λ (q, ds) u k.
                  bind Failures Shown Shown (release_all map ds q) _ u
                    (release_all-Shown map ds q u k) λ r t p. verify-Shown map ds r t p)

-- If any read, update or poll of a power domain's register fails, or any attachment, detachment,
-- resumption or suspension of a consumer, `a1625_with_pcie_domains` returns a code other than 0,
-- whatever succeeds after it. So it is if the callback does the same.
pub with_pcie_domains-Shown :
    (cycle force_active : Bool) (operate : Option (Prog ℤ))
    → Ensures Failures (called operate) Shown false
    → Ensures Failures (with_pcie_domains cycle force_active operate) Shown false
unfolding with_pcie_domains is_j42d_t7000
with_pcie_domains-Shown cycle force_active operate h =
    branch Failures Shown (not cycle && (force_active || given operate)) _ _ false (λ _. refl)
      λ _.
        bind Failures (λ _ t. t ≡ false) Shown is_j42d_t7000 _ false (ground arith)
          λ board t e. rw e (
            branch Failures Shown (not board) _ _ false (λ _. refl)
              λ _. (
                tt,
                elim [
                  | none ↦ λ _. refl
                  | some n ↦ λ _. (
                    tt,
                    elim [
                      | false ↦ λ _. ground arith
                      | true ↦ λ _. (
                        tt,
                        elim [
                          | failure e ↦ λ _. ground arith
                          | pointer m ↦
                              λ _. (tt, λ _ _. cycled-Shown m force_active (called operate) h cycle)
                        ],
                      )
                    ],
                  )
                ],
              ))
