-- ===== src/Domains/Release.antt =====
-- What the consumers of the power domains hold, and the loop that releases them.
use a1625_linux_winboot.Prelude.{
  ℕ, ◌≡◌, refl, Bool, true, false, ==_refl, if◌then◌else◌, ℤ, Option, none, some, List, [], ◌∷◌,
  nonzero, negative, pos, arith,
}
use a1625_linux_winboot.Kernel.{
  ret, ◌>>=◌, ◌>>◌, Ensures, bind, platform_device_unregister, pm_runtime_put_sync_suspend,
}
use a1625_linux_winboot.Kernel.Leases.{
  Lease, consumer, attached, enabled, resumed, Leases, same, holds, give_back,
}
use a1625_linux_winboot.Domains.{Domain, detach, release_one, release_all, first_bad}

-- What a consumer holds besides its activity, over what was held before.
abbrev pub grip : Option ℕ → Bool → List Lease → List Lease
grip none a s = s
grip (some c) false s = consumer c ∷ s
grip (some c) true s = enabled c ∷ attached c ∷ consumer c ∷ s

abbrev pub registered : List Domain → List Lease → List Lease
registered [] s = s
registered (d ∷ ds) s = registered ds (grip d.consumer d.attached s)

-- The consumers that are active, the last one first.
abbrev pub woken : Option ℕ → Bool → List ℕ → List ℕ
woken none a rs = rs
woken (some c) false rs = rs
woken (some c) true rs = c ∷ rs

abbrev pub awake : List Domain → List ℕ → List ℕ
awake [] rs = rs
awake (d ∷ ds) rs = awake ds (woken d.consumer d.resumed rs)

abbrev pub active : List ℕ → List Lease → List Lease
active [] s = s
active (c ∷ rs) s = resumed c ∷ active rs s

pub holds-active :
    (l : Lease) (rs : List ℕ) (s : List Lease) → holds l s ≡ true → holds l (active rs s) ≡ true
holds-active l [] s h = h
holds-active l (c ∷ rs) s h = let ih = holds-active l rs s h in ground arith

-- Leases of another kind than activity lie below all activity.
pub give_back-active :
    (l : Lease) (rs : List ℕ) (s : List Lease)
    → ((c : ℕ) → same l (resumed c) ≡ false)
    → give_back l (active rs s) ≡ active rs (give_back l s)
give_back-active l [] s apart = refl
give_back-active l (c ∷ rs) s apart = rw (apart c) (rw (give_back-active l rs s apart) refl)

module _ (l : Lease) (itself : same l l ≡ true) (apart : (c : ℕ) → same l (resumed c) ≡ false)
    (rs : List ℕ) (s : List Lease) where
  holds-top : holds l (active rs (l ∷ s)) ≡ true
  holds-top = holds-active l rs (l ∷ s) (rw itself refl)

  give_back-top : give_back l (active rs (l ∷ s)) ≡ active rs s
  give_back-top = rw (give_back-active l rs (l ∷ s) apart) (rw itself refl)

module _ (rs : List ℕ) (s : List Lease) where
  unregister-back :
      (c : ℕ) (r : ℤ)
      → Ensures Leases (detach false c r) (λ _ t. t ≡ active rs s) (active rs (consumer c ∷ s))
  unfolding detach
  unregister-back c r = (
    holds-top (consumer c) (==_refl c) (λ _. refl) rs s,
    λ _ _. give_back-top (consumer c) (==_refl c) (λ _. refl) rs s,
  )

  detach-back :
      (c : ℕ) (r : ℤ)
      → Ensures Leases
          (detach true c r)
          (λ _ t. t ≡ active rs s)
          (active rs (enabled c ∷ attached c ∷ consumer c ∷ s))
  unfolding detach
  detach-back c r = (
    holds-top (enabled c) (==_refl c) (λ _. refl) rs _,
    λ _ _. rw (give_back-top (enabled c) (==_refl c) (λ _. refl) rs (attached c ∷ consumer c ∷ s)) (
      (
        holds-top (attached c) (==_refl c) (λ _. refl) rs _,
        holds-active (consumer c) rs _ (rw (==_refl c) refl),
      ),
      λ q _.
          rw (give_back-top (attached c) (==_refl c) (λ _. refl) rs (consumer c ∷ s))
            (rw (give_back-top (consumer c) (==_refl c) (λ _. refl) rs s) (rest q (nonzero q))),
    ),
  )
    where
      rest :
          (q : ℤ) (failed : Bool)
          → Ensures Leases
              (if failed then ret q else do platform_device_unregister c; ret r)
              (λ _ t. t ≡ active rs s)
              (if failed then active rs s else active rs (consumer c ∷ s))
      rest q true = refl
      rest q false = unregister-back c r

  give-back :
      (a : Bool) (c : ℕ) (r : ℤ)
      → Ensures Leases (detach a c r) (λ _ t. t ≡ active rs s) (active rs (grip (some c) a s))
  give-back false c r = unregister-back c r
  give-back true c r = detach-back c r

  release_one-back :
      (map : ℕ) (d : Domain) (r : ℤ)
      → Ensures Leases
          (release_one map d r)
          (λ _ t. t ≡ active rs s)
          (active (woken d.consumer d.resumed rs) (grip d.consumer d.attached s))
  unfolding release_one
  release_one-back map d r = by_flags d.consumer d.forced
    where
      suspend :
          (c : ℕ) (was_resumed : Bool) (cleanup : ℤ)
          → Ensures Leases
              (do
                suspended ← if was_resumed then pm_runtime_put_sync_suspend c else ret (pos 0)
                detach d.attached c (if negative suspended then suspended else first_bad cleanup r))
              (λ _ t. t ≡ active rs s)
              (active (woken (some c) was_resumed rs) (grip (some c) d.attached s))
      suspend c true cleanup =
          (rw (==_refl c) refl, λ q _. rw (==_refl c) (give-back d.attached c _))
      suspend c false cleanup = give-back d.attached c _

      by_flags :
          (o : Option ℕ) (f : Bool)
          → Ensures Leases
              (release_one map (record d { consumer = o; forced = f }) r)
              (λ _ t. t ≡ active rs s)
              (active (woken o d.resumed rs) (grip o d.attached s))
      by_flags none f = refl
      by_flags (some c) true = (tt, λ cleanup _. suspend c d.resumed cleanup)
      by_flags (some c) false = suspend c d.resumed (pos 0)

pub release_all-back :
    (map : ℕ) (ds : List Domain) (r : ℤ) (rs : List ℕ) (s : List Lease)
    → Ensures Leases
        (release_all map ds r)
        (λ _ t. t ≡ active rs s)
        (active (awake ds rs) (registered ds s))
unfolding release_all
release_all-back map [] r rs s = refl
release_all-back map (d ∷ ds) r rs s =
    let mine = active (woken d.consumer d.resumed rs) (grip d.consumer d.attached s) in
    bind Leases (λ _ t. t ≡ mine) (λ _ t. t ≡ active rs s) (release_all map ds r) _ _
      (release_all-back map ds r (woken d.consumer d.resumed rs) (grip d.consumer d.attached s))
      λ q t e. rw e (release_one-back rs s map d q)
