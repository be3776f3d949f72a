-- ===== src/Domains/Acquire.antt =====
-- What the loops that register, power up and force the domains hold on every way out.
use a1625_linux_winboot.Prelude.{
  ℕ, ◌+◌, ◌≡◌, refl, Bool, true, false, not, ◌||◌, ◌==◌, ==_refl, if◌then◌else◌, ℤ, pos, neg,
  nonzero, negative, eio, bit_and, Option, none, some, List, [], ◌∷◌, All, arith,
}
use a1625_linux_winboot.Kernel.{ret, ◌>>=◌, regmap_read, Ensures, bind, branch, pointer, failure}
use a1625_linux_winboot.Kernel.Leases.{Lease, node, consumer, enabled, resumed, Leases, holds}
use a1625_linux_winboot.Domains.{Domain, dev_of, for_each, attach, register, power_up}
use a1625_linux_winboot.Domains.Release.{grip, registered, woken, awake, active, holds-active}

-- A domain of which nothing is held yet.
abbrev pub idle : Domain → Domain
idle d = record d { consumer = none; attached = false; resumed = false }

abbrev pub all_idle : List Domain → List Domain
all_idle [] = []
all_idle (d ∷ ds) = idle d ∷ all_idle ds

abbrev pub Gripped : Domain → Type 0
Gripped d = (d.consumer ≡ some (dev_of d.consumer)) × (d.attached ≡ true)

abbrev Registered : List Lease → ℤ × Domain → List Lease → Type 0
Registered s (r, d) t =
    (t ≡ grip d.consumer d.attached s) × (d.resumed ≡ false) × (nonzero r ≡ false → Gripped d)

attach-Registered :
    (n c : ℕ) (d : Domain) (s : List Lease)
    → Ensures Leases (attach n c (idle d)) (Registered s) (consumer c ∷ node n ∷ s)
unfolding attach
attach-Registered n c d s = ground (arith, ==_refl n, ==_refl c)

register-Registered :
    (i : ℕ) (d : Domain) (s : List Lease) → Ensures Leases (register i (idle d)) (Registered s) s
unfolding register
register-Registered i d s = (
  tt,
  elim [
    | none ↦ λ _. ground arith
    | some n ↦ λ _. (
      ground arith,
      elim [
        | false ↦ λ _. ground arith
        | true ↦ λ _. (
          tt,
          elim [ failure e ↦ λ _. ground arith | pointer c ↦ λ _. attach-Registered n c d s ],
        )
      ],
    )
  ],
)

abbrev pub AllRegistered : List Lease → ℤ × List Domain → List Lease → Type 0
AllRegistered s (r, ds) t =
    (t ≡ registered ds s) × All (λ d. d.resumed ≡ false) ds × (nonzero r ≡ false → All Gripped ds)

registered-all_idle : (ds : List Domain) (s : List Lease) → registered (all_idle ds) s ≡ s
registered-all_idle [] s = refl
registered-all_idle (d ∷ ds) s = registered-all_idle ds s

all_idle-asleep : (ds : List Domain) → All (λ d. d.resumed ≡ false) (all_idle ds)
all_idle-asleep [] = tt
all_idle-asleep (d ∷ ds) = (refl, all_idle-asleep ds)

pub for_each-register :
    (i : ℕ) (ds : List Domain) (s : List Lease)
    → Ensures Leases (for_each register i (all_idle ds)) (AllRegistered s) s
unfolding for_each
for_each-register i [] s = ground arith
for_each-register i (d ∷ ds) s =
    bind Leases (Registered s) (AllRegistered s) (register i (idle d)) _ s
      (register-Registered i d s)
      λ (r, e) t p.
        branch Leases (AllRegistered s) (nonzero r) _ _ t
          (λ bad. (
            rw (p.0, registered-all_idle ds (grip e.consumer e.attached s)) refl,
            (p.1, all_idle-asleep ds),
            λ good. ground arith,
          ))
          λ good. rw (p.0) (
            bind Leases (AllRegistered (grip e.consumer e.attached s)) (AllRegistered s)
              (for_each register (i + 1) (all_idle ds)) _ _
              (for_each-register (i + 1) ds (grip e.consumer e.attached s))
              λ (q, es) u k. (k.0, (p.1, k.1), λ ok. (p.2 good, k.2 ok)))

-- The consumer of each domain is enabled.
abbrev pub EnabledIn : List Lease → Domain → Type 0
EnabledIn s d = holds (enabled (dev_of d.consumer)) s ≡ true

Gripped-EnabledIn :
    (d : Domain) (s : List Lease) → Gripped d → EnabledIn (grip d.consumer d.attached s) d
Gripped-EnabledIn d s g = rw (g.0, g.1, ==_refl (dev_of d.consumer)) refl

holds-grip :
    (l : Lease) (o : Option ℕ) (a : Bool) (s : List Lease)
    → holds l s ≡ true
    → holds l (grip o a s) ≡ true
holds-grip l none a s h = h
holds-grip l (some c) false s h = ground arith
holds-grip l (some c) true s h = ground arith

holds-registered :
    (l : Lease) (ds : List Domain) (s : List Lease)
    → holds l s ≡ true
    → holds l (registered ds s) ≡ true
holds-registered l [] s h = h
holds-registered l (d ∷ ds) s h = holds-registered l ds _ (holds-grip l d.consumer d.attached s h)

pub registered-EnabledIn :
    (ds : List Domain) (s : List Lease) → All Gripped ds → All (EnabledIn (registered ds s)) ds
registered-EnabledIn [] s g = tt
registered-EnabledIn (d ∷ ds) s g = (
  holds-registered (enabled (dev_of d.consumer)) ds _ (Gripped-EnabledIn d s g.0),
  registered-EnabledIn ds _ g.1,
)

woken-asleep : (o : Option ℕ) (rs : List ℕ) → woken o false rs ≡ rs
woken-asleep none rs = refl
woken-asleep (some c) rs = refl

woken-awake : (o : Option ℕ) (rs : List ℕ) → o ≡ some (dev_of o) → woken o true rs ≡ dev_of o ∷ rs
woken-awake none rs h = cc
woken-awake (some c) rs h = refl

pub awake-asleep :
    (ds : List Domain) (rs : List ℕ) → All (λ d. d.resumed ≡ false) ds → awake ds rs ≡ rs
awake-asleep [] rs h = refl
awake-asleep (d ∷ ds) rs h = rw (h.0, woken-asleep d.consumer rs) (awake-asleep ds rs h.1)

-- The domain keeps its consumer.
record PoweredUpOne (d : Domain) (rs : List ℕ) (l : List Lease) (p : ℤ × Domain) (t : List Lease)
    : Type 0 where
  state : t ≡ active (woken p.1.consumer p.1.resumed rs) l
  consumer : p.1.consumer ≡ d.consumer
  attached : p.1.attached ≡ d.attached

power_up-PoweredUpOne :
    (map i : ℕ) (d : Domain) (rs : List ℕ) (l : List Lease)
    → EnabledIn l d
    → Gripped d
    → d.resumed ≡ false
    → Ensures Leases (power_up map i d) (PoweredUpOne d rs l) (active rs l)
unfolding power_up
power_up-PoweredUpOne map i d rs l h g asleep =
    (holds-active (enabled (dev_of d.consumer)) rs l h, λ q _. by_sign q (negative q))
  where
    by_sign :
        (q : ℤ) (failed : Bool)
        → Ensures Leases
            (if failed then ret (q, d) else do
              (r, reg) ← regmap_read map d.offset
              ret (
                if nonzero r
                    then r
                    else if not (bit_and reg 0xf == 0xf) || not (bit_and reg 0x8000_0400 == 0)
                    then neg eio
                    else pos 0,
                record d { resumed = true },
              ))
            (PoweredUpOne d rs l)
            (if failed then active rs l else resumed (dev_of d.consumer) ∷ active rs l)
    by_sign q true = record {
      state = rw (asleep, woken-asleep d.consumer rs) refl;
      consumer = refl;
      attached = refl;
    }
    by_sign q false = (
      tt,
      λ r _. record {
        state = rw (woken-awake d.consumer rs g.0) refl;
        consumer = refl;
        attached = refl;
      },
    )

-- The domains keep their consumers.
abbrev pub SameGrips : List Domain → List Domain → Type 0
SameGrips ds es = (s : List Lease) → registered es s ≡ registered ds s

abbrev PoweredUp :
    (ds : List Domain) (rs : List ℕ) (l : List Lease) → ℤ × List Domain → List Lease → Type 0
PoweredUp ds rs l (r, es) t = (t ≡ active (awake es rs) l) × SameGrips ds es

pub for_each-power_up :
    (map i : ℕ) (ds : List Domain) (rs : List ℕ) (l : List Lease)
    → All (EnabledIn l) ds
    → All Gripped ds
    → All (λ d. d.resumed ≡ false) ds
    → Ensures Leases (for_each (power_up map) i ds) (PoweredUp ds rs l) (active rs l)
unfolding for_each power_up
for_each-power_up map i [] rs l h g asleep = ground arith
for_each-power_up map i (d ∷ ds) rs l h g asleep =
    bind Leases (PoweredUpOne d rs l) (PoweredUp (d ∷ ds) rs l) (power_up map i d) _ _
      (power_up-PoweredUpOne map i d rs l h.0 g.0 asleep.0)
      λ (r, e) t p.
        branch Leases (PoweredUp (d ∷ ds) rs l) (nonzero r) _ _ t
          (λ bad. (
            rw (p.state, awake-asleep ds (woken e.consumer e.resumed rs) asleep.1) refl,
            λ s. rw (p.consumer, p.attached) refl,
          ))
          λ good. rw p.state (
            bind Leases (PoweredUp ds (woken e.consumer e.resumed rs) l) (PoweredUp (d ∷ ds) rs l)
              (for_each (power_up map) (i + 1) ds) _ _
              (for_each-power_up map (i + 1) ds (woken e.consumer e.resumed rs) l h.1 g.1 asleep.1)
              λ (q, es) u k. (k.0, λ s. rw (p.consumer, p.attached) (k.1 _)))
