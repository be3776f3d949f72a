-- ===== src/PciScan/Firmware/Ends.antt =====
-- How long the hold of `a1625_hold_wifi` lasts, in windows-native/wifi/pmu-probe/a1625_pci_scan.h.
use a1625_linux_winboot.Prelude.{
  ℕ, zero, suc, ◌+◌, ◌*◌, ◌-◌, ◌%◌, ◌^◌, ◌<◌, ◌≤◌, ◌≡◌, refl, Bool, true, false, not, ◌&&◌,
  if◌then◌else◌, ℤ, Option, none, some, arith,
}
use a1625_linux_winboot.Kernel.{Op, Ans, Monitor, Ensures, bind, branch, resume}
use a1625_linux_winboot.PciScan.Firmware.{time_before, goes_on, healthy, hold_loop, Hold, hold_for}

-- What is known of the time: the first reading of jiffies, a bound from below on the ticks since
-- then, and whether the last sleep may still turn out to have been cut short by a signal.
pub record Clock : Type 0 where
  pub start : ℕ
  pub ticks : ℕ
  pub slept : Bool

-- The counter has 64 bits.
abbrev since : (start now : ℕ) → ℕ
since start now = (now + (2 ^ 64 - start)) % 2 ^ 64

-- A sleep that no signal has cut short takes a tick.
abbrev woken : Bool → Clock → Clock
woken signal c =
    if not signal && c.slept then record c { ticks = c.ticks + 1; slept = false } else c

abbrev next : Option Clock → (o : Op) → Ans o → Option Clock
next none Op.jiffies r = some (record { start = r; ticks = 0; slept = false })
next (some c) (Op.msleep_interruptible ms) r = some (record c { slept = true })
next (some c) Op.signal_pending r = some (woken r c)
next c _ r = c

-- jiffies is a 64-bit counter that has gone on by no less than the ticks that are known of, and the
-- whole run is short of 2 ^ 62 of them.
abbrev Answers : Option Clock → (o : Op) → Ans o → Type 0
Answers none Op.jiffies r = r < 2 ^ 64
Answers (some c) Op.jiffies r =
    (r < 2 ^ 64) × (c.ticks ≤ since c.start r) × (since c.start r < 2 ^ 62)
Answers c _ r = Unit

abbrev pub Ticking : Monitor
Ticking = record { State = Option Clock; next = next; Permits = λ c o. Unit {0}; Answers = Answers }

-- The ticks that are known of before the next sleep is.
abbrev all_ticks : Clock → ℕ
all_ticks c = if c.slept then c.ticks + 1 else c.ticks

-- The hold of `span` ticks is not over yet.
before-deadline :
    (start now span : ℕ)
    → start < 2 ^ 64
    → now < 2 ^ 64
    → span < 2 ^ 32
    → since start now < 2 ^ 62
    → time_before now ((start + span) % 2 ^ 64) ≡ true
    → since start now < span
before-deadline start now span s n w short before = ground arith

abbrev pub returned : Option ℤ → Bool
returned none = false
returned (some r) = true

abbrev Returned : Option ℤ → Option Clock → Type 0
Returned r c = returned r ≡ true

module _ (dev start span : ℕ) (low : start < 2 ^ 64) (short : span < 2 ^ 32) where
  -- What holds at the head of the loop with `n` rounds left.
  record OnTime (n : ℕ) (c : Clock) : Type 0 where
    since_start : c.start ≡ start
    not_over : c.ticks ≤ span
    enough : span + 1 < n + all_ticks c

  healthy-Kept : (c : Clock) → Ensures Ticking (healthy dev) (λ _ t. t ≡ some c) (some c)
  unfolding healthy
  healthy-Kept c = ground arith

  OnTime-slept :
      (n : ℕ) (c : Clock)
      → OnTime (suc n) c
      → c.ticks < span
      → OnTime n (record (woken false c) { slept = true })
  OnTime-slept n c h before = by_flag c.slept h.since_start h.enough
    where
      by_flag :
          (slept : Bool)
          → c.start ≡ start
          → span + 1 < suc n + (if slept then c.ticks + 1 else c.ticks)
          → OnTime n (record (woken false (record c { slept = slept })) { slept = true })
      by_flag true e enough = record {
        since_start = e;
        not_over = omega arith;
        enough = omega arith;
      }
      by_flag false e enough = record {
        since_start = e;
        not_over = omega arith;
        enough = omega arith;
      }

  hold_loop-Returned :
      (n : ℕ) (c : Clock)
      → OnTime n c
      → Ensures Ticking (hold_loop dev false ((start + span) % 2 ^ 64) n) Returned (some c)
  unfolding hold_loop goes_on
  hold_loop-Returned zero c h =
      let a = h.not_over in let b = h.enough in let never : false ≡ true = ground arith in never
  hold_loop-Returned (suc n) c h = (
    tt,
    λ now (fits, passed, soon).
        branch Ticking Returned (not (time_before now ((start + span) % 2 ^ 64))) _ _ (some c)
          (λ _. refl)
          λ on. (
            tt,
            elim [
              | true ↦ λ _. refl
              | false ↦ λ _.
                  resume Ticking Returned (healthy dev) _ (some (woken false c))
                    (healthy-Kept (woken false c))
                    λ good.
                      branch Ticking Returned (not good) _ _ (some (woken false c)) (λ _. refl)
                        λ _. (
                          tt,
                          λ _ _.
                              hold_loop-Returned n (record (woken false c) { slept = true })
                                (OnTime-slept n c h (still now fits passed soon on)),
                        )
            ],
          ),
  )
    where
      still :
          (now : ℕ)
          → now < 2 ^ 64
          → c.ticks ≤ since c.start now
          → since c.start now < 2 ^ 62
          → not (time_before now ((start + span) % 2 ^ 64)) ≡ false
          → c.ticks < span
      still now fits passed soon on =
          let e = h.since_start in
          let soon' : since start now < 2 ^ 62 = ground arith in
          let before = before-deadline start now span low fits short soon' (ground arith) in
          ground arith

-- A hold of some seconds returns within `HZ` rounds for each second and two more: it never runs out
-- of rounds. jiffies is taken to count on by a tick at least during each sleep that no signal cuts
-- short, and not to wrap around during the hold; the seconds are not to overflow 32 bits in ticks.
pub hold_for-Returned :
    (h : Hold) (dev seconds : ℕ)
    → seconds * h.hz < 2 ^ 32
    → seconds * h.hz + 2 ≤ h.rounds
    → Ensures Ticking (hold_for h dev seconds false) (λ r _. returned r ≡ true) none
unfolding hold_for
hold_for-Returned h dev seconds short rounds = (
  tt,
  λ now fits.
      let same : seconds * h.hz % 2 ^ 32 ≡ seconds * h.hz = ground arith in
      bind Ticking Returned Returned (hold_loop dev false _ h.rounds) _
        (some (record { start = now; ticks = 0; slept = false }))
        (rw same (
          hold_loop-Returned dev now (seconds * h.hz) fits short h.rounds _
            (record { since_start = refl; not_over = omega arith; enough = omega arith })))
        λ r t done. (tt, λ _ _. (tt, λ _ _. done)),
)
