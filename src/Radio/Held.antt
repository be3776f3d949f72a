-- ===== src/Radio/Held.antt =====
-- The leases of `a1625_radio_pulse`, in windows-native/wifi/pmu-probe/a1625_radio_pulse.h.
use a1625_linux_winboot.Prelude.{
  ℕ, ◌≡◌, refl, Bool, true, false, not, ◌&&◌, ◌||◌, ◌==◌, ==_refl, ℤ, nonzero, none, some, List,
  ◌∷◌, arith,
}
use a1625_linux_winboot.Kernel.{Ensures, branch, Keeps, after, resume, pointer, failure}
use a1625_linux_winboot.Kernel.Leases.{Lease, device, lock, descriptor, Leases}
use a1625_linux_winboot.Board.{is_j42d_t7000}
use a1625_linux_winboot.Radio.{
  Observer, powered, raised, power_down, reset_back, pulsed, baseline, checked, locked,
  with_devices, find_pmu, radio_pulse,
}

-- What is held while the callback runs, over what the caller holds.
abbrev pub radio_held : (gpio_dev pmu desc : ℕ) → List Lease → List Lease
radio_held gpio_dev pmu desc s =
    descriptor desc ∷ lock pmu ∷ lock gpio_dev ∷ device pmu ∷ device gpio_dev ∷ s

abbrev Back : {A : Type 0} → List Lease → A → List Lease → Type 0
Back s r t = t ≡ s

powered-Keeps :
    (reset gpio_map pmu_map : ℕ) (s : List Lease)
    → Ensures Leases
        (powered reset gpio_map pmu_map)
        (Back (descriptor reset ∷ s))
        (descriptor reset ∷ s)
unfolding powered
powered-Keeps reset gpio_map pmu_map s = ground arith

power_down-Keeps :
    (touched : Bool) (pmu_map saved : ℕ) (r : ℤ) → Keeps Leases (power_down touched pmu_map saved r)
unfolding power_down
power_down-Keeps touched pmu_map saved r = record { keeps = λ s. ground arith }

reset_back-Keeps :
    (safe : Bool) (gpio_map saved : ℕ) (r : ℤ) → Keeps Leases (reset_back safe gpio_map saved r)
unfolding reset_back
reset_back-Keeps safe gpio_map saved r = record { keeps = λ s. ground arith }

baseline-Keeps : (gpio_map pmu_map : ℕ) → Keeps Leases (baseline gpio_map pmu_map)
unfolding baseline
baseline-Keeps gpio_map pmu_map = record { keeps = λ s. ground arith }

is_j42d_t7000-Keeps : Keeps Leases is_j42d_t7000
unfolding is_j42d_t7000
is_j42d_t7000-Keeps = record { keeps = λ s. ground arith }

module _ (pulse : Bool) (observe : Observer) (s : List Lease)
    (orderly : (gpio_dev pmu desc gpio_map : ℕ)
      → Ensures Leases
          (observe desc gpio_map)
          (λ _ t. t ≡ radio_held gpio_dev pmu desc s)
          (radio_held gpio_dev pmu desc s)) where
  abbrev both : (gpio_dev pmu : ℕ) → List Lease
  both gpio_dev pmu = lock pmu ∷ lock gpio_dev ∷ device pmu ∷ device gpio_dev ∷ s

  module _ (gpio_dev pmu : ℕ) where
    raised-held :
        (desc gpio_map pmu_map : ℕ)
        → Ensures Leases
            (raised observe desc gpio_map pmu_map)
            (Back (radio_held gpio_dev pmu desc s))
            (radio_held gpio_dev pmu desc s)
    unfolding raised
    raised-held desc gpio_map pmu_map =
        let here = radio_held gpio_dev pmu desc s in
        resume Leases (Back here) (powered desc gpio_map pmu_map) _ here
          (powered-Keeps desc gpio_map pmu_map (both gpio_dev pmu))
          λ (r, touched).
            branch Leases (Back here) (nonzero r) _ _ here (λ _. refl)
              λ _.
                resume Leases (Back here) (observe desc gpio_map) _ here
                  (orderly gpio_dev pmu desc gpio_map) (λ _. refl)

    pulsed-held :
        (desc gpio_map pmu_map reset_saved pmu_saved : ℕ)
        → Ensures Leases
            (pulsed observe desc gpio_map pmu_map reset_saved pmu_saved)
            (Back (both gpio_dev pmu))
            (radio_held gpio_dev pmu desc s)
    unfolding pulsed
    pulsed-held desc gpio_map pmu_map reset_saved pmu_saved =
        let here = radio_held gpio_dev pmu desc s in
        let end : ℤ → List Lease → Type 0 = Back (both gpio_dev pmu) in
        resume Leases end (raised observe desc gpio_map pmu_map) _ here
          (raised-held desc gpio_map pmu_map)
          λ (r, touched).
            after end _ here (power_down-Keeps touched pmu_map pmu_saved r) λ (safe, q).
              after end _ here (reset_back-Keeps safe gpio_map reset_saved q) λ q. ground arith

    checked-held :
        (gpio_map pmu_map : ℕ)
        → Ensures Leases
            (checked pulse observe gpio_dev pmu gpio_map pmu_map)
            (Back (both gpio_dev pmu))
            (both gpio_dev pmu)
    unfolding checked
    checked-held gpio_map pmu_map =
        after (Back (both gpio_dev pmu)) _ (both gpio_dev pmu) (baseline-Keeps gpio_map pmu_map)
          λ (r, reset_saved, pmu_saved).
            branch Leases (Back (both gpio_dev pmu)) (nonzero r || not pulse) _ _
              (both gpio_dev pmu) (λ _. refl)
              λ _. (
                tt,
                λ _ _. (
                  tt,
                  elim [
                    | failure e ↦ λ _. (tt, λ _ _. refl)
                    | pointer desc ↦
                        λ _. (tt, λ _ _. pulsed-held desc gpio_map pmu_map reset_saved pmu_saved)
                  ],
                ),
              )

    locked-held :
        Ensures Leases
          (locked pulse observe gpio_dev pmu)
          (Back (both gpio_dev pmu))
          (both gpio_dev pmu)
    unfolding locked
    locked-held = (
      tt,
      λ gpio_driver _. (
        tt,
        λ pmu_driver _. (
          tt,
          λ addr _.
              branch Leases (Back (both gpio_dev pmu))
                (not (gpio_driver && pmu_driver && (addr == 0x74))) _ _ (both gpio_dev pmu)
                (λ _. refl)
                λ _. (
                  ground arith,
                  elim [
                    | none ↦ λ _. (ground arith, λ _ _. refl)
                    | some gpio_map ↦ λ _. (
                      ground arith,
                      elim [ none ↦ λ _. refl | some pmu_map ↦ λ _. checked-held gpio_map pmu_map ],
                    )
                  ],
                ),
        ),
      ),
    )

    with_devices-held :
        Ensures Leases
          (with_devices pulse observe gpio_dev pmu)
          (Back s)
          (device pmu ∷ device gpio_dev ∷ s)
    unfolding with_devices
    with_devices-held = (
      ground arith,
      λ _ _. (
        ground arith,
        λ _ _.
            resume Leases (Back s) (locked pulse observe gpio_dev pmu) _ (both gpio_dev pmu)
              locked-held λ r. ground arith,
      ),
    )

  find_pmu-held :
      (gpio_dev : ℕ)
      → Ensures Leases (find_pmu pulse observe gpio_dev) (Back s) (device gpio_dev ∷ s)
  unfolding find_pmu
  find_pmu-held gpio_dev = (
    tt,
    elim [
      | none ↦ λ _. ground arith
      | some n ↦ λ _. (
        ground arith,
        elim [
          | false ↦ λ _. ground arith
          | true ↦ λ _. (
            ground arith,
            elim [
              | none ↦ λ _. ground arith
              | some pmu ↦
                  λ _. (ground arith, λ _ _. rw (==_refl n) (with_devices-held gpio_dev pmu))
            ],
          )
        ],
      )
    ],
  )

  -- Whatever the kernel answers, `a1625_radio_pulse` gives back every reference, lock and
  -- descriptor that it takes, gives back nothing that it does not hold, drives the reset line only
  -- while it holds the line's descriptor and looks up a regmap only under the device's lock; so
  -- it is if the callback gives back what it takes.
  pub radio_pulse-Leases : Ensures Leases (radio_pulse pulse observe) (λ _ t. t ≡ s) s
  unfolding radio_pulse
  radio_pulse-Leases = after (Back s) _ s is_j42d_t7000-Keeps λ board.
      branch Leases (Back s) (not board) _ _ s (λ _. refl)
        λ _. (
          tt,
          elim [
            | none ↦ λ _. refl
            | some n ↦ λ _. (
              ground arith,
              elim [
                | false ↦ λ _. ground arith
                | true ↦ λ _. (
                  ground arith,
                  elim [
                    | none ↦ λ _. ground arith
                    | some gpio_dev ↦
                        λ _. (ground arith, λ _ _. rw (==_refl n) (find_pmu-held gpio_dev))
                  ],
                )
              ],
            )
          ],
        )
