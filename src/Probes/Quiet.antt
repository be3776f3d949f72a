-- ===== src/Probes/Quiet.antt =====
-- What the read-only probes of windows-native/wifi/pmu-probe leave alone.
use a1625_linux_winboot.Prelude.{
  ℕ, ◌≡◌, ◌≢◌, refl, Bool, not, ==_refl, ℤ, pos, neg, nonzero, enodev, none, some, List, [], ◌∷◌,
  arith,
}
use a1625_linux_winboot.Kernel.{Prog, ret, Ensures, branch, resume, after}
use a1625_linux_winboot.Kernel.Leases.{Lease, device, lock, Leases}
use a1625_linux_winboot.Kernel.ReadOnly.{ReadOnly}
use a1625_linux_winboot.Board.{is_j42d_t7000}
use a1625_linux_winboot.Msi.Held.{is_j42d_t7000-Keeps}
use a1625_linux_winboot.Radio.{radio_pulse}
use a1625_linux_winboot.Radio.Held.{radio_pulse-Leases}
use a1625_linux_winboot.Probes.{
  intended, pins, read_pins, read_gpio, locked_read, gpio_probe_init, read_pmu, pmu_probe_init,
  power_probe_init,
}

-- Leases are kept and the code is not 0.
abbrev Refused : List Lease → ℤ → List Lease → Type 0
Refused s r t = (r ≢ pos 0) × (t ≡ s)

intended-ne-zero : (r : ℤ) → intended r ≢ pos 0
intended-ne-zero r = ground arith

module _ (dev : ℕ) (s : List Lease) where
  abbrev here : List Lease
  here = lock dev ∷ device dev ∷ s

  locked_read-Refused :
      (read : Prog ℤ)
      → Ensures Leases read (λ _ t. t ≡ here) here
      → Ensures Leases (locked_read read dev) (Refused s) (device dev ∷ s)
  unfolding locked_read
  locked_read-Refused read h = (
    ground (arith, ==_refl dev),
    λ _ _.
        resume Leases (Refused s) read _ here h
          λ r. let refused = intended-ne-zero r in ground (arith, ==_refl dev),
  )

  read_pins-Same :
      (map : ℕ) (ps : List ℕ) (r : ℤ) → Ensures Leases (read_pins map ps r) (λ _ t. t ≡ here) here
  unfolding read_pins
  read_pins-Same map [] r = refl
  read_pins-Same map (p ∷ ps) r = (
    tt,
    λ (r, cached) _.
        branch Leases (λ _ t. t ≡ here) (nonzero r) _ _ here (λ _. refl)
          λ _. (
            tt,
            λ (r, live) _.
                branch Leases (λ _ t. t ≡ here) (nonzero r) _ _ here (λ _. refl)
                  (λ _. read_pins-Same map ps r),
          ),
  )

  read_gpio-Same : Ensures Leases (read_gpio dev) (λ _ t. t ≡ here) here
  unfolding read_gpio
  read_gpio-Same = (
    tt,
    λ driver _.
        branch Leases (λ _ t. t ≡ here) (not driver) _ _ here (λ _. refl)
          λ _. (
            rw (==_refl dev) refl,
            elim [ none ↦ λ _. refl | some m ↦ λ _. read_pins-Same m pins (neg enodev) ],
          ),
  )

  read_pmu-Same : Ensures Leases (read_pmu dev) (λ _ t. t ≡ here) here
  unfolding read_pmu
  read_pmu-Same = ground (arith, ==_refl dev)

-- Whatever the kernel answers, the snapshot of the pins gives back the references and the lock that
-- it takes, looks up the regmap only under the lock, and does not return 0.
pub gpio_probe_init-Refused :
    (s : List Lease) → Ensures Leases gpio_probe_init (λ r t. (r ≢ pos 0) × (t ≡ s)) s
unfolding gpio_probe_init
gpio_probe_init-Refused s = after (Refused s) _ s is_j42d_t7000-Keeps λ board.
    branch Leases (Refused s) (not board) _ _ s (λ _. ground arith)
      λ _. (
        tt,
        elim [
          | none ↦ λ _. ground arith
          | some node ↦ λ _. (
            rw (==_refl node) refl,
            λ fits _.
                branch Leases (Refused s) (not fits) _ _ _ (λ _. ground (arith, ==_refl node))
                  λ _. (
                    rw (==_refl node) refl,
                    elim [
                      | none ↦ λ _. ground (arith, ==_refl node)
                      | some dev ↦ λ _. (
                        rw (==_refl node) refl,
                        λ _ _.
                            rw (==_refl node)
                              (locked_read-Refused dev s (read_gpio dev) (read_gpio-Same dev s)),
                      )
                    ],
                  ),
          )
        ],
      )

-- Whatever the kernel answers, the snapshot of WL_REG_ON's configuration gives back the references and the lock that
-- it takes, looks up the regmap only under the lock, and does not return 0.
pub pmu_probe_init-Refused :
    (s : List Lease) → Ensures Leases pmu_probe_init (λ r t. (r ≢ pos 0) × (t ≡ s)) s
unfolding pmu_probe_init
pmu_probe_init-Refused s = after (Refused s) _ s is_j42d_t7000-Keeps λ board.
    branch Leases (Refused s) (not board) _ _ s (λ _. ground arith)
      λ _. (
        tt,
        elim [
          | none ↦ λ _. ground arith
          | some node ↦ λ _. (
            rw (==_refl node) refl,
            λ fits _.
                branch Leases (Refused s) (not fits) _ _ _ (λ _. ground (arith, ==_refl node))
                  λ _. (
                    rw (==_refl node) refl,
                    elim [
                      | none ↦ λ _. ground (arith, ==_refl node)
                      | some dev ↦ λ _. (
                        rw (==_refl node) refl,
                        λ _ _.
                            rw (==_refl node)
                              (locked_read-Refused dev s (read_pmu dev) (read_pmu-Same dev s)),
                      )
                    ],
                  ),
          )
        ],
      )

-- The pulse with no observer gives back what it takes, and its module is not kept.
pub power_probe_init-Refused :
    (pulse : Bool) (s : List Lease)
    → Ensures Leases (power_probe_init pulse) (λ r t. (r ≢ pos 0) × (t ≡ s)) s
unfolding power_probe_init
power_probe_init-Refused pulse s =
    resume Leases (Refused s) (radio_pulse pulse (λ reset gpio_map. ret (pos 0))) _ s
      (radio_pulse-Leases pulse (λ reset gpio_map. ret (pos 0)) s
        (λ gpio_dev pmu desc gpio_map. refl))
      λ r. (intended-ne-zero r, refl)

-- Neither of the two read-only probes writes a register, whatever the kernel answers.
pub gpio_probe_init-pmu_probe_init-ReadOnly :
    Ensures ReadOnly gpio_probe_init (λ _ _. Unit {0}) tt
    × Ensures ReadOnly pmu_probe_init (λ _ _. Unit {0}) tt
unfolding gpio_probe_init pmu_probe_init is_j42d_t7000 locked_read read_gpio read_pmu read_pins
gpio_probe_init-pmu_probe_init-ReadOnly = (ground arith, ground arith)
