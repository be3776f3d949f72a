-- ===== src/Link/Held.antt =====
-- The leases of `observe_held_radio`, in windows-native/wifi/pmu-probe/a1625_pcie_domains.c.
use a1625_linux_winboot.Prelude.{
  ℕ, ◌≡◌, refl, Bool, true, not, ◌&&◌, ◌||◌, ◌==◌, ==_refl, if◌then◌else◌, ℤ, neg, nonzero, eio,
  enodev, List, ◌∷◌, bit_and, bit_or, arith,
}
use a1625_linux_winboot.Prelude.Bits.{all_ones}
use a1625_linux_winboot.Kernel.{Prog, ret, Ensures, Keeps, branch, resume, after}
use a1625_linux_winboot.Kernel.Leases.{Lease, descriptor, Leases, mapped}
use a1625_linux_winboot.Msi.{msi_control, msi_base}
use a1625_linux_winboot.Radio.{read_equal, clkreq_pin, reset_pin}
use a1625_linux_winboot.Link.{
  port_control, port_status, linked, stop_link, trained, released, reset_again, train,
  observe_held_radio,
}

abbrev Back : List Lease → ℤ → List Lease → Type 0
Back s r t = t ≡ s

-- The port's registers lie inside a mapping that is held.
abbrev pub PortMapped : List Lease → Type 0
PortMapped s =
    (mapped port_control s ≡ true)
    × (mapped port_status s ≡ true)
    × (mapped msi_control s ≡ true)
    × (mapped msi_base s ≡ true)

-- A stage gives back what it takes wherever the port is mapped.
abbrev pub OnPort : Prog ℤ → Type 0
OnPort stage = (s : List Lease) → PortMapped s → Ensures Leases stage (λ _ t. t ≡ s) s

module _ (endpoint : Prog ℤ) (h : Keeps Leases endpoint) (reset : ℕ) (s : List Lease)
    (on : PortMapped (descriptor reset ∷ s)) where
  abbrev here : List Lease
  here = descriptor reset ∷ s

  linked-held : (identify : Bool) → Ensures Leases (linked identify endpoint) (Back here) here
  unfolding linked
  linked-held identify = (
    on.1,
    λ q _.
        branch Leases (Back here)
          (not (nonzero (if q.1 == all_ones then neg enodev else q.0)) && identify) _ _ here
          (λ _. h.keeps here) (λ _. refl),
  )

  stop_link-held : (control : ℕ) (r : ℤ) → Ensures Leases (stop_link control r) (Back here) here
  unfolding stop_link
  stop_link-held control r = let here_on = on.0 in ground arith

  trained-held :
      (identify : Bool) (control : ℕ)
      → Ensures Leases (trained identify endpoint control) (Back here) here
  unfolding trained
  trained-held identify control = (
    on.0,
    λ _ _. (
      on.0,
      λ found _.
          resume Leases (Back here)
            (if found == bit_or control 1 then linked identify endpoint else ret (neg eio)) _ here
            (branch Leases (Back here) (found == bit_or control 1) _ _ here
              (λ _. linked-held identify) (λ _. refl))
            (stop_link-held control),
    ),
  )

  read_equal-Keeps : (map reg v : ℕ) → Keeps Leases (read_equal map reg v)
  unfolding read_equal
  read_equal-Keeps map reg v = record { keeps = λ s. ground arith }

  reset_again-held :
      (gpio_map : ℕ) (r : ℤ) → Ensures Leases (reset_again reset gpio_map r) (Back here) here
  unfolding reset_again read_equal
  reset_again-held gpio_map r = ground (arith, ==_refl reset)

  released-held :
      (identify : Bool) (gpio_map control : ℕ)
      → Ensures Leases (released identify endpoint reset gpio_map control) (Back here) here
  unfolding released
  released-held identify gpio_map control = (
    rw (==_refl reset) refl,
    λ r _.
        branch Leases (Back here) (nonzero r) _ _ here (λ _. refl)
          λ _. after (Back here) _ here (read_equal-Keeps gpio_map reset_pin 0x76203) λ r.
            branch Leases (Back here) (nonzero r) _ _ here (λ _. refl)
              (λ _. trained-held identify control),
  )

  train-held :
      (identify : Bool) (gpio_map control : ℕ)
      → Ensures Leases (train identify endpoint reset gpio_map control) (Back here) here
  unfolding train
  train-held identify gpio_map control =
      after (Back here) _ here (read_equal-Keeps gpio_map clkreq_pin 0x76220) λ r.
        branch Leases (Back here) (nonzero r) _ _ here (λ _. refl)
          λ _.
            resume Leases (Back here) (released identify endpoint reset gpio_map control) _ here
              (released-held identify gpio_map control) (reset_again-held gpio_map)

  -- The callback touches the port only inside a mapping that the caller holds, drives the reset
  -- line only by the descriptor that it is given, and takes nothing that it does not give back, if
  -- `snapshot_endpoint` does so.
  pub observe_held_radio-Leases :
      (train_link identify : Bool) (gpio_map : ℕ)
      → Ensures Leases
          (observe_held_radio train_link identify endpoint reset gpio_map)
          (λ _ t. t ≡ descriptor reset ∷ s)
          (descriptor reset ∷ s)
  unfolding observe_held_radio
  observe_held_radio-Leases train_link identify gpio_map = (
    on.0,
    λ control _.
        branch Leases (Back here) ((control == all_ones) || not (bit_and control 1 == 0)) _ _ here
          (λ _. refl)
          λ _. (
            on.1,
            λ status _.
                branch Leases (Back here) ((status == all_ones) || not (bit_and status 1 == 0)) _ _
                  here (λ _. refl)
                  λ _.
                    branch Leases (Back here) (not train_link) _ _ here (λ _. refl)
                      λ _. train-held identify gpio_map control,
          ),
  )
