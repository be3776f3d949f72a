-- ===== src/Link/Order.antt =====
-- `observe_held_radio` as the callback of the radio pulse: it keeps the order of power and reset.
use a1625_linux_winboot.Prelude.{
  ℕ, refl, inr, Bool, true, not, ◌&&◌, ◌||◌, ◌==◌, if◌then◌else◌, ℤ, nonzero, bit_and, bit_or, neg,
  eio, enodev, arith,
}
use a1625_linux_winboot.Prelude.Bits.{all_ones}
use a1625_linux_winboot.Kernel.{Prog, ret, Monitor, Ensures, bind, branch}
use a1625_linux_winboot.Radio.{reset_pin, clkreq_pin, read_equal}
use a1625_linux_winboot.Radio.Power.{Lines, PowerOrder, Held}
use a1625_linux_winboot.Link.{
  linked, stop_link, trained, released, reset_again, train, observe_held_radio,
}

module _ (gpio_map pmu_map : ℕ) (identify_endpoint : Bool) (snapshot_endpoint : Prog ℤ)
    (quiet : (s : Lines)
      → Ensures (PowerOrder true gpio_map pmu_map) snapshot_endpoint (λ _ _. Unit {0}) s) where
  abbrev Order : Monitor
  Order = PowerOrder true gpio_map pmu_map

  abbrev Any : ℤ → Lines → Type 0
  Any r s = Unit

  linked-Any : (s : Lines) → Ensures Order (linked identify_endpoint snapshot_endpoint) Any s
  unfolding linked
  linked-Any s = (
    tt,
    λ (r, status) _.
        let result : ℤ = if status == all_ones then neg enodev else r in
        branch Order Any (not (nonzero result) && identify_endpoint) snapshot_endpoint (ret result)
          s (λ _. quiet s) (λ _. tt),
  )

  stop_link-Any : (control : ℕ) (r : ℤ) (s : Lines) → Ensures Order (stop_link control r) Any s
  unfolding stop_link
  stop_link-Any control r s = (
    tt,
    λ status _.
        branch Order Any (status == all_ones) _ _ s (λ _. tt) (λ _. (tt, λ _ _. (tt, λ _ _. tt))),
  )

  trained-Any :
      (control : ℕ) (s : Lines)
      → Ensures Order (trained identify_endpoint snapshot_endpoint control) Any s
  unfolding trained
  trained-Any control s = (
    tt,
    λ _ _. (
      tt,
      λ status _.
          bind Order Any Any _ _ s
            (branch Order Any (status == bit_or control 1)
              (linked identify_endpoint snapshot_endpoint) (ret (neg eio)) s (λ _. linked-Any s)
              (λ _. tt))
            (λ r t _. stop_link-Any control r t),
    ),
  )

  read_equal-Any :
      (map reg expected : ℕ) (s : Lines) → Ensures Order (read_equal map reg expected) Any s
  unfolding read_equal
  read_equal-Any map reg expected s = ground arith

  released-Any :
      (reset control : ℕ) (s : Lines)
      → Held s
      → Ensures Order (released identify_endpoint snapshot_endpoint reset gpio_map control) Any s
  unfolding released
  released-Any reset control s h = (
    inr (refl, h.0, h.1),
    λ r _.
        branch Order Any (nonzero r) _ _ _ (λ _. tt)
          λ _.
            bind Order Any Any (read_equal gpio_map reset_pin 0x76203) _ _
              (read_equal-Any gpio_map reset_pin 0x76203 _)
              λ r t _. branch Order Any (nonzero r) _ _ t (λ _. tt) (λ _. trained-Any control t),
  )

  reset_again-Any :
      (reset : ℕ) (r : ℤ) (s : Lines) → Ensures Order (reset_again reset gpio_map r) Any s
  unfolding reset_again read_equal
  reset_again-Any reset r s = ground arith

  clkreq-Held :
      (s : Lines)
      → Held s
      → Ensures Order (read_equal gpio_map clkreq_pin 0x76220) (λ _ t. Held t) s
  unfolding read_equal
  clkreq-Held s h = ground arith

  -- From a state with WL_REG_ON on and the reset line low.
  pub observe_held_radio-Any :
      (train_link : Bool) (reset : ℕ) (s : Lines)
      → Held s
      → Ensures Order
          (observe_held_radio train_link identify_endpoint snapshot_endpoint reset gpio_map)
          (λ _ _. Unit {0})
          s
  unfolding observe_held_radio train
  observe_held_radio-Any train_link reset s h = (
    tt,
    λ control _.
        branch Order Any ((control == all_ones) || not (bit_and control 1 == 0)) _ _ s (λ _. tt)
          λ _. (
            tt,
            λ status _.
                branch Order Any ((status == all_ones) || not (bit_and status 1 == 0)) _ _ s
                  (λ _. tt)
                  λ _.
                    branch Order Any (not train_link) _ _ s (λ _. tt)
                      λ _.
                        bind Order (λ _ t. Held t) Any (read_equal gpio_map clkreq_pin 0x76220) _ s
                          (clkreq-Held s h)
                          λ r t k.
                            branch Order Any (nonzero r) _ _ t (λ _. tt)
                              λ _.
                                bind Order Any Any
                                  (released identify_endpoint snapshot_endpoint reset gpio_map
                                    control)
                                  _ t (released-Any reset control t k)
                                  (λ r u _. reset_again-Any reset r u),
          ),
  )
