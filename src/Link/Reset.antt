-- ===== src/Link/Reset.antt =====
-- The reset line under `observe_held_radio`, the radio's callback.
use a1625_linux_winboot.Prelude.{
  ℕ, ◌≡◌, refl, Bool, true, not, ◌&&◌, ◌||◌, ◌==◌, ==_refl, if◌then◌else◌, ℤ, nonzero, bit_and,
  arith,
}
use a1625_linux_winboot.Prelude.Bits.{all_ones}
use a1625_linux_winboot.Kernel.{Op, Ans, Prog, ret, call, Monitor, Ensures, bind, branch}
use a1625_linux_winboot.Radio.{reset_pin, clkreq_pin, read_equal}
use a1625_linux_winboot.Link.{reset_again, released, train, observe_held_radio}

-- The line is driven low when a read of its register past the cache finds the value for that; it
-- may be high from a write to it on.
abbrev next : (gpio_map : ℕ) → Bool → (o : Op) → Ans o → Bool
next gpio_map low (Op.gpiod_direction_output_raw desc v) r = low && (v == 0)
next gpio_map low (Op.regmap_write map reg v) r =
    low && not ((map == gpio_map) && (reg == reset_pin))
next gpio_map low (Op.regmap_read_bypassed map reg) r =
    if (map == gpio_map) && (reg == reset_pin) then not (nonzero r.0) && (r.1 == 0x76202) else low
next gpio_map low _ r = low

-- Whether the reset line is known to be low.
abbrev pub ResetLow : (gpio_map : ℕ) → Monitor
ResetLow gpio_map = record {
  State = Bool;
  next = next gpio_map;
  Permits = λ s o. Unit;
  Answers = λ s o r. Unit;
}

module _ (gpio_map : ℕ) where
  abbrev Low : ℤ → Bool → Type 0
  Low r low = (nonzero r || low) ≡ true

  -- What a program does does not matter where nothing is asked of it.
  anything :
      {A : Type 0} (p : Prog A) (s : Bool) → Ensures (ResetLow gpio_map) p (λ _ _. Unit {0}) s
  anything (ret a) s = tt
  anything (call o k) s = (tt, λ r _. anything (k r) _)

  reset_again-Low :
      (reset : ℕ) (r : ℤ) (s : Bool)
      → Ensures (ResetLow gpio_map) (reset_again reset gpio_map r) Low s
  unfolding reset_again read_equal
  reset_again-Low reset r s = ground (arith, ==_refl gpio_map)

  train-Low :
      (identify_endpoint : Bool) (snapshot_endpoint : Prog ℤ) (reset control : ℕ)
      → Ensures
          (ResetLow gpio_map)
          (train identify_endpoint snapshot_endpoint reset gpio_map control)
          Low
          true
  unfolding train read_equal
  train-Low identify_endpoint snapshot_endpoint reset control =
      bind (ResetLow gpio_map) Low Low (read_equal gpio_map clkreq_pin 0x76220) _ true clkreq
        λ r t p.
          branch (ResetLow gpio_map) Low (nonzero r) _ _ t (λ bad. p)
            λ good.
              bind (ResetLow gpio_map) (λ _ _. Unit {0}) Low
                (released identify_endpoint snapshot_endpoint reset gpio_map control) _ t
                (anything _ t) λ q u _. reset_again-Low reset q u
    where
      clkreq : Ensures (ResetLow gpio_map) (read_equal gpio_map clkreq_pin 0x76220) Low true
      clkreq = ground arith

  -- With the reset line low when it is called, `observe_held_radio` returns a code other than 0 or
  -- the reset line is known to be low again, whatever the kernel, the port and the endpoint do and
  -- whatever `snapshot_endpoint` is.
  pub observe_held_radio-Low :
      (train_link identify_endpoint : Bool) (snapshot_endpoint : Prog ℤ) (reset : ℕ)
      → Ensures
          (ResetLow gpio_map)
          (observe_held_radio train_link identify_endpoint snapshot_endpoint reset gpio_map)
          (λ r low. (nonzero r || low) ≡ true)
          true
  unfolding observe_held_radio
  observe_held_radio-Low train_link identify_endpoint snapshot_endpoint reset = (
    tt,
    λ control _.
        branch (ResetLow gpio_map) Low ((control == all_ones) || not (bit_and control 1 == 0)) _ _
          true (λ _. refl)
          λ _. (
            tt,
            λ status _.
                branch (ResetLow gpio_map) Low ((status == all_ones) || not (bit_and status 1 == 0))
                  _ _ true (λ _. refl)
                  λ _.
                    branch (ResetLow gpio_map) Low (not train_link) _ _ true (λ _. refl)
                      λ _. train-Low identify_endpoint snapshot_endpoint reset control,
          ),
  )
