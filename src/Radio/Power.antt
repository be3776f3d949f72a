-- ===== src/Radio/Power.antt =====
-- The order of power and reset in `a1625_radio_pulse`.
use a1625_linux_winboot.Prelude.{
  ℕ, ◌≡◌, ==_refl, ◌⊎◌, Bool, true, false, not, ◌&&◌, ◌||◌, ◌==◌, if◌then◌else◌, ℤ, nonzero, arith,
}
use a1625_linux_winboot.Kernel.{Op, Ans, Monitor, Ensures, bind, branch, pointer, failure}
use a1625_linux_winboot.Radio.{
  Observer, reset_pin, wl_reg_on, powered, raised, power_down, reset_back, pulsed, baseline,
  checked,
}

-- What is known of the two lines. `off`: WL_REG_ON was not written, or read as 0 past the cache
-- after its last write. `low`: the register of the reset line read past the cache as driven low,
-- and nothing wrote it since but a descriptor that drives it low.
pub record Lines : Type 0 where
  pub off : Bool
  pub low : Bool

abbrev next : (gpio_map pmu_map : ℕ) → Lines → (o : Op) → Ans o → Lines
next gpio_map pmu_map s (Op.regmap_write map reg value) r = record {
  off = s.off && not ((map == pmu_map) && (reg == wl_reg_on));
  low = s.low && not ((map == gpio_map) && (reg == reset_pin));
}
next gpio_map pmu_map s (Op.gpiod_direction_output_raw desc value) r = record s {
  low = s.low && (value == 0);
}
next gpio_map pmu_map s (Op.regmap_read_bypassed map reg) (code, value) = record {
  off = s.off || ((map == pmu_map) && (reg == wl_reg_on) && not (nonzero code) && (value == 0));
  low =
      if (map == gpio_map) && (reg == reset_pin)
      then not (nonzero code) && (value == 0x76202)
      else s.low;
}
next gpio_map pmu_map s _ r = s

-- Power is given only with the line low; the line's register is written through the regmap only
-- with the power off; and a descriptor raises the line, if `raises` says that one may, only with
-- the power on and the line low until then.
abbrev Permits : (raises : Bool) (gpio_map pmu_map : ℕ) → Lines → Op → Type 0
Permits raises gpio_map pmu_map s (Op.regmap_write map reg value) =
    (map ≡ gpio_map → reg ≡ reset_pin → s.off ≡ true)
    × (map ≡ pmu_map → reg ≡ wl_reg_on → (value ≡ 0) ⊎ (s.low ≡ true))
Permits raises gpio_map pmu_map s (Op.gpiod_direction_output_raw desc value) =
    (value ≡ 0) ⊎ ((raises ≡ true) × (s.off ≡ false) × (s.low ≡ true))
Permits raises gpio_map pmu_map s _ = Unit

abbrev pub PowerOrder : (raises : Bool) (gpio_map pmu_map : ℕ) → Monitor
PowerOrder raises gpio_map pmu_map = record {
  State = Lines;
  next = next gpio_map pmu_map;
  Permits = Permits raises gpio_map pmu_map;
  Answers = λ s o r. Unit {0};
}

-- The radio is powered, with its reset line low.
abbrev pub Held : Lines → Type 0
Held s = (s.off ≡ false) × (s.low ≡ true)

-- Before anything is written.
abbrev pub at_baseline : Lines
at_baseline = record { off = true; low = false }

module _ (raises : Bool) (gpio_map pmu_map : ℕ) where
  abbrev Order : Monitor
  Order = PowerOrder raises gpio_map pmu_map

  -- The power is off before the reset line may be restored; otherwise the code is an error.
  abbrev DownOr : Bool × ℤ → Lines → Type 0
  DownOr (safe, r) s = (safe ≡ true → s.off ≡ true) × (safe ≡ false → nonzero r ≡ true)

  abbrev OffOr : ℤ → Lines → Type 0
  OffOr r s = nonzero r ≡ false → s.off ≡ true

  power_down-off :
      (power_touched : Bool) (r : ℤ) (s : Lines)
      → (power_touched ≡ false → s.off ≡ true)
      → Ensures Order (power_down power_touched pmu_map 0 r) DownOr s
  unfolding power_down
  power_down-off power_touched r s h = ground (arith, ==_refl pmu_map)

  reset_back-off :
      (safe : Bool) (saved : ℕ) (r : ℤ) (s : Lines)
      → DownOr (safe, r) s
      → Ensures Order (reset_back safe gpio_map saved r) OffOr s
  unfolding reset_back
  reset_back-off safe saved r s h = ground (arith, ==_refl pmu_map)

  abbrev Touched : ℤ × Bool → Lines → Type 0
  Touched (r, touched) s =
      (touched ≡ false → s.off ≡ true) × (nonzero r ≡ false → (touched ≡ true) × Held s)

  powered-Touched :
      (reset : ℕ) (s : Lines)
      → s.off ≡ true
      → Ensures Order (powered reset gpio_map pmu_map) Touched s
  unfolding powered
  powered-Touched reset s h = ground (arith, ==_refl pmu_map, ==_refl gpio_map)

  module _ (observe : Observer) (reset : ℕ)
      (orderly : (s : Lines)
        → Held s
        → Ensures Order (observe reset gpio_map) (λ _ _. Unit {0}) s) where
    raised-touched :
        (s : Lines)
        → s.off ≡ true
        → Ensures Order
            (raised observe reset gpio_map pmu_map)
            (λ q t. q.1 ≡ false → t.off ≡ true)
            s
    unfolding raised
    raised-touched s off =
        bind Order Touched _ (powered reset gpio_map pmu_map) _ s (powered-Touched reset s off)
          λ (r, touched) t h.
            branch Order (λ q s. q.1 ≡ false → s.off ≡ true) (nonzero r) _ _ t (λ _. h.0)
              λ fine.
                bind Order (λ _ _. Unit {0}) (λ q s. q.1 ≡ false → s.off ≡ true)
                  (observe reset gpio_map) _ t (orderly t (h.1 fine).1)
                  (λ _ u _. ground (arith, (h.1 fine).0))

    -- The pulse, with the power register's saved value 0.
    pulsed-off :
        (reset_saved : ℕ) (s : Lines)
        → s.off ≡ true
        → Ensures Order (pulsed observe reset gpio_map pmu_map reset_saved 0) OffOr s
    unfolding pulsed
    pulsed-off reset_saved s off =
        bind Order (λ q s. q.1 ≡ false → s.off ≡ true) OffOr (raised observe reset gpio_map pmu_map)
          _ s (raised-touched s off)
          λ (r, touched) t h.
            bind Order DownOr OffOr (power_down touched pmu_map 0 r) _ t
              (power_down-off touched r t h)
              λ (safe, r) u h'.
                bind Order OffOr OffOr (reset_back safe gpio_map reset_saved r) _ u
                  (reset_back-off safe reset_saved r u h') (λ r v h''. (tt, λ _ _. h''))

  baseline-off :
      Ensures Order
        (baseline gpio_map pmu_map)
        (λ q t. (nonzero q.0 ≡ false → q.2 ≡ 0) × (t.off ≡ true))
        at_baseline
  unfolding baseline
  baseline-off = ground arith

  -- From the baseline check to the last write, in any run: WL_REG_ON is given a value other than 0
  -- only while the reset line is known to be low; the register of the reset line is written through
  -- the regmap only while WL_REG_ON is known to be off; and the line is not driven high through its
  -- descriptor, unless `raises`, where it is only with the line known to be low until then and after
  -- a write of WL_REG_ON that no read as 0 has followed. The callback is held to the same order, from
  -- a state after such a write with the line low. When the pulse returns 0, WL_REG_ON is known to be
  -- off at the end. It is known to be off when it was not written since the baseline or read as 0,
  -- past the cache, after its last write; the line to be low when its register read as 0x76202, past
  -- the cache, and was not written since but by a descriptor that drives it low.
  pub checked-PowerOrder :
      (pulse : Bool) (observe : Observer) (gpio_dev pmu : ℕ)
      → ((reset : ℕ) (s : Lines)
          → (s.off ≡ false) × (s.low ≡ true)
          → Ensures Order (observe reset gpio_map) (λ _ _. Unit {0}) s)
      → Ensures Order
          (checked pulse observe gpio_dev pmu gpio_map pmu_map)
          (λ r s. nonzero r ≡ false → s.off ≡ true)
          at_baseline
  unfolding checked
  checked-PowerOrder pulse observe gpio_dev pmu orderly =
      bind Order (λ q t. (nonzero q.0 ≡ false → q.2 ≡ 0) × (t.off ≡ true)) OffOr
        (baseline gpio_map pmu_map) _ at_baseline baseline-off
        λ (r, reset_saved, pmu_saved) t h.
          branch Order OffOr (nonzero r || not pulse) _ _ t (λ _ _. h.1)
            λ go. (
              tt,
              λ _ _. (
                tt,
                elim [
                  | failure e ↦ λ _. (tt, λ _ _ _. h.1)
                  | pointer desc ↦ λ _. (
                    tt,
                    λ _ _.
                        let none_saved : pmu_saved ≡ 0 = ground (arith, h.0) in
                        rw none_saved (pulsed-off observe desc (orderly desc) reset_saved t h.1),
                  )
                ],
              ),
            )
