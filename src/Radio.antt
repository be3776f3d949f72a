-- ===== src/Radio.antt =====
-- windows-native/wifi/pmu-probe/a1625_radio_pulse.h: the bounded power pulse of the radio, with
-- its reset line (PERST) held.
pub mod Held
pub mod Power
use a1625_linux_winboot.Prelude.{
  ℕ, ◌*◌, Bool, true, false, not, ◌&&◌, ◌||◌, ◌==◌, if◌then◌else◌, ℤ, pos, negsuc, neg, nonzero,
  eio, ebusy, enodev, Option, none, some,
}
use a1625_linux_winboot.Kernel.{
  Prog, ret, ◌>>=◌, ◌>>◌, PtrOrErr, pointer, failure, msleep, of_find_node_by_path,
  of_node_is_compatible, of_node_put, of_find_device_by_node, of_find_i2c_device_by_node,
  device_lock, device_unlock, put_device, dev_driver, i2c_addr, dev_get_regmap, regmap_read,
  regmap_read_bypassed, regmap_write, gpiod_add_lookup_table, gpiod_remove_lookup_table, gpiod_get,
  gpiod_put, gpiod_direction_output_raw,
}
use a1625_linux_winboot.Board.{is_j42d_t7000}

-- The registers of PERST, CLKREQ and the third control pin, and of WL_REG_ON.
abbrev pub reset_pin : ℕ
reset_pin = 4 * 77

abbrev pub clkreq_pin : ℕ
clkreq_pin = 4 * 41

abbrev pub third_pin : ℕ
third_pin = 4 * 63

abbrev pub wl_reg_on : ℕ
wl_reg_on = 0x406

unfoldable pub read_equal : (map reg expected : ℕ) → Prog ℤ
read_equal map reg expected = do
  (r, value) ← regmap_read_bypassed map reg
  if nonzero r then ret r else if not (value == expected) then ret (neg eio) else ret (pos 0)

-- The callback takes the descriptor of the reset line and the regmap of the pins; without one it
-- is `λ _ _. ret (pos 0)`.
abbrev pub Observer : Type 0
Observer = (reset gpio_map : ℕ) → Prog ℤ

-- From the acquired reset line to the callback; the code, and `power_touched`.
pub powered : (reset gpio_map pmu_map : ℕ) → Prog (ℤ × Bool)
unfolding read_equal
powered reset gpio_map pmu_map = do
  r ← gpiod_direction_output_raw reset 0
  if nonzero r then ret (r, false) else do
    r ← read_equal gpio_map reset_pin 0x76202
    if nonzero r then ret (r, false) else do
      r ← regmap_write pmu_map wl_reg_on 0x02
      if nonzero r then ret (r, true) else do
        r ← read_equal pmu_map wl_reg_on 0x02
        if nonzero r then ret (r, true) else do
          msleep 100
          r ← read_equal gpio_map reset_pin 0x76202
          if nonzero r
              then ret (r, true)
              else do (r, clkreq) ← regmap_read_bypassed gpio_map clkreq_pin; ret (r, true)

-- From the acquired reset line to `restore:`.
pub raised : (observe : Observer) (reset gpio_map pmu_map : ℕ) → Prog (ℤ × Bool)
raised observe reset gpio_map pmu_map = do
  (r, power_touched) ← powered reset gpio_map pmu_map
  if nonzero r
      then ret (r, power_touched)
      else do r ← observe reset gpio_map; ret (r, power_touched)

-- A register is written and read back.
pub written_back : (map reg value : ℕ) → Prog ℤ
unfolding read_equal
written_back map reg value = do
  r ← regmap_write map reg value
  if nonzero r then ret r else read_equal map reg value

-- The power is taken back; `safe_to_restore_reset` and the code.
pub power_down : (power_touched : Bool) (pmu_map pmu_saved : ℕ) → ℤ → Prog (Bool × ℤ)
unfolding written_back
power_down power_touched pmu_map pmu_saved r = if not power_touched then ret (true, r) else do
  rollback ← written_back pmu_map wl_reg_on pmu_saved
  if nonzero rollback then ret (false, rollback) else do msleep 100; ret (true, r)

pub reset_back : (safe : Bool) (gpio_map reset_saved : ℕ) → ℤ → Prog ℤ
unfolding written_back
reset_back safe gpio_map reset_saved r = if not safe then ret r else do
  rollback ← written_back gpio_map reset_pin reset_saved
  ret (if nonzero rollback then rollback else r)

-- With the reset line acquired.
pub pulsed : (observe : Observer) (reset gpio_map pmu_map reset_saved pmu_saved : ℕ) → Prog ℤ
pulsed observe reset gpio_map pmu_map reset_saved pmu_saved = do
  (r, power_touched) ← raised observe reset gpio_map pmu_map
  (safe, r) ← power_down power_touched pmu_map pmu_saved r
  r ← reset_back safe gpio_map reset_saved r
  gpiod_put reset
  ret r

-- The baseline: only the exact values that the read-only probes found.
pub baseline : (gpio_map pmu_map : ℕ) → Prog (ℤ × ℕ × ℕ)
unfolding read_equal
baseline gpio_map pmu_map = do
  (r, reset_saved) ← regmap_read gpio_map reset_pin
  if nonzero r then ret (r, 0, 0) else do
    (r, pmu_saved) ← regmap_read pmu_map wl_reg_on
    if nonzero r
        then ret (r, 0, 0)
        else if not (reset_saved == 0x76200) || not (pmu_saved == 0)
        then ret (neg ebusy, 0, 0)
        else do
          r ← read_equal gpio_map reset_pin reset_saved
          if nonzero r then ret (r, 0, 0) else do
            r ← read_equal gpio_map clkreq_pin 0x76221
            if nonzero r
                then ret (r, 0, 0)
                else do r ← read_equal gpio_map third_pin 0x72202; ret (r, reset_saved, pmu_saved)

-- With both regmaps.
pub checked : (pulse : Bool) (observe : Observer) (gpio_dev pmu gpio_map pmu_map : ℕ) → Prog ℤ
checked pulse observe gpio_dev pmu gpio_map pmu_map = do
  (r, reset_saved, pmu_saved) ← baseline gpio_map pmu_map
  if nonzero r || not pulse then ret r else do
    gpiod_add_lookup_table pmu gpio_dev
    reset ← gpiod_get pmu gpio_dev
    gpiod_remove_lookup_table pmu gpio_dev
    elim reset [
      | failure n ↦ ret (negsuc n)
      | pointer desc ↦ pulsed observe desc gpio_map pmu_map reset_saved pmu_saved
    ]

-- With both devices locked.
pub locked : (pulse : Bool) (observe : Observer) (gpio_dev pmu : ℕ) → Prog ℤ
locked pulse observe gpio_dev pmu = do
  gpio_driver ← dev_driver gpio_dev
  pmu_driver ← dev_driver pmu
  addr ← i2c_addr pmu
  if not (gpio_driver && pmu_driver && (addr == 0x74)) then ret (neg enodev) else do
    gpio_found ← dev_get_regmap gpio_dev
    pmu_found ← dev_get_regmap pmu
    elim gpio_found [
      | none ↦ ret (neg enodev)
      | some gpio_map ↦ elim pmu_found [
        | none ↦ ret (neg enodev)
        | some pmu_map ↦ checked pulse observe gpio_dev pmu gpio_map pmu_map
      ]
    ]

pub with_devices : (pulse : Bool) (observe : Observer) (gpio_dev pmu : ℕ) → Prog ℤ
with_devices pulse observe gpio_dev pmu = do
  device_lock gpio_dev
  device_lock pmu
  r ← locked pulse observe gpio_dev pmu
  device_unlock pmu
  device_unlock gpio_dev
  put_device pmu
  put_device gpio_dev
  ret r

pub find_pmu : (pulse : Bool) (observe : Observer) (gpio_dev : ℕ) → Prog ℤ
find_pmu pulse observe gpio_dev = do
  found ← of_find_node_by_path "/soc/i2c@20a110000/pmic@74"
  elim found [
    | none ↦ do put_device gpio_dev; ret (neg enodev)
    | some node ↦ do
      fits ← of_node_is_compatible node "apple,i2c-pmic"
      if not fits then (do of_node_put node; put_device gpio_dev; ret (neg enodev)) else do
        client ← of_find_i2c_device_by_node node
        of_node_put node
        elim client [
          | none ↦ do put_device gpio_dev; ret (neg enodev)
          | some pmu ↦ with_devices pulse observe gpio_dev pmu
        ]
  ]

pub radio_pulse : (pulse : Bool) (observe : Observer) → Prog ℤ
radio_pulse pulse observe = do
  board ← is_j42d_t7000
  if not board then ret (neg enodev) else do
    found ← of_find_node_by_path "/soc/pinctrl@20e300000"
    elim found [
      | none ↦ ret (neg enodev)
      | some node ↦ do
        fits ← of_node_is_compatible node "apple,t7000-pinctrl"
        if not fits then (do of_node_put node; ret (neg enodev)) else do
          dev ← of_find_device_by_node node
          of_node_put node
          elim dev [ none ↦ ret (neg enodev) | some gpio_dev ↦ find_pmu pulse observe gpio_dev ]
    ]
