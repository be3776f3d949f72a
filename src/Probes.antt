-- ===== src/Probes.antt =====
-- windows-native/wifi/pmu-probe: the read-only probes a1625_gpio_probe.c and a1625_pmu_probe.c, the
-- pulse a1625_power_probe.c, and run_probe_once.c, which loads one of them.
pub mod Quiet
pub mod Runner
use a1625_linux_winboot.Prelude.{
  ℕ, ◌*◌, Bool, true, false, not, ◌||◌, ◌==◌, if◌then◌else◌, ℤ, pos, neg, nonzero, enodev,
  ecanceled, Option, none, some, List, [], ◌∷◌,
}
use a1625_linux_winboot.Kernel.{
  Prog, ret, ◌>>=◌, ◌>>◌, of_find_node_by_path, of_node_is_compatible, of_node_put,
  of_find_device_by_node, of_find_i2c_device_by_node, device_lock, device_unlock, put_device,
  dev_driver, i2c_addr, dev_get_regmap, regmap_read, regmap_read_bypassed,
}
use a1625_linux_winboot.Board.{is_j42d_t7000}
use a1625_linux_winboot.Radio.{radio_pulse}

-- An init function that returns an error, so that the module is not kept.
abbrev pub intended : ℤ → ℤ
intended r = if nonzero r then r else neg ecanceled

abbrev pub pins : List ℕ
pins = 77 ∷ 41 ∷ 63 ∷ []

-- The loop; `r` is the code so far.
unfoldable pub read_pins : (map : ℕ) → List ℕ → (r : ℤ) → Prog ℤ
read_pins map [] r = ret r
read_pins map (pin ∷ rest) r = do
  (r, cached) ← regmap_read map (4 * pin)
  if nonzero r then ret r else do
    (r, live) ← regmap_read_bypassed map (4 * pin)
    if nonzero r then ret r else read_pins map rest r

-- Under the device's lock.
unfoldable pub read_gpio : (pdev : ℕ) → Prog ℤ
read_gpio pdev = do
  driver ← dev_driver pdev
  if not driver then ret (neg enodev) else do
    map ← dev_get_regmap pdev
    elim map [ none ↦ ret (neg enodev) | some m ↦ read_pins m pins (neg enodev) ]

-- With a device: its lock for the time of the reads.
unfoldable pub locked_read : (read : Prog ℤ) (dev : ℕ) → Prog ℤ
locked_read read dev = do
  device_lock dev
  r ← read
  device_unlock dev
  put_device dev
  ret (intended r)

unfoldable pub gpio_probe_init : Prog ℤ
gpio_probe_init = do
  board ← is_j42d_t7000
  if not board then ret (neg enodev) else do
    found ← of_find_node_by_path "/soc/pinctrl@20e300000"
    elim found [
      | none ↦ ret (neg enodev)
      | some node ↦ do
        fits ← of_node_is_compatible node "apple,t7000-pinctrl"
        if not fits then (do of_node_put node; ret (neg enodev)) else do
          dev ← of_find_device_by_node node
          of_node_put node
          elim dev [ none ↦ ret (neg enodev) | some pdev ↦ locked_read (read_gpio pdev) pdev ]
    ]

-- Under the client's lock.
unfoldable pub read_pmu : (client : ℕ) → Prog ℤ
read_pmu client = do
  addr ← i2c_addr client
  driver ← if not (addr == 0x74) then ret false else dev_driver client
  if not driver then ret (neg enodev) else do
    map ← dev_get_regmap client
    elim map [ none ↦ ret (neg enodev) | some m ↦ do (r, value) ← regmap_read m 0x406; ret r ]

unfoldable pub pmu_probe_init : Prog ℤ
pmu_probe_init = do
  board ← is_j42d_t7000
  if not board then ret (neg enodev) else do
    found ← of_find_node_by_path "/soc/i2c@20a110000/pmic@74"
    elim found [
      | none ↦ ret (neg enodev)
      | some node ↦ do
        fits ← of_node_is_compatible node "apple,i2c-pmic"
        if not fits then (do of_node_put node; ret (neg enodev)) else do
          dev ← of_find_i2c_device_by_node node
          of_node_put node
          elim dev [ none ↦ ret (neg enodev) | some client ↦ locked_read (read_pmu client) client ]
    ]

-- With NULL for the observer.
unfoldable pub power_probe_init : (pulse : Bool) → Prog ℤ
power_probe_init pulse = do r ← radio_pulse pulse (λ reset gpio_map. ret (pos 0)); ret (intended r)
