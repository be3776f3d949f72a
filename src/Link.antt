-- ===== src/Link.antt =====
-- windows-native/wifi/pmu-probe/a1625_pcie_domains.c: `observe_held_radio`, the callback of the
-- radio pulse. It may release the reset line (PERST) and train the link for the time of one callback
-- of its own, and asserts the reset again.
pub mod Held
pub mod Reset
pub mod Order
use a1625_linux_winboot.Prelude.{
  ℕ, ◌+◌, Bool, not, ◌&&◌, ◌||◌, ◌==◌, if◌then◌else◌, ℤ, pos, neg, nonzero, eio, enodev, bit_and,
  bit_or,
}
use a1625_linux_winboot.Prelude.Bits.{all_ones}
use a1625_linux_winboot.Kernel.{
  Prog, ret, ◌>>=◌, ◌>>◌, readl, writel, readl_poll_timeout, gpiod_direction_output_raw,
}
use a1625_linux_winboot.Phy.{port}
use a1625_linux_winboot.Radio.{read_equal, reset_pin, clkreq_pin}

abbrev pub port_control : ℕ
port_control = port + 0x80

abbrev pub port_status : ℕ
port_status = port + 0x88

-- The wait for the link; then the endpoint is looked at. `snapshot_endpoint` is the function of
-- that name, here and below.
unfoldable pub linked : (identify_endpoint : Bool) → Prog ℤ → Prog ℤ
linked identify_endpoint snapshot_endpoint = do
  (r, status) ← readl_poll_timeout port_status
  let result : ℤ = if status == all_ones then neg enodev else r
  if not (nonzero result) && identify_endpoint then snapshot_endpoint else ret result

unfoldable pub stop_link : (control : ℕ) → ℤ → Prog ℤ
stop_link control r = do
  status ← readl port_control
  if status == all_ones then ret (neg enodev) else do
    writel control port_control
    found ← readl port_control
    ret (if found == control then r else neg eio)

-- With the reset released.
unfoldable pub trained : (identify_endpoint : Bool) → Prog ℤ → (control : ℕ) → Prog ℤ
trained identify_endpoint snapshot_endpoint control = do
  writel (bit_or control 1) port_control
  status ← readl port_control
  r ←
      if status == bit_or control 1
      then linked identify_endpoint snapshot_endpoint
      else ret (neg eio)
  stop_link control r

-- From the release of the reset to `reset_again:`.
unfoldable pub released :
    (identify_endpoint : Bool) → Prog ℤ → (reset gpio_map control : ℕ) → Prog ℤ
released identify_endpoint snapshot_endpoint reset gpio_map control = do
  r ← gpiod_direction_output_raw reset 1
  if nonzero r then ret r else do
    r ← read_equal gpio_map reset_pin 0x76203
    if nonzero r then ret r else trained identify_endpoint snapshot_endpoint control

unfoldable pub reset_again : (reset gpio_map : ℕ) → ℤ → Prog ℤ
reset_again reset gpio_map r = do
  driven ← gpiod_direction_output_raw reset 0
  cleanup ← if nonzero driven then ret driven else read_equal gpio_map reset_pin 0x76202
  ret (if nonzero cleanup then cleanup else r)

-- With the port read as held in reset.
unfoldable pub train : (identify_endpoint : Bool) → Prog ℤ → (reset gpio_map control : ℕ) → Prog ℤ
train identify_endpoint snapshot_endpoint reset gpio_map control = do
  r ← read_equal gpio_map clkreq_pin 0x76220
  if nonzero r then ret r else do
    r ← released identify_endpoint snapshot_endpoint reset gpio_map control
    reset_again reset gpio_map r

unfoldable pub observe_held_radio :
    (train_link identify_endpoint : Bool) → Prog ℤ → (reset gpio_map : ℕ) → Prog ℤ
observe_held_radio train_link identify_endpoint snapshot_endpoint reset gpio_map = do
  control ← readl port_control
  if (control == all_ones) || not (bit_and control 1 == 0) then ret (neg eio) else do
    status ← readl port_status
    if (status == all_ones) || not (bit_and status 1 == 0)
        then ret (neg eio)
        else if not train_link
        then ret (pos 0)
        else train identify_endpoint snapshot_endpoint reset gpio_map control
