-- ===== src/Examples/Radio.antt =====
-- windows-native/wifi/pmu-probe/a1625_radio_pulse.h at concrete inputs.
use a1625_linux_winboot.Prelude.{◌≡◌, refl, true, false, pos, nonzero, []}
use a1625_linux_winboot.Kernel.{ret, Ensures}
use a1625_linux_winboot.Kernel.Leases.{Leases}
use a1625_linux_winboot.Radio.{Observer, checked, radio_pulse}
use a1625_linux_winboot.Radio.Power.{PowerOrder, at_baseline, checked-PowerOrder}
use a1625_linux_winboot.Link.{observe_held_radio}
use a1625_linux_winboot.Link.Order.{observe_held_radio-Any}
use a1625_linux_winboot.Radio.Held.{radio_pulse-Leases}

abbrev quiet : Observer
quiet reset gpio_map = ret (pos 0)

-- The callback that trains the link, with an endpoint that is not looked at.
abbrev trains : Observer
trains reset gpio_map = observe_held_radio true false (ret (pos 0)) reset gpio_map

checked-PowerOrder_example :
    Ensures
      (PowerOrder true 3 4)
      (checked true trains 1 2 3 4)
      (λ r s. nonzero r ≡ false → s.off ≡ true)
      at_baseline
checked-PowerOrder_example =
    checked-PowerOrder true 3 4 true trains 1 2
      (observe_held_radio-Any 3 4 false (ret (pos 0)) (λ s. tt) true)

radio_pulse-Leases_example : Ensures Leases (radio_pulse true quiet) (λ _ t. t ≡ []) []
radio_pulse-Leases_example = radio_pulse-Leases true quiet [] (λ gpio_dev pmu desc gpio_map. refl)
