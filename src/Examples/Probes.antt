-- ===== src/Examples/Probes.antt =====
-- windows-native/wifi/pmu-probe: the probes and their runner at concrete inputs.
use a1625_linux_winboot.Prelude.{
  ℕ, ◌≤◌, ◌≡◌, ◌≢◌, ◌⊎◌, ◌↔◌, true, pos, neg, ecanceled, some, List, [], ◌∷◌,
}
use a1625_linux_winboot.Kernel.{Ensures}
use a1625_linux_winboot.Kernel.Leases.{Leases}
use a1625_linux_winboot.Probes.{gpio_probe_init, pmu_probe_init, power_probe_init}
use a1625_linux_winboot.Probes.Quiet.{
  gpio_probe_init-Refused, pmu_probe_init-Refused, power_probe_init-Refused,
}
use a1625_linux_winboot.HostCompat.{strchrnul, IsFirst, strchrnul-IsFirst}
use a1625_linux_winboot.Probes.Runner.{Syscall, run, loads, closes, exit_code, run-Once}

gpio_probe_init-Refused_example : Ensures Leases gpio_probe_init (λ r t. (r ≢ pos 0) × (t ≡ [])) []
gpio_probe_init-Refused_example = gpio_probe_init-Refused []

pmu_probe_init-Refused_example : Ensures Leases pmu_probe_init (λ r t. (r ≢ pos 0) × (t ≡ [])) []
pmu_probe_init-Refused_example = pmu_probe_init-Refused []

power_probe_init-Refused_example :
    Ensures Leases (power_probe_init true) (λ r t. (r ≢ pos 0) × (t ≡ [])) []
power_probe_init-Refused_example = power_probe_init-Refused true []

-- The probe is refused as intended.
abbrev refused : List Syscall
refused = run 3 100 200 (pos 3) (neg ecanceled)

abbrev three : ℕ
three = 3

run-Once_example :
    (loads refused ≤ 1)
    × (closes refused ≡ loads refused)
    × ((exit_code refused ≡ some 0)
        ↔ (((three ≡ 2) ⊎ (three ≡ 3)) × ((n : ℕ) × (pos 3 ≡ pos n)) × (neg ecanceled ≡ neg 125)))
run-Once_example = run-Once 3 100 200 (pos 3) (neg ecanceled)

strchrnul-IsFirst_example :
    IsFirst (0x61 ∷ 0x2f ∷ 0x62 ∷ []) 0x2f (strchrnul (0x61 ∷ 0x2f ∷ 0x62 ∷ []) 0x2f)
strchrnul-IsFirst_example = strchrnul-IsFirst (0x61 ∷ 0x2f ∷ 0x62 ∷ []) 0x2f
