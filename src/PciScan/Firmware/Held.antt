-- ===== src/PciScan/Firmware/Held.antt =====
-- The driver's time, as leases.
use a1625_linux_winboot.Prelude.{
  ℕ, zero, suc, ◌+◌, ◌*◌, ◌≡◌, refl, Bool, true, false, not, ◌&&◌, ◌==◌, ==_refl, if◌then◌else◌, ℤ,
  neg, enomem, nonzero, negative, Option, none, some, List, [], ◌∷◌, arith,
}
use a1625_linux_winboot.Kernel.{
  Prog, ret, ◌>>=◌, ◌>>◌, Ensures, bind, branch, resume, IommuDomain, bus_add_device, device_attach,
  device_release_driver, clear_master, iounmap,
}
use a1625_linux_winboot.Kernel.Leases.{Lease, device, mapping, mapped, Leases, holds}
use a1625_linux_winboot.PciScan.Controls.{Scan}
use a1625_linux_winboot.PciScan.Core.{core_call}
use a1625_linux_winboot.PciScan.Core.Held.{ConfigMapped, Sound, core_call-Sound}
use a1625_linux_winboot.PciScan.Identify.{dart_regs}
use a1625_linux_winboot.PciScan.Firmware.{
  has_top_bit, wait_fault, translated, fault_table, each_table, watch_fault, fault_tables, goes_on,
  healthy, hold_loop, Hold, hold_for, hold_device, hold_wifi, log_dart, observe, detach,
  with_driver, not_ready, firmware,
}

abbrev Same : {A : Type 0} → Prog A → List Lease → Type 0
Same m s = Ensures Leases m (λ _ t. t ≡ s) s

-- The DART's registers are mapped.
abbrev mapping_dart : List Lease → List Lease
mapping_dart s = mapping dart_regs 0x100 ∷ s

wait_fault-Same : (n error : ℕ) (s : List Lease) → Same (wait_fault n error) (mapping_dart s)
unfolding wait_fault
wait_fault-Same zero error s = refl
wait_fault-Same (suc n) error s = (
  refl,
  λ e _.
      branch Leases (λ _ t. t ≡ mapping_dart s) (has_top_bit e) _ _ _ (λ _. refl)
        λ _. (tt, λ _ _. wait_fault-Same n e s),
)

translated-Same :
    (domain : Option IommuDomain) (a : ℕ) (s : List Lease) → Same (translated domain a) s
unfolding translated
translated-Same none a s = refl
translated-Same (some d) a s = (tt, λ _ _. refl)

-- The registers of a root table lie in the mapping.
abbrev Few : ℕ → Type 0
Few table = mapped (dart_regs + 0x40 + 4 * table) (mapping dart_regs 0x100 ∷ []) ≡ true

fault_table-Same :
    (domain : Option IommuDomain) (address table : ℕ) (s : List Lease)
    → Few table
    → Same (fault_table domain address table) (mapping_dart s)
unfolding fault_table
fault_table-Same domain address table s few =
    resume Leases (λ _ t. t ≡ mapping_dart s) (translated domain _) _ (mapping_dart s)
      (translated-Same domain _ (mapping_dart s))
      λ _. (
        ground arith,
        λ ttbr _.
            branch Leases (λ _ t. t ≡ mapping_dart s) (not (has_top_bit ttbr)) _ _ _ (λ _. refl)
              λ _. (
                tt,
                λ valid _.
                    branch Leases (λ _ t. t ≡ mapping_dart s) (not valid) _ _ _ (λ _. refl)
                      (λ _. (tt, λ _ _. refl)),
              ),
      )

watch_fault-Same :
    (domain : Option IommuDomain) (s : List Lease) → Same (watch_fault domain) (mapping_dart s)
unfolding watch_fault each_table
watch_fault-Same domain s =
    resume Leases (λ _ t. t ≡ mapping_dart s) (wait_fault 2000 0) _ (mapping_dart s)
      (wait_fault-Same 2000 0 s)
      λ e.
        branch Leases (λ _ t. t ≡ mapping_dart s) (not (has_top_bit e)) _ _ _ (λ _. refl)
          λ _. (
            refl,
            λ address _.
                resume Leases (λ _ t. t ≡ mapping_dart s) _ _ _
                  (fault_table-Same domain address 0 s refl)
                  λ _.
                    resume Leases (λ _ t. t ≡ mapping_dart s) _ _ _
                      (fault_table-Same domain address 1 s refl)
                      λ _.
                        resume Leases (λ _ t. t ≡ mapping_dart s) _ _ _
                          (fault_table-Same domain address 2 s refl)
                          λ _.
                            resume Leases (λ _ t. t ≡ mapping_dart s) _ _ _
                              (fault_table-Same domain address 3 s refl) (λ _. refl),
          )

fault_tables-Same : (dev : ℕ) (s : List Lease) → Same (fault_tables dev) s
unfolding fault_tables
fault_tables-Same dev s = (
  tt,
  λ domain _. (
    tt,
    elim [
      | false ↦ λ _. refl
      | true ↦ λ _.
          resume Leases (λ _ t. t ≡ s) (watch_fault domain) _ (mapping_dart s)
            (watch_fault-Same domain s) λ _. (refl, λ _ _. refl)
    ],
  ),
)

log_dart-back :
    (s : List Lease)
    → Ensures Leases (log_dart >> iounmap dart_regs) (λ _ t. t ≡ s) (mapping_dart s)
unfolding log_dart
log_dart-back s = ground arith

goes_on-Same : (until : Bool) (deadline : ℕ) (s : List Lease) → Same (goes_on until deadline) s
unfolding goes_on
goes_on-Same true deadline s = refl
goes_on-Same false deadline s = (tt, λ _ _. refl)

module _ (dev : ℕ) where
  healthy-Same :
      (s : List Lease) → holds (device dev) s ≡ true → Same (healthy dev) (mapping_dart s)
  unfolding healthy
  healthy-Same s on = ground (arith, ==_refl dev)

  hold_loop-Same :
      (until : Bool) (deadline n : ℕ) (s : List Lease)
      → holds (device dev) s ≡ true
      → Same (hold_loop dev until deadline n) (mapping_dart s)
  unfolding hold_loop
  hold_loop-Same until deadline zero s on = refl
  hold_loop-Same until deadline (suc n) s on =
      resume Leases (λ _ t. t ≡ mapping_dart s) (goes_on until deadline) _ (mapping_dart s)
        (goes_on-Same until deadline (mapping_dart s))
        λ more.
          branch Leases (λ _ t. t ≡ mapping_dart s) (not more) _ _ _ (λ _. refl)
            λ _. (
              tt,
              λ signal _.
                  branch Leases (λ _ t. t ≡ mapping_dart s) signal _ _ _ (λ _. refl)
                    λ _.
                      resume Leases (λ _ t. t ≡ mapping_dart s) (healthy dev) _ _
                        (healthy-Same s on)
                        λ good.
                          branch Leases (λ _ t. t ≡ mapping_dart s) (not good) _ _ _ (λ _. refl)
                            λ _. (tt, λ _ _. hold_loop-Same until deadline n s on),
            )

  hold_wifi-Same :
      (h : Hold) (seconds : ℕ) (until : Bool) (s : List Lease)
      → holds (device dev) s ≡ true
      → Same (hold_wifi h dev seconds until) s
  unfolding hold_wifi hold_device hold_for
  hold_wifi-Same h seconds until s on =
      branch Leases (λ _ t. t ≡ s) ((seconds == 0) && not until) _ _ s (λ _. refl)
        λ _. (
          tt,
          elim [
            | none ↦ λ _. refl
            | some n ↦ λ _. (
              rw (==_refl n) refl,
              λ parent _. (
                rw (==_refl n) refl,
                λ _ _. rw (==_refl n) (
                    branch Leases (λ _ t. t ≡ s) (not (parent == dev)) _ _ s (λ _. refl)
                      λ _. (
                        tt,
                        elim [
                          | false ↦ λ _. refl
                          | true ↦ λ _. (
                            tt,
                            λ now _.
                                resume Leases (λ _ t. t ≡ s) (hold_loop dev until _ h.rounds) _
                                  (mapping_dart s) (hold_loop-Same until _ h.rounds s on)
                                  λ r. (tt, λ _ _. (refl, λ _ _. refl)),
                          )
                        ],
                      )),
              ),
            )
          ],
        )

  observe-Same :
      (h : Hold) (scan : Scan) (s : List Lease)
      → holds (device dev) s ≡ true
      → Same (observe h dev scan) s
  unfolding observe
  observe-Same h scan s on =
      resume Leases (λ _ t. t ≡ s) (fault_tables dev) _ s (fault_tables-Same dev s)
        λ r. (
          ground arith,
          λ _ _. (
            tt,
            λ _ _. (
              ground (arith, ==_refl dev),
              λ _ _. rw (==_refl dev) (
                  branch Leases (λ _ t. t ≡ s) (nonzero r) _ _ s (λ _. refl)
                    λ _.
                      resume Leases (λ _ t. t ≡ s) (hold_wifi h dev _ _) _ s
                        (hold_wifi-Same h _ _ s on) (λ _. refl)),
            ),
          ),
        )

module _ (rc ep : ℕ) (s : List Lease) (on : ConfigMapped rc ep s) where
  abbrev Good : ℤ × Scan → List Lease → Type 0
  Good r t = (t ≡ s) × Sound rc ep r.1

  cleared-Good :
      (dev : ℕ) (r : ℤ) (scan : Scan)
      → Sound rc ep scan
      → Ensures Leases (do (_, scan) ← core_call clear_master dev scan; ret (r, scan)) Good s
  cleared-Good dev r scan h =
      bind Leases Good Good (core_call clear_master dev scan) _ s
        (core_call-Sound rc ep s on clear_master dev scan h) (λ _ t k. k)

  detach-Good :
      (dev : ℕ) (r : ℤ) (scan : Scan) → Sound rc ep scan → Ensures Leases (detach dev r scan) Good s
  unfolding detach
  detach-Good dev r scan h =
      bind Leases Good Good (core_call device_release_driver dev scan) _ s
        (core_call-Sound rc ep s on device_release_driver dev scan h)
        λ (_, sc) t k. rw k.0 (
          tt,
          elim [
            | false ↦ λ _. cleared-Good dev (neg enomem) sc k.1
            | true ↦ λ _.
                bind Leases (λ _ t. t ≡ s) Good (log_dart >> iounmap dart_regs) _ (mapping_dart s)
                  (log_dart-back s) λ _ t e. rw e (cleared-Good dev r sc k.1)
          ],
        )

  with_driver-Good :
      (h : Hold) (dev : ℕ) (scan : Scan)
      → holds (device dev) s ≡ true
      → Sound rc ep scan
      → Ensures Leases (with_driver h dev scan) Good s
  unfolding with_driver
  with_driver-Good h dev scan held k = (
    tt,
    λ r _.
        branch Leases Good (nonzero r) _ _ s (λ _. (refl, k))
          λ _.
            bind Leases Good Good
              (core_call bus_add_device dev (record scan { firmware_active = true })) _ s
              (core_call-Sound rc ep s on bus_add_device dev _
                (record { at_rc = k.at_rc; at_ep = k.at_ep; apart = k.apart; cap_low = k.cap_low }))
              λ (_, sc) t k. rw k.0 (
                bind Leases Good Good (core_call device_attach dev sc) _ s
                  (core_call-Sound rc ep s on device_attach dev sc k.1)
                  λ (r, sc) t k. rw k.0 (
                    resume Leases Good (if negative r then ret r else observe h dev sc) _ s
                      (branch Leases (λ _ t. t ≡ s) (negative r) _ _ s (λ _. refl)
                        (λ _. observe-Same dev h sc s held))
                      (λ r. detach-Good dev r sc k.1))),
  )

module _ (rc ep : ℕ) (s : List Lease) (on : ConfigMapped rc ep s) where
  pub firmware-Good :
      (h : Hold) (scan : Scan)
      → Sound rc ep scan
      → Ensures Leases (firmware h scan) (λ r t. (t ≡ s) × Sound rc ep r.1) s
  unfolding firmware
  firmware-Good h scan k = (
    tt,
    elim [
      | none ↦ λ _. (refl, k)
      | some bus ↦ λ _.
          branch Leases (Good rc ep s on) (not_ready scan) _ _ s (λ _. (refl, k))
            λ _. (
              tt,
              elim [
                | none ↦ λ _. (refl, k)
                | some dev ↦ λ _.
                    bind Leases (Good rc ep (device dev ∷ s) on) (Good rc ep s on)
                      (with_driver h dev scan) _ (device dev ∷ s)
                      (with_driver-Good rc ep (device dev ∷ s) on h dev scan (rw (==_refl dev) refl)
                        k)
                      λ (r, sc) t k.
                        rw k.0 (rw (==_refl dev) refl, λ _ _. rw (==_refl dev) (refl, k.1))
              ],
            )
    ],
  )
