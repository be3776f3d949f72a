-- ===== src/PciScan/Controls/Held.antt =====
-- `a1625_scan_save_controls`, as leases.
use a1625_linux_winboot.Prelude.{
  ℕ, ◌+◌, ◌<◌, ◌≤◌, ◌≡◌, refl, Bool, true, false, not, ◌==◌, if◌then◌else◌, ℤ, pos, negsuc, neg,
  enodev, ebusy, nonzero, List, [], ◌∷◌, All, bit_and, arith,
}
use a1625_linux_winboot.Prelude.Bits.{all_ones}
use a1625_linux_winboot.Kernel.{ret, ◌>>=◌, Ensures, bind, branch, resume, mono, readw, readl}
use a1625_linux_winboot.Kernel.Leases.{Lease, Leases}
use a1625_linux_winboot.PciScan.Regs
use a1625_linux_winboot.PciScan.Core.Held.{ConfigMapped, Sound}
use a1625_linux_winboot.PciScan.Controls.Spared.{Holds, save_controls-Holds}
use a1625_linux_winboot.PciScan.Caps.{scan_cap, scan_extcap}
use a1625_linux_winboot.PciScan.Caps.Range.{Between}
use a1625_linux_winboot.PciScan.Controls.{
  pm_mask, lnkctl_mask, Scan, Wanted, config_of, is_some, offset, unusable, no_room, save_control,
  save_all, save_bus, windows, msi_registers, watchdog, save_msi, save_controls,
}
use a1625_linux_winboot.PciScan.Controls.Walked.{
  anyhow, CfgMapped, on_at, scan_cap-Found, scan_extcap-Found,
}

-- The scan is of these two spaces, and its MSI capability lies low.
pub record Placed (rc ep : ℕ) (scan : Scan) : Type 0 where
  pub at_rc : scan.rc ≡ rc
  pub at_ep : scan.ep ≡ ep
  pub cap_low : scan.msi_cap ≤ 0xfc

abbrev Low : Wanted → Type 0
Low (bus, place, size, mask) = place < 4096

le-offset : (low high : ℕ) (r : ℤ) → Between low high r → offset r ≤ high
le-offset low high (pos q) h = h.1
le-offset low high (negsuc e) h = omega arith

registers-Low :
    (cap : ℕ) (wide maskable : Bool) → cap ≤ 0xfc → All Low (msi_registers cap wide maskable)
registers-Low cap false false low = omega arith
registers-Low cap false true low = omega arith
registers-Low cap true false low = omega arith
registers-Low cap true true low = omega arith

windows-Low : (assign_memory : Bool) → All Low (windows assign_memory)
windows-Low false = omega arith
windows-Low true = omega arith

watchdog-Low : (bind_firmware : Bool) → All Low (if bind_firmware then watchdog else [])
watchdog-Low false = tt
watchdog-Low true = omega arith

module _ (rc ep : ℕ) (s : List Lease) (on : ConfigMapped rc ep s) where
  abbrev PlacedScan : Scan → List Lease → Type 0
  PlacedScan scan t = (t ≡ s) × Placed rc ep scan

  abbrev PlacedResult : ℤ × Scan → List Lease → Type 0
  PlacedResult r t = (t ≡ s) × Placed rc ep r.1

  of_bus : (scan : Scan) (bus : ℕ) → Placed rc ep scan → CfgMapped (config_of scan bus) s
  of_bus scan bus h a low = let x = h.at_rc in let y = h.at_ep in let z = on a low in ground arith

  save_control-Placed :
      (scan : Scan) (bus place size mask : ℕ)
      → Placed rc ep scan
      → place < 4096
      → Ensures Leases (save_control scan bus place size mask) PlacedScan s
  unfolding save_control
  save_control-Placed scan bus place size mask h low =
      resume Leases PlacedScan
        (if size == 2
          then readw (config_of scan bus + place)
          else readl (config_of scan bus + place))
        _ s
        (branch Leases (λ _ t. t ≡ s) (size == 2) _ _ s
          (λ _. (of_bus scan bus h place low, λ _ _. refl))
          (λ _. (of_bus scan bus h place low, λ _ _. refl)))
        λ _. (refl, record { at_rc = h.at_rc; at_ep = h.at_ep; cap_low = h.cap_low })

  save_all-Placed :
      (l : List Wanted) (scan : Scan)
      → Placed rc ep scan
      → All Low l
      → Ensures Leases (save_all scan l) PlacedScan s
  unfolding save_all
  save_all-Placed [] scan h low = (refl, h)
  save_all-Placed ((bus, place, size, mask) ∷ rest) scan h low =
      bind Leases PlacedScan PlacedScan (save_control scan bus place size mask) _ s
        (save_control-Placed scan bus place size mask h low.0)
        λ sc t k. rw k.0 (save_all-Placed rest sc k.1 low.1)

  save_bus-Placed :
      (scan : Scan) (bus : ℕ)
      → Placed rc ep scan
      → Ensures Leases (save_bus scan bus) PlacedResult s
  unfolding save_bus
  save_bus-Placed scan bus h =
      bind Leases (λ r t. Between 0x40 0xfc r × (t ≡ s)) PlacedResult
        (scan_cap (config_of scan bus) Regs.cap_id_pm) _ s
        (scan_cap-Found _ s (of_bus scan bus h) Regs.cap_id_pm)
        λ pm t pm_at. rw pm_at.1 (
          bind Leases (λ r t. Between 0x40 0xfc r × (t ≡ s)) PlacedResult
            (scan_cap (config_of scan bus) Regs.cap_id_exp) _ s
            (scan_cap-Found _ s (of_bus scan bus h) Regs.cap_id_exp)
            λ exp t exp_at. rw exp_at.1 (
              bind Leases (λ r t. Between 0x100 0xffc r × (t ≡ s)) PlacedResult
                (scan_extcap (config_of scan bus) Regs.ext_cap_id_l1ss) _ s
                (scan_extcap-Found _ s (of_bus scan bus h) Regs.ext_cap_id_l1ss)
                λ l1ss t l1ss_at. rw l1ss_at.1 (
                  with_caps pm exp l1ss (le-offset 0x40 0xfc pm pm_at.0)
                    (le-offset 0x40 0xfc exp exp_at.0))))
    where
      with_caps :
          (pm exp l1ss : ℤ)
          → offset pm ≤ 0xfc
          → offset exp ≤ 0xfc
          → Ensures Leases
              (if unusable pm exp l1ss then ret (neg enodev, scan) else do
                control ← readw (config_of scan bus + offset pm + Regs.pm_ctrl)
                if not (bit_and control Regs.pm_ctrl_state_mask == 0)
                    then ret (neg ebusy, scan)
                    else do
                      saved ← save_all scan (
                          (bus, offset pm + Regs.pm_ctrl, 2, pm_mask)
                          ∷ (bus, offset exp + Regs.exp_devctl2, 2, 0xffff)
                          ∷ (bus, offset exp + Regs.exp_lnkctl, 2, lnkctl_mask)
                          ∷ (bus, offset l1ss + Regs.l1ss_ctl1, 4, all_ones)
                          ∷ (bus, offset l1ss + Regs.l1ss_ctl2, 4, all_ones)
                          ∷ [])
                      ret (pos 0, saved))
              PlacedResult
              s
      with_caps pm exp l1ss pm_low exp_low =
          branch Leases PlacedResult (unusable pm exp l1ss) _ _ s (λ _. (refl, h))
            λ usable. (
              on_at _ s (of_bus scan bus h) (offset pm + Regs.pm_ctrl) _ (omega arith)
                  (omega arith),
              λ control _.
                  branch Leases PlacedResult (not (bit_and control Regs.pm_ctrl_state_mask == 0)) _
                    _ s (λ _. (refl, h))
                    λ _.
                      bind Leases PlacedScan PlacedResult (save_all scan _) _ s
                        (save_all-Placed _ scan h (
                          let l1ss_low : offset l1ss + Regs.l1ss_ctl2 ≤ 0xffc = ground arith in
                          omega arith))
                        (λ sc t k. k),
            )

  save_msi-Placed :
      (scan : Scan) → Placed rc ep scan → Ensures Leases (save_msi scan) PlacedResult s
  unfolding save_msi
  save_msi-Placed scan h =
      bind Leases (λ r t. Between 0x40 0xfc r × (t ≡ s)) PlacedResult
        (scan_cap scan.ep Regs.cap_id_msi) _ s (scan_cap-Found scan.ep s ep_on Regs.cap_id_msi)
        λ cap t cap_at. rw cap_at.1 (
          branch Leases PlacedResult (no_room cap) _ _ s (λ _. (refl, h))
            λ _. (
              on_at scan.ep s ep_on (offset cap + Regs.msi_flags) _ (low cap cap_at.0)
                  (omega arith),
              λ flags _.
                  branch Leases PlacedResult (not (bit_and flags Regs.msi_flags_enable == 0)) _ _ s
                    (λ _. (refl, h))
                    λ _.
                      bind Leases PlacedScan PlacedResult (save_all _ _) _ s
                        (save_all-Placed _ _
                          (record {
                            at_rc = h.at_rc;
                            at_ep = h.at_ep;
                            cap_low = le-offset 0x40 0xfc cap cap_at.0;
                          })
                          (registers-Low (offset cap) _ _ (le-offset 0x40 0xfc cap cap_at.0)))
                        (λ sc t k. k),
            ))
    where
      ep_on : CfgMapped scan.ep s
      ep_on a small = let y = h.at_ep in let z = on a small in ground arith

      low : (cap : ℤ) → Between 0x40 0xfc cap → offset cap + Regs.msi_flags < 4096
      low cap at = omega (arith, le-offset 0x40 0xfc cap at)

  save_controls-Placed :
      (scan : Scan) → Placed rc ep scan → Ensures Leases (save_controls scan) PlacedResult s
  unfolding save_controls
  save_controls-Placed scan h =
      bind Leases PlacedResult PlacedResult (save_bus scan 0) _ s (save_bus-Placed scan 0 h)
        λ (r, sc) t k. rw k.0 (
          branch Leases PlacedResult (nonzero r) _ _ s (λ _. (refl, k.1))
            λ _.
              bind Leases PlacedResult PlacedResult (save_bus sc 1) _ s (save_bus-Placed sc 1 k.1)
                λ (r, sc) t k. rw k.0 (
                  branch Leases PlacedResult (nonzero r) _ _ s (λ _. (refl, k.1)) λ _. rest sc k.1))
    where
      rest :
          (scan : Scan)
          → Placed rc ep scan
          → Ensures Leases
              (do
                scan ← save_all scan (windows scan.assign_memory)
                (r, scan) ← if is_some scan.msi_domain then save_msi scan else ret (pos 0, scan)
                if nonzero r then ret (r, scan) else do
                  scan ← save_all scan (if scan.bind_firmware then watchdog else [])
                  ret (pos 0, scan))
              PlacedResult
              s
      rest scan h =
          bind Leases PlacedScan PlacedResult (save_all scan (windows scan.assign_memory)) _ s
            (save_all-Placed (windows scan.assign_memory) scan h (windows-Low scan.assign_memory))
            λ sc t k. rw k.0 (
              bind Leases PlacedResult PlacedResult
                (if is_some sc.msi_domain then save_msi sc else ret (pos 0, sc)) _ s
                (branch Leases PlacedResult (is_some sc.msi_domain) _ _ s
                  (λ _. save_msi-Placed sc k.1) (λ _. (refl, k.1)))
                λ (r, sc) t k. rw k.0 (
                  branch Leases PlacedResult (nonzero r) _ _ s (λ _. (refl, k.1))
                    λ _.
                      bind Leases PlacedScan PlacedResult
                        (save_all sc (if sc.bind_firmware then watchdog else [])) _ s
                        (save_all-Placed _ sc k.1 (watchdog-Low sc.bind_firmware)) (λ sc t k. k)))

  pub save_controls-Sound :
      (scan : Scan)
      → Placed rc ep scan
      → scan.controls ≡ []
      → Ensures Leases (save_controls scan) (λ r t. (t ≡ s) × Sound rc ep r.1) s
  save_controls-Sound scan h none_yet =
      mono Leases (λ r t. Holds 26 r.1 × PlacedResult r t) (λ r t. (t ≡ s) × Sound rc ep r.1)
        (save_controls scan) s
        (anyhow Leases (λ r. Holds 26 r.1) PlacedResult (save_controls scan) s
          (save_controls-Holds scan none_yet) (save_controls-Placed scan h))
        λ (r, sc) t k. (
          k.1.0,
          record {
            at_rc = k.1.1.at_rc;
            at_ep = k.1.1.at_ep;
            apart = k.0.apart;
            cap_low = k.1.1.cap_low;
          },
        )
