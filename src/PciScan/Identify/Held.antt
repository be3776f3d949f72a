-- ===== src/PciScan/Identify/Held.antt =====
-- The callback of the walk of the bus, as leases.
use mathlib.Core.Path.{subst}
use a1625_linux_winboot.Prelude.{
  ℕ, ◌+◌, ◌<◌, ◌≡◌, refl, Bool, true, false, not, ◌&&◌, ◌||◌, ◌==◌, ==_refl, if◌then◌else◌, ℤ, pos,
  negsuc, neg, eio, nonzero, negative, Option, none, some, List, [], ◌∷◌, bit_and, arith,
}
use a1625_linux_winboot.Kernel.{
  ret, ◌>>=◌, ConfigRequest, Ensures, bind, branch, resume, PciDev, pci_free_irq_vectors, readw,
  readl,
}
use a1625_linux_winboot.Kernel.Leases.{Lease, vectors, mapping, mapped, Leases}
use a1625_linux_winboot.PciScan.Regs
use a1625_linux_winboot.PciScan.Controls.{Scan, is_some}
use a1625_linux_winboot.PciScan.Core.{serve}
use a1625_linux_winboot.PciScan.Core.Held.{ConfigMapped, Sound, serve-Sound}
use a1625_linux_winboot.PciScan.Identify.{
  dart_regs, rejected_if, is_slot_8, is_enabled, msi_flags_qsize, irq_data, msi_programmed,
  with_vector, endpoint_msi, is_radio, check_command, any_reserved, check_iommu, bad_bar, counted,
  check_radio, identify, walk,
}

irq_data-Same :
    (domain : Option ℕ) (irq : ℤ) (s : List Lease)
    → Ensures Leases (irq_data domain irq) (λ _ t. t ≡ s) s
unfolding irq_data
irq_data-Same none irq s = refl
irq_data-Same (some domain) (pos irq) s = (tt, λ _ _. refl)
irq_data-Same (some domain) (negsuc e) s = refl

module _ (rc ep : ℕ) where
  -- Where a register of the capability lies.
  cap_at :
      (s : List Lease) (scan : Scan) (a : ℕ)
      → ConfigMapped rc ep s
      → Sound rc ep scan
      → a < 0xf00
      → mapped (scan.ep + scan.msi_cap + a) s ≡ true
  cap_at s scan a on h low =
      let at : ep + (scan.msi_cap + a) ≡ scan.ep + scan.msi_cap + a = omega (arith, h.at_ep) in
      subst (λ x. mapped x s ≡ true) at (on (scan.msi_cap + a) (omega (arith, h.cap_low))).1

  module _ (s : List Lease) (on : ConfigMapped rc ep s) (scan : Scan) (h : Sound rc ep scan) where
    high-Same :
        Ensures Leases
          (if scan.msi_64 then readl (scan.ep + scan.msi_cap + Regs.msi_address_hi) else ret 0)
          (λ _ t. t ≡ s)
          s
    high-Same =
        branch Leases (λ _ t. t ≡ s) scan.msi_64 _ _ s
          (λ _. (cap_at s scan Regs.msi_address_hi on h (omega arith), λ _ _. refl)) (λ _. refl)

    msi_programmed-Same : Ensures Leases (msi_programmed scan) (λ _ t. t ≡ s) s
    unfolding msi_programmed
    msi_programmed-Same = (
      cap_at s scan Regs.msi_address_lo on h (omega arith),
      λ low _.
          branch Leases (λ _ t. t ≡ s) (not (low == 0xbfff_f000)) _ _ s (λ _. refl)
            λ _.
              resume Leases (λ _ t. t ≡ s) _ _ s high-Same
                λ high.
                  branch Leases (λ _ t. t ≡ s) (not (high == 0)) _ _ s (λ _. refl)
                    λ _. (
                      cap_at s scan (if scan.msi_64 then Regs.msi_data_64 else Regs.msi_data_32) on
                          h (ground arith),
                      λ _ _. refl,
                    ),
    )

  Sound-marked : (scan : Scan) → Sound rc ep scan → Sound rc ep (record scan { rejected = true })
  Sound-marked scan h = record {
    at_rc = h.at_rc;
    at_ep = h.at_ep;
    apart = h.apart;
    cap_low = h.cap_low;
  }

  Sound-rejected : (b : Bool) (scan : Scan) → Sound rc ep scan → Sound rc ep (rejected_if b scan)
  Sound-rejected b scan h = record {
    at_rc = h.at_rc;
    at_ep = h.at_ep;
    apart = h.apart;
    cap_low = h.cap_low;
  }

  module _ (s : List Lease) (on : ConfigMapped rc ep s) where
    abbrev Good : ℤ × Scan → List Lease → Type 0
    Good r t = (t ≡ s) × Sound rc ep r.1

    -- The vector is freed, and the flags are read a last time.
    freed-Good :
        (dev : ℕ) (good : Bool) (scan : Scan)
        → Sound rc ep scan
        → Ensures Leases
            (do
              requests ← pci_free_irq_vectors dev
              scan ← serve scan requests
              flags ← readw (scan.ep + scan.msi_cap + Regs.msi_flags)
              ret (if is_enabled flags then neg eio else if good then pos 0 else neg eio, scan))
            Good
            (vectors dev ∷ s)
    freed-Good dev good scan h = (
      rw (==_refl dev) refl,
      λ requests _. rw (==_refl dev) (
          bind Leases (λ sc t. (t ≡ s) × Sound rc ep sc) Good (serve scan requests) _ s
            (serve-Sound rc ep s on requests scan h)
            λ sc t k. rw k.0 (cap_at s sc Regs.msi_flags on k.1 (omega arith), λ _ _. (refl, k.1))),
    )

    with_vector-Good :
        (dev : ℕ) (scan : Scan)
        → Sound rc ep scan
        → Ensures Leases (with_vector dev scan) Good (vectors dev ∷ s)
    unfolding with_vector
    with_vector-Good dev scan h = (
      tt,
      λ irq _.
          resume Leases Good (irq_data scan.msi_domain irq) _ (vectors dev ∷ s)
            (irq_data-Same scan.msi_domain irq (vectors dev ∷ s))
            λ found. (
              cap_at s scan Regs.msi_flags on h (omega arith),
              λ flags _.
                  resume Leases Good _ _ (vectors dev ∷ s)
                    (branch Leases (λ _ t. t ≡ vectors dev ∷ s)
                      (is_slot_8 found && is_enabled flags && (bit_and flags msi_flags_qsize == 0))
                      _ _ _ (λ _. msi_programmed-Same (vectors dev ∷ s) on scan h) (λ _. refl))
                    λ good. freed-Good dev good scan h,
            ),
    )

    endpoint_msi-Good :
        (dev : ℕ) (scan : Scan) → Sound rc ep scan → Ensures Leases (endpoint_msi dev scan) Good s
    unfolding endpoint_msi
    endpoint_msi-Good dev scan h = (tt, λ q _. by_flag (negative q.0) q.0 q.1)
      where
        by_flag :
            (failed : Bool) (r : ℤ) (requests : List ConfigRequest)
            → Ensures Leases
                (do
                  scan ← serve scan requests
                  if failed then ret (r, scan) else with_vector dev scan)
                Good
                (if failed then s else vectors dev ∷ s)
        by_flag true r requests =
            bind Leases (λ sc t. (t ≡ s) × Sound rc ep sc) Good (serve scan requests) _ s
              (serve-Sound rc ep s on requests scan h) λ sc t k. k
        by_flag false r requests =
            bind Leases (λ sc t. (t ≡ vectors dev ∷ s) × Sound rc ep sc) Good (serve scan requests)
              _ (vectors dev ∷ s) (serve-Sound rc ep (vectors dev ∷ s) on requests scan h)
              λ sc t k. rw k.0 (with_vector-Good dev sc k.1)

    abbrev SoundScan : Scan → List Lease → Type 0
    SoundScan sc t = (t ≡ s) × Sound rc ep sc

    check_command-Good :
        (d : PciDev) (scan : Scan)
        → Sound rc ep scan
        → Ensures Leases (check_command d scan) SoundScan s
    unfolding check_command
    check_command-Good d scan h = (
      tt,
      λ driver _.
          branch Leases SoundScan driver _ _ s (λ _. (refl, Sound-marked scan h))
            λ _. (command_at, λ command _. (refl, Sound-rejected _ scan h)),
    )
      where
        command_at : mapped ((if is_radio d then scan.ep else scan.rc) + Regs.command) s ≡ true
        command_at = let a = h.at_rc in let b = h.at_ep in let c = on Regs.command in ground arith

    check_iommu-Good :
        (d : PciDev) (scan : Scan) → Sound rc ep scan → Ensures Leases (check_iommu d scan) Good s
    unfolding check_iommu
    check_iommu-Good d scan h = (
      tt,
      λ found _.
          branch Leases Good (not (elim found [ none ↦ false | some domain ↦ domain.is_dma ])) _ _ s
            (λ _. (refl, Sound-marked scan h))
            λ _. (
              tt,
              λ regions _. (
                tt,
                elim [
                  | false ↦ λ _. (refl, Sound-marked scan h)
                  | true ↦ λ _.
                      resume Leases Good _ _ (mapping dart_regs 0x100 ∷ s)
                        (branch Leases (λ _ t. t ≡ mapping dart_regs 0x100 ∷ s)
                          (not (any_reserved regions)) _ _ _ (λ _. refl) (λ _. (refl, λ _ _. refl)))
                        λ bad. (refl, λ _ _. (refl, Sound-rejected bad scan h))
                ],
              ),
            ),
    )

    check_radio-Good :
        (d : PciDev) (scan : Scan)
        → Sound rc ep scan
        → Ensures Leases (check_radio d scan) SoundScan s
    unfolding check_radio
    check_radio-Good d scan h =
        bind Leases SoundScan SoundScan _ _ s
          (branch Leases SoundScan
            (is_radio d && is_some scan.msi_domain && not scan.bind_firmware && not scan.rejected) _
            _ s
            (λ _.
              bind Leases Good SoundScan (endpoint_msi d.dev scan) _ s
                (endpoint_msi-Good d.dev scan h)
                λ (r, sc) t k. (k.0, Sound-rejected (nonzero r) sc k.1))
            (λ _. (refl, h)))
          λ sc t k. (k.0, assigned (is_radio d && sc.assign_memory) sc k.1)
      where
        assigned :
            (b : Bool) (sc : Scan)
            → Sound rc ep sc
            → Sound rc ep (
                if b
                then rejected_if (bad_bar d.bar0 0x8000 || bad_bar d.bar2 0x40_0000) sc
                else sc)
        assigned true sc h = Sound-rejected _ sc h
        assigned false sc h = h

    identify-Good :
        (d : PciDev) (scan : Scan) → Sound rc ep scan → Ensures Leases (identify d scan) Good s
    unfolding identify
    identify-Good d scan h =
        bind Leases SoundScan Good (check_command d (counted d scan)) _ s
          (check_command-Good d (counted d scan)
            (record { at_rc = h.at_rc; at_ep = h.at_ep; apart = h.apart; cap_low = h.cap_low }))
          λ sc t k. rw k.0 (
            bind Leases Good Good
              (if is_radio d && sc.require_iommu then check_iommu d sc else ret (pos 0, sc)) _ s
              (branch Leases Good (is_radio d && sc.require_iommu) _ _ s
                (λ _. check_iommu-Good d sc k.1) (λ _. (refl, k.1)))
              λ (r, sc) t k. rw k.0 (
                branch Leases Good (nonzero r) _ _ s (λ _. (refl, k.1))
                  λ _.
                    bind Leases SoundScan Good (check_radio d sc) _ s (check_radio-Good d sc k.1)
                      (λ sc t k. k)))

    pub walk-Good :
        (ds : List PciDev) (scan : Scan)
        → Sound rc ep scan
        → Ensures Leases (walk ds scan) SoundScan s
    unfolding walk
    walk-Good [] scan h = (refl, h)
    walk-Good (d ∷ ds) scan h =
        bind Leases Good SoundScan (identify d scan) _ s (identify-Good d scan h) λ (r, sc) t k.
          rw k.0 (
            branch Leases SoundScan (nonzero r) _ _ s (λ _. (refl, k.1)) (λ _. walk-Good ds sc k.1))
