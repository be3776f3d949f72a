-- ===== src/PciScan/Host/Before.antt =====
-- The first reads of `a1625_pci_scan`: the baseline.
use a1625_linux_winboot.Prelude.{
  ℕ, ◌+◌, ◌≤◌, ◌≡◌, refl, ◌∙◌, ◌⊎◌, Bool, true, false, not, ◌||◌, ◌==◌, if◌then◌else◌, Option, none,
  some, List, [], ◌∷◌, All, bit_and, bit_or, arith,
}
use a1625_linux_winboot.Kernel.{ret, ◌>>=◌, readl, Ensures, bind, branch, mono}
use a1625_linux_winboot.Chip.Back.{Reads, note, ReadBack}
use a1625_linux_winboot.PciScan.Regs
use a1625_linux_winboot.PciScan.Host.{Baseline, read_bars, rc_places, ep_places, read_baseline}
use a1625_linux_winboot.PciScan.Host.Back.{FirstAre, First}

-- Another address than those of the BARs was read first as before.
abbrev Untouched : (base : ℕ) (places : List ℕ) → Reads → Reads → Type 0
Untouched base places s t =
    (a : ℕ) → All (λ p. (base + p == a) ≡ false) places → t.first a ≡ s.first a

read_bars-Untouched :
    (base : ℕ) (places : List ℕ) (s : Reads)
    → Ensures ReadBack (read_bars base places) (λ _ t. Untouched base places s t) s
unfolding read_bars
read_bars-Untouched base [] s = λ a h. refl
read_bars-Untouched base (p ∷ places) s = (
  tt,
  λ v _.
      bind ReadBack (λ _ t. Untouched base places (note (base + p) v s) t)
        (λ _ t. Untouched base (p ∷ places) s t) (read_bars base places) _ (note (base + p) v s)
        (read_bars-Untouched base places (note (base + p) v s))
        (λ rest t k a h. k a h.1 ∙ rw h.0 refl),
)

module _ (rc ep : ℕ) (disjoint : (rc + 4096 ≤ ep) ⊎ (ep + 4096 ≤ rc)) where
  rc_bars-FirstAre :
      (c1 c2 control buses rom1 rom2 : Option ℕ) (s : Reads)
      → FirstAre rc ep c1 c2 control buses rom1 rom2 s
      → Ensures ReadBack
          (read_bars rc rc_places)
          (λ _ t. FirstAre rc ep c1 c2 control buses rom1 rom2 t)
          s
  rc_bars-FirstAre c1 c2 control buses rom1 rom2 s h =
      mono ReadBack (λ _ t. Untouched rc rc_places s t)
        (λ _ t. FirstAre rc ep c1 c2 control buses rom1 rom2 t) (read_bars rc rc_places) s
        (read_bars-Untouched rc rc_places s)
        (λ _ t k. (
          k _ (ground arith) ∙ h.0,
          k _ (ground arith) ∙ h.1,
          k _ (ground arith) ∙ h.2,
          k _ (ground arith) ∙ h.3,
          k _ (ground arith) ∙ h.4,
          k _ (ground arith) ∙ h.5,
        ))

  ep_bars-FirstAre :
      (c1 c2 control buses rom1 rom2 : Option ℕ) (s : Reads)
      → FirstAre rc ep c1 c2 control buses rom1 rom2 s
      → Ensures ReadBack
          (read_bars ep ep_places)
          (λ _ t. FirstAre rc ep c1 c2 control buses rom1 rom2 t)
          s
  ep_bars-FirstAre c1 c2 control buses rom1 rom2 s h =
      mono ReadBack (λ _ t. Untouched ep ep_places s t)
        (λ _ t. FirstAre rc ep c1 c2 control buses rom1 rom2 t) (read_bars ep ep_places) s
        (read_bars-Untouched ep ep_places s)
        (λ _ t k. (
          k _ (ground arith) ∙ h.0,
          k _ (ground arith) ∙ h.1,
          k _ (ground arith) ∙ h.2,
          k _ (ground arith) ∙ h.3,
          k _ (ground arith) ∙ h.4,
          k _ (ground arith) ∙ h.5,
        ))

  -- What the baseline says was read first.
  abbrev pub Read : Option Baseline → Reads → Type 0
  Read none t = Unit
  Read (some b) t = First rc ep b t

  abbrev pub Unread : Reads → Type 0
  Unread = FirstAre rc ep none none none none none none

  pub read_baseline-Read : (s : Reads) → Unread s → Ensures ReadBack (read_baseline rc ep) Read s
  unfolding read_baseline
  read_baseline-Read s h = (
    tt,
    λ c1 _. (
      tt,
      λ c2 _.
          branch ReadBack Read (not (c1 == 0) || not (c2 == 0)) (ret none) _ _ (λ _. tt)
            λ e. (
              tt,
              λ control _. (
                tt,
                λ buses _.
                    branch ReadBack Read
                      (not (bit_and buses 0xff_ffff == 0x01_0100)
                        || not (bit_and control Regs.bridge_ctl_bus_reset == 0))
                      (ret none) _ _ (λ _. tt) λ _. from_bars c1 c2 control buses e,
              ),
            ),
    ),
  )
    where
      four : (c1 c2 control buses : ℕ) → Reads
      four c1 c2 control buses = note (rc + Regs.primary_bus) buses (
          note (rc + Regs.bridge_control) control
            (note (ep + Regs.command) c2 (note (rc + Regs.command) c1 s)))

      four-FirstAre :
          (c1 c2 control buses : ℕ)
          → (not (c1 == 0) || not (c2 == 0)) ≡ false
          → FirstAre rc ep
              (some 0)
              (some 0)
              (some control)
              (some buses)
              none
              none
              (four c1 c2 control buses)
      four-FirstAre c1 c2 control buses e = ground arith

      roms :
          (c1 c2 control buses : ℕ) (rc_bars ep_bars : List (ℕ × ℕ)) (rc_rom ep_rom : ℕ) (t : Reads)
          → FirstAre rc ep (some 0) (some 0) (some control) (some buses) none none t
          → Read
              (if not (bit_and (bit_or rc_rom ep_rom) Regs.rom_address_enable == 0)
                then none
                else some (record {
                  control = control;
                  bus_numbers = buses;
                  rc_bars = rc_bars;
                  ep_bars = ep_bars;
                  rc_rom = rc_rom;
                  ep_rom = ep_rom;
                }))
              (note (ep + Regs.rom_address) ep_rom (note (rc + Regs.rom_address1) rc_rom t))
      roms c1 c2 control buses rc_bars ep_bars rc_rom ep_rom t k =
          by_test (not (bit_and (bit_or rc_rom ep_rom) Regs.rom_address_enable == 0))
        where
          b : Baseline
          b = record {
            control = control;
            bus_numbers = buses;
            rc_bars = rc_bars;
            ep_bars = ep_bars;
            rc_rom = rc_rom;
            ep_rom = ep_rom;
          }

          by_test :
              (on : Bool)
              → Read
                  (if on then none else some b)
                  (note (ep + Regs.rom_address) ep_rom (note (rc + Regs.rom_address1) rc_rom t))
          by_test true = tt
          by_test false = ground arith

      from_bars :
          (c1 c2 control buses : ℕ)
          → (not (c1 == 0) || not (c2 == 0)) ≡ false
          → Ensures ReadBack
              (do
                rc_bars ← read_bars rc rc_places
                ep_bars ← read_bars ep ep_places
                rc_rom ← readl (rc + Regs.rom_address1)
                ep_rom ← readl (ep + Regs.rom_address)
                ret (
                    if not (bit_and (bit_or rc_rom ep_rom) Regs.rom_address_enable == 0)
                    then none
                    else some (record {
                      control = control;
                      bus_numbers = buses;
                      rc_bars = rc_bars;
                      ep_bars = ep_bars;
                      rc_rom = rc_rom;
                      ep_rom = ep_rom;
                    })))
              Read
              (four c1 c2 control buses)
      from_bars c1 c2 control buses e =
          let P = FirstAre rc ep (some 0) (some 0) (some control) (some buses) none none in
          bind ReadBack (λ _ t. P t) Read (read_bars rc rc_places) _ _
            (rc_bars-FirstAre _ _ _ _ _ _ _ (four-FirstAre c1 c2 control buses e))
            λ rc_bars t k.
              bind ReadBack (λ _ t. P t) Read (read_bars ep ep_places) _ t
                (ep_bars-FirstAre _ _ _ _ _ _ t k)
                λ ep_bars t k. (
                  tt,
                  λ rc_rom _.
                      (tt, λ ep_rom _. roms c1 c2 control buses rc_bars ep_bars rc_rom ep_rom t k),
                )
