-- ===== src/PciScan/Host/Back.antt =====
-- The reads of the registers that `a1625_pci_scan` compares last.
use a1625_linux_winboot.Prelude.{
  ℕ, ◌+◌, ◌≤◌, ◌≡◌, ◌≢◌, ◌⊎◌, refl, Bool, true, false, not, ◌==◌, ℤ, pos, neg, eio, Option, some,
  arith,
}
use a1625_linux_winboot.Kernel.{Op, Ans, Prog, ret, call, Ensures, bind, branch, mono, both}
use a1625_linux_winboot.Chip.Back.{Reads, note, note-first, ReadBack}
use a1625_linux_winboot.PciScan.Regs
use a1625_linux_winboot.PciScan.Controls.{Scan}
use a1625_linux_winboot.PciScan.Host.{
  Baseline, eio_if, restore_controls, restore_bars, compare, restore_last, restore_header, restore,
}

-- The first and the last read of the register found the same.
abbrev pub Same : Reads → (address : ℕ) → Type 0
Same s a = (v : ℕ) × (s.first a ≡ some v) × (s.last a ≡ some v)

-- Both command registers read as 0 first and last, and the ROM registers, the bus numbers and the
-- bridge's control the same first and last.
pub record ReadAsFirst (rc ep : ℕ) (s : Reads) : Type 0 where
  pub rc_command : (s.first (rc + Regs.command) ≡ some 0) × (s.last (rc + Regs.command) ≡ some 0)
  pub ep_command : (s.first (ep + Regs.command) ≡ some 0) × (s.last (ep + Regs.command) ≡ some 0)
  pub rc_rom : Same s (rc + Regs.rom_address1)
  pub ep_rom : Same s (ep + Regs.rom_address)
  pub buses : Same s (rc + Regs.primary_bus)
  pub control : Same s (rc + Regs.bridge_control)

-- The monitor permits everything, so every program keeps its protocol.
anyway : {A : Type 0} (m : Prog A) (s : Reads) → Ensures ReadBack m (λ _ _. Unit {0}) s
anyway (ret a) s = tt
anyway (call o k) s = (tt, λ r _. anyway (k r) (ReadBack.next s o r))

-- What was read last: both command registers as 0, the ROM registers, the bus numbers and the
-- bridge's control as in the baseline.
record LastRead (rc ep : ℕ) (b : Baseline) (s : Reads) : Type 0 where
  rc_command : s.last (rc + Regs.command) ≡ some 0
  ep_command : s.last (ep + Regs.command) ≡ some 0
  rc_rom : s.last (rc + Regs.rom_address1) ≡ some b.rc_rom
  ep_rom : s.last (ep + Regs.rom_address) ≡ some b.ep_rom
  buses : s.last (rc + Regs.primary_bus) ≡ some b.bus_numbers
  control : s.last (rc + Regs.bridge_control) ≡ some b.control

-- What the first reads of the six registers found, if there were any.
abbrev pub FirstAre : (rc ep : ℕ) (c1 c2 control buses rom1 rom2 : Option ℕ) → Reads → Type 0
FirstAre rc ep c1 c2 control buses rom1 rom2 s =
    (s.first (rc + Regs.command) ≡ c1)
    × (s.first (ep + Regs.command) ≡ c2)
    × (s.first (rc + Regs.bridge_control) ≡ control)
    × (s.first (rc + Regs.primary_bus) ≡ buses)
    × (s.first (rc + Regs.rom_address1) ≡ rom1)
    × (s.first (ep + Regs.rom_address) ≡ rom2)

-- The first reads are the baseline.
abbrev pub First : (rc ep : ℕ) → Baseline → Reads → Type 0
First rc ep b =
    FirstAre rc ep (some 0) (some 0) (some b.control) (some b.bus_numbers) (some b.rc_rom)
      (some b.ep_rom)

module _ (rc ep : ℕ) (disjoint : (rc + 4096 ≤ ep) ⊎ (ep + 4096 ≤ rc)) (b : Baseline) where
  abbrev IfSame : Bool → Reads → Type 0
  IfSame same t = same ≡ true → LastRead rc ep b t

  compare-LastRead : (s : Reads) → Ensures ReadBack (compare rc ep b) IfSame s
  unfolding compare
  compare-LastRead s = (
    tt,
    λ v1 _.
        branch ReadBack IfSame (not (v1 == 0)) _ _ _ (λ _ never. ground arith)
          λ e1. (
            tt,
            λ v2 _.
                branch ReadBack IfSame (not (v2 == 0)) _ _ _ (λ _ never. ground arith)
                  λ e2. (
                    tt,
                    λ v3 _.
                        branch ReadBack IfSame (not (v3 == b.rc_rom)) _ _ _
                          (λ _ never. ground arith)
                          λ e3. (
                            tt,
                            λ v4 _.
                                branch ReadBack IfSame (not (v4 == b.ep_rom)) _ _ _
                                  (λ _ never. ground arith)
                                  λ e4. (
                                    tt,
                                    λ v5 _.
                                        branch ReadBack IfSame (not (v5 == b.bus_numbers)) _ _ _
                                          (λ _ never. ground arith)
                                          λ e5. (
                                            tt,
                                            λ v6 _ same. record {
                                              rc_command = ground arith;
                                              ep_command = ground arith;
                                              rc_rom = ground arith;
                                              ep_rom = ground arith;
                                              buses = ground arith;
                                              control = ground arith;
                                            },
                                          ),
                                  ),
                          ),
                  ),
          ),
  )

  restore-LastRead :
      (scan : Scan) (r : ℤ) (s : Reads)
      → Ensures ReadBack (restore rc ep b scan r) (λ r t. r ≢ neg eio → LastRead rc ep b t) s
  unfolding restore restore_header restore_last
  restore-LastRead scan r s =
      bind ReadBack Any Back (restore_controls rc ep scan.controls r) _ s (anyway _ s) λ r t _.
        bind ReadBack Back Back (restore_header rc ep b r) _ t
          (
            tt,
            λ _ _. (
              tt,
              λ _ _. bind ReadBack Any Back (restore_bars b.rc_bars r) _ _ (anyway _ _) λ r t _.
                  bind ReadBack Any Back (restore_bars b.ep_bars r) _ t (anyway _ t) λ r t _. (
                    tt,
                    λ _ _. (
                      tt,
                      λ _ _. (
                        tt,
                        λ _ _. (
                          tt,
                          λ _ _.
                              bind ReadBack IfSame Back (compare rc ep b) _ _ (compare-LastRead _)
                                (λ same t k. if_not same r t k),
                        ),
                      ),
                    ),
                  ),
            ),
          )
          (λ r t k. if_rejected scan.rejected r t k)
    where
      Any : {A : Type 0} → A → Reads → Type 0
      Any a t = Unit

      Back : ℤ → Reads → Type 0
      Back r t = r ≢ neg eio → LastRead rc ep b t

      if_not : (same : Bool) (r : ℤ) (t : Reads) → IfSame same t → Back (eio_if (not same) r) t
      if_not true r t k fine = k refl
      if_not false r t k fine = absurd (fine refl)

      if_rejected : (rejected : Bool) (r : ℤ) (t : Reads) → Back r t → Back (eio_if rejected r) t
      if_rejected true r t k fine = absurd (fine refl)
      if_rejected false r t k fine = k fine

  note-First : (a v : ℕ) (s : Reads) → First rc ep b s → First rc ep b (note a v s)
  note-First a v s h = (
    note-first a (rc + Regs.command) v 0 s h.0,
    note-first a (ep + Regs.command) v 0 s h.1,
    note-first a (rc + Regs.bridge_control) v b.control s h.2,
    note-first a (rc + Regs.primary_bus) v b.bus_numbers s h.3,
    note-first a (rc + Regs.rom_address1) v b.rc_rom s h.4,
    note-first a (ep + Regs.rom_address) v b.ep_rom s h.5,
  )

  next-First :
      (s : Reads) (o : Op) (r : Ans o) → First rc ep b s → First rc ep b (ReadBack.next s o r)
  next-First s (Op.readw a) r h = note-First a r s h
  next-First s (Op.readl a) r h = note-First a r s h
  next-First s (Op.writew w a) r h = h
  next-First s (Op.writel w a) r h = h
  next-First s _ r h = h

  pub any-First :
      {A : Type 0} (p : Prog A) (s : Reads)
      → First rc ep b s
      → Ensures ReadBack p (λ _ t. First rc ep b t) s
  any-First (ret a) s h = h
  any-First (call o k) s h = (tt, λ r _. any-First (k r) _ (next-First s o r h))

  pub restore-Back :
      (scan : Scan) (r : ℤ) (s : Reads)
      → First rc ep b s
      → Ensures ReadBack (restore rc ep b scan r) (λ r t. r ≡ pos 0 → ReadAsFirst rc ep t) s
  restore-Back scan r s f =
      mono ReadBack (λ q t. (q ≢ neg eio → LastRead rc ep b t) × First rc ep b t)
        (λ r t. r ≡ pos 0 → ReadAsFirst rc ep t) (restore rc ep b scan r) s
        (both ReadBack (λ q t. q ≢ neg eio → LastRead rc ep b t) (λ _ t. First rc ep b t)
          (restore rc ep b scan r) s (restore-LastRead scan r s) (any-First _ s f))
        (λ q t k zero.
          let l = k.0 (ground arith) in
          record {
            rc_command = (k.1.0, l.rc_command);
            ep_command = (k.1.1, l.ep_command);
            rc_rom = (b.rc_rom, k.1.4, l.rc_rom);
            ep_rom = (b.ep_rom, k.1.5, l.ep_rom);
            buses = (b.bus_numbers, k.1.3, l.buses);
            control = (b.control, k.1.2, l.control);
          })
