-- ===== src/PciScan/Access/Mastering.antt =====
-- The accesses of the PCI core, in any order and number, before the driver is bound.
use a1625_linux_winboot.Prelude.{
  ℕ, ◌+◌, ◌≤◌, ◌≡◌, ◌⊎◌, inl, inr, Bool, true, false, ◌||◌, ◌==◌, ℤ, pos, negsuc, List, [], ◌∷◌,
  All, bit_and, arith,
}
use native.Mathlib.Decide.{dec_lt}
use a1625_linux_winboot.Kernel.{Op, Prog, ret, ◌>>=◌, Monitor, Ensures, bind}
use a1625_linux_winboot.PciScan.Regs
use a1625_linux_winboot.PciScan.Controls.{Control, Scan}
use a1625_linux_winboot.PciScan.Controls.Spared.{ControlApart}
use a1625_linux_winboot.PciScan.Access.Header.{verdict-HeaderSafe}
use a1625_linux_winboot.PciScan.Access.{
  verdict, scan_write, header_allows, controls_allow, firmware_allows, set_failed,
}

-- Bytes `a .. a + n` lie apart from the two bytes of the command register at `c`.
abbrev pub Clear : (a n c : ℕ) → Type 0
Clear a n c = (a + n ≤ c) ⊎ (c + 2 ≤ a)

-- No write sets the bus master bit in the command register of the configuration space at `cfg`,
-- and none reaches that register by another width or out of alignment.
abbrev pub Silent : ℕ → Op → Type 0
Silent cfg (Op.writew value a) =
    Clear a 2 (cfg + Regs.command) ⊎ (bit_and value Regs.command_master ≡ 0)
Silent cfg (Op.writel value a) = Clear a 4 (cfg + Regs.command)
Silent cfg _ = Unit

-- Both configuration spaces of a scan are watched.
abbrev pub Unmastered : (rc ep : ℕ) → Monitor
Unmastered rc ep = record {
  State = Unit {0};
  next = λ s o r. s;
  Permits = λ s o. Silent rc o × Silent ep o;
  Answers = λ s o r. Unit {0};
}

-- A place and a width that some saved control or some rule of the header may have.
abbrev Inside : (place size : ℕ) → Type 0
Inside place size = (place + size ≤ 4096) × ((size ≡ 2) ⊎ (size ≡ 4))

controls_allow-Inside :
    (cs : List Control) (bus place size value : ℕ) (allowed : Bool)
    → All ControlApart cs
    → controls_allow cs bus place size value allowed ≡ true
    → (allowed ≡ true) ⊎ Inside place size
unfolding controls_allow
controls_allow-Inside [] bus place size value allowed apart h = inl h
controls_allow-Inside (c ∷ cs) bus place size value allowed apart h =
    let later = controls_allow-Inside cs bus place size value _ apart.1 h in ground arith

header_allows-Inside :
    (active : Bool) (bus place size value : ℕ)
    → header_allows active bus place size value ≡ true
    → Inside place size
unfolding header_allows
header_allows-Inside active bus place size value h = ground arith

-- An allowed write is two or four bytes wide and stays inside the 4 KiB of its function, for saved
-- controls placed as `save_controls` places them on any hardware.
pub verdict-Inside :
    (scan : Scan) (bus place size value : ℕ)
    → All ControlApart scan.controls
    → (verdict scan bus place size value).allowed ≡ true
    → (place + size ≤ 4096) × ((size ≡ 2) ⊎ (size ≡ 4))
unfolding verdict firmware_allows
verdict-Inside scan bus place size value apart allowed = ground (
  arith,
  controls_allow-Inside scan.controls bus place size value
      (header_allows scan.firmware_active bus place size value) apart,
  header_allows-Inside scan.firmware_active bus place size value,
)

-- A scan that may be enumerated: the driver is not bound, its controls are as `save_controls`
-- leaves them, and its two configuration spaces are at `rc` and `ep`.
pub record IsQuiet (rc ep : ℕ) (scan : Scan) : Type 0 where
  pub at_rc : scan.rc ≡ rc
  pub at_ep : scan.ep ≡ ep
  pub inactive : scan.firmware_active ≡ false
  pub apart : All ControlApart scan.controls

verdict-inactive :
    (scan : Scan) (bus place size value : ℕ)
    → scan.firmware_active ≡ false
    → ((verdict scan bus place size value).width ≡ size)
      × ((verdict scan bus place size value).word ≡ value)
unfolding verdict
verdict-inactive scan bus place size value h = ground arith

-- A refusal is remembered, and nothing that was refused is forgotten.
abbrev Remembered : Scan → ℤ × Scan → Type 0
Remembered scan (r, after) =
    (r ≡ set_failed → after.rejected ≡ true) × (scan.rejected ≡ true → after.rejected ≡ true)

-- An allowed write is one of the command register without the master bit, or lies behind it.
command_or_behind :
    (rc ep : ℕ) (scan : Scan) (bus place size value : ℕ)
    → IsQuiet rc ep scan
    → (verdict scan bus place size value).allowed ≡ true
    → ((place ≡ 4) × (size ≡ 2) × (bit_and value 4 ≡ 0)) ⊎ (0x10 ≤ place)
command_or_behind rc ep scan bus place size value q allowed = elim (dec_lt place 0x10) [
  | yes low ↦
      let safe = verdict-HeaderSafe scan bus place size value q.apart (omega arith) allowed in
      ground (arith, q.inactive, safe.0)
  | no high ↦ inr (omega arith)
]

module _ (rc ep : ℕ) (disjoint : (rc + 4096 ≤ ep) ⊎ (ep + 4096 ≤ rc)) where
  pub scan_write-Quiet :
      (scan : Scan) (bus devfn : ℕ) (place : ℤ) (size value : ℕ)
      → IsQuiet rc ep scan
      → Ensures
          (Unmastered rc ep)
          (scan_write scan bus devfn place size value)
          (λ r _. IsQuiet rc ep r.1 × Remembered scan r)
          tt
  unfolding scan_write
  scan_write-Quiet scan bus devfn (negsuc e) size value q = ground (arith, q)
  scan_write-Quiet scan bus devfn (pos place) size value q = ground (
    arith,
    command_or_behind rc ep scan bus place size value q,
    verdict-Inside scan bus place size value q.apart,
    verdict-inactive scan bus place size value q.inactive,
  )

-- A write that the PCI core asks for.
pub record Request : Type 0 where
  pub bus : ℕ
  pub devfn : ℕ
  pub place : ℤ
  pub size : ℕ
  pub value : ℕ

abbrev failed : ℤ → Bool
failed (pos n) = n == 0x88
failed (negsuc n) = false

-- The writes in their order; whether one of them was refused, and the scan that they leave.
unfoldable pub write_all : Scan → Bool → List Request → Prog (Bool × Scan)
write_all scan refused [] = ret (refused, scan)
write_all scan refused (w ∷ ws) = do
  (r, after) ← scan_write scan w.bus w.devfn w.place w.size w.value
  write_all after (refused || failed r) ws

-- Before the driver is bound no sequence of writes of the PCI core, to any function, place (below 0 too), width
-- and value, sets the bus master bit of the root port or of the endpoint; and a sequence in which
-- a write was refused leaves the scan `rejected`. The scan's two configuration spaces do not
-- overlap, and its controls are as `a1625_scan_save_controls` leaves them.
pub write_all-Quiet :
    (rc ep : ℕ)
    → (rc + 4096 ≤ ep) ⊎ (ep + 4096 ≤ rc)
    → (scan : Scan) (refused : Bool) (ws : List Request) → IsQuiet rc ep scan
    → (refused ≡ true → scan.rejected ≡ true)
    → Ensures
        (Unmastered rc ep)
        (write_all scan refused ws)
        (λ r _. IsQuiet rc ep r.1 × (r.0 ≡ true → r.1.rejected ≡ true))
        tt
unfolding write_all
write_all-Quiet rc ep disjoint scan refused [] q told = (q, told)
write_all-Quiet rc ep disjoint scan refused (w ∷ ws) q told =
    bind (Unmastered rc ep) (λ r _. IsQuiet rc ep r.1 × Remembered scan r) _ _ _ tt
      (scan_write-Quiet rc ep disjoint scan w.bus w.devfn w.place w.size w.value q)
      λ (r, after) _ (q', remembered).
        write_all-Quiet rc ep disjoint after (refused || failed r) ws q' (still r after remembered)
  where
    still :
        (r : ℤ) (after : Scan)
        → Remembered scan (r, after)
        → (refused || failed r) ≡ true
        → after.rejected ≡ true
    still (pos n) after h e = ground arith
    still (negsuc n) after h e = ground arith
