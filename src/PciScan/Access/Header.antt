-- ===== src/PciScan/Access/Header.antt =====
-- The filter of configuration writes at the standard header.
use a1625_linux_winboot.Prelude.{
  ℕ, ◌≤◌, ◌<◌, ◌≡◌, ◌≢◌, sym, ◌∙◌, ◌⊎◌, inl, inr, Bool, true, false, ◌&&◌, ◌||◌, ◌==◌, List, [],
  ◌∷◌, All, bit_and, arith,
}
use a1625_linux_winboot.PciScan.Regs
use a1625_linux_winboot.PciScan.Controls.{Control, Scan}
use a1625_linux_winboot.PciScan.Controls.Spared.{ControlApart}
use a1625_linux_winboot.PciScan.Access.{
  is_at, header_allows, controls_allow, firmware_allows, verdict,
}

-- One of the saved controls is of this function, place and width.
abbrev pub listed : List Control → (bus place size : ℕ) → Bool
listed [] bus place size = false
listed (c ∷ cs) bus place size = is_at c bus place size || listed cs bus place size

-- The 16-bit command register, without bus mastering unless the driver is bound.
abbrev pub ToCommand : (active : Bool) (place size value : ℕ) → Type 0
ToCommand active place size value =
    (place ≡ 0x04) × (size ≡ 2) × ((active ≡ true) ⊎ (bit_and value 0x4 ≡ 0))

-- A whole BAR: the root port has two, the endpoint six.
abbrev pub ToBar : (bus place size : ℕ) → Type 0
ToBar bus place size =
    (0x10 ≤ place)
    × (bit_and place 3 ≡ 0)
    × (size ≡ 4)
    × (((bus ≡ 0) × (place ≤ 0x14)) ⊎ ((bus ≢ 0) × (place ≤ 0x24)))

-- The root port's three bus numbers at once, as 00/01/01 or as 0.
abbrev pub ToBuses : (bus place size value : ℕ) → Type 0
ToBuses bus place size value =
    (bus ≡ 0)
    × (place ≡ 0x18)
    × (size ≡ 4)
    × ((bit_and value 0xff_ffff ≡ 0x01_0100) ⊎ (bit_and value 0xff_ffff ≡ 0))

-- All error bits of the root port's secondary status are acknowledged.
abbrev pub ToStatus : (bus place size value : ℕ) → Type 0
ToStatus bus place size value = (bus ≡ 0) × (place ≡ 0x1e) × (size ≡ 2) × (value ≡ 0xffff)

-- The root port's bridge control, without a reset of its bus.
abbrev pub ToBridgeControl : (bus place size value : ℕ) → Type 0
ToBridgeControl bus place size value =
    (bus ≡ 0) × (place ≡ 0x3e) × (size ≡ 2) × (bit_and value 0x40 ≡ 0)

-- A ROM's address, with the ROM left off.
abbrev pub ToRom : (bus place size value : ℕ) → Type 0
ToRom bus place size value =
    (((bus ≡ 0) × (place ≡ 0x38)) ⊎ ((bus ≢ 0) × (place ≡ 0x30)))
    × (size ≡ 4)
    × (bit_and value 0x1 ≡ 0)

-- A window of the root port whose register was saved with this width.
abbrev pub ToWindow : List Control → (bus place size : ℕ) → Type 0
ToWindow cs bus place size =
    (bus ≡ 0) × (0x1c ≤ place) × (place ≤ 0x30) × (listed cs bus place size ≡ true)

abbrev ByHeader : (active : Bool) (bus place size value : ℕ) → Type 0
ByHeader active bus place size value =
    ToCommand active place size value
    ⊎ ToBar bus place size
    ⊎ ToBuses bus place size value
    ⊎ ToBridgeControl bus place size value
    ⊎ ToRom bus place size value

-- The writes to the standard header that may be allowed.
abbrev pub HeaderWrite : (active : Bool) → List Control → (bus place size value : ℕ) → Type 0
HeaderWrite active cs bus place size value =
    ToWindow cs bus place size
    ⊎ ToStatus bus place size value
    ⊎ ByHeader active bus place size value

header_allows-ByHeader :
    (active : Bool) (bus place size value : ℕ)
    → header_allows active bus place size value ≡ true
    → ByHeader active bus place size value
unfolding header_allows
header_allows-ByHeader active bus place size value h = ground arith

-- A control that makes an allowed write one is a window, where the place is in the header.
controls_allow-listed :
    (cs : List Control) (bus place size value : ℕ) (allowed : Bool)
    → All ControlApart cs
    → place < 0x40
    → controls_allow cs bus place size value allowed ≡ true
    → ToWindow cs bus place size ⊎ (allowed ≡ true)
unfolding controls_allow
controls_allow-listed [] bus place size value allowed apart low h = inr h
controls_allow-listed (c ∷ cs) bus place size value allowed apart low h =
    let later = controls_allow-listed cs bus place size value _ apart.1 low h in ground arith

firmware_allows-header :
    (place size value : ℕ) (allowed : Bool)
    → place < 0x40
    → firmware_allows place size value allowed
      ≡ record { allowed = allowed; width = size; word = value }
unfolding firmware_allows
firmware_allows-header place size value allowed h = ground arith

-- In the header the saved controls and the header decide, and the write goes through as it is.
verdict-header :
    (scan : Scan) (bus place size value : ℕ)
    → place < 0x40
    → ((verdict scan bus place size value).allowed ≡ (
        (bus == 0) && (place == Regs.sec_status) && (size == 2) && (value == 0xffff)
        || controls_allow scan.controls bus place size value
            (header_allows scan.firmware_active bus place size value)))
      × ((verdict scan bus place size value).width ≡ size)
      × ((verdict scan bus place size value).word ≡ value)
unfolding verdict
verdict-header scan bus place size value low =
    rw (firmware_allows-header place size value _ low) (ground arith)

status_or :
    (bus place size value : ℕ) (other : Bool)
    → ((bus == 0) && (place == Regs.sec_status) && (size == 2) && (value == 0xffff) || other) ≡ true
    → ToStatus bus place size value ⊎ (other ≡ true)
status_or bus place size value other h = ground arith

-- The standard header, 0x00..0x3f, of both functions is closed but for a list of writes, told by
-- place, width and value: the command register without bus mastering unless the driver is bound,
-- whole BARs, the root port's bus numbers as 00/01/01 or 0, its secondary status with all bits,
-- its bridge control without a bus reset, the ROM addresses with the ROM off, and the root port's
-- windows in 0x1c..0x30 where a saved control has the same place and width. An allowed write
-- reaches the hardware with its own width and value. The saved controls are placed as
-- `save_controls` places them on any hardware.
pub verdict-HeaderSafe :
    (scan : Scan) (bus place size value : ℕ)
    → All ControlApart scan.controls
    → place < 0x40
    → (verdict scan bus place size value).allowed ≡ true
    → HeaderWrite scan.firmware_active scan.controls bus place size value
      × ((verdict scan bus place size value).width ≡ size)
      × ((verdict scan bus place size value).word ≡ value)
verdict-HeaderSafe scan bus place size value apart low allowed =
    let shown = verdict-header scan bus place size value low in
    let base = header_allows scan.firmware_active bus place size value in
    let listed_or = controls_allow-listed scan.controls bus place size value base apart low in
    (
      elim (status_or bus place size value _ (sym shown.0 ∙ allowed)) [
        | inl status ↦ inr (inl status)
        | inr other ↦ elim (listed_or other) [
          | inl window ↦ inl window
          | inr header ↦
              inr (inr (header_allows-ByHeader scan.firmware_active bus place size value header))
        ]
      ],
      shown.1,
      shown.2,
    )
