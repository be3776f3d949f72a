-- ===== src/Chip.antt =====
-- windows-native/wifi/pmu-probe/a1625_pcie_domains.c: `snapshot_chip`, which maps the endpoint's
-- first window for the time of a few reads and puts the configuration back.
pub mod Back
pub mod Held
pub mod Mastering
use a1625_linux_winboot.Prelude.{
  ℕ, zero, suc, ◌+◌, ◌-◌, ◌*◌, ◌/◌, ◌%◌, ◌^◌, Bool, true, false, not, ◌&&◌, ◌||◌, ◌==◌, leb,
  if◌then◌else◌, ℤ, pos, neg, eio, ebusy, enodev, enomem, bit_and, bit_or,
}
use a1625_linux_winboot.Prelude.Bits.{all_ones}
use a1625_linux_winboot.Kernel.{
  Prog, ret, ◌>>=◌, ◌>>◌, request_mem_region, release_mem_region, ioremap, iounmap, readw, readl,
  writew, writel,
}
use a1625_linux_winboot.Endpoint.{rc, ep}

abbrev pub bar : ℕ
bar = 0x7_c000_0000

-- The registers: BAR0, the backplane window, the bridge's memory window and the two commands.
abbrev pub bar_low : ℕ
bar_low = ep + 0x10

abbrev pub bar_high : ℕ
bar_high = ep + 0x14

abbrev pub backplane : ℕ
backplane = ep + 0x80

abbrev pub bridge_window : ℕ
bridge_window = rc + 0x20

abbrev pub rc_command : ℕ
rc_command = rc + 4

abbrev pub ep_command : ℕ
ep_command = ep + 4

-- The six values that are put back.
pub record Saved : Type 0 where
  pub low : ℕ
  pub high : ℕ
  pub window : ℕ
  pub mem : ℕ
  pub rc_cmd : ℕ
  pub ep_cmd : ℕ

-- The end of the scan of the EROM: whether it ended, the components and the PCIe cores.
abbrev erom_end : (ended : Bool) (components pcie : ℕ) → ℤ
erom_end ended components pcie =
    if ended && not (components == 0) && (pcie == 1) then pos 0 else neg enodev

-- The loop over the EROM from `offset` on. Each round reads a word or two, so 1024 rounds see all
-- of its 0x1000 bytes.
unfoldable pub erom : (rounds offset components pcie : ℕ) → Prog ℤ
erom zero offset components pcie = ret (erom_end false components pcie)
erom (suc n) offset components pcie =
    if leb 0x1000 offset then ret (erom_end false components pcie) else do
      first ← readl (bar + offset)
      if first == all_ones
          then ret (neg enodev)
          else if bit_and first 0xf == 0xf
          then ret (erom_end true components pcie)
          else if not (bit_and first 0xfff0_000f == 0x4bf0_0001)
          then erom n (offset + 4) components pcie
          else if leb 0x1000 (offset + 4)
          then ret (neg enodev)
          else do
            second ← readl (bar + offset + 4)
            if not (bit_and second 0xf == 1)
                then ret (neg enodev)
                else erom n (offset + 8) (components + 1)
                    (if bit_and (first / 2 ^ 8) 0xfff == 0x83c then pcie + 1 else pcie)

unfoldable pub read_erom : (pointer : ℕ) → Prog ℤ
read_erom pointer = if not (pointer == 0x1810_d000) then ret (neg enodev) else do
  writel pointer backplane
  found ← readl backplane
  if not (found == pointer) then ret (neg enodev) else erom 1024 0 0 0

-- With the window decoded: the chip's identity, and the pointer to its EROM.
unfoldable pub read_chip : (inspect_erom : Bool) → Prog ℤ
read_chip inspect_erom = do
  id ← readl bar
  if (id == all_ones) || not (bit_and id 0xffff == 0x4350) then ret (neg enodev) else do
    pointer ← readl (bar + 0xfc)
    if (pointer == 0) || (pointer == all_ones) || not (bit_and pointer 3 == 0)
        then ret (neg enodev)
        else if inspect_erom
        then read_erom pointer
        else ret (pos 0)

-- `writel` and `writew` with the read-back that every step has: an error is -EIO.
unfoldable pub set_long : (value address : ℕ) → Prog ℤ → Prog ℤ
set_long value address next = do
  writel value address
  found ← readl address
  if not (found == value) then ret (neg eio) else next

unfoldable pub set_word : (value address : ℕ) → Prog ℤ → Prog ℤ
set_word value address next = do
  writew value address
  found ← readw address
  if not (found == value) then ret (neg eio) else next

-- With `bar` mapped.
unfoldable pub decoded : (inspect_erom : Bool) → Prog ℤ
decoded inspect_erom = set_long 0xc000_0004 bar_low (
    set_long 0xc000_c000 bridge_window (
      set_long 0x1800_0000 backplane
        (set_word 2 rc_command (set_word 2 ep_command (read_chip inspect_erom)))))

-- `~(((u64)mask_high << 32) | (mask_low & ~0xfU)) + 1`, in 64 bits.
abbrev pub bar_size : (mask_low mask_high : ℕ) → ℕ
bar_size mask_low mask_high =
    (2 ^ 64 - bit_or (mask_high * 2 ^ 32) (bit_and mask_low 0xffff_fff0)) % 2 ^ 64

-- From `touched = true` to `restore:`: the code, and whether `bar` is mapped.
unfoldable pub touched : (inspect_erom : Bool) → Saved → Prog (ℤ × Bool)
touched inspect_erom v = do
  writel all_ones bar_low
  writel all_ones bar_high
  mask_low ← readl bar_low
  mask_high ← readl bar_high
  writel v.high bar_high
  writel v.low bar_low
  low ← readl bar_low
  if not (low == v.low) then ret (neg eio, false) else do
    high ← readl bar_high
    if not (high == v.high) || not (bar_size mask_low mask_high == 0x8000)
        then ret (neg eio, false)
        else do
          ok ← ioremap bar 0x1000
          if not ok then ret (neg enomem, false) else do r ← decoded inspect_erom; ret (r, true)

-- The last reads: what is put back must be there. `||` reads no further than the first mismatch.
unfoldable pub check_back : Saved → ℤ → Prog ℤ
check_back v r = do
  ep_now ← readw ep_command
  if not (ep_now == v.ep_cmd) then ret (neg eio) else do
    rc_now ← readw rc_command
    if not (rc_now == v.rc_cmd) then ret (neg eio) else do
      window ← readl backplane
      if not (window == v.window) then ret (neg eio) else do
        high ← readl bar_high
        if not (high == v.high) then ret (neg eio) else do
          low ← readl bar_low
          if not (low == v.low)
              then ret (neg eio)
              else do mem ← readl bridge_window; ret (if not (mem == v.mem) then neg eio else r)

unfoldable pub put_back : Saved → ℤ → Prog ℤ
put_back v r = do
  writew v.ep_cmd ep_command
  writew v.rc_cmd rc_command
  writel v.window backplane
  writel v.high bar_high
  writel v.low bar_low
  writel v.mem bridge_window
  check_back v r

unfoldable pub read_saved : Prog Saved
read_saved = do
  low ← readl bar_low
  high ← readl bar_high
  window ← readl backplane
  mem ← readl bridge_window
  rc_cmd ← readw rc_command
  ep_cmd ← readw ep_command
  ret (record {
    low = low;
    high = high;
    window = window;
    mem = mem;
    rc_cmd = rc_cmd;
    ep_cmd = ep_cmd;
  })

-- The state that the probe expects: no window assigned and nothing decoded.
abbrev pub pristine : Saved → Bool
pristine v =
    (v.low == 4)
    && (v.high == 0)
    && (v.window == 0x1800_3000)
    && (v.mem == 0)
    && (v.rc_cmd == 0)
    && (v.ep_cmd == 0)

-- With the saved values read and as expected.
unfoldable pub probed : (inspect_erom : Bool) → Saved → Prog ℤ
probed inspect_erom v = do
  (r, mapped) ← touched inspect_erom v
  r ← put_back v r
  if mapped then iounmap bar else ret tt
  ret r

-- The chip is the one that is known.
unfoldable pub known : (inspect_erom : Bool) → Saved → Prog ℤ
known inspect_erom v = do
  id ← readl ep
  if not (id == 0x43a3_14e4) then ret (neg ebusy) else do
    class ← readl (ep + 8)
    if not (class == 0x0280_0008) || not (pristine v)
        then ret (neg ebusy)
        else probed inspect_erom v

unfoldable pub snapshot_chip : (inspect_erom : Bool) → Prog ℤ
snapshot_chip inspect_erom = do
  owned ← request_mem_region bar 0x8000
  if not owned
      then ret (neg ebusy)
      else do v ← read_saved; r ← known inspect_erom v; release_mem_region bar 0x8000; ret r
