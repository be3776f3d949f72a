-- ===== src/Endpoint.antt =====
-- windows-native/wifi/pmu-probe/a1625_pcie_domains.c: `snapshot_endpoint`, which routes bus 1 of the
-- root port to the endpoint and takes the route back.
pub mod Held
use a1625_linux_winboot.Prelude.{
  ℕ, ◌+◌, ◌/◌, ◌^◌, Bool, not, ◌&&◌, ◌||◌, ◌==◌, if◌then◌else◌, ℤ, pos, neg, nonzero, eio, ebusy,
  enodev, enomem, [], ◌∷◌, bit_and, bit_or,
}
use a1625_linux_winboot.Prelude.Bits.{all_ones}
use a1625_linux_winboot.Kernel.{
  Prog, ret, ◌>>=◌, ◌>>◌, request_mem_region, release_mem_region, ioremap, iounmap, readw, readl,
  writel, msleep,
}
use a1625_linux_winboot.Phy.{read_offsets}

-- The configuration spaces of the root port and of the endpoint.
abbrev pub rc : ℕ
rc = 0x6_1000_8000

abbrev pub ep : ℕ
ep = 0x6_1010_0000

abbrev pub bus_numbers : ℕ
bus_numbers = rc + 0x18

-- The stages on the endpoint once it is known: `snapshot_chip` and `a1625_pci_scan`, each with the
-- parameter that asks for it.
pub record Stages : Type 0 where
  pub identify_chip : Bool
  pub snapshot_chip : Prog ℤ
  pub scan_pci : Bool
  pub pci_scan : Prog ℤ

unfoldable pub staged : Stages → Prog ℤ
staged st = do
  r ← if st.identify_chip then st.snapshot_chip else ret (pos 0)
  if not (nonzero r) && st.scan_pci then st.pci_scan else ret r

-- The five registers of the endpoint, and two of the root port for the log.
unfoldable pub read_config : Prog ℤ
read_config = do
  r ← read_offsets ep (0x10 ∷ 0x14 ∷ 0x18 ∷ 0x1c ∷ 0x80 ∷ [])
  if nonzero r then ret r else do command ← readw (rc + 4); window ← readl (rc + 0x20); ret (pos 0)

-- With the bus routed: the endpoint is the radio, with bus mastering off.
unfoldable pub identified : Stages → Prog ℤ
identified st = do
  msleep 100
  id ← readl ep
  if not (bit_and id 0xffff == 0x14e4) then ret (neg enodev) else do
    class ← readl (ep + 8)
    if not (class / 2 ^ 16 == 0x0280) then ret (neg enodev) else do
      command ← readl (ep + 4)
      if (command == all_ones) || not (bit_and command 4 == 0) then ret (neg enodev) else do
        subsystem ← readl (ep + 0x2c)
        if subsystem == all_ones
            then ret (neg enodev)
            else do r ← read_config; if nonzero r then ret r else staged st

-- `(buses & 0xff000000) | 0x010100`
abbrev pub routed : ℕ → ℕ
routed buses = bit_or (bit_and buses 0xff00_0000) 0x01_0100

-- `changed`: the register is written back unless it reads as all ones.
unfoldable pub route_back : (buses : ℕ) → ℤ → Prog ℤ
route_back buses r = do
  now ← readl bus_numbers
  if now == all_ones then ret (neg eio) else do
    writel buses bus_numbers
    found ← readl bus_numbers
    ret (if found == buses then r else neg eio)

-- With the bus register read.
unfoldable pub with_route : Prog ℤ → (buses : ℕ) → Prog ℤ
with_route inner buses =
    if (buses == all_ones)
      || (not (bit_and buses 0xff_ffff == 0) && not (bit_and buses 0xff_ffff == 0x01_0100))
    then ret (neg enodev)
    else if not (bit_and buses 0xff_ffff == 0)
    then inner
    else do
      writel (routed buses) bus_numbers
      found ← readl bus_numbers
      r ← if found == routed buses then inner else ret (neg eio)
      route_back buses r

-- With both spaces mapped.
unfoldable pub routed_inner : Prog ℤ → Prog ℤ
routed_inner inner = do
  id ← readl rc
  if not (id == 0x1002_106b) then ret (neg enodev) else do
    class ← readl (rc + 8)
    if not (class == 0x0604_0001)
        then ret (neg enodev)
        else do buses ← readl bus_numbers; with_route inner buses

unfoldable pub both_mapped : Prog ℤ → Prog ℤ
both_mapped inner = do
  rc_ok ← ioremap rc 0x1000
  ep_ok ← ioremap ep 0x1000
  r ← if rc_ok && ep_ok then inner else ret (neg enomem)
  if ep_ok then iounmap ep else ret tt
  if rc_ok then iounmap rc else ret tt
  ret r

unfoldable pub both_claimed : Prog ℤ → Prog ℤ
both_claimed inner = do
  rc_owned ← request_mem_region rc 0x1000
  if not rc_owned then ret (neg ebusy) else do
    ep_owned ← request_mem_region ep 0x1000
    r ← if ep_owned then inner else ret (neg ebusy)
    if ep_owned then release_mem_region ep 0x1000 else ret tt
    release_mem_region rc 0x1000
    ret r

unfoldable pub snapshot_endpoint : Stages → Prog ℤ
snapshot_endpoint st = both_claimed (both_mapped (routed_inner (identified st)))
