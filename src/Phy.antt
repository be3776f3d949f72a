-- ===== src/Phy.antt =====
-- windows-native/wifi/pmu-probe/a1625_pcie_phy.h: the PHY and port set-up that is undone before
-- the function returns. The array `steps` with the count `applied` is the list of the steps that
-- were applied, the last one first.
pub mod Held
pub mod Undo
pub mod Restore
use a1625_linux_winboot.Prelude.{
  ℕ, ◌+◌, Bool, true, false, not, ◌&&◌, ◌||◌, ◌==◌, if◌then◌else◌, ℤ, pos, neg, nonzero, eio,
  enomem, ebusy, enodev, einval, Option, none, some, List, [], ◌∷◌, head_or, bit_and,
}
use a1625_linux_winboot.Prelude.Bits.{all_ones, replace}
use a1625_linux_winboot.Kernel.{
  Prog, ret, ◌>>=◌, ◌>>◌, request_mem_region, release_mem_region, ioremap, iounmap, readl, writel,
  udelay, of_find_node_by_path, of_node_put, of_find_i2c_device_by_node, device_lock, device_unlock,
  put_device, dev_driver, i2c_addr, dev_get_regmap, regmap_read,
}
use a1625_linux_winboot.Board.{is_j42d_t7000}

pub record CoreStep : Type 0 where
  pub offset : ℕ
  pub mask : ℕ
  pub bits : ℕ
  pub delay_us : ℕ
  pub saved : ℕ

abbrev step : (offset mask bits delay_us : ℕ) → CoreStep
step o m b d = record { offset = o; mask = m; bits = b; delay_us = d; saved = 0 }

abbrev pub steps : List CoreStep
steps =
    step 0x40 1 1 0
    ∷ step 0x100 1 1 0
    ∷ step 0x118 1 1 0
    ∷ step 0x118 1 0 0
    ∷ step 0x100 1 0 0
    ∷ step 0x40 1 0 0
    ∷ step 0x198 1 0 0
    ∷ step 0x188 1 1 100
    ∷ step 0x18c 1 0 0
    ∷ step 0x180 1 1 100
    ∷ step 0x198 1 1 0
    ∷ step 0x860 all_ones 3 0
    ∷ step 0x188 0x100 0 0
    ∷ []

abbrev pub core_offsets : List ℕ
core_offsets =
    0x90 ∷ 0x100 ∷ 0x108 ∷ 0x10c ∷ 0x118 ∷ 0x130 ∷ 0x134 ∷ 0x180 ∷ 0x188 ∷ 0x18c ∷ 0x198 ∷ []

abbrev pub port_offsets : List ℕ
port_offsets = 0x80 ∷ 0x88 ∷ 0x124 ∷ 0x128 ∷ []

-- The physical addresses behind the pointers `core` and `port`.
abbrev pub core : ℕ
core = 0x6_0000_0000

abbrev pub port : ℕ
port = 0x6_0200_4000

-- With the client locked: WL_REG_ON must read as 0.
read_wl_reg_on : ℕ → Prog ℤ
read_wl_reg_on client = do
  addr ← i2c_addr client
  driver ← dev_driver client
  if not ((addr == 0x74) && driver) then ret (neg enodev) else do
    found ← dev_get_regmap client
    elim found [
      | none ↦ ret (neg enodev)
      | some map ↦ do
        (r, value) ← regmap_read map 0x406
        ret (if not (nonzero r) && not (value == 0) then neg ebusy else r)
    ]

unfoldable pub radio_is_off : Prog ℤ
unfolding read_wl_reg_on
radio_is_off = do
  found ← of_find_node_by_path "/soc/i2c@20a110000/pmic@74"
  elim found [
    | none ↦ ret (neg enodev)
    | some node ↦ do
      owner ← of_find_i2c_device_by_node node
      of_node_put node
      elim owner [
        | none ↦ ret (neg enodev)
        | some client ↦ do
          device_lock client
          r ← read_wl_reg_on client
          device_unlock client
          put_device client
          ret r
      ]
  ]

delay : ℕ → Prog (Unit {0})
delay us = if us == 0 then ret tt else udelay us

-- One round of the loop over `steps`: the code and, if the step was written, its record.
pub apply_step : CoreStep → Prog (ℤ × Option CoreStep)
unfolding delay
apply_step s = do
  value ← readl (core + s.offset)
  if value == all_ones then ret (neg enodev, none) else do
    let kept : CoreStep = record s { saved = bit_and value s.mask }
    writel (replace value s.mask s.bits) (core + s.offset)
    found ← readl (core + s.offset)
    if (found == all_ones) || not (bit_and found s.mask == s.bits)
        then ret (neg eio, some kept)
        else do delay s.delay_us; ret (pos 0, some kept)

-- The step of round `i`: when the prefix is inspected, `steps[11] = steps[12]`.
abbrev pub taken : (inspect_prefix : Bool) (i : ℕ) → CoreStep → List CoreStep → CoreStep
taken inspect_prefix i s rest = if inspect_prefix && (i == 11) then head_or s rest else s

-- The end of a round: an error leaves the loop.
pub after_step :
    ℤ
    → Option CoreStep
    → List CoreStep
    → (List CoreStep → Prog (ℤ × List CoreStep))
    → Prog (ℤ × List CoreStep)
after_step r none applied again = ret (r, applied)
after_step r (some k) applied again =
    if nonzero r then ret (r, k ∷ applied) else again (k ∷ applied)

-- The loop from round `i` on. With `inspect_prefix` it stops at round 11, or at round 12 when the
-- clock is tested too.
pub apply_steps :
    (inspect_prefix test_refclk : Bool) (i : ℕ)
    → List CoreStep
    → List CoreStep
    → Prog (ℤ × List CoreStep)
unfolding after_step
apply_steps inspect_prefix test_refclk i [] applied = ret (pos 0, applied)
apply_steps inspect_prefix test_refclk i (s ∷ rest) applied =
    if inspect_prefix && (i == 11) && not test_refclk
    then ret (pos 0, applied)
    else if inspect_prefix && (i == 12)
    then ret (pos 0, applied)
    else do
      (r, kept) ← apply_step (taken inspect_prefix i s rest)
      after_step r kept applied (apply_steps inspect_prefix test_refclk (i + 1) rest)

-- `while (applied)`: the steps are undone in reverse order.
pub rollback : List CoreStep → ℤ → Prog ℤ
rollback [] r = ret r
rollback (s ∷ rest) r = do
  value ← readl (core + s.offset)
  if value == all_ones then ret (neg eio) else do
    writel (replace value s.mask s.saved) (core + s.offset)
    found ← readl (core + s.offset)
    rollback rest
        (if (found == all_ones) || not (bit_and found s.mask == s.saved) then neg eio else r)

-- The read-only snapshots: an all-ones value ends them.
unfoldable pub read_offsets : ℕ → List ℕ → Prog ℤ
read_offsets base [] = ret (pos 0)
read_offsets base (o ∷ rest) = do
  value ← readl (base + o)
  if value == all_ones then ret (neg enodev) else read_offsets base rest

-- From the set-up of the port to the callback: the code and the applied steps.
pub prepared : (prepare_port inspect_prefix test_refclk : Bool) → Prog (ℤ × List CoreStep)
prepared prepare_port inspect_prefix test_refclk = if not prepare_port then ret (pos 0, []) else do
  r ← radio_is_off
  if nonzero r then ret (r, []) else apply_steps inspect_prefix test_refclk 0 steps []

pub observe : Prog ℤ → Prog ℤ
observe operate = do
  r ← read_offsets core core_offsets
  if nonzero r
      then ret r
      else do r ← read_offsets port port_offsets; if nonzero r then ret r else operate

-- With both blocks mapped.
pub operated : (prepare_port inspect_prefix test_refclk : Bool) → Prog ℤ → Prog ℤ
operated prepare_port inspect_prefix test_refclk operate = do
  (r, applied) ← prepared prepare_port inspect_prefix test_refclk
  r ← if nonzero r then ret r else observe operate
  rollback applied r

-- With both blocks claimed.
pub mapped : Prog ℤ → Prog ℤ
mapped inner = do
  core_ok ← ioremap core 0x2000
  port_ok ← ioremap port 0x1000
  r ← if core_ok && port_ok then inner else ret (neg enomem)
  if port_ok then iounmap port else ret tt
  if core_ok then iounmap core else ret tt
  ret r

pub claimed : Prog ℤ → Prog ℤ
claimed inner = do
  core_owned ← request_mem_region core 0x2000
  if not core_owned then ret (neg ebusy) else do
    port_owned ← request_mem_region port 0x1000
    r ← if port_owned then inner else ret (neg ebusy)
    if port_owned then release_mem_region port 0x1000 else ret tt
    release_mem_region core 0x2000
    ret r

-- `operate` is the callback at its `port` and `context`, or `ret (pos 0)` for none.
unfoldable pub with_pcie_phy : (prepare_port inspect_prefix test_refclk : Bool) → Prog ℤ → Prog ℤ
with_pcie_phy prepare_port inspect_prefix test_refclk operate =
    if (inspect_prefix && not prepare_port) || (test_refclk && not inspect_prefix)
    then ret (neg einval)
    else do
      board ← is_j42d_t7000
      if not board
          then ret (neg enodev)
          else claimed (mapped (operated prepare_port inspect_prefix test_refclk operate))
