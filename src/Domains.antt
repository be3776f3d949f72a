-- ===== src/Domains.antt =====
-- windows-native/wifi/pmu-probe/a1625_pcie_domains.h: the power domains of the port for the time of
-- one callback. A loop over the array `domains` is recursion on the list of its elements, and
-- yields the array as the loop leaves it.
pub mod Acquire
pub mod Failures
pub mod Held
pub mod Release
use Prim.Native.String.{String}
use a1625_linux_winboot.Prelude.{
  ℕ, ◌+◌, Bool, true, false, not, ◌&&◌, ◌||◌, ◌==◌, if◌then◌else◌, ℤ, pos, negsuc, neg, nonzero,
  negative, eio, ebusy, enodev, einval, Option, none, some, List, [], ◌∷◌, bit_and,
}
use a1625_linux_winboot.Kernel.{
  Prog, ret, ◌>>=◌, ◌>>◌, pointer, failure, of_find_node_by_path, of_node_is_compatible,
  of_node_put, syscon_node_to_regmap, regmap_read, regmap_update_bits, regmap_read_poll_timeout,
  platform_device_register_simple, platform_device_unregister, of_genpd_add_device,
  pm_genpd_remove_device, pm_runtime_enable, pm_runtime_disable, pm_runtime_resume_and_get,
  pm_runtime_put_sync_suspend,
}
use a1625_linux_winboot.Board.{is_j42d_t7000}

pub record Domain : Type 0 where
  pub path : String
  pub offset : ℕ
  pub consumer : Option ℕ
  pub attached : Bool
  pub resumed : Bool
  pub forced : Bool
  pub saved_auto : ℕ

abbrev domain : String → ℕ → Domain
domain p o = record {
  path = p;
  offset = o;
  consumer = none;
  attached = false;
  resumed = false;
  forced = false;
  saved_auto = 0;
}

abbrev pub domains : List Domain
domains =
    domain "/soc/power-management@20e000000/power-controller@20308" 0x20308
    ∷ domain "/soc/power-management@20e000000/power-controller@20310" 0x20310
    ∷ domain "/soc/power-management@20e000000/power-controller@20220" 0x20220
    ∷ []

-- AUTO, RESET and DISABLE with the target and the actual state; `BIT(28)`; `BIT(28) | BIT(9) |
-- BIT(8)`.
abbrev pub busy_bits : ℕ
busy_bits = 0x9000_04ff

abbrev pub auto_bit : ℕ
auto_bit = 0x1000_0000

abbrev pub active_bits : ℕ
active_bits = 0x1000_0300

-- `domains[i].consumer->dev`, which the source reads of a registered consumer only.
abbrev pub dev_of : Option ℕ → ℕ
dev_of none = 0
dev_of (some c) = c

unfoldable pub baseline : (map : ℕ) (cycle : Bool) → List Domain → Prog ℤ
baseline map cycle [] = ret (pos 0)
baseline map cycle (d ∷ ds) = do
  (r, reg) ← regmap_read map d.offset
  if nonzero r
      then ret r
      else if cycle && not (bit_and reg busy_bits == 0)
      then ret (neg ebusy)
      else baseline map cycle ds

-- A loop over the array that an error leaves.
unfoldable pub for_each :
    (ℕ → Domain → Prog (ℤ × Domain)) → ℕ → List Domain → Prog (ℤ × List Domain)
for_each body i [] = ret (pos 0, [])
for_each body i (d ∷ ds) = do
  (r, d) ← body i d
  if nonzero r then ret (r, d ∷ ds) else do (r, ds) ← for_each body (i + 1) ds; ret (r, d ∷ ds)

-- With the consumer registered.
unfoldable pub attach : (node c : ℕ) → Domain → Prog (ℤ × Domain)
attach node c d = do
  r ← of_genpd_add_device node c
  of_node_put node
  if nonzero r
      then ret (r, record d { consumer = some c })
      else do pm_runtime_enable c; ret (pos 0, record d { consumer = some c; attached = true })

unfoldable pub register : ℕ → Domain → Prog (ℤ × Domain)
register i d = do
  found ← of_find_node_by_path d.path
  elim found [
    | none ↦ ret (neg enodev, d)
    | some node ↦ do
      fits ← of_node_is_compatible node "apple,t7000-pmgr-pwrstate"
      if not fits then (do of_node_put node; ret (neg enodev, d)) else do
        made ← platform_device_register_simple i
        elim made [
          | failure n ↦ do of_node_put node; ret (negsuc n, d)
          | pointer c ↦ attach node c d
        ]
  ]

unfoldable pub power_up : (map : ℕ) → ℕ → Domain → Prog (ℤ × Domain)
power_up map i d = do
  r ← pm_runtime_resume_and_get (dev_of d.consumer)
  if negative r then ret (r, d) else do
    (r, reg) ← regmap_read map d.offset
    ret (
      if nonzero r
          then r
          else if not (bit_and reg 0xf == 0xf) || not (bit_and reg 0x8000_0400 == 0)
          then neg eio
          else pos 0,
      record d { resumed = true },
    )

unfoldable pub force : (map : ℕ) → ℕ → Domain → Prog (ℤ × Domain)
force map i d = do
  (r, reg) ← regmap_read map d.offset
  if nonzero r then ret (r, d) else do
    let kept : Domain = record d { saved_auto = bit_and reg auto_bit; forced = true }
    r ← regmap_update_bits map d.offset active_bits 0
    if nonzero r
        then ret (r, kept)
        else do (r, reg) ← regmap_read_poll_timeout map d.offset; ret (r, kept)

-- From the first consumer to `release:`.
unfoldable pub powered_up :
    (map : ℕ) (force_active : Bool) → Prog ℤ → List Domain → Prog (ℤ × List Domain)
powered_up map force_active operate ds = do
  (r, ds) ← for_each register 0 ds
  if nonzero r then ret (r, ds) else do
    (r, ds) ← for_each (power_up map) 0 ds
    if nonzero r then ret (r, ds) else do
      (r, ds) ← if force_active then for_each (force map) 0 ds else ret (pos 0, ds)
      if nonzero r then ret (r, ds) else do r ← operate; ret (r, ds)

-- `if (cleanup) ret = cleanup;`
abbrev pub first_bad : (cleanup r : ℤ) → ℤ
first_bad cleanup r = if nonzero cleanup then cleanup else r

-- A registered consumer is detached and unregistered; one that cannot be detached is retained.
unfoldable pub detach : (attached : Bool) (c : ℕ) → ℤ → Prog ℤ
detach attached c r = if not attached then (do platform_device_unregister c; ret r) else do
  pm_runtime_disable c
  cleanup ← pm_genpd_remove_device c
  if nonzero cleanup then ret cleanup else do platform_device_unregister c; ret r

unfoldable pub release_one : (map : ℕ) → Domain → ℤ → Prog ℤ
release_one map d r = elim d.consumer [
  | none ↦ ret r
  | some c ↦ do
    cleanup ←
        if d.forced then regmap_update_bits map d.offset active_bits d.saved_auto else ret (pos 0)
    suspended ← if d.resumed then pm_runtime_put_sync_suspend c else ret (pos 0)
    detach d.attached c (if negative suspended then suspended else first_bad cleanup r)
]

-- From the last domain to the first.
unfoldable pub release_all : (map : ℕ) → List Domain → ℤ → Prog ℤ
release_all map [] r = ret r
release_all map (d ∷ ds) r = do r ← release_all map ds r; release_one map d r

-- The registers must have the target, the actual state and AUTO off again.
unfoldable pub verify : (map : ℕ) → List Domain → ℤ → Prog ℤ
verify map [] r = ret r
verify map (d ∷ ds) r = do
  (cleanup, reg) ← regmap_read map d.offset
  verify map ds
      (if nonzero cleanup then cleanup else if not (bit_and reg busy_bits == 0) then neg eio else r)

-- With the regmap of the power manager.
unfoldable pub cycled : (map : ℕ) (cycle force_active : Bool) → Prog ℤ → Prog ℤ
cycled map cycle force_active operate = do
  r ← baseline map cycle domains
  if nonzero r || not cycle then ret r else do
    (r, ds) ← powered_up map force_active operate domains
    r ← release_all map ds r
    verify map ds r

-- The callback at its context, or `none` for NULL.
abbrev pub given : Option (Prog ℤ) → Bool
given none = false
given (some operate) = true

abbrev pub called : Option (Prog ℤ) → Prog ℤ
called none = ret (pos 0)
called (some operate) = operate

unfoldable pub with_pcie_domains : (cycle force_active : Bool) → Option (Prog ℤ) → Prog ℤ
with_pcie_domains cycle force_active operate =
    if not cycle && (force_active || given operate) then ret (neg einval) else do
      board ← is_j42d_t7000
      if not board then ret (neg enodev) else do
        found ← of_find_node_by_path "/soc/power-management@20e000000"
        elim found [
          | none ↦ ret (neg enodev)
          | some node ↦ do
            fits ← of_node_is_compatible node "apple,t7000-pmgr"
            if not fits then (do of_node_put node; ret (neg enodev)) else do
              map ← syscon_node_to_regmap node
              of_node_put node
              elim map [
                | failure n ↦ ret (negsuc n)
                | pointer m ↦ cycled m cycle force_active (called operate)
              ]
        ]
