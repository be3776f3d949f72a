-- ===== src/Msi.antt =====
-- windows-native/wifi/pmu-probe/a1625_msi.h: `a1625_with_msi`, the interrupt domain over the port's
-- message signals for the time of one callback. The array `irqs` is the list of the interrupts that
-- are allocated, the last one first.
pub mod Irqs
pub mod Held
pub mod Slots
use a1625_linux_winboot.Prelude.{
  ℕ, ◌+◌, Bool, not, ◌&&◌, ◌||◌, ◌==◌, if◌then◌else◌, ℤ, pos, negsuc, neg, nonzero, eio, enomem,
  ebusy, enodev, Option, none, some, List, [], ◌∷◌, bit_or,
}
use a1625_linux_winboot.Kernel.{
  Prog, ret, ◌>>=◌, ◌>>◌, readl, writel, of_find_node_by_path, of_node_is_compatible, of_node_put,
  irq_find_matching_fwspec, irq_find_mapping, irq_domain_alloc_named_fwnode, irq_domain_free_fwnode,
  msi_create_parent_irq_domain, irq_domain_remove, irq_domain_alloc_irqs, irq_domain_free_irqs,
  irq_domain_get_irq_data, msi_used,
}
use a1625_linux_winboot.Board.{is_j42d_t7000}
use a1625_linux_winboot.Phy.{port}

-- The two registers of the port, with the values that route eight messages from 8 on.
abbrev pub msi_control : ℕ
msi_control = port + 0x124

abbrev pub msi_base : ℕ
msi_base = port + 0x128

abbrev pub control_on : ℕ
control_on = 0x31

abbrev pub base_on : ℕ
base_on = 0x0008_0008

pub record Message : Type 0 where
  pub address_hi : ℕ
  pub address_lo : ℕ
  pub word : ℕ

unfoldable pub compose : (hwirq : ℕ) → Message
compose hwirq = record { address_hi = 0; address_lo = 0xbfff_f000; word = hwirq }

-- `0x10000 | (232 + i)`
abbrev pub parent_hwirq : ℕ → ℕ
parent_hwirq i = bit_or 0x1_0000 (232 + i)

abbrev pub slots : List ℕ
slots = 0 ∷ 1 ∷ 2 ∷ 3 ∷ 4 ∷ 5 ∷ 6 ∷ 7 ∷ []

-- Before: a mapping of one of the parent's interrupts ends the loop.
unfoldable pub find_busy : (parent : ℕ) → List ℕ → Prog ℤ
find_busy parent [] = ret (pos 0)
find_busy parent (i ∷ is) = do
  virq ← irq_find_mapping parent (parent_hwirq i)
  if not (virq == 0) then ret (neg ebusy) else find_busy parent is

-- After: a mapping that is left is an error.
unfoldable pub find_left : (parent : ℕ) → List ℕ → ℤ → Prog ℤ
find_left parent [] r = ret r
find_left parent (i ∷ is) r = do
  virq ← irq_find_mapping parent (parent_hwirq i)
  find_left parent is (if not (virq == 0) then neg eio else r)

-- The message that slot `i` must have, for its interrupt and its parent's.
unfoldable pub routed_as : (i hwirq parent : ℕ) → Bool
unfolding compose
routed_as i hwirq parent =
    let message = compose hwirq in
    (hwirq == 8 + i)
    && (parent == parent_hwirq i)
    && (message.address_hi == 0)
    && (message.address_lo == 0xbfff_f000)
    && (message.word == 8 + i)

unfoldable pub check_slot : (domain i irq : ℕ) → Prog ℤ
check_slot domain i irq = do
  found ← irq_domain_get_irq_data domain irq
  ret (elim found [
    | none ↦ neg enodev
    | some (hwirq, none) ↦ neg enodev
    | some (hwirq, some parent) ↦ if routed_as i hwirq parent then pos 0 else neg eio
  ])

-- The loop that allocates an interrupt for each slot.
unfoldable pub take_irqs : (domain : ℕ) → List ℕ → (irqs : List ℕ) → Prog (ℤ × List ℕ)
take_irqs domain [] irqs = ret (pos 0, irqs)
take_irqs domain (i ∷ is) irqs = do
  got ← irq_domain_alloc_irqs domain
  elim got [
    | negsuc e ↦ ret (negsuc e, irqs)
    | pos irq ↦ do
      r ← check_slot domain i irq
      if nonzero r then ret (r, irq ∷ irqs) else take_irqs domain is (irq ∷ irqs)
  ]

-- The first interrupt that was allocated goes first.
unfoldable pub free_irqs : List ℕ → Prog (Unit {0})
free_irqs [] = ret tt
free_irqs (irq ∷ irqs) = do free_irqs irqs; irq_domain_free_irqs irq

-- With every slot checked and free again: the callback.
unfoldable pub with_slots : (operate : ℕ → Prog ℤ) (domain : ℕ) → Prog (ℤ × List ℕ)
with_slots operate domain = do
  (r, irqs) ← take_irqs domain slots []
  if nonzero r then ret (r, irqs) else do free_irqs irqs; r ← operate domain; ret (r, [])

-- From `touched = true` to `out:`.
unfoldable pub switched_on : (operate : ℕ → Prog ℤ) (domain : ℕ) → Prog (ℤ × List ℕ)
switched_on operate domain = do
  writel control_on msi_control
  writel base_on msi_base
  control ← readl msi_control
  if not (control == control_on) then ret (neg eio, []) else do
    base ← readl msi_base
    if not (base == base_on) then ret (neg eio, []) else with_slots operate domain

-- `if (msi.domain)`: nothing may be left of the domain.
unfoldable pub taken_down : (domain parent : ℕ) → ℤ → Prog ℤ
taken_down domain parent r = do
  used ← msi_used domain
  r ← find_left parent slots (if not (used == 0) then neg eio else r)
  irq_domain_remove domain
  ret r

-- `if (touched)`: the registers are put back.
unfoldable pub switched_back : (control base : ℕ) → ℤ → Prog ℤ
switched_back control base r = do
  writel control msi_control
  writel base msi_base
  now ← readl msi_control
  if not (now == control)
      then ret (neg eio)
      else do now ← readl msi_base; ret (if not (now == base) then neg eio else r)

unfoldable pub with_domain : (operate : ℕ → Prog ℤ) (control base parent domain : ℕ) → Prog ℤ
with_domain operate control base parent domain = do
  (r, irqs) ← switched_on operate domain
  free_irqs irqs
  r ← taken_down domain parent r
  switched_back control base r

unfoldable pub with_fwnode : (operate : ℕ → Prog ℤ) (control base parent fwnode : ℕ) → Prog ℤ
with_fwnode operate control base parent fwnode = do
  made ← msi_create_parent_irq_domain parent fwnode
  r ← elim made [
    | none ↦ ret (neg enomem)
    | some domain ↦ with_domain operate control base parent domain
  ]
  irq_domain_free_fwnode fwnode
  ret r

unfoldable pub with_parent : (operate : ℕ → Prog ℤ) (control base parent : ℕ) → Prog ℤ
with_parent operate control base parent = do
  r ← find_busy parent slots
  if nonzero r then ret r else do
    made ← irq_domain_alloc_named_fwnode
    elim made [
      | none ↦ ret (neg enomem)
      | some fwnode ↦ with_fwnode operate control base parent fwnode
    ]

-- With the interrupt controller's node.
unfoldable pub with_aic : (operate : ℕ → Prog ℤ) (control base aic : ℕ) → Prog ℤ
with_aic operate control base aic = do
  fits ← of_node_is_compatible aic "apple,aic"
  if not fits then ret (neg enodev) else do
    found ← irq_find_matching_fwspec aic
    elim found [ none ↦ ret (neg enodev) | some parent ↦ with_parent operate control base parent ]

-- `operate` is the callback at its context; `λ domain. ret (pos 0)` is none.
unfoldable pub with_msi : (operate : ℕ → Prog ℤ) → Prog ℤ
with_msi operate = do
  control ← readl msi_control
  base ← readl msi_base
  board ← is_j42d_t7000
  if not board || not (control == 0) || not (base == 0) then ret (neg ebusy) else do
    found ← of_find_node_by_path "/soc/interrupt-controller@20e100000"
    elim found [
      | none ↦ ret (neg enodev)
      | some aic ↦ do r ← with_aic operate control base aic; of_node_put aic; ret r
    ]

unfoldable pub msi_probe : Prog ℤ
msi_probe = with_msi (λ domain. ret (pos 0))
