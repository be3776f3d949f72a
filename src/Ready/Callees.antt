-- ===== src/Ready/Callees.antt =====
-- The arguments that windows-native/wifi/pmu-probe/a1625_pcie_domains.c passes on to
-- `a1625_with_pcie_domains` and `a1625_with_pcie_phy`.
use a1625_linux_winboot.Prelude.{
  ◌≡◌, refl, sym, ◌∙◌, Bool, true, false, not, ◌&&◌, ◌||◌, if◌then◌else◌, ℤ, Option, none, some,
  arith,
}
use a1625_linux_winboot.Kernel.{Op, Prog, ret, call, ◌>>=◌}
use a1625_linux_winboot.Board.{is_j42d_t7000}
use a1625_linux_winboot.Phy.{with_pcie_phy}
use a1625_linux_winboot.Domains.{given, with_pcie_domains}
use a1625_linux_winboot.Params.{Params, conflicts, any, init}
use a1625_linux_winboot.Params.Stages.{Accepted, requested}
use a1625_linux_winboot.PciScan.Firmware.{Hold}
use a1625_linux_winboot.Ready.{snapshot_registers, domains_init}

-- The first call that a program makes.
abbrev pub first_call : {A : Type 0} → Prog A → Option Op
first_call (ret a) = none
first_call (call o k) = some o

-- The check of the board begins.
abbrev pub board_check : Option Op
board_check = some (Op.of_root_is_compatible "apple,j42d")

past_guard :
    {A : Type 0} (refused : Bool) (x y : Prog A) (first : Option Op)
    → refused ≡ false
    → first_call y ≡ first
    → first_call (if refused then x else y) ≡ first
past_guard true x y first h k = cc
past_guard false x y first h k = k

with_pcie_phy-begins :
    (prepare_port inspect_prefix test_refclk : Bool) (operate : Prog ℤ)
    → (inspect_prefix ≡ true → prepare_port ≡ true)
    → (test_refclk ≡ true → inspect_prefix ≡ true)
    → first_call (with_pcie_phy prepare_port inspect_prefix test_refclk operate) ≡ board_check
unfolding with_pcie_phy is_j42d_t7000
with_pcie_phy-begins prepare_port inspect_prefix test_refclk operate h k =
    past_guard ((inspect_prefix && not prepare_port) || (test_refclk && not inspect_prefix)) _ _
      board_check (ground arith) refl

with_pcie_domains-begins :
    (cycle force_active : Bool) (operate : Option (Prog ℤ))
    → (force_active ≡ true → cycle ≡ true)
    → (given operate ≡ true → cycle ≡ true)
    → first_call (with_pcie_domains cycle force_active operate) ≡ board_check
unfolding with_pcie_domains is_j42d_t7000
with_pcie_domains-begins cycle force_active operate h k =
    past_guard (not cycle && (force_active || given operate)) _ _ board_check (ground arith) refl

first_call-bind :
    {A B : Type 0} (m : Prog A) (f : A → Prog B) (o : Op)
    → first_call m ≡ some o
    → first_call (m >>= f) ≡ some o
first_call-bind (ret a) f o h = cc
first_call-bind (call o' k) f o h = h

given-if : (b : Bool) (m : Prog ℤ) → given (if b then some m else none) ≡ b
given-if true m = refl
given-if false m = refl

-- With accepted parameters neither callee refuses its arguments by -EINVAL: the first thing that
-- happens in `a1625_pcie_domains_init`, and so in `a1625_with_pcie_domains`, is the check of the
-- board, and so it is in the call of `a1625_with_pcie_phy` that the domains' callback makes.
pub callees_accept :
    (p : Params) (h : Hold)
    → Accepted p
    → (first_call (domains_init p h) ≡ some (Op.of_root_is_compatible "apple,j42d"))
      × (first_call (snapshot_registers p h) ≡ some (Op.of_root_is_compatible "apple,j42d"))
unfolding domains_init snapshot_registers init
callees_accept p h accepted =
    let fit = requested p accepted in
    let operate : Option (Prog ℤ) = if p.snapshot then some (snapshot_registers p h) else none in
    (
      past_guard (any (conflicts p)) _ _ board_check accepted (
          first_call-bind (with_pcie_domains p.cycle p.force_active operate) _
            (Op.of_root_is_compatible "apple,j42d")
            (with_pcie_domains-begins p.cycle p.force_active operate fit.0
              (λ asked. fit.1 (sym (given-if p.snapshot (snapshot_registers p h)) ∙ asked)))),
      with_pcie_phy-begins p.prepare_port p.inspect_prefix p.test_refclk _ fit.2 fit.3,
    )
