-- ===== src/Phy/Restore.antt =====
-- The whole of `a1625_with_pcie_phy` over registers that are plain memory.
use a1625_linux_winboot.Prelude.{
  ℕ, ◌≡◌, ◌≢◌, refl, ◌∙◌, Bool, true, false, not, ◌&&◌, ◌||◌, ℤ, neg, eio, nonzero, List, [], ◌∷◌,
  arith,
}
use a1625_linux_winboot.Kernel.{
  Prog, Ensures, bind, mono, branch, Keeps, after, ret-Keeps, branch-Keeps, bind-Keeps,
}
use a1625_linux_winboot.Kernel.Registers.{Contents, Registers}
use a1625_linux_winboot.Board.{is_j42d_t7000}
use a1625_linux_winboot.Phy.{
  steps, core, port, core_offsets, port_offsets, radio_is_off, read_offsets, rollback, prepared,
  observe, operated, mapped, claimed, with_pcie_phy,
}
use a1625_linux_winboot.Phy.Undo.{
  undone, Undone, rollback-undone, apply_steps-Undone, steps-WithinMask,
}

-- The contents are those from the start, unless the code is -EIO.
abbrev pub Restores : Contents → ℤ → Contents → Type 0
Restores start r regs = r ≢ neg eio → regs ≡ start

read_offsets-Ensures :
    (base : ℕ) (offsets : List ℕ) (regs : Contents)
    → Ensures Registers (read_offsets base offsets) (λ _ t. t ≡ regs) regs
unfolding read_offsets
read_offsets-Ensures base [] regs = refl
read_offsets-Ensures base (o ∷ rest) regs =
    let later = read_offsets-Ensures base rest regs in ground arith

read_offsets-Keeps : (base : ℕ) (offsets : List ℕ) → Keeps Registers (read_offsets base offsets)
read_offsets-Keeps base offsets = record { keeps = read_offsets-Ensures base offsets }

radio_is_off-Keeps : Keeps Registers radio_is_off
unfolding radio_is_off
radio_is_off-Keeps = record { keeps = λ regs. ground arith }

is_j42d_t7000-Keeps : Keeps Registers is_j42d_t7000
unfolding is_j42d_t7000
is_j42d_t7000-Keeps = record { keeps = λ regs. ground arith }

observe-Keeps : (operate : Prog ℤ) → Keeps Registers operate → Keeps Registers (observe operate)
unfolding observe
observe-Keeps operate h = bind-Keeps (read_offsets-Keeps core core_offsets) λ r.
    branch-Keeps (nonzero r) (ret-Keeps r) (
      bind-Keeps (read_offsets-Keeps port port_offsets)
        λ q. branch-Keeps (nonzero q) (ret-Keeps q) h)

module _ (prepare_port inspect_prefix test_refclk : Bool) (regs : Contents) where
  prepared-Undone :
      Ensures Registers (prepared prepare_port inspect_prefix test_refclk) (Undone regs) regs
  unfolding prepared undone
  prepared-Undone =
      branch Registers (Undone regs) (not prepare_port) _ _ regs (λ _. refl)
        λ _. after (Undone regs) _ regs radio_is_off-Keeps λ r.
          branch Registers (Undone regs) (nonzero r) _ _ regs (λ _. refl)
            λ _.
              apply_steps-Undone inspect_prefix test_refclk regs 0 steps [] regs steps-WithinMask
                refl

  operated-Restores :
      (operate : Prog ℤ)
      → Keeps Registers operate
      → Ensures Registers
          (operated prepare_port inspect_prefix test_refclk operate)
          (Restores regs)
          regs
  unfolding operated
  operated-Restores operate h =
      bind Registers (Undone regs) (Restores regs)
        (prepared prepare_port inspect_prefix test_refclk) _ regs prepared-Undone
        λ (r, applied) t e.
          after (Restores regs) _ t
            (branch-Keeps (nonzero r) (ret-Keeps r) (observe-Keeps operate h))
            λ q.
              mono Registers _ (Restores regs) (rollback applied q) t (rollback-undone applied q t)
                (λ _ _ undo ok. undo ok ∙ e)

module _ (inner : Prog ℤ) (regs : Contents) (h : Ensures Registers inner (Restores regs) regs) where
  mapped-Restores : Ensures Registers (mapped inner) (Restores regs) regs
  unfolding mapped
  mapped-Restores = (
    tt,
    λ core_ok _. (
      tt,
      λ port_ok _.
          bind Registers (Restores regs) (Restores regs) _ _ regs
            (branch Registers (Restores regs) (core_ok && port_ok) inner _ regs (λ _. h)
              (λ _ _. refl))
            λ r t restores. ground arith,
    ),
  )

  claimed-Restores : Ensures Registers (claimed inner) (Restores regs) regs
  unfolding claimed
  claimed-Restores = (
    tt,
    elim [
      | false ↦ λ _ _. refl
      | true ↦ λ _. (
        tt,
        elim [
          | false ↦ λ _. (tt, λ _ _ _. refl)
          | true ↦ λ _.
              bind Registers (Restores regs) (Restores regs) inner _ regs h
                (λ r t restores. (tt, λ _ _. (tt, λ _ _. restores)))
        ],
      )
    ],
  )

-- Over registers that are plain memory, with a callback that leaves them as it finds them, every
-- register holds after `a1625_with_pcie_phy` what it held before, on every path and whatever the
-- kernel answers, unless the function returns -EIO.
pub with_pcie_phy-Restores :
    (prepare_port inspect_prefix test_refclk : Bool) (operate : Prog ℤ) (regs : Contents)
    → Keeps Registers operate
    → Ensures Registers
        (with_pcie_phy prepare_port inspect_prefix test_refclk operate)
        (Restores regs)
        regs
unfolding with_pcie_phy
with_pcie_phy-Restores prepare_port inspect_prefix test_refclk operate regs h =
    branch Registers (Restores regs)
      ((inspect_prefix && not prepare_port) || (test_refclk && not inspect_prefix)) _ _ regs
      (λ _ _. refl)
      λ _. after (Restores regs) _ regs is_j42d_t7000-Keeps λ board.
        branch Registers (Restores regs) (not board) _ _ regs (λ _ _. refl)
          λ _. claimed-Restores _ regs (
            mapped-Restores _ regs
              (operated-Restores prepare_port inspect_prefix test_refclk regs operate h))
