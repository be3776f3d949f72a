-- ===== src/Phy/Undo.antt =====
-- The rollback of the PHY steps over registers that are plain memory.
use mathlib.Core.Path.{fun_ext}
use a1625_linux_winboot.Prelude.{
  ℕ, ◌+◌, ◌<◌, ◌^◌, ◌≡◌, ◌≢◌, refl, ap, Bool, ◌==◌, ==_refl, ℤ, neg, eio, Option, none, some, List,
  [], ◌∷◌, All, arith, bit_and, inl, inr, Bool-cases, nonzero, ◌&&◌, not,
}
use a1625_linux_winboot.Prelude.Bits.{all_ones, not32, replace, replace-replace}
use a1625_linux_winboot.Kernel.{Prog, Ensures, bind, branch}
use a1625_linux_winboot.Kernel.Registers.{Contents, store, Registers}
use a1625_linux_winboot.Phy.{
  CoreStep, steps, core, apply_step, taken, after_step, apply_steps, rollback,
}

-- The contents once the applied steps are undone.
unfoldable pub undone : List CoreStep → Contents → Contents
undone [] regs = regs
undone (s ∷ rest) regs =
    undone rest (store regs (core + s.offset) (replace (regs (core + s.offset)) s.mask s.saved))

-- The bits that a step writes lie under its mask.
abbrev pub WithinMask : CoreStep → Type 0
WithinMask s = (s.mask < 2 ^ 32) × (bit_and s.bits (not32 s.mask) ≡ 0)

store_back : (regs : Contents) (a v w : ℕ) → w ≡ regs a → store (store regs a v) a w ≡ regs
store_back regs a v w e = fun_ext λ b. ground arith

-- A word that reads as it was written undoes to the word before.
undone-apply :
    (s : CoreStep) (rest : List CoreStep) (regs : Contents) (v : ℕ)
    → WithinMask s
    → v ≡ regs (core + s.offset)
    → v < 2 ^ 32
    → undone
        (record s { saved = bit_and v s.mask } ∷ rest)
        (store regs (core + s.offset) (replace v s.mask s.bits))
      ≡ undone rest regs
unfolding undone
undone-apply s rest regs v within e fits =
    ap (undone rest) (store_back regs (core + s.offset) (replace v s.mask s.bits) _ back)
  where
    back :
        replace
          (store regs (core + s.offset) (replace v s.mask s.bits) (core + s.offset))
          s.mask
          (bit_and v s.mask)
        ≡ regs (core + s.offset)
    back = rw (==_refl (core + s.offset), replace-replace v s.mask s.bits fits within.0 within.1) e

-- Only an error leaves the registers other than undone.
pub rollback-undone :
    (stack : List CoreStep) (r : ℤ) (regs : Contents)
    → Ensures Registers (rollback stack r) (λ q t. q ≢ neg eio → t ≡ undone stack regs) regs
unfolding rollback undone
rollback-undone [] r regs = λ h. refl
rollback-undone (s ∷ rest) r regs = (
  tt,
  λ v (e, fits). elim (Bool-cases (v == all_ones)) [
    | inl absent ↦ rw absent (λ h. absurd (h refl))
    | inr present ↦ rw (present, e) (tt, λ _ _. (tt, λ found _. rollback-undone rest _ _))
  ],
)

-- What the applied steps leave: undone, they give the contents from the start.
abbrev pub Undoes : Contents → Option CoreStep → List CoreStep → Contents → Type 0
Undoes start none applied regs = undone applied regs ≡ start
Undoes start (some k) applied regs = undone (k ∷ applied) regs ≡ start

pub apply_step-Undoes :
    (s : CoreStep) (applied : List CoreStep) (start regs : Contents)
    → WithinMask s
    → undone applied regs ≡ start
    → Ensures Registers (apply_step s) (λ r t. Undoes start r.1 applied t) regs
unfolding apply_step
apply_step-Undoes s applied start regs within e = (
  tt,
  λ v (same, fits). let undo = undone-apply s applied regs v within same fits in ground arith,
)

taken-WithinMask :
    (inspect_prefix : Bool) (i : ℕ) (s : CoreStep) (rest : List CoreStep)
    → All WithinMask (s ∷ rest)
    → WithinMask (taken inspect_prefix i s rest)
taken-WithinMask inspect_prefix i s [] within = ground arith
taken-WithinMask inspect_prefix i s (s' ∷ rest) within = ground arith

-- The contents from the start come back when the applied steps are undone.
abbrev pub Undone : Contents → ℤ × List CoreStep → Contents → Type 0
Undone start (r, applied) regs = undone applied regs ≡ start

module _ (start : Contents) (applied : List CoreStep)
    (again : List CoreStep → Prog (ℤ × List CoreStep)) where
  after_step-Undone :
      (r : ℤ) (kept : Option CoreStep) (regs : Contents)
      → Undoes start kept applied regs
      → ((stack : List CoreStep)
          → undone stack regs ≡ start
          → Ensures Registers (again stack) (Undone start) regs)
      → Ensures Registers (after_step r kept applied again) (Undone start) regs
  unfolding after_step
  after_step-Undone r none regs h more = h
  after_step-Undone r (some k) regs h more =
      branch Registers _ (nonzero r) _ _ regs (λ _. h) (λ _. more (k ∷ applied) h)

module _ (inspect_prefix test_refclk : Bool) (start : Contents) where
  pub apply_steps-Undone :
      (i : ℕ) (todo applied : List CoreStep) (regs : Contents)
      → All WithinMask todo
      → undone applied regs ≡ start
      → Ensures Registers
          (apply_steps inspect_prefix test_refclk i todo applied)
          (Undone start)
          regs
  unfolding apply_steps
  apply_steps-Undone i [] applied regs within e = e
  apply_steps-Undone i (s ∷ rest) applied regs within e =
      branch Registers _ (inspect_prefix && (i == 11) && not test_refclk) _ _ regs (λ _. e)
        λ _.
          branch Registers _ (inspect_prefix && (i == 12)) _ _ regs (λ _. e)
            λ _.
              bind Registers (λ r t. Undoes start r.1 applied t) _
                (apply_step (taken inspect_prefix i s rest)) _ regs
                (apply_step-Undoes _ applied start regs
                  (taken-WithinMask inspect_prefix i s rest within) e)
                λ (r, kept) t h.
                  after_step-Undone start applied _ r kept t h
                    λ stack e'. apply_steps-Undone (i + 1) rest stack t within.1 e'

pub steps-WithinMask : All WithinMask steps
steps-WithinMask = ground arith
