-- ===== src/Kernel/Run.antt =====
-- Runs of a program on one machine.
use a1625_linux_winboot.Kernel.Operations.{Op, Ans}
use a1625_linux_winboot.Kernel.Programs.{Prog, ret, call}
use a1625_linux_winboot.Kernel.Protocol.{Monitor, Ensures}

-- A kernel with its hardware: how it answers a call and what it becomes.
pub record Machine : Type 1 where
  pub World : Type 0
  pub answer : World → (o : Op) → Ans o
  pub after : World → (o : Op) → World

unfoldable pub run : {A : Type 0} (m : Machine) → Prog A → m.World → A × m.World
run m (ret a) w = (a, w)
run m (call o k) w = run m (k (m.answer w o)) (m.after w o)

-- The machine's worlds that stand in `Sees` to the monitor's states answer as the monitor trusts.
abbrev pub Obeys : (M : Monitor) (m : Machine) → (m.World → M.State → Type 0) → Type 0
Obeys M m Sees =
    (w : m.World) (s : M.State) (o : Op)
    → Sees w s
    → M.Answers s o (m.answer w o) × Sees (m.after w o) (M.next s o (m.answer w o))

module _ (M : Monitor) (m : Machine) (Sees : m.World → M.State → Type 0)
    (obeys : Obeys M m Sees) where
  -- What a program ensures holds of its run on every machine that the monitor may trust.
  pub run-Ensures :
      {A : Type 0} (p : Prog A) (Q : A → M.State → Type 0) (w : m.World) (s : M.State)
      → Sees w s
      → Ensures M p Q s
      → (t : M.State) × Q (run m p w).0 t × Sees (run m p w).1 t
  unfolding run
  run-Ensures (ret a) Q w s sees h = (s, h, sees)
  run-Ensures (call o k) Q w s sees h =
      run-Ensures (k (m.answer w o)) Q (m.after w o) (M.next s o (m.answer w o))
        (obeys w s o sees).1 (h.1 (m.answer w o) (obeys w s o sees).0)
