-- ===== src/Kernel/Protocol.antt =====
-- Protocols: what a program may do, told by a monitor that watches its calls.
use a1625_linux_winboot.Prelude.{Bool, true, false, ◌≡◌, refl, if◌then◌else◌}
use a1625_linux_winboot.Kernel.Operations.{Op, Ans}
use a1625_linux_winboot.Kernel.Programs.{Prog, ret, call, ◌>>=◌}

-- A monitor's state follows the calls and their answers. `Permits` is the duty of the program at
-- each call, and `Answers` is what the kernel or the hardware is trusted for.
pub record Monitor : Type 1 where
  pub State : Type 0
  pub next : State → (o : Op) → Ans o → State
  pub Permits : State → Op → Type 0
  pub Answers : State → (o : Op) → Ans o → Type 0

-- From the state `s`, whatever the trusted answers are, each call is permitted when it is made,
-- and the result and the last state satisfy `Q`.
abbrev pub Ensures : (M : Monitor) {A : Type 0} → Prog A → (A → M.State → Type 0) → M.State → Type 0
Ensures M (ret a) Q s = Q a s
Ensures M (call o k) Q s =
    M.Permits s o × ((r : Ans o) → M.Answers s o r → Ensures M (k r) Q (M.next s o r))

module _ (M : Monitor) {A : Type 0} (P : A → M.State → Type 0) where
  pub mono :
      (Q : A → M.State → Type 0) (m : Prog A) (s : M.State)
      → Ensures M m P s
      → ((a : A) (t : M.State) → P a t → Q a t)
      → Ensures M m Q s
  mono Q (ret a) s h weaken = weaken a s h
  mono Q (call o k) s h weaken =
      (h.0, λ r trusted. mono Q (k r) (M.next s o r) (h.1 r trusted) weaken)

  pub bind :
      {B : Type 0} (Q : B → M.State → Type 0) (m : Prog A) (f : A → Prog B) (s : M.State)
      → Ensures M m P s
      → ((a : A) (t : M.State) → P a t → Ensures M (f a) Q t)
      → Ensures M (m >>= f) Q s
  bind Q (ret a) f s h rest = rest a s h
  bind Q (call o k) f s h rest =
      (h.0, λ r trusted. bind Q (k r) f (M.next s o r) (h.1 r trusted) rest)

  pub both :
      (Q : A → M.State → Type 0) (m : Prog A) (s : M.State)
      → Ensures M m P s
      → Ensures M m Q s
      → Ensures M m (λ a t. P a t × Q a t) s
  both Q (ret a) s h k = (h, k)
  both Q (call o f) s h k =
      (h.0, λ r trusted. both Q (f r) (M.next s o r) (h.1 r trusted) (k.1 r trusted))

  -- Both ways of a test.
  pub branch :
      (b : Bool) (x y : Prog A) (s : M.State)
      → (b ≡ true → Ensures M x P s)
      → (b ≡ false → Ensures M y P s)
      → Ensures M (if b then x else y) P s
  branch true x y s yes_case no_case = yes_case refl
  branch false x y s yes_case no_case = no_case refl
