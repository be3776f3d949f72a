-- ===== src/Kernel/Programs.antt =====
-- A program: it ends with a result, or makes a call and goes on with the answer. Every program
-- ends, however the calls are answered.
use a1625_linux_winboot.Kernel.Operations.{Op, Ans}

pub data Prog (A : Type 0) : Type 0 where
  ret : A → Prog A
  call : (o : Op) → (Ans o → Prog A) → Prog A

infixl 5 ◌>>=◌ ◌>>◌
abbrev pub ◌>>=◌ : {A B : Type 0} → Prog A → (A → Prog B) → Prog B
ret a >>= f = f a
call o k >>= f = call o (λ r. k r >>= f)

abbrev pub ◌>>◌ : {A B : Type 0} → Prog A → Prog B → Prog B
m >> k = m >>= λ _. k

abbrev pub request : (o : Op) → Prog (Ans o)
request o = call o ret
