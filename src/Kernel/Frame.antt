-- ===== src/Kernel/Frame.antt =====
-- Programs that leave the monitor's state as they find it, whatever it is.
use mathlib.Core.Path.{subst}
use a1625_linux_winboot.Prelude.{Bool, true, false, ◌≡◌, refl, sym, if◌then◌else◌}
use a1625_linux_winboot.Kernel.Programs.{Prog, ret, ◌>>=◌}
use a1625_linux_winboot.Kernel.Protocol.{Monitor, Ensures, bind}

pub record Keeps (M : Monitor) {A : Type 0} (p : Prog A) : Type 0 where
  pub keeps : (s : M.State) → Ensures M p (λ _ t. t ≡ s) s

-- What comes after a program that came back to its state starts where it started.
pub resume :
    (M : Monitor) {A B : Type 0} (Q : B → M.State → Type 0) (m : Prog A) (f : A → Prog B)
    (s : M.State)
    → Ensures M m (λ _ t. t ≡ s) s
    → ((a : A) → Ensures M (f a) Q s)
    → Ensures M (m >>= f) Q s
resume M Q m f s h rest =
    bind M (λ _ t. t ≡ s) Q m f s h (λ a t e. subst (λ u. Ensures M (f a) Q u) (sym e) (rest a))

module _ {M : Monitor} {A : Type 0} where
  pub ret-Keeps : (a : A) → Keeps M (ret a)
  ret-Keeps a = record { keeps = λ s. refl }

  pub branch-Keeps :
      (b : Bool) {x y : Prog A} → Keeps M x → Keeps M y → Keeps M (if b then x else y)
  branch-Keeps true h k = h
  branch-Keeps false h k = k

  pub after :
      {B : Type 0} (Q : B → M.State → Type 0) {m : Prog A} (f : A → Prog B) (s : M.State)
      → Keeps M m
      → ((a : A) → Ensures M (f a) Q s)
      → Ensures M (m >>= f) Q s
  after Q {m} f s h rest = resume M Q m f s (h.keeps s) rest

  pub bind-Keeps :
      {B : Type 0} {m : Prog A} {f : A → Prog B}
      → Keeps M m
      → ((a : A) → Keeps M (f a))
      → Keeps M (m >>= f)
  bind-Keeps {f} h k = record { keeps = λ s. after (λ _ t. t ≡ s) f s h (λ a. (k a).keeps s) }
