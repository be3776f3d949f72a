-- ===== src/Kernel/ConfigSpace.antt =====
-- Configuration space that reads the same every time: reads of a byte and of a word come from two
-- fixed tables by physical address.
use a1625_linux_winboot.Prelude.{ℕ, ◌<◌, ◌^◌, ◌≡◌}
use a1625_linux_winboot.Kernel.Operations.{Op, Ans}
use a1625_linux_winboot.Kernel.Protocol.{Monitor}

pub record Config : Type 0 where
  pub byte : ℕ → ℕ
  pub word : ℕ → ℕ

abbrev Answers : Config → (o : Op) → Ans o → Type 0
Answers c (Op.readb a) r = (r ≡ c.byte a) × (r < 2 ^ 8)
Answers c (Op.readl a) r = (r ≡ c.word a) × (r < 2 ^ 32)
Answers c _ r = Unit

abbrev pub Fixed : Monitor
Fixed = record { State = Config; next = λ c o r. c; Permits = λ c o. Unit; Answers = Answers }
