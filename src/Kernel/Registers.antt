-- ===== src/Kernel/Registers.antt =====
-- Hardware whose registers are plain 32-bit memory: a read answers the word that was written last.
-- The monitor follows the contents, and the program may do what it likes.
use a1625_linux_winboot.Prelude.{ℕ, ◌<◌, ◌^◌, ◌≡◌, ◌==◌, if◌then◌else◌}
use a1625_linux_winboot.Kernel.Operations.{Op, Ans}
use a1625_linux_winboot.Kernel.Protocol.{Monitor}

-- The contents, by physical address.
abbrev pub Contents : Type 0
Contents = ℕ → ℕ

abbrev pub store : Contents → ℕ → ℕ → Contents
store regs a v b = if a == b then v else regs b

abbrev next : Contents → (o : Op) → Ans o → Contents
next regs (Op.writel v a) r = store regs a v
next regs _ r = regs

abbrev Answers : Contents → (o : Op) → Ans o → Type 0
Answers regs (Op.readl a) r = (r ≡ regs a) × (r < 2 ^ 32)
Answers regs _ r = Unit

abbrev pub Registers : Monitor
Registers = record { State = Contents; next = next; Permits = λ s o. Unit; Answers = Answers }
