-- ===== src/Kernel/Anything.antt =====
-- No trust at all: the kernel and the hardware may answer anything, and the program may do what
-- it likes.
use a1625_linux_winboot.Kernel.Protocol.{Monitor}

abbrev pub Anything : Monitor
Anything = record {
  State = Unit {0};
  next = λ s o r. s;
  Permits = λ s o. Unit {0};
  Answers = λ s o r. Unit {0};
}
