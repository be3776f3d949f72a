-- ===== src/Kernel/Calls/Memory.antt =====
-- The kernel's functions as programs of one call: registers and delays.
use a1625_linux_winboot.Prelude.{ℕ, ℤ, Bool}
use a1625_linux_winboot.Kernel.Operations.{Op}
use a1625_linux_winboot.Kernel.Programs.{Prog, request}

abbrev pub request_mem_region : (base size : ℕ) → Prog Bool
request_mem_region base size = request (Op.request_mem_region base size)

abbrev pub release_mem_region : (base size : ℕ) → Prog (Unit {0})
release_mem_region base size = request (Op.release_mem_region base size)

abbrev pub ioremap : (base size : ℕ) → Prog Bool
ioremap base size = request (Op.ioremap base size)

abbrev pub iounmap : (base : ℕ) → Prog (Unit {0})
iounmap base = request (Op.iounmap base)

abbrev pub readb : (address : ℕ) → Prog ℕ
readb address = request (Op.readb address)

abbrev pub readw : (address : ℕ) → Prog ℕ
readw address = request (Op.readw address)

abbrev pub readl : (address : ℕ) → Prog ℕ
readl address = request (Op.readl address)

abbrev pub writew : (value address : ℕ) → Prog (Unit {0})
writew value address = request (Op.writew value address)

abbrev pub writel : (value address : ℕ) → Prog (Unit {0})
writel value address = request (Op.writel value address)

abbrev pub readl_poll_timeout : (address : ℕ) → Prog (ℤ × ℕ)
readl_poll_timeout address = request (Op.readl_poll_timeout address)

abbrev pub udelay : ℕ → Prog (Unit {0})
udelay a = request (Op.udelay a)

abbrev pub msleep : ℕ → Prog (Unit {0})
msleep a = request (Op.msleep a)
