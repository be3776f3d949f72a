-- ===== src/Kernel/ReadOnly.antt =====
-- Programs that write no register.
use a1625_linux_winboot.Prelude.{Bool, true, false, ◌≡◌}
use a1625_linux_winboot.Kernel.Operations.{Op}
use a1625_linux_winboot.Kernel.Protocol.{Monitor}

-- Calls that change a register of the hardware, of a regmap or of a descriptor.
abbrev pub writes : Op → Bool
writes (Op.writew value address) = true
writes (Op.writel value address) = true
writes (Op.regmap_write map reg value) = true
writes (Op.regmap_update_bits map reg mask value) = true
writes (Op.gpiod_direction_output_raw desc value) = true
writes _ = false

-- No register is written.
abbrev pub ReadOnly : Monitor
ReadOnly = record {
  State = Unit {0};
  next = λ s o r. s;
  Permits = λ s o. writes o ≡ false;
  Answers = λ s o r. Unit {0};
}
