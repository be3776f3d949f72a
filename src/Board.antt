-- ===== src/Board.antt =====
-- The check that opens each diagnostic: `of_device_is_compatible(of_root, ...)` for the board and
-- for its system on chip.
use a1625_linux_winboot.Prelude.{Bool, false, if◌then◌else◌}
use a1625_linux_winboot.Kernel.{Prog, ret, ◌>>=◌, of_root_is_compatible}

unfoldable pub is_j42d_t7000 : Prog Bool
is_j42d_t7000 = do
  j42d ← of_root_is_compatible "apple,j42d"
  if j42d then of_root_is_compatible "apple,t7000" else ret false
