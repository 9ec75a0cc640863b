-- ===== src/Task/At.antt =====
-- The masks `AT_EXIT_XIP` (0x01) to `AT_VECTORIZE_FLASH` (0x80) of bootrom/async_task.h, each by the
-- number of its bit.
use pico_bootrom_crashdump.Prelude.{ℕ}

abbrev pub exit_xip : ℕ
exit_xip = 0

abbrev pub flash_erase : ℕ
flash_erase = 1

abbrev pub read : ℕ
read = 2

abbrev pub write : ℕ
write = 3

abbrev pub exclusive : ℕ
exclusive = 4

abbrev pub enter_cmd_xip : ℕ
enter_cmd_xip = 5

abbrev pub exec : ℕ
exec = 6

abbrev pub vectorize_flash : ℕ
vectorize_flash = 7
