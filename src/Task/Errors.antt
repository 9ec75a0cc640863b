-- ===== src/Task/Errors.antt =====
-- Tasks that are refused, and a task that does nothing.
use pico_bootrom_crashdump.Prelude.{◌≡◌, ◌≢◌, ◌⊎◌, true, false, ◌&&◌, arith}
use pico_bootrom_crashdump.Prelude.Bits.{test_bit}
use pico_bootrom_crashdump.Platform.{is_address_flash}
use pico_bootrom_crashdump.Task.At
use pico_bootrom_crashdump.Task.{Task, Machine, Env}
use pico_bootrom_crashdump.Task.Execute.{
  add32, vectorize, exclusive, exit_xip, exec, mutation, erase, direct_access, check_transfer,
  transfer, finish, execute,
}

-- No bit of a task but those of erase, read, write and the entry to XIP is set.
pub record IsPlain (task : Task) : Type 0 where
  pub no_exit_xip : test_bit task.kind At.exit_xip ≡ false
  pub no_exclusive : test_bit task.kind At.exclusive ≡ false
  pub no_exec : test_bit task.kind At.exec ≡ false
  pub no_vectorize : test_bit task.kind At.vectorize_flash ≡ false

-- A task that changes flash or memory and asks for the check is refused, with nothing changed, if
-- the last change came from another source. The task is plain and the device not about to reboot.
pub execute-interleaved :
    (env : Env) (task : Task) (m : Machine)
    → IsPlain task
    → m.rebooting ≡ false
    → (test_bit task.kind At.write ≡ true) ⊎ (test_bit task.kind At.flash_erase ≡ true)
    → task.check_last_mutation_source ≡ true
    → m.last_mutation_source ≢ task.source
    → execute env task m ≡ (env.sdk.picoboot_interleaved_write, m)
unfolding execute vectorize exclusive exit_xip exec mutation finish
execute-interleaved env task m plain on kind check other = ground arith

-- A write or read whose range is neither RAM (or ROM, to read) nor flash is refused: memory and
-- flash are unchanged, and only the source of the last change is noted. The task is plain, writes,
-- erases nothing and asks for no check, and the device is not about to reboot.
pub execute-invalid_address :
    (env : Env) (task : Task) (m : Machine)
    → IsPlain task
    → m.rebooting ≡ false
    → test_bit task.kind At.write ≡ true
    → test_bit task.kind At.flash_erase ≡ false
    → task.check_last_mutation_source ≡ false
    → direct_access env task ≡ false
    → is_address_flash env.sdk task.transfer_addr
        && is_address_flash env.sdk (add32 task.transfer_addr task.data_length)
      ≡ false
    → execute env task m
      ≡ (env.sdk.picoboot_invalid_address, record m { last_mutation_source = task.source })
unfolding execute vectorize exclusive exit_xip exec mutation erase transfer check_transfer finish
execute-invalid_address env task m plain on w e check direct flash = ground arith

-- A task that neither reads, writes nor erases succeeds without any effect, also when its bit for
-- the entry to XIP is set. The task is plain and the device not about to reboot.
pub execute-enter_cmd_xip :
    (env : Env) (task : Task) (m : Machine)
    → IsPlain task
    → m.rebooting ≡ false
    → test_bit task.kind At.write ≡ false
    → test_bit task.kind At.read ≡ false
    → test_bit task.kind At.flash_erase ≡ false
    → execute env task m ≡ (env.sdk.picoboot_ok, m)
unfolding execute vectorize exclusive exit_xip exec mutation erase transfer finish
execute-enter_cmd_xip env task m plain on w r e = ground arith
