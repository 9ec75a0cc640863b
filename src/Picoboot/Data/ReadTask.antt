-- ===== src/Picoboot/Data/ReadTask.antt =====
-- Tasks that read RAM for PICOBOOT.
use pico_bootrom_crashdump.Prelude.{ℕ, ◌+◌, ◌≤◌, ◌≡◌, ◌⊎◌, arith, true, false}
use pico_bootrom_crashdump.Prelude.Bits.{test_bit}
use pico_bootrom_crashdump.Task.At
use pico_bootrom_crashdump.Task.{Task, Machine, Env}
use pico_bootrom_crashdump.Task.Execute.{
  copy, vectorize, exclusive, exit_xip, exec, mutation, erase, direct_access, check_transfer, write,
  read, enter_cmd_xip, transfer, finish, execute,
}
use pico_bootrom_crashdump.Task.Errors.{IsPlain}

-- A task that only reads.
pub record IsReadTask (task : Task) : Type 0 where
  pub plain : IsPlain task
  pub reads : test_bit task.kind At.read ≡ true
  pub no_write : test_bit task.kind At.write ≡ false
  pub no_erase : test_bit task.kind At.flash_erase ≡ false
  pub no_enter : test_bit task.kind At.enter_cmd_xip ≡ false

-- It reads RAM into its buffer, and does nothing else.
pub execute-read :
    (env : Env) (task : Task) (m : Machine)
    → IsReadTask task
    → m.rebooting ≡ false
    → direct_access env task ≡ true
    → execute env task m ≡ (
      env.sdk.picoboot_ok,
      record m { ram = copy m.ram task.buffer task.transfer_addr task.data_length },
    )
unfolding execute vectorize exclusive exit_xip exec mutation erase transfer check_transfer write
    read enter_cmd_xip finish
execute-read env task m r on direct = ground (arith, r, r.plain)

-- RAM that a command names, apart from the buffer of a chunk.
pub record IsRamRange (env : Env) (buffer addr size : ℕ) : Type 0 where
  pub low : env.sdk.sram_base ≤ addr
  pub high : addr + size ≤ env.sdk.sram_end
  pub apart : (buffer + 256 ≤ addr) ⊎ (addr + size ≤ buffer)
