-- ===== src/Picoboot/Write/WriteTask.antt =====
-- Tasks that write RAM for PICOBOOT.
use pico_bootrom_crashdump.Prelude.{◌≡◌, ◌⊎◌, arith, true, false, if◌then◌else◌}
use pico_bootrom_crashdump.Prelude.Bits.{test_bit}
use pico_bootrom_crashdump.Task.At
use pico_bootrom_crashdump.Task.{Task, Machine, Env}
use pico_bootrom_crashdump.Task.Execute.{
  copy, vectorize, exclusive, exit_xip, exec, mutation, erase, direct_access, overlaps_vectors,
  check_transfer, write, read, enter_cmd_xip, transfer, finish, execute,
}
use pico_bootrom_crashdump.Task.Errors.{IsPlain}

-- A task that only writes.
pub record IsWriteTask (task : Task) : Type 0 where
  pub plain : IsPlain task
  pub writes : test_bit task.kind At.write ≡ true
  pub no_read : test_bit task.kind At.read ≡ false
  pub no_erase : test_bit task.kind At.flash_erase ≡ false
  pub no_enter : test_bit task.kind At.enter_cmd_xip ≡ false

-- The source of the last change is no obstacle to the task.
abbrev pub IsCleared : Task → Machine → Type 0
IsCleared task m =
    (task.check_last_mutation_source ≡ false) ⊎ (m.last_mutation_source ≡ task.source)

-- What it leaves: its buffer in RAM, and the default table where it writes over a table of the user.
abbrev pub after_write : Env → Task → Machine → Machine
after_write env task m = record m {
  last_mutation_source = task.source;
  flash_funcs =
      if overlaps_vectors env task m.flash_funcs then env.default_flash_funcs else m.flash_funcs;
  ram = copy m.ram task.transfer_addr task.buffer task.data_length;
}

pub execute-write :
    (env : Env) (task : Task) (m : Machine)
    → IsWriteTask task
    → m.rebooting ≡ false
    → IsCleared task m
    → direct_access env task ≡ true
    → execute env task m ≡ (env.sdk.picoboot_ok, after_write env task m)
unfolding execute vectorize exclusive exit_xip exec mutation erase transfer check_transfer write
    read enter_cmd_xip finish
execute-write env task m w on cleared direct = ground (arith, w, w.plain)
