-- ===== src/Tests/Task.antt =====
-- Tasks on the RP2040, with the default flash functions.
use pico_bootrom_crashdump.Prelude.{◌%◌, ◌&&◌, ◌≡◌, inl, refl, true, false, [], ◌∷◌, arith}
use pico_bootrom_crashdump.Prelude.Bits.{test_bit}
use pico_bootrom_crashdump.Platform.{
  rp2040, rp2040-IsValid, is_address_ram, is_address_flash, is_address_rom,
}
use pico_bootrom_crashdump.Task.{
  Task, reset_task, Machine, Env, flash_sector_erase, do_flash_erase_range,
}
use pico_bootrom_crashdump.Task.Execute.{add32, execute, default_call, direct_access}
use pico_bootrom_crashdump.Task.EraseRange.{erase_range_lem}
use pico_bootrom_crashdump.Task.Errors.{IsPlain, execute-interleaved, execute-enter_cmd_xip}
use pico_bootrom_crashdump.Task.Queue.{TaskQueue, Worker}

abbrev pub environment : Env
environment = record {
  sdk = rp2040;
  default_flash_funcs = 0x3000;
  default_table = [];
  flash_byte = λ commands o. 0xff;
  vectored = λ table c m. (0, m);
  run = λ addr m. m;
}

abbrev pub machine : Machine
machine = record {
  ram = λ a. a % 128;
  commands = [];
  flash_funcs = 0x3000;
  last_mutation_source = 2;
  disk_disable = false;
  ejected = false;
  rebooting = false;
}

-- A page written to the start of SRAM.
abbrev write_sram : Task
write_sram = record reset_task {
  kind = 8;
  transfer_addr = 0x20000000;
  buffer = 0x50100000;
  data_length = 256;
  source = 1;
}

-- A sector erased and its first page written.
abbrev write_flash : Task
write_flash = record reset_task {
  kind = 10;
  transfer_addr = 0x10001000;
  erase_addr = 0x10001000;
  erase_size = 4096;
  buffer = 0x50100000;
  data_length = 256;
  source = 1;
}

range_is_erased :
    default_call environment (do_flash_erase_range 0x10002000 8192) machine
    ≡ (0, record machine { commands = flash_sector_erase 8192 ∷ flash_sector_erase 12288 ∷ [] })
range_is_erased =
    erase_range_lem environment 2 0x10002000 machine rp2040-IsValid refl (omega arith) (omega arith)

abbrev interleaved : Task
interleaved = record write_sram { check_last_mutation_source = true }

interleaved-IsPlain : IsPlain interleaved
unfolding test_bit
interleaved-IsPlain = record {
  no_exit_xip = refl;
  no_exclusive = refl;
  no_exec = refl;
  no_vectorize = refl;
}

interleaved-writes : test_bit interleaved.kind 3 ≡ true
unfolding test_bit
interleaved-writes = refl

other_source : execute environment interleaved machine ≡ (5, machine)
other_source =
    execute-interleaved environment interleaved machine interleaved-IsPlain refl
      (inl interleaved-writes) refl (omega arith)

-- A write to an address that is neither RAM nor flash.
abbrev write_astray : Task
write_astray = record write_sram { transfer_addr = 0x30000000 }

write_astray-IsPlain : IsPlain write_astray
unfolding test_bit
write_astray-IsPlain = record {
  no_exit_xip = refl;
  no_exclusive = refl;
  no_exec = refl;
  no_vectorize = refl;
}

write_astray-kind : (test_bit write_astray.kind 3 ≡ true) × (test_bit write_astray.kind 1 ≡ false)
unfolding test_bit
write_astray-kind = (refl, refl)

write_astray-direct : direct_access environment write_astray ≡ false
unfolding direct_access is_address_ram is_address_rom test_bit
write_astray-direct = refl

write_astray-flash :
    is_address_flash rp2040 0x30000000 && is_address_flash rp2040 (add32 0x30000000 256) ≡ false
unfolding is_address_flash
write_astray-flash = refl

abbrev enter_xip : Task
enter_xip = record reset_task { kind = 32 }

enter_xip-IsPlain : IsPlain enter_xip
unfolding test_bit
enter_xip-IsPlain = record {
  no_exit_xip = refl;
  no_exclusive = refl;
  no_exec = refl;
  no_vectorize = refl;
}

enter_xip-kind :
    (test_bit enter_xip.kind 3 ≡ false)
    × (test_bit enter_xip.kind 2 ≡ false)
    × (test_bit enter_xip.kind 1 ≡ false)
unfolding test_bit
enter_xip-kind = (refl, refl, refl)

enter_cmd_xip_alone : execute environment enter_xip machine ≡ (0, machine)
enter_cmd_xip_alone =
    execute-enter_cmd_xip environment enter_xip machine enter_xip-IsPlain refl enter_xip-kind.0
      enter_xip-kind.1 enter_xip-kind.2

abbrev empty : TaskQueue
empty = record { task = reset_task; full = false }

-- Both queues hold a task, and the disk is disabled.
abbrev busy : Worker
busy = record {
  disk = record { task = write_flash; full = true };
  picoboot = record { task = write_sram; full = true };
  machine = record machine { disk_disable = true };
}
