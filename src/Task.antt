-- ===== src/Task.antt =====
-- The asynchronous tasks of bootrom/async_task.c and bootrom/async_task.h: the interrupt side queues
-- a task, the worker runs it. This module has the data; its children run tasks and queue them.
-- Memory is a function from an address to its byte. The flash chip is known by the commands that
-- were sent to it, in order, with the addresses counted from its start.
pub mod At
pub mod Execute
pub mod EraseRange
pub mod Safety
pub mod Errors
pub mod Queue
use pico_bootrom_crashdump.Prelude.{ℕ, Bool, false, Option, none, List}
use pico_bootrom_crashdump.Platform.{Sdk}

abbrev pub flash_page_size : ℕ
flash_page_size = 256

abbrev pub flash_sector_erase_size : ℕ
flash_sector_erase_size = 4096

-- `sizeof(struct flash_funcs)`
abbrev pub flash_funcs_size : ℕ
flash_funcs_size = 28

-- The completion functions that the firmware passes.
pub data Callback : Type 0 where
  write_uf2_page_complete atc_ack atc_chunk_task_done : Callback

-- `struct async_task`; `buffer` is the field `data`, the flags of `kind` are the field `type`.
pub record Task : Type 0 where
  pub token : ℕ
  pub result : ℕ
  pub callback : Option Callback
  pub transfer_addr : ℕ
  pub erase_addr : ℕ
  pub erase_size : ℕ
  pub buffer : ℕ
  pub data_length : ℕ
  pub picoboot_user_token : ℕ
  pub kind : ℕ
  pub exclusive_param : ℕ
  pub source : ℕ
  pub check_last_mutation_source : Bool

-- `reset_task`
abbrev pub reset_task : Task
reset_task = record {
  token = 0;
  result = 0;
  callback = none;
  transfer_addr = 0;
  erase_addr = 0;
  erase_size = 0;
  buffer = 0;
  data_length = 0;
  picoboot_user_token = 0;
  kind = 0;
  exclusive_param = 0;
  source = 0;
  check_last_mutation_source = false;
}

-- What the routines of bootrom/program_flash_generic.c are asked to do.
pub data FlashCommand : Type 0 where
  flash_enter_cmd_xip : FlashCommand
  flash_exit_xip : FlashCommand
  flash_sector_erase : ℕ → FlashCommand
  flash_page_program : ℕ → List ℕ → FlashCommand
  flash_read_data : ℕ → ℕ → FlashCommand

-- What the worker reads and changes: memory, the commands sent to flash, the pointer `flash_funcs`,
-- `_last_mutation_source`, `virtual_disk_queue.disable`, the eject flag of the mass storage class,
-- and whether the watchdog is about to reboot.
pub record Machine : Type 0 where
  pub ram : ℕ → ℕ
  pub commands : List FlashCommand
  pub flash_funcs : ℕ
  pub last_mutation_source : ℕ
  pub disk_disable : Bool
  pub ejected : Bool
  pub rebooting : Bool

-- An entry of `struct flash_funcs`, as it is called.
pub data FlashCall : Type 0 where
  do_flash_enter_cmd_xip : FlashCall
  do_flash_exit_xip : FlashCall
  do_flash_erase_sector : ℕ → FlashCall
  do_flash_erase_range : ℕ → ℕ → FlashCall
  do_flash_page_program : ℕ → ℕ → FlashCall
  do_flash_page_read : ℕ → ℕ → FlashCall

-- What tasks take from elsewhere: the SDK, the address of `default_flash_funcs` and its 28 bytes,
-- what flash returns for the byte at an offset after the commands so far, the code that a table
-- set up by the user calls, and the code that `AT_EXEC` calls.
pub record Env : Type 0 where
  pub sdk : Sdk
  pub default_flash_funcs : ℕ
  pub default_table : List ℕ
  pub flash_byte : List FlashCommand → ℕ → ℕ
  pub vectored : ℕ → FlashCall → Machine → ℕ × Machine
  pub run : ℕ → Machine → Machine
