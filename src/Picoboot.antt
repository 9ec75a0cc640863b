-- ===== src/Picoboot.antt =====
-- The PICOBOOT interface of bootrom/usb_boot_device.c: the commands, the chunks of their data, and
-- their completion.
pub mod Command
pub mod Chunks
pub mod Replies
pub mod Data
pub mod Write
use pico_bootrom_crashdump.Prelude.{ℕ, Bool}
use pico_bootrom_crashdump.Platform.{Sdk}
use pico_bootrom_crashdump.Task.{Task}
use pico_bootrom_crashdump.Task.Queue.{TaskQueue}

-- What the code takes from boot/picoboot.h of the SDK: the magic number, the sizes of the command
-- and of its variants, the number of the reboot command, and status codes.
pub record Protocol : Type 0 where
  pub sdk : Sdk
  pub picoboot_magic : ℕ
  pub picoboot_cmd_size : ℕ
  pub exclusive_cmd_size : ℕ
  pub reboot_cmd_size : ℕ
  pub range_cmd_size : ℕ
  pub address_only_cmd_size : ℕ
  pub pc_reboot : ℕ
  pub unknown_cmd : ℕ
  pub invalid_cmd_length : ℕ
  pub invalid_transfer_length : ℕ

-- What is read of `struct picoboot_cmd`; the fields behind `dTransferLength` are views of the same
-- sixteen bytes.
pub record PicobootCmd : Type 0 where
  pub magic : ℕ
  pub token : ℕ
  pub cmd_id : ℕ
  pub cmd_size : ℕ
  pub transfer_length : ℕ
  pub addr : ℕ
  pub size : ℕ
  pub exclusive : ℕ
  pub pc : ℕ
  pub sp : ℕ
  pub delay_ms : ℕ

-- `struct picoboot_cmd_status`
pub record CmdStatus : Type 0 where
  pub token : ℕ
  pub status_code : ℕ
  pub cmd_id : ℕ
  pub in_progress : Bool

-- `_picoboot_current_cmd_status`, the task of `_picoboot_stream_transfer`, `real_token`, the queues
-- and the flag `disable` of the disk queue.
pub record PicobootState : Type 0 where
  pub status : CmdStatus
  pub task : Task
  pub real_token : ℕ
  pub picoboot_queue : TaskQueue
  pub disk_queue : TaskQueue
  pub disk_disable : Bool

-- What happens on the endpoints: both are halted, the command is acknowledged, its data are awaited
-- or sent, or the acknowledgement waits for the task.
pub data Reply : Type 0 where
  halted : Reply
  rebooting : ℕ → ℕ → ℕ → Reply
  receiving sending : ℕ → Reply
  queued : Reply
