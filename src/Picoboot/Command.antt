-- ===== src/Picoboot/Command.antt =====
-- `_picoboot_cmd_packet_internal` and `_picoboot_reset` of bootrom/usb_boot_device.c.
use pico_bootrom_crashdump.Prelude.{
  ℕ, ◌%◌, Bool, true, false, not, List, [], ◌∷◌, length, get_or, ◌&&◌, ltb, ◌==◌, if◌then◌else◌,
}
use pico_bootrom_crashdump.Prelude.Bits.{test_bit, set_bit}
use pico_bootrom_crashdump.Task.At
use pico_bootrom_crashdump.Task.{reset_task, atc_ack}
use pico_bootrom_crashdump.Task.Queue.{TaskQueue, queue_task}
use pico_bootrom_crashdump.Task.Execute.{sub32}
use pico_bootrom_crashdump.Picoboot.{
  Protocol, PicobootCmd, PicobootState, Reply, halted, rebooting, receiving, sending, queued,
}

-- `TASK_SOURCE_PICOBOOT`
abbrev pub task_source_picoboot : ℕ
task_source_picoboot = 2

-- A row of `cmd_mapping`: the size of the arguments, whether `dSize` bytes of data follow, and the
-- type of the task.
pub record Mapping : Type 0 where
  pub size : ℕ
  pub has_data : Bool
  pub kind : ℕ

unfoldable pub reset_queue : TaskQueue → TaskQueue
reset_queue queue = record queue { full = false }

-- `_picoboot_reset`, without the endpoints and the abort of flash
unfoldable pub picoboot_reset : PicobootState → PicobootState
picoboot_reset s = record s {
  status = record { token = 0; status_code = 0; cmd_id = 0; in_progress = false };
  disk_queue = reset_queue s.disk_queue;
  picoboot_queue = reset_queue s.picoboot_queue;
  disk_disable = false;
}

module _ (protocol : Protocol) where
  open protocol use {
    sdk, exclusive_cmd_size, reboot_cmd_size, range_cmd_size, address_only_cmd_size, pc_reboot,
  }

  -- `cmd_mapping`, in its order; the first row belongs to no command.
  unfoldable pub cmd_mapping : List Mapping
  cmd_mapping =
      record { size = 0; has_data = false; kind = 0 }
      ∷ record { size = exclusive_cmd_size; has_data = false; kind = set_bit 0 At.exclusive }
      ∷ record { size = reboot_cmd_size; has_data = false; kind = 0 }
      ∷ record { size = range_cmd_size; has_data = false; kind = set_bit 0 At.flash_erase }
      ∷ record { size = range_cmd_size; has_data = true; kind = set_bit 0 At.read }
      ∷ record { size = range_cmd_size; has_data = true; kind = set_bit 0 At.write }
      ∷ record { size = 0; has_data = false; kind = set_bit 0 At.exit_xip }
      ∷ record { size = 0; has_data = false; kind = set_bit 0 At.enter_cmd_xip }
      ∷ record { size = address_only_cmd_size; has_data = false; kind = set_bit 0 At.exec }
      ∷ record {
        size = address_only_cmd_size;
        has_data = false;
        kind = set_bit 0 At.vectorize_flash;
      }
      ∷ []

  -- `_set_cmd_status`
  abbrev pub set_cmd_status : ℕ → PicobootState → PicobootState
  set_cmd_status code s = record s { status = record (s.status) { status_code = code } }

  abbrev pub mapping_at : ℕ → Mapping
  mapping_at id = get_or cmd_mapping id (record { size = 0; has_data = false; kind = 0 })

  module _ (cmd : PicobootCmd) where
    -- The state before the command is known to be valid.
    unfoldable pub init_cmd : PicobootState → PicobootState
    init_cmd s =
        let token = sub32 s.real_token 1 in
        record s {
          real_token = token;
          task = record reset_task {
            token = token;
            picoboot_user_token = cmd.token;
            transfer_addr = cmd.addr;
            erase_addr = cmd.addr;
            erase_size = cmd.size;
            exclusive_param = cmd.exclusive;
          };
          status = record {
            cmd_id = cmd.cmd_id;
            token = cmd.token;
            in_progress = false;
            status_code = protocol.unknown_cmd;
          };
        }

    -- The task of a valid command, at address `buffer` of the static buffer: started by the stream
    -- of its data, or queued.
    unfoldable pub start_cmd : ℕ → ℕ → PicobootState → Reply × PicobootState
    start_cmd buffer kind s =
        let task = record (s.task) { kind = kind; source = task_source_picoboot } in
        let started = record s { task = task; status = record (s.status) { in_progress = true } } in
        if not (cmd.transfer_length == 0)
        then (
          if test_bit kind At.write
              then receiving cmd.transfer_length
              else sending cmd.transfer_length,
          record started { task = record task { buffer = buffer } },
        )
        else (let (queue, task') = queue_task s.picoboot_queue task atc_ack in
            (queued, record started { task = task'; picoboot_queue = queue }))

    -- The length of the data that the command asks for.
    abbrev pub wanted_length : Mapping → ℕ
    wanted_length row = if row.has_data then cmd.size else 0

    -- A command whose arguments have the right size.
    unfoldable pub dispatch_cmd : ℕ → Mapping → PicobootState → Reply × PicobootState
    dispatch_cmd buffer row s =
        let kind = if wanted_length row == cmd.transfer_length then row.kind else 0 in
        if cmd.cmd_id == pc_reboot
        then (
          rebooting cmd.pc cmd.sp cmd.delay_ms,
          record s { status = record (s.status) { in_progress = false } },
        )
        else if not (kind == 0)
        then start_cmd buffer kind s
        else (halted, set_cmd_status protocol.invalid_transfer_length s)

    unfoldable pub picoboot_cmd_packet : ℕ → ℕ → PicobootState → Reply × PicobootState
    picoboot_cmd_packet buffer len s =
        if not (len == protocol.picoboot_cmd_size && cmd.magic == protocol.picoboot_magic)
        then (halted, s)
        else (let id = cmd.cmd_id % 128 in
            let row = mapping_at id in
            if not (not (id == 0) && ltb id (length cmd_mapping))
            then (halted, init_cmd s)
            else if cmd.cmd_size == row.size
            then dispatch_cmd buffer row (set_cmd_status sdk.picoboot_ok (init_cmd s))
            else (halted, set_cmd_status protocol.invalid_cmd_length (init_cmd s)))
