-- ===== src/Picoboot/Data.antt =====
-- The data of a PICOBOOT command that the host receives: the packets of
-- usb_device_tiny/usb_stream_helper.c, the chunks of bootrom/usb_boot_device.c that the packets are cut
-- from, and the worker of bootrom/async_task.c that reads each chunk.
pub mod ReadTask
pub mod Reading
pub mod ReadMemory
use pico_bootrom_crashdump.Prelude.{ℕ, ◌+◌, ◌%◌, ◌≡◌, ◌≢◌, Option, none, some, ◌==◌, if◌then◌else◌}
use pico_bootrom_crashdump.Stream.{Stream, Packet, setup_transfer, in_chunk_len, in_complete}
use pico_bootrom_crashdump.Task.{Task, Machine, Env, flash_page_size}
use pico_bootrom_crashdump.Task.Queue.{Worker, worker_round}
use pico_bootrom_crashdump.Picoboot.{Protocol, PicobootCmd, PicobootState}
use pico_bootrom_crashdump.Picoboot.Chunks.{
  on_stream_chunk, Completion, ignored, continued, continued_halted, chunk_task_done,
}

-- `_picoboot_stream_transfer` with the state of the interface, and what the worker changes.
pub record DataTransfer : Type 0 where
  pub stream : Stream
  pub boot : PicobootState
  pub machine : Machine

-- A packet is sent, it is sent on an endpoint that was halted before, or it waits for its chunk.
pub data DataResult : Type 0 where
  sent sent_halted : Packet → DataTransfer → DataResult
  waits : DataTransfer → DataResult

-- The transfer that `_picoboot_cmd_packet_internal` sets up, with its buffer at address `buffer`.
unfoldable pub data_transfer : ℕ → ℕ → PicobootState → Machine → DataTransfer
data_transfer buffer len boot m = record {
  stream = (setup_transfer (λ j. m.ram (buffer + j)) flash_page_size len).0;
  boot = boot;
  machine = m;
}

-- `usb_stream_packet_handler_complete` on the IN endpoint; the buffer is memory at `buffer`.
unfoldable pub complete_data : ℕ → DataTransfer → Packet × DataTransfer
complete_data buffer t =
    let (packet, stream) =
      in_complete (record (t.stream) { chunk_buffer = λ j. t.machine.ram (buffer + j) }) in
    (packet, record t { stream = stream })

-- A round of the worker.
unfoldable pub run_worker : Env → DataTransfer → Option Task × DataTransfer
run_worker env t =
    let (done, w) = worker_round env (record {
      disk = t.boot.disk_queue;
      picoboot = t.boot.picoboot_queue;
      machine = t.machine;
    }) in
    (
      done,
      record t {
        boot = record (t.boot) { disk_queue = w.disk; picoboot_queue = w.picoboot };
        machine = w.machine;
      },
    )

-- `_atc_chunk_task_done`, which sends the packet that waits.
unfoldable pub done_chunk : ℕ → Task → DataTransfer → DataResult
done_chunk buffer task t =
    let (completion, boot) = chunk_task_done task t.boot in
    let (packet, completed) = complete_data buffer (record t { boot = boot }) in
    elim completion [
      | ignored ↦ waits t
      | continued ↦ sent packet completed
      | continued_halted ↦ sent_halted packet completed
    ]

-- What the worker's round comes to.
abbrev pub finish_chunk : ℕ → Option Task × DataTransfer → DataResult
finish_chunk buffer (none, t) = waits t
finish_chunk buffer (some task, t) = done_chunk buffer task t

-- `_usb_stream_packet_packet_handler` on the IN endpoint. If it asks for a chunk, a round of the worker
-- follows.
unfoldable pub data_packet : Env → ℕ → DataTransfer → DataResult
data_packet env buffer t =
    let chunk_len = in_chunk_len t.stream in
    let (packet, completed) = complete_data buffer t in
    let run = run_worker env (record t { boot = on_stream_chunk chunk_len t.boot }) in
    if chunk_len == 0 then sent packet completed else finish_chunk buffer run

abbrev pub next_data : Env → ℕ → DataResult → DataResult
next_data env buffer (sent p t) = data_packet env buffer t
next_data env buffer (sent_halted p t) = sent_halted p t
next_data env buffer (waits t) = waits t

-- A command that has as much data as it names: of the row 4 of the table to read, of the row 5 to write.
pub record IsDataCmd (protocol : Protocol) (cmd : PicobootCmd) (len row : ℕ) : Type 0 where
  pub cmd_len : len ≡ protocol.picoboot_cmd_size
  pub magic : cmd.magic ≡ protocol.picoboot_magic
  pub id : cmd.cmd_id % 128 ≡ row
  pub no_reboot : cmd.cmd_id ≢ protocol.pc_reboot
  pub args_size : cmd.cmd_size ≡ protocol.range_cmd_size
  pub same_size : cmd.transfer_length ≡ cmd.size
  pub some_data : cmd.size ≢ 0
