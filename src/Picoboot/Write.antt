-- ===== src/Picoboot/Write.antt =====
-- The data of a PICOBOOT command that the host sends: the packets of
-- usb_device_tiny/usb_stream_helper.c, the chunks of bootrom/usb_boot_device.c that they are put together
-- to, and the worker of bootrom/async_task.c that writes each chunk.
pub mod WriteTask
pub mod Taking
pub mod Packets
pub mod WriteMemory
use pico_bootrom_crashdump.Prelude.{ℕ, zero, suc, Option, none, some, ◌==◌, if◌then◌else◌}
use pico_bootrom_crashdump.Buffer.{Buffer}
use pico_bootrom_crashdump.Stream.{Packet, store_bytes, out_packet, out_complete}
use pico_bootrom_crashdump.Stream.Out.{packet}
use pico_bootrom_crashdump.Task.{Task, Env, flash_page_size}
use pico_bootrom_crashdump.Picoboot.Chunks.{
  on_stream_chunk, ignored, continued, continued_halted, chunk_task_done,
}
use pico_bootrom_crashdump.Picoboot.Data.{DataTransfer, run_worker}

-- A packet is taken, it is taken on an endpoint that was halted before, or it waits for its chunk.
pub data TakeResult : Type 0 where
  taken taken_halted pending : DataTransfer → TakeResult

-- The packet in the buffer, which is memory at `buffer`, and the length of the chunk that it completes.
unfoldable pub receive : ℕ → Packet → DataTransfer → ℕ × DataTransfer
receive buffer p t =
    let (chunk_len, stream) = out_packet p t.stream in
    let ram = store_bytes t.machine.ram buffer stream.chunk_buffer flash_page_size in
    (chunk_len, record t { stream = stream; machine = record (t.machine) { ram = ram } })

-- `usb_stream_packet_handler_complete` on the OUT endpoint
abbrev pub complete_packet : Packet → DataTransfer → DataTransfer
complete_packet p t = record t { stream = out_complete p t.stream }

-- `_atc_chunk_task_done`, which goes on with the packet that waits.
unfoldable pub written_chunk : Packet → Option Task × DataTransfer → TakeResult
written_chunk p (none, t) = pending t
written_chunk p (some task, t) =
    let (completion, boot) = chunk_task_done task t.boot in
    let completed = complete_packet p (record t { boot = boot }) in
    elim completion [
      | ignored ↦ pending t
      | continued ↦ taken completed
      | continued_halted ↦ taken_halted completed
    ]

-- `_usb_stream_packet_packet_handler` on the OUT endpoint. If it hands a chunk on, a round of the worker
-- follows.
unfoldable pub take_packet : Env → ℕ → Packet → DataTransfer → TakeResult
take_packet env buffer p t =
    let (chunk_len, filled) = receive buffer p t in
    let run = run_worker env (record filled { boot = on_stream_chunk chunk_len filled.boot }) in
    if chunk_len == 0 then taken (complete_packet p filled) else written_chunk p run

abbrev pub next_packet : Env → ℕ → Packet → TakeResult → TakeResult
next_packet env buffer p (taken t) = take_packet env buffer p t
next_packet env buffer p (taken_halted t) = taken_halted t
next_packet env buffer p (pending t) = pending t

-- The transfer behind the first `k` packets of a message.
abbrev pub taking : Env → ℕ → Buffer → ℕ → DataTransfer → ℕ → TakeResult
taking env buffer message size t zero = taken t
taking env buffer message size t (suc k) =
    next_packet env buffer (packet message size k) (taking env buffer message size t k)
