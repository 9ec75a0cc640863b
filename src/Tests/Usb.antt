-- ===== src/Tests/Usb.antt =====
-- PICOBOOT commands and streams of packets.
use pico_bootrom_crashdump.Prelude.{
  ℕ, ◌+◌, ◌-◌, ◌%◌, ◌≤◌, ◌<◌, ◌≡◌, ◌≢◌, ◌↔◌, ◌⊎◌, inl, inr, refl, min, true, false, [], ◌∷◌, arith,
}
use pico_bootrom_crashdump.Prelude.Bits.{set_bit, test_bit}
use pico_bootrom_crashdump.Buffer.{Buffer}
use pico_bootrom_crashdump.Platform.{rp2040}
use pico_bootrom_crashdump.Task.{reset_task}
use pico_bootrom_crashdump.Task.Queue.{TaskQueue}
use pico_bootrom_crashdump.Task.Safety.Rules.{IsBounded}
use pico_bootrom_crashdump.Picoboot.{Protocol, PicobootCmd, PicobootState, halted, sending}
use pico_bootrom_crashdump.Picoboot.Command.{
  cmd_mapping, mapping_at, init_cmd, start_cmd, dispatch_cmd, wanted_length, picoboot_cmd_packet,
}
use pico_bootrom_crashdump.Picoboot.Chunks.{on_stream_chunk, good_chunks, chunk_addresses}
use pico_bootrom_crashdump.Picoboot.Replies.{
  reply, after, cmd-halted, cmd-started, chunks-IsBounded,
}
use pico_bootrom_crashdump.Stream.{setup_transfer, out_packet}
use pico_bootrom_crashdump.Stream.Out.{packet, received, out-chunks}

abbrev pub protocol : Protocol
protocol = record {
  sdk = rp2040;
  picoboot_magic = 0x431fd10b;
  picoboot_cmd_size = 32;
  exclusive_cmd_size = 1;
  reboot_cmd_size = 12;
  range_cmd_size = 8;
  address_only_cmd_size = 4;
  pc_reboot = 2;
  unknown_cmd = 1;
  invalid_cmd_length = 2;
  invalid_transfer_length = 7;
}

-- 600 bytes to be read from SRAM.
abbrev pub read_cmd : PicobootCmd
read_cmd = record {
  magic = 0x431fd10b;
  token = 9;
  cmd_id = 0x84;
  cmd_size = 8;
  transfer_length = 600;
  addr = 0x20000000;
  size = 600;
  exclusive = 0;
  pc = 0;
  sp = 0;
  delay_ms = 0;
}

-- A command whose arguments are too long.
abbrev long_cmd : PicobootCmd
long_cmd = record read_cmd { cmd_size = 9 }

abbrev idle_queue : TaskQueue
idle_queue = record { task = reset_task; full = false }

abbrev pub idle_state : PicobootState
idle_state = record {
  status = record { token = 0; status_code = 0; cmd_id = 0; in_progress = false };
  task = reset_task;
  real_token = 0;
  picoboot_queue = idle_queue;
  disk_queue = idle_queue;
  disk_disable = false;
}

read_cmd-sends : reply protocol read_cmd 0x50100000 32 idle_state ≡ sending 600
unfolding picoboot_cmd_packet cmd_mapping dispatch_cmd start_cmd init_cmd set_bit test_bit
read_cmd-sends = refl

long_cmd-halts : reply protocol long_cmd 0x50100000 32 idle_state ≡ halted
unfolding picoboot_cmd_packet cmd_mapping
long_cmd-halts = refl

cmd-started_example :
    let row = mapping_at protocol 4 in
    let s = after protocol read_cmd 0x50100000 32 idle_state in
    (8 ≡ row.size)
    × (600 ≡ wanted_length protocol read_cmd row)
    × (s.task.kind ≡ row.kind)
    × (s.task.transfer_addr ≡ 0x20000000)
    × (s.task.erase_addr ≡ 0x20000000)
    × (s.task.erase_size ≡ 600)
    × (s.status.status_code ≡ 0)
    × (s.status.in_progress ≡ true)
cmd-started_example =
    cmd-started protocol read_cmd 0x50100000 32 idle_state (inr (inr read_cmd-sends))

cmd-halted_example :
    let s = after protocol long_cmd 0x50100000 32 idle_state in
    (s.picoboot_queue ≡ idle_queue)
    × ((s ≡ idle_state)
        ⊎ ((s.status.token ≡ 9)
            × (s.status.in_progress ≡ false)
            × ((s.status.status_code ≡ protocol.unknown_cmd)
                ⊎ (s.status.status_code ≡ protocol.invalid_cmd_length)
                ⊎ (s.status.status_code ≡ protocol.invalid_transfer_length))))
cmd-halted_example = cmd-halted protocol long_cmd 0x50100000 32 idle_state long_cmd-halts

second_chunk :
    IsBounded
      (on_stream_chunk 88 (
        good_chunks
          (256 ∷ 256 ∷ [])
          (after protocol read_cmd 0x50100000 32 idle_state))).picoboot_queue.task
second_chunk =
    chunks-IsBounded protocol read_cmd 0x50100000 32 idle_state (256 ∷ 256 ∷ []) 88 (omega arith)
      (omega arith) (omega arith) (inr read_cmd-sends) (omega arith) (omega arith)

abbrev sram_state : PicobootState
sram_state = record idle_state { task = record reset_task { transfer_addr = 0x20000000; kind = 8 } }

two_chunks :
    let task = (on_stream_chunk 88 (good_chunks (256 ∷ 256 ∷ []) sram_state)).picoboot_queue.task in
    (task.transfer_addr ≡ 0x20000200)
    × (task.data_length ≡ 88)
    × (task.kind ≡ 8)
    × (task.erase_size ≡ 0)
    × (task.check_last_mutation_source ≡ true)
two_chunks = chunk_addresses (256 ∷ 256 ∷ []) 88 sram_state (omega arith)

-- Each byte is its index, in 7 bits.
abbrev message : Buffer
message j = j % 128

-- The tenth packet ends a message of 600 bytes, 88 bytes after the last whole chunk.
last_chunk :
    let t = received message (setup_transfer message 256 600).0 9 in
    let e = out_packet (packet message 600 9) t in
    ((e.0 ≢ 0) ↔ ((640 % 256 ≡ 0) ⊎ (600 ≤ 640)))
    × (e.0 ≢ 0
        → (e.0 ≡ min 256 (600 - 512))
          × ((j : ℕ) → j < e.0 → e.1.chunk_buffer j ≡ message (512 + j))
          × ((j : ℕ) → e.0 ≤ j → j < 256 → e.1.chunk_buffer j ≡ 0))
last_chunk = out-chunks message message 256 600 9 (inl refl) (omega arith) (omega arith)
