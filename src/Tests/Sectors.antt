-- ===== src/Tests/Sectors.antt =====
-- Sectors that the host reads and writes.
use pico_bootrom_crashdump.Prelude.{ℕ, ◌+◌, ◌*◌, ◌/◌, ◌%◌, ◌<◌, ◌≡◌, refl, some, [], ◌∷◌, arith}
use pico_bootrom_crashdump.Buffer.{Buffer, load32}
use pico_bootrom_crashdump.Platform.{rp2040}
use pico_bootrom_crashdump.Disk.Read.Host.{read}
use pico_bootrom_crashdump.Stream.{Packet}
use pico_bootrom_crashdump.Uf2.{Uf2Block}
use pico_bootrom_crashdump.Msc.{Cbw, dir_in, dir_out, start_sectors, send_csw, data_phase_complete}
use pico_bootrom_crashdump.Msc.Command.{msc_cmd_packet, is_valid_cbw}
use pico_bootrom_crashdump.Msc.Sectors.{sector_transfer, read_packet, reading}
use pico_bootrom_crashdump.Msc.Sectors.ReadCommand.{IsRead, read_command-sectors}
use pico_bootrom_crashdump.Msc.Sectors.Writing.{write_sectors, writing}
use pico_bootrom_crashdump.Msc.Sectors.WriteCommand.{IsWrite, Ends, write_command-sectors}
use pico_bootrom_crashdump.Disk.Xxd.Decode.{undump}
use pico_bootrom_crashdump.Msc.Sectors.Dump.{received_sector, read_command-dump}
use pico_bootrom_crashdump.Tests.Disk.{
  environment, state, old_buffer, environment-TextFits, pattern_ram,
}
use pico_bootrom_crashdump.Tests.Msc.{idle}
use pico_bootrom_crashdump.Tests.Uf2

-- The first two blocks of the crash dump.
abbrev read_dump : Cbw
read_dump = record {
  signature = 0x43425355;
  tag = 7;
  data_transfer_length = 1024;
  flags = 128;
  lun = 0;
  cb_length = 10;
  opcode = 0x28;
  start_stop = 0;
  lba = 308;
  blocks = 2;
}

read_dump-IsRead : IsRead read_dump
unfolding is_valid_cbw
read_dump-IsRead = record {
  valid = refl;
  opcode = refl;
  to_host = refl;
  exact = refl;
  some_blocks = omega arith;
  half_word = omega arith;
  on_disk = omega arith;
}

read_command-sectors_example :
    let (actions, msc) = msc_cmd_packet [] read_dump 31 idle in
    let t = sector_transfer old_buffer (2 * 512) msc state in
    (actions ≡ start_sectors dir_in 308 (2 * 512) ∷ [])
    × ((k : ℕ)
        → k < 8 * 2
        → (p : Packet) × ((read_packet environment (reading environment t k)).0 ≡ some p)
          × (p.data_len ≡ 64)
          × ((j : ℕ)
              → j < 64
              → p.bytes j ≡ read environment state (308 + k / 8) old_buffer (64 * (k % 8) + j)))
    × ((data_phase_complete (reading environment t (8 * 2)).msc).0
        ≡ send_csw (record { tag = 7; residue = 0; status = 0 }) ∷ [])
read_command-sectors_example =
    read_command-sectors [] read_dump idle read_dump-IsRead environment environment-TextFits state
      old_buffer

abbrev write_one : Cbw
write_one = record read_dump { data_transfer_length = 512; flags = 0; opcode = 0x2a; blocks = 1 }

write_one-IsWrite : IsWrite write_one
unfolding is_valid_cbw
write_one-IsWrite = record {
  valid = refl;
  opcode = refl;
  from_host = refl;
  exact = refl;
  some_blocks = omega arith;
  half_word = omega arith;
}

-- A block in the bytes of its sector, with its data 32 bytes behind the start.
abbrev uf2_block : Buffer → Uf2Block
uf2_block b = record {
  magic_start0 = load32 b 0;
  magic_start1 = load32 b 4;
  flags = load32 b 8;
  target_addr = load32 b 12;
  payload_size = load32 b 16;
  block_no = load32 b 20;
  num_blocks = load32 b 24;
  file_size = load32 b 28;
  magic_end = load32 b 508;
  buffer = 32;
}

module _ (a b : Buffer) (same : (j : ℕ) → j < 512 → a j ≡ b j) where
  load32-same : (i : ℕ) → i + 3 < 512 → load32 a i ≡ load32 b i
  load32-same i h = omega (
    arith,
    same i (omega arith),
    same (i + 1) (omega arith),
    same (i + 2) (omega arith),
    same (i + 3) (omega arith),
  )

  uf2_block-same : uf2_block a ≡ uf2_block b
  uf2_block-same = ground (
    arith,
    load32-same 0 (omega arith),
    load32-same 4 (omega arith),
    load32-same 8 (omega arith),
    load32-same 12 (omega arith),
    load32-same 16 (omega arith),
    load32-same 20 (omega arith),
    load32-same 24 (omega arith),
    load32-same 28 (omega arith),
    load32-same 508 (omega arith),
  )

abbrev text : Buffer
text j = 0x41 + j % 26

write_command-sectors_example :
    let (actions, msc) = msc_cmd_packet [] write_one 31 idle in
    (actions ≡ start_sectors dir_out 308 (1 * 512) ∷ [])
    × Ends
        (record { tag = 7; residue = 0; status = 0 })
        (write_sectors rp2040 0 uf2_block uf2_block-same text old_buffer 1 msc Uf2.idle 1)
        (writing rp2040 0 uf2_block uf2_block-same text old_buffer 1 msc Uf2.idle (8 * 1))
write_command-sectors_example =
    write_command-sectors [] write_one idle write_one-IsWrite rp2040 0 uf2_block uf2_block-same text
      old_buffer Uf2.idle

-- The byte at the offset 200 of memory, in the second block.
read_command-dump_example :
    undump
      (received_sector environment
        (sector_transfer old_buffer (2 * 512) (msc_cmd_packet [] read_dump 31 idle).1 state)
        1)
      (200 % 128)
    ≡ pattern_ram (rp2040.sram_base + 200)
read_command-dump_example =
    read_command-dump [] read_dump idle read_dump-IsRead environment environment-TextFits state
      old_buffer 1 200 (omega arith) refl (omega arith) (omega arith)
