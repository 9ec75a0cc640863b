-- ===== src/Tests/Disk.antt =====
-- Sectors of the disk on the RP2040, whose SRAM has 264 KiB.
use pico_bootrom_crashdump.Prelude.{
  ℕ, ◌+◌, ◌*◌, ◌/◌, ◌%◌, ◌≤◌, ◌<◌, ◌≡◌, refl, false, [], ◌∷◌, arith, codes,
}
use pico_bootrom_crashdump.Buffer.{Buffer, load16, load32}
use pico_bootrom_crashdump.Platform.{rp2040}
use pico_bootrom_crashdump.Disk.Layout.{clus_index, clus_info, clus_crash_start}
use pico_bootrom_crashdump.Disk.Xxd.{xxd}
use pico_bootrom_crashdump.Disk.Xxd.Image.{xxd_at, xxd_image}
use pico_bootrom_crashdump.Disk.Xxd.Decode.{undump, undump-xxd}
use pico_bootrom_crashdump.Disk.Read.{Env, BootDeviceState, vd_read_block}
use pico_bootrom_crashdump.Disk.Read.Host.{
  read, read-fat, undump-read, undump-read_overrun, read_directory,
}
use pico_bootrom_crashdump.Disk.Read.Isolation.{TextFits, read_isolated}

-- Every address holds its last seven bits.
abbrev pub pattern_ram : ℕ → ℕ
pattern_ram a = a % 128

abbrev pub old_buffer : Buffer
old_buffer j = 0x5a

abbrev pub environment : Env
environment = record {
  sdk = rp2040;
  ram = pattern_ram;
  time_us = 123456;
  welcome_html_z = 0x3c ∷ 0x68 ∷ 0x3e ∷ 0xfe ∷ 2 ∷ [];
  welcome_html_len = 5;
  welcome_html_version_offset_1 = 10;
  welcome_html_version_offset_2 = 30;
  info_uf2_txt = codes "UF2";
  serial_number_string = codes "E0123456789A";
}

abbrev pub state : BootDeviceState
state = record { serial_number32 = 0; serial_number_valid = false }

dumped_byte :
    undump (read environment state (308 + 1000 / 128) old_buffer) (1000 % 128)
    ≡ pattern_ram (rp2040.sram_base + 1000)
dumped_byte = undump-read environment state old_buffer 1000 (omega arith) (omega arith)

dumped_overrun :
    undump (read environment state (308 + 270336 / 128) old_buffer) (270336 % 128)
    ≡ pattern_ram rp2040.sram_end
dumped_overrun = undump-read_overrun environment state old_buffer 0 refl (omega arith) (omega arith)

read-fat_example :
    load16 (read environment state (2 + 129 * 1 + 5 / 256) old_buffer) (2 * (5 % 256)) ≡ 6
read-fat_example =
    read-fat environment state old_buffer 1 5 (omega arith) (omega arith) (omega arith)

directory_of_dump :
    let root = read environment state 260 old_buffer in
    (load16 root (32 + 26) ≡ clus_index)
    × (load32 root (32 + 28) ≡ 5)
    × (load16 root (64 + 26) ≡ clus_info)
    × (load32 root (64 + 28) ≡ 3)
    × (load16 root (96 + 26) ≡ clus_crash_start)
    × (load32 root (96 + 28) ≡ 1081344)
directory_of_dump =
    read_directory environment state old_buffer (omega arith) (omega arith) (omega arith)

xxd_image_example : xxd pattern_ram 0x20000000 old_buffer 70 ≡ xxd_at pattern_ram 0x20000000 70
xxd_image_example = xxd_image pattern_ram 0x20000000 70 old_buffer (omega arith)

undump-xxd_example : undump (xxd pattern_ram 0x20000000 old_buffer) 77 ≡ 77
undump-xxd_example = undump-xxd pattern_ram 0x20000000 77 old_buffer (omega arith) (omega arith)

pub environment-TextFits : TextFits environment
environment-TextFits = omega arith

read_isolated_example :
    ((vd_read_block environment state 292 old_buffer).0 ≡ false)
    × ((j : ℕ)
        → j < 512
        → read environment state 292 old_buffer j ≡ read environment state 292 pattern_ram j)
    × ((j : ℕ) → 512 ≤ j → read environment state 292 old_buffer j ≡ 0x5a)
read_isolated_example =
    read_isolated environment (omega arith) state 292 old_buffer pattern_ram
      (λ e. ground (arith, e))
