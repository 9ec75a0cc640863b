-- ===== src/Msc/Sectors/Dump.antt =====
-- The crash dump of bootrom/virtual_disk.c in the packets that the host receives.
use pico_bootrom_crashdump.Prelude.{
  ℕ, ◌+◌, ◌*◌, ◌/◌, ◌%◌, ◌<◌, ◌≡◌, ap, ◌∙◌, arith, Option, none, some, List,
}
use pico_bootrom_crashdump.Buffer.{Buffer}
use pico_bootrom_crashdump.Disk.Layout.{mem_size}
use pico_bootrom_crashdump.Disk.Xxd.Decode.{undump, column, unhex}
use pico_bootrom_crashdump.Disk.Read.{Env, BootDeviceState}
use pico_bootrom_crashdump.Disk.Read.Host.{read, undump-read}
use pico_bootrom_crashdump.Disk.Read.Isolation.{TextFits}
use pico_bootrom_crashdump.Stream.{Packet}
use pico_bootrom_crashdump.Msc.{MscState, Cbw}
use pico_bootrom_crashdump.Msc.Command.{msc_cmd_packet}
use pico_bootrom_crashdump.Msc.Sectors.{SectorTransfer, sector_transfer, read_packet, reading}
use pico_bootrom_crashdump.Msc.Sectors.ReadCommand.{IsRead, read_command-sectors}

abbrev pub packet_bytes : Option Packet → Buffer
packet_bytes none j = 0
packet_bytes (some p) j = p.bytes j

-- The sector `i` of a transfer, put together from its eight packets.
abbrev pub received_sector : Env → SectorTransfer → ℕ → Buffer
received_sector env t i c =
    packet_bytes (read_packet env (reading env t (8 * i + c / 64))).0 (c % 64)

-- Where a byte of the dump stands lies within the sector.
column_bounds : (i : ℕ) → i < 128 → column i + 1 < 512
column_bounds i h = omega arith

undump-same :
    (a b : Buffer) (i : ℕ) → i < 128 → ((c : ℕ) → c < 512 → a c ≡ b c) → undump a i ≡ undump b i
undump-same a b i h same = omega (
  arith,
  ap unhex (same (column i) (omega (arith, column_bounds i h))),
  ap unhex (same (column i + 1) (column_bounds i h)),
)

module _ (inquiry : List ℕ) (cbw : Cbw) (s : MscState) (r : IsRead cbw) (env : Env)
    (fits : TextFits env) (d : BootDeviceState) (buf : Buffer) where
  transfer : SectorTransfer
  transfer = sector_transfer buf (cbw.blocks * 512) (msc_cmd_packet inquiry cbw 31 s).1 d

  received_sector-read :
      (i c : ℕ)
      → i < cbw.blocks
      → c < 512
      → received_sector env transfer i c ≡ read env d (cbw.lba + i) buf c
  unfolding transfer
  received_sector-read i c h l =
      let whole = read_command-sectors inquiry cbw s r env fits d buf in
      let (p, e, len, bytes) = whole.1 (8 * i + c / 64) (omega arith) in
      let sector : cbw.lba + (8 * i + c / 64) / 8 ≡ cbw.lba + i = omega arith in
      let place : 64 * ((8 * i + c / 64) % 8) + c % 64 ≡ c = omega arith in
      ap (λ (o : Option Packet). packet_bytes o (c % 64)) e
      ∙ bytes (c % 64) (omega arith)
      ∙ ap (λ (lba : ℕ). read env d lba buf (64 * ((8 * i + c / 64) % 8) + c % 64)) sector
      ∙ ap (read env d (cbw.lba + i) buf) place

  -- Whoever reads blocks of the crash dump with a READ(10) receives memory: the byte at the offset `a`
  -- of SRAM is found, in two hex digits, in the packets of the sector `i` of the transfer, if that is the
  -- sector of the file that covers it. The command is valid, and memory holds a byte there, below 256.
  pub read_command-dump :
      (i a : ℕ)
      → i < cbw.blocks
      → cbw.lba + i ≡ 308 + a / 128
      → a < mem_size env.sdk
      → env.ram (env.sdk.sram_base + a) < 256
      → undump
          (received_sector env
            (sector_transfer buf (cbw.blocks * 512) (msc_cmd_packet inquiry cbw 31 s).1 d)
            i)
          (a % 128)
        ≡ env.ram (env.sdk.sram_base + a)
  unfolding transfer
  read_command-dump i a h here inside byte =
      undump-same (received_sector env transfer i) (read env d (cbw.lba + i) buf) (a % 128)
        (omega arith) (λ c l. received_sector-read i c h l)
      ∙ ap (λ (lba : ℕ). undump (read env d lba buf) (a % 128)) here
      ∙ undump-read env d buf a inside byte
