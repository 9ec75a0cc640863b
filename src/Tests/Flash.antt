-- ===== src/Tests/Flash.antt =====
-- Exchanges with a flash chip over the SSI.
use pico_bootrom_crashdump.Prelude.Bits.{set_bit, clear_bit, or_bits}
use pico_bootrom_crashdump.Buffer.{for_up}
use pico_bootrom_crashdump.Flash.Setup.{
  FlashRegs, FlashPort, all_pads, connect_internal_flash, flash_init_spi, flash_cs_force, clock_out,
  recovery_rounds, flash_exit_xip, flash_enter_cmd_xip,
}
use pico_bootrom_crashdump.Flash.Recovery.{
  IsApart, IsPulled, IsFloating, recovery, exit_xip-recovery,
}
use pico_bootrom_crashdump.Prelude.{
  ℕ, ◌+◌, ◌*◌, ◌^◌, ◌≤◌, ◌≡◌, inl, refl, Bool, true, false, some, List, [], ◌∷◌, arith, ◌==◌,
  if◌then◌else◌, get_or,
}
use pico_bootrom_crashdump.Buffer.{Buffer}
use pico_bootrom_crashdump.Flash.Transfer.{put_get, is_busy}
use pico_bootrom_crashdump.Flash.Fifo.{
  at_test, saw_both, System, in_flight, act, Reach, here, next, read_tx, read_rx, finish_round,
  shift_out, first,
}
use pico_bootrom_crashdump.Flash.Exchange.{IsStarted, put_get-bounds, put_get-received}
use pico_bootrom_crashdump.Flash.Live.{put_get-ends}
use pico_bootrom_crashdump.Flash.Commands.{
  Sent, flash_range_erase, flash_read_sfdp, flash_put_cmd_addr,
}
use pico_bootrom_crashdump.Flash.Erase.{
  Block, IsBlockSize, Tiles, writes, erases, range_erase-Tiles,
}
use pico_bootrom_crashdump.Flash.Detect.{flash_size_log2, size-encoded}

abbrev message : Buffer
message k = 10 + k

abbrev incoming : Buffer
incoming k = 100 + k

-- Three bytes are to be exchanged behind a command of one byte, which is in flight.
abbrev start : System
start = record {
  tx_fifo = 1;
  shifting = 0;
  rx_fifo = 0;
  taken = 0;
  place = at_test;
  code = record { tx_count = 3; rx_skip = 1; rx_count = 3; sent = []; received = [] };
}

start-IsStarted : IsStarted 3 1 start
unfolding put_get
start-IsStarted = (refl, refl, refl, refl, omega arith)

start-is_busy : is_busy start.code ≡ true
unfolding is_busy
start-is_busy = refl

-- The command goes into a shift register while the first round reads the levels.
abbrev first_round : Reach message incoming start (
    act
      (message 0)
      (record { tx_level = 1; rx_level = 0; rx_byte = incoming 0; aborted = false })
      (record start { tx_fifo = 0; shifting = 1; place = saw_both 1 0 }))
first_round =
    next
      (next (next (next here (read_tx refl start-is_busy)) (shift_out (omega arith) (omega arith)))
        (read_rx 1 refl))
      (finish_round 1 0 refl)

put_get-bounds_example :
    in_flight (
      act
        (message 0)
        (record { tx_level = 1; rx_level = 0; rx_byte = incoming 0; aborted = false })
        (record start { tx_fifo = 0; shifting = 1; place = saw_both 1 0 }))
    ≤ 16
put_get-bounds_example =
    put_get-bounds message incoming 3 1 (omega arith) (omega arith) start-IsStarted first_round

put_get-ends_example : (u : System) × Reach message incoming start u × (is_busy u.code ≡ false)
put_get-ends_example =
    put_get-ends message incoming 3 1 (omega arith) (omega arith) start-IsStarted here

-- The end of a run that exists by the theorem before.
abbrev run : (u : System) × Reach message incoming start u × (is_busy u.code ≡ false)
run = put_get-ends message incoming 3 1 (omega arith) (omega arith) start-IsStarted here

put_get-received_example :
    (run.0.code.sent ≡ first message 3)
    × (run.0.code.received ≡ first (λ k. incoming (1 + k)) 3)
    × (in_flight run.0 ≡ 0)
put_get-received_example =
    put_get-received message incoming 3 1 (omega arith) (omega arith) start-IsStarted run.1 run.2

-- A chip that is ready at once.
abbrev ready_chip : Sent → List ℕ → Buffer
ready_chip sent bytes k = 0

abbrev never : Sent → Bool
never sent = false

block_64k : IsBlockSize 0x10000
block_64k = record {
  exponent = 16;
  power = refl;
  bits = omega arith;
  word = omega arith;
  some_size = omega arith;
  whole = refl;
}

-- A sector, a block of 64 KiB and a sector are erased.
range_erase-Tiles_example :
    (blocks : List Block) × (sent' : Sent) × (flash_range_erase ready_chip never 40 1 0xf000 0x12000
        0x10000 0xd8 []
      ≡ some sent')
    × Tiles 0x10000 0xd8 0xf000 blocks 0x21000
    × (writes sent' ≡ erases blocks [])
range_erase-Tiles_example =
    range_erase-Tiles ready_chip never 1 (λ sent. inl refl) (λ sent. refl) 0x10000 0xd8 block_64k
      (omega arith) (omega arith) 40 0xf000 0x12000 [] refl refl (omega arith) (omega arith)

-- A chip of 16 Mbit: its SFDP header, and its table at address 0x80.
abbrev sfdp_chip : Sent → List ℕ → Buffer
sfdp_chip sent bytes k =
    get_or
      (0
        ∷ 0
        ∷ 0
        ∷ 0
        ∷ 0
        ∷ (if get_or bytes 3 0 == 0x80
            then 0xe5 ∷ 0x20 ∷ 0xf1 ∷ 0xff ∷ 0xff ∷ 0xff ∷ 0xff ∷ 0 ∷ []
            else 0x53 ∷ 0x46 ∷ 0x44 ∷ 0x50 ∷ 6 ∷ 1 ∷ 0 ∷ 0xff ∷ 0 ∷ 0 ∷ 1 ∷ 9 ∷ 0x80 ∷ 0 ∷ 0 ∷ 0xff
              ∷ []))
      k 0

detected_size : (flash_size_log2 sfdp_chip []).0 ≡ some 21
unfolding flash_read_sfdp flash_put_cmd_addr or_bits
detected_size =
    size-encoded sfdp_chip [] 24 (omega arith) (omega arith) refl refl (inl (omega arith, refl))

-- The registers of the RP2040.
abbrev regs : FlashRegs
regs = record {
  outover_lsb = 8;
  sd_od = 7;
  sd_pue = 3;
  sd_pde = 2;
  dfs_32_lsb = 16;
  spi_frf_std = 0;
  tmod_tx_and_rx = 0;
  tmod_eeprom_read = 3 * 2 ^ 8;
  xip_cmd_lsb = 24;
  inst_l_lsb = 8;
  addr_l_lsb = 2;
  trans_type_1c1a = 0;
}

abbrev port : FlashPort
port = record {
  ssi = record { ssienr = 0; baudr = 0; ctrlr0 = 0; ser = 0; spi_ctrlr0 = 0 };
  ss_ctrl = 0;
  pads = all_pads 0x56;
  xip_cache = 1;
  seen = [];
}

regs-IsApart : IsApart regs
regs-IsApart = omega arith

exit_xip-recovery_example :
    (down up : ℕ) × IsFloating 7 2 3 0x56 down
    × IsFloating 7 3 2 0x56 up
    × ((flash_exit_xip regs port).seen ≡ recovery regs down up (flash_exit_xip regs port).pads)
    × ((flash_exit_xip regs port).pads.sd0 ≡ 0x56)
    × ((flash_exit_xip regs port).pads.sd1 ≡ 0x56)
    × IsPulled 3 2 0x56 (flash_exit_xip regs port).pads.sd2
    × IsPulled 3 2 0x56 (flash_exit_xip regs port).pads.sd3
    × ((flash_exit_xip regs port).ssi.ssienr ≡ 1)
    × ((flash_exit_xip regs port).ss_ctrl ≡ 0)
exit_xip-recovery_example = exit_xip-recovery regs regs-IsApart port refl

pads_in_use : (flash_exit_xip regs port).pads.sd2 ≡ 0x5a
unfolding flash_exit_xip recovery_rounds clock_out flash_cs_force flash_init_spi set_bit clear_bit
pads_in_use = refl

serial_commands :
    (flash_enter_cmd_xip regs port).ssi
    ≡ record { ssienr = 1; baudr = 0; ctrlr0 = 0x1f0300; ser = 0; spi_ctrlr0 = 0x03000218 }
unfolding flash_enter_cmd_xip
serial_commands = refl

connected : connect_internal_flash (λ k. 31) 11 ≡ 0
unfolding connect_internal_flash for_up
connected = refl
