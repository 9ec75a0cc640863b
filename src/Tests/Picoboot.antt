-- ===== src/Tests/Picoboot.antt =====
-- Memory read and written with PICOBOOT.
use pico_bootrom_crashdump.Prelude.{ℕ, ◌+◌, ◌*◌, ◌%◌, ◌≤◌, ◌<◌, ◌≡◌, ◌⊎◌, inr, refl, arith}
use pico_bootrom_crashdump.Platform.{rp2040-IsValid}
use pico_bootrom_crashdump.Stream.{Packet}
use pico_bootrom_crashdump.Buffer.{Buffer}
use pico_bootrom_crashdump.Picoboot.{PicobootCmd, receiving, sending}
use pico_bootrom_crashdump.Picoboot.Write.{taken, taking}
use pico_bootrom_crashdump.Picoboot.Write.WriteMemory.{write_cmd-memory}
use pico_bootrom_crashdump.Picoboot.Replies.{reply, after}
use pico_bootrom_crashdump.Picoboot.Data.{DataTransfer, IsDataCmd, sent, data_transfer}
use pico_bootrom_crashdump.Picoboot.Data.ReadTask.{IsRamRange}
use pico_bootrom_crashdump.Picoboot.Data.ReadMemory.{result, IsPacketOf, read_cmd-memory}
use pico_bootrom_crashdump.Tests.Task.{environment, machine}
use pico_bootrom_crashdump.Tests.Usb.{protocol, read_cmd, idle_state}

read_cmd-IsDataCmd : IsDataCmd protocol read_cmd 32 4
read_cmd-IsDataCmd = ground arith

sram-IsRamRange : IsRamRange environment 0x50100000 0x20000000 600
sram-IsRamRange = record { low = omega arith; high = omega arith; apart = inr (omega arith) }

read_cmd-memory_example :
    (reply protocol read_cmd 0x50100000 32 idle_state ≡ sending 600)
    × ((k : ℕ)
        → 64 * k < 600
        → (p : Packet) × (t : DataTransfer) × (result environment 0x50100000
              (data_transfer 0x50100000 600
                (after protocol read_cmd 0x50100000 32 idle_state)
                machine)
              k
            ≡ sent p t)
          × IsPacketOf environment rp2040-IsValid 0x50100000 0x20000000 600 sram-IsRamRange
              machine.ram k p)
read_cmd-memory_example =
    read_cmd-memory protocol read_cmd 32 read_cmd-IsDataCmd idle_state refl environment
      rp2040-IsValid 0x50100000 sram-IsRamRange machine refl

abbrev write_cmd : PicobootCmd
write_cmd = record read_cmd { cmd_id = 0x05 }

write_cmd-IsDataCmd : IsDataCmd protocol write_cmd 32 5
write_cmd-IsDataCmd = ground arith

-- Each byte is its index, in 7 bits.
abbrev message : Buffer
message j = j % 128

write_cmd-memory_example :
    (reply protocol write_cmd 0x50100000 32 idle_state ≡ receiving 600)
    × (t : DataTransfer) × (taking environment 0x50100000 message 600
          (data_transfer 0x50100000 600 (after protocol write_cmd 0x50100000 32 idle_state) machine)
          10
        ≡ taken t)
    × ((j : ℕ) → j < 600 → t.machine.ram (0x20000000 + j) ≡ message j)
    × ((a : ℕ)
        → (a < 0x20000000) ⊎ (0x20000258 ≤ a)
        → (a < 0x50100000) ⊎ (0x50100100 ≤ a)
        → t.machine.ram a ≡ machine.ram a)
write_cmd-memory_example =
    write_cmd-memory protocol write_cmd 32 write_cmd-IsDataCmd idle_state refl environment
      rp2040-IsValid 0x50100000 sram-IsRamRange machine refl message
