-- ===== src/Picoboot/Write/WriteMemory.antt =====
-- What a PICOBOOT command that writes RAM does with the data of the host.
use pico_bootrom_crashdump.Prelude.{
  ℕ, zero, suc, ◌+◌, ◌*◌, ◌/◌, ◌≤◌, ◌<◌, ◌≡◌, ◌⊎◌, inl, refl, ap, ◌∙◌, arith, false,
}
use pico_bootrom_crashdump.Prelude.Bits.{test_bit, set_bit}
use pico_bootrom_crashdump.Buffer.{Buffer}
use pico_bootrom_crashdump.Platform.{IsValid}
use pico_bootrom_crashdump.Task.{Machine, Env}
use pico_bootrom_crashdump.Stream.{setup_transfer}
use pico_bootrom_crashdump.Stream.Out.{packet, received}
use pico_bootrom_crashdump.Picoboot.{Protocol, PicobootCmd, PicobootState, receiving}
use pico_bootrom_crashdump.Picoboot.Command.{
  cmd_mapping, init_cmd, start_cmd, dispatch_cmd, picoboot_cmd_packet,
}
use pico_bootrom_crashdump.Picoboot.Replies.{reply, after}
use pico_bootrom_crashdump.Picoboot.Data.{IsDataCmd, DataTransfer, data_transfer}
use pico_bootrom_crashdump.Picoboot.Data.ReadTask.{IsRamRange}
use pico_bootrom_crashdump.Picoboot.Write.{taken, next_packet, taking}
use pico_bootrom_crashdump.Picoboot.Write.WriteTask.{IsWriteTask}
use pico_bootrom_crashdump.Picoboot.Write.Packets.{IsTaking, next-IsTaking}

-- How many packets a message has.
abbrev pub packets : ℕ → ℕ
packets size = (size + 63) / 64

module _ (protocol : Protocol) (cmd : PicobootCmd) (len : ℕ) (c : IsDataCmd protocol cmd len 5)
    (s : PicobootState) (idle : s.disk_queue.full ≡ false) (env : Env) (valid : IsValid env.sdk)
    (buffer : ℕ) (range : IsRamRange env buffer cmd.addr cmd.size) (m : Machine)
    (awake : m.rebooting ≡ false) (message : Buffer) where
  reply-receiving : reply protocol cmd buffer len s ≡ receiving cmd.size
  unfolding picoboot_cmd_packet dispatch_cmd start_cmd init_cmd cmd_mapping test_bit set_bit
  reply-receiving = ground (arith, c)

  started : PicobootState
  started = after protocol cmd buffer len s

  -- What the command leaves in its task and in the queue of the disk.
  started-task :
      (started.task.kind ≡ 8)
      × (started.task.buffer ≡ buffer)
      × (started.task.transfer_addr ≡ cmd.addr)
      × (started.task.check_last_mutation_source ≡ false)
      × (started.disk_queue ≡ s.disk_queue)
  unfolding started picoboot_cmd_packet dispatch_cmd start_cmd init_cmd cmd_mapping test_bit set_bit
  started-task = ground (arith, c)

  started-IsWriteTask : IsWriteTask started.task
  unfolding test_bit
  started-IsWriteTask =
      let e = started-task.0 in
      record {
        plain = record {
          no_exit_xip = rw e refl;
          no_exclusive = rw e refl;
          no_exec = rw e refl;
          no_vectorize = rw e refl;
        };
        writes = rw e refl;
        no_read = rw e refl;
        no_erase = rw e refl;
        no_enter = rw e refl;
      }

  start : DataTransfer
  start = data_transfer buffer cmd.size started m

  abbrev before : Buffer
  before j = m.ram (buffer + j)

  abbrev Taking : ℕ → DataTransfer → Type 0
  Taking = IsTaking env valid buffer cmd.addr cmd.size range m.ram message before

  start-IsTaking : Taking 0 start
  unfolding start data_transfer setup_transfer received
  start-IsTaking = record {
    same_stream = refl;
    written = record {
      task = started-IsWriteTask;
      buffer_at = started-task.1;
      at = ground (arith, started-task.2);
      awake = awake;
      no_disk = rw (started-task.4) idle;
      cleared = inl (started-task.3);
      written = λ j h. ground (arith, c.some_data);
      kept = λ a out apart. refl;
    };
  }

  all-IsTaking :
      (k : ℕ)
      → 64 * k < cmd.size + 64
      → (u : DataTransfer) × (taking env buffer message cmd.size start k ≡ taken u) × Taking k u
  all-IsTaking zero l = (start, refl, start-IsTaking)
  all-IsTaking (suc k) l =
      let (u, e, r) = all-IsTaking k (omega arith) in
      let (v, f, t) =
        next-IsTaking env valid buffer cmd.addr cmd.size range m.ram message before k u r
          (omega arith) in
      (v, ap (next_packet env buffer (packet message cmd.size k)) e ∙ f, t)

  -- A PICOBOOT command to write RAM puts the data of the host into memory. It is taken as a transfer of as
  -- many bytes from the host, whose packets are all taken, the endpoint never halted, each chunk of 256
  -- bytes with a round of the worker; and then memory holds the data where the command says, and is
  -- as it was elsewhere, but for the buffer of a chunk. The command is valid, the range lies in SRAM and
  -- apart from that buffer, no task of the disk waits, and the device is not about to reboot.
  pub write_cmd-memory :
      (reply protocol cmd buffer len s ≡ receiving cmd.size)
      × (t : DataTransfer) × (taking env buffer message cmd.size
            (data_transfer buffer cmd.size (after protocol cmd buffer len s) m)
            (packets cmd.size)
          ≡ taken t)
      × ((j : ℕ) → j < cmd.size → t.machine.ram (cmd.addr + j) ≡ message j)
      × ((a : ℕ)
          → (a < cmd.addr) ⊎ (cmd.addr + cmd.size ≤ a)
          → (a < buffer) ⊎ (buffer + 256 ≤ a)
          → t.machine.ram a ≡ m.ram a)
  unfolding start started
  write_cmd-memory =
      let (u, e, r) = all-IsTaking (packets cmd.size) (omega arith) in
      let past : cmd.size ≤ 64 * packets cmd.size = omega arith in
      (reply-receiving, u, e, λ j h. r.written.written j (ground (arith, past)), r.written.kept)
