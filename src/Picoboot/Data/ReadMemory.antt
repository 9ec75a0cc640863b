-- ===== src/Picoboot/Data/ReadMemory.antt =====
-- What the host receives for a PICOBOOT command that reads RAM.
use pico_bootrom_crashdump.Prelude.{
  ℕ, zero, suc, ◌+◌, ◌-◌, ◌*◌, ◌/◌, ◌%◌, ◌≤◌, ◌<◌, ◌≡◌, refl, ap, ◌∙◌, arith, false, min,
}
use pico_bootrom_crashdump.Prelude.Bits.{test_bit, set_bit}
use pico_bootrom_crashdump.Buffer.{Buffer}
use pico_bootrom_crashdump.Platform.{IsValid}
use pico_bootrom_crashdump.Task.{Machine, Env}
use pico_bootrom_crashdump.Stream.{Packet, setup_transfer, chunk_offset, in_complete}
use pico_bootrom_crashdump.Picoboot.{Protocol, PicobootCmd, PicobootState, sending}
use pico_bootrom_crashdump.Picoboot.Command.{
  cmd_mapping, init_cmd, start_cmd, dispatch_cmd, picoboot_cmd_packet,
}
use pico_bootrom_crashdump.Picoboot.Replies.{reply, after}
use pico_bootrom_crashdump.Picoboot.Data.{
  IsDataCmd, DataTransfer, DataResult, sent, data_transfer, complete_data, data_packet, next_data,
}
use pico_bootrom_crashdump.Picoboot.Data.ReadTask.{IsReadTask, IsRamRange}
use pico_bootrom_crashdump.Picoboot.Data.Reading.{IsAt, IsSending, IsLoaded, loaded}

-- The answer to the request for packet `k` of a transfer.
abbrev pub result : Env → ℕ → DataTransfer → ℕ → DataResult
result env buffer t zero = data_packet env buffer t
result env buffer t (suc k) = next_data env buffer (result env buffer t k)

module _ (env : Env) (valid : IsValid env.sdk) (buffer addr size : ℕ)
    (range : IsRamRange env buffer addr size) (ram : Buffer) where
  -- The packet `k` of the memory that is read.
  pub record IsPacketOf (k : ℕ) (p : Packet) : Type 0 where
    pub data_len : p.data_len ≡ min 64 (size - 64 * k)
    pub bytes : (j : ℕ) → j < min 64 (size - 64 * k) → p.bytes j ≡ ram (addr + (64 * k + j))

  module _ (k : ℕ) (u : DataTransfer) (l : IsLoaded env valid buffer addr size range ram k u)
      (more : 64 * k < size) where
    r : IsAt env valid buffer addr size range ram k (256 * ((k + 4) / 4)) u
    r = l.is_at

    packet-IsPacketOf : IsPacketOf k (complete_data buffer u).0
    unfolding complete_data in_complete chunk_offset
    packet-IsPacketOf = record {
      data_len = ground (arith, r, range.high, valid.sram_fits);
      bytes = λ j h.
          let place : 64 * k % 256 + j ≡ 64 * (k % 4) + j = omega arith in
          let same : 256 * (k / 4) + (64 * (k % 4) + j) ≡ 64 * k + j = omega arith in
          ap (λ (o : ℕ). u.machine.ram (buffer + o)) (ground (arith, r, place))
          ∙ l.filled (64 * (k % 4) + j) (omega arith) (omega arith)
          ∙ ap (λ (o : ℕ). ram (addr + o)) same;
    }

    next-IsSending :
        64 * suc k ≤ size
        → IsSending env valid buffer addr size range ram (suc k) (complete_data buffer u).1
    unfolding complete_data in_complete
    next-IsSending some_left = record {
      is_at = record {
        offset = ground (arith, r, range.high, valid.sram_fits);
        transfer_length = r.transfer_length;
        chunk_size = r.chunk_size;
        task = r.task;
        buffer_at = r.buffer_at;
        at = omega (arith, r.at);
        awake = r.awake;
        no_disk = r.no_disk;
        same = r.same;
      };
      filled = λ inner j h lt.
          let e : suc k / 4 ≡ k / 4 = omega arith in rw e (l.filled j h (omega arith));
    }

  module _ (t : DataTransfer) (start : IsSending env valid buffer addr size range ram 0 t) where
    -- The packet `k` is sent, cut from a buffer with its chunk.
    abbrev IsSent : ℕ → Type 0
    IsSent k =
        (u : DataTransfer) × (result env buffer t k
          ≡ sent (complete_data buffer u).0 (complete_data buffer u).1)
        × IsLoaded env valid buffer addr size range ram k u

    all-IsSent : (k : ℕ) → 64 * k < size → IsSent k
    all-IsSent zero more = loaded env valid buffer addr size range ram 0 t start more
    all-IsSent (suc k) more =
        let (u, e, l) = all-IsSent k (omega arith) in
        let next = next-IsSending k u l (omega arith) (omega arith) in
        let (v, f, m) =
          loaded env valid buffer addr size range ram (suc k) (complete_data buffer u).1 next
            more in
        (v, ap (next_data env buffer) e ∙ f, m)

module _ (protocol : Protocol) (cmd : PicobootCmd) (len : ℕ) (c : IsDataCmd protocol cmd len 4)
    (s : PicobootState) (idle : s.disk_queue.full ≡ false) (env : Env) (valid : IsValid env.sdk)
    (buffer : ℕ) (range : IsRamRange env buffer cmd.addr cmd.size) (m : Machine)
    (awake : m.rebooting ≡ false) where
  reply-sending : reply protocol cmd buffer len s ≡ sending cmd.size
  unfolding picoboot_cmd_packet dispatch_cmd start_cmd init_cmd cmd_mapping test_bit set_bit
  reply-sending = ground (arith, c)

  started : PicobootState
  started = after protocol cmd buffer len s

  -- What the command leaves in its task and in the queue of the disk.
  started-task :
      (started.task.kind ≡ 4)
      × (started.task.buffer ≡ buffer)
      × (started.task.transfer_addr ≡ cmd.addr)
      × (started.disk_queue ≡ s.disk_queue)
  unfolding started picoboot_cmd_packet dispatch_cmd start_cmd init_cmd cmd_mapping test_bit set_bit
  started-task = ground (arith, c)

  started-IsReadTask : IsReadTask started.task
  unfolding test_bit
  started-IsReadTask =
      let e = started-task.0 in
      record {
        plain = record {
          no_exit_xip = rw e refl;
          no_exclusive = rw e refl;
          no_exec = rw e refl;
          no_vectorize = rw e refl;
        };
        reads = rw e refl;
        no_write = rw e refl;
        no_erase = rw e refl;
        no_enter = rw e refl;
      }

  start-IsSending :
      IsSending env valid buffer cmd.addr cmd.size range m.ram 0
        (data_transfer buffer cmd.size started m)
  unfolding data_transfer setup_transfer
  start-IsSending = record {
    is_at = record {
      offset = refl;
      transfer_length = refl;
      chunk_size = refl;
      task = started-IsReadTask;
      buffer_at = started-task.1;
      at = omega (arith, started-task.2);
      awake = awake;
      no_disk = rw (started-task.3) idle;
      same = λ a lo hi. refl;
    };
    filled = λ inner. absurd (omega arith);
  }

  -- A PICOBOOT command to read RAM is answered with the memory it names. It is taken as a transfer of as
  -- many bytes to the host, and each packet that the host asks for, until they are all sent, is sent on
  -- an endpoint that is not halted: a full one of 64 bytes, or the rest, with the bytes of memory in
  -- their order. Each chunk of 256 bytes waits for a round of the worker. The command is valid, the
  -- range lies in SRAM and apart from the buffer of a chunk, no task of the disk waits, and the device is
  -- not about to reboot.
  pub read_cmd-memory :
      (reply protocol cmd buffer len s ≡ sending cmd.size)
      × ((k : ℕ)
          → 64 * k < cmd.size
          → (p : Packet) × (t : DataTransfer) × (result env buffer
                (data_transfer buffer cmd.size (after protocol cmd buffer len s) m)
                k
              ≡ sent p t)
            × IsPacketOf env valid buffer cmd.addr cmd.size range m.ram k p)
  unfolding started
  read_cmd-memory = (
    reply-sending,
    λ k more.
        let (u, e, l) =
          all-IsSent env valid buffer cmd.addr cmd.size range m.ram
            (data_transfer buffer cmd.size started m) start-IsSending k more in
        (
          (complete_data buffer u).0,
          (complete_data buffer u).1,
          e,
          packet-IsPacketOf env valid buffer cmd.addr cmd.size range m.ram k u l more,
        ),
  )
