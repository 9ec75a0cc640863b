-- ===== src/Picoboot/Data/Reading.antt =====
-- The packets of memory that the host reads with PICOBOOT.
use pico_bootrom_crashdump.Prelude.{
  ℕ, ◌+◌, ◌-◌, ◌*◌, ◌/◌, ◌%◌, ◌≤◌, ◌<◌, ◌≡◌, ◌≢◌, refl, ◌∙◌, arith, ℕ_discrete, true, false, some,
  min, ◌==◌, if◌then◌else◌,
}
use pico_bootrom_crashdump.Buffer.{Buffer}
use pico_bootrom_crashdump.Platform.{IsValid, is_address_ram}
use pico_bootrom_crashdump.Task.{Task, Machine, Env}
use pico_bootrom_crashdump.Task.Execute.{add32, copy, direct_access, execute}
use pico_bootrom_crashdump.Task.Queue.{queue_task, dequeue_task, execute_task, worker_round}
use pico_bootrom_crashdump.Stream.{chunk_offset, in_chunk_len}
use pico_bootrom_crashdump.Picoboot.{PicobootState}
use pico_bootrom_crashdump.Picoboot.Chunks.{on_stream_chunk, chunk_task_done}
use pico_bootrom_crashdump.Picoboot.Data.ReadTask.{IsReadTask, execute-read, IsRamRange}
use pico_bootrom_crashdump.Picoboot.Data.{
  DataTransfer, sent, complete_data, run_worker, done_chunk, data_packet,
}

module _ (env : Env) (valid : IsValid env.sdk) (buffer addr size : ℕ)
    (range : IsRamRange env buffer addr size) (ram : Buffer) where
  -- What holds of the transfer at each packet, with the next address of its task.
  pub record IsAt (k next : ℕ) (t : DataTransfer) : Type 0 where
    pub offset : t.stream.offset ≡ 64 * k
    pub transfer_length : t.stream.transfer_length ≡ size
    pub chunk_size : t.stream.chunk_size ≡ 256
    pub task : IsReadTask t.boot.task
    pub buffer_at : t.boot.task.buffer ≡ buffer
    pub at : t.boot.task.transfer_addr ≡ addr + min next size
    pub awake : t.machine.rebooting ≡ false
    pub no_disk : t.boot.disk_queue.full ≡ false
    pub same : (a : ℕ) → addr ≤ a → a < addr + size → t.machine.ram a ≡ ram a

  -- The buffer holds the chunk of the packet `k`.
  abbrev IsFilled : ℕ → DataTransfer → Type 0
  IsFilled k t =
      (j : ℕ)
      → j < 256
      → 256 * (k / 4) + j < size
      → t.machine.ram (buffer + j) ≡ ram (addr + (256 * (k / 4) + j))

  -- The transfer before its packet `k`.
  pub record IsSending (k : ℕ) (t : DataTransfer) : Type 0 where
    pub is_at : IsAt k (256 * ((k + 3) / 4)) t
    pub filled : 0 < k % 4 → IsFilled k t

  -- The same once the chunk of the packet is there.
  pub record IsLoaded (k : ℕ) (t : DataTransfer) : Type 0 where
    pub is_at : IsAt k (256 * ((k + 4) / 4)) t
    pub filled : IsFilled k t

  module _ (k : ℕ) (t : DataTransfer) (s : IsSending k t) (more : 64 * k < size) where
    r : IsAt k (256 * ((k + 3) / 4)) t
    r = s.is_at

    chunk_len : in_chunk_len t.stream ≡ (if k % 4 == 0 then min 256 (size - 64 * k) else 0)
    unfolding in_chunk_len chunk_offset
    chunk_len = ground (arith, r, range.high, valid.sram_fits)

    -- The chunk that the packet asks for if it is the first of one.
    abbrev len : ℕ
    len = min 256 (size - 64 * k)

    abbrev asked : PicobootState
    asked = on_stream_chunk len t.boot

    abbrev task : Task
    task = asked.picoboot_queue.task

    asked-IsReadTask : IsReadTask task
    unfolding on_stream_chunk queue_task
    asked-IsReadTask = ground (arith, r.task, r.task.plain)

    asked-at : k % 4 ≡ 0 → task.transfer_addr ≡ addr + 64 * k
    unfolding on_stream_chunk queue_task
    asked-at first = omega (arith, r.at)

    asked-direct : k % 4 ≡ 0 → direct_access env task ≡ true
    unfolding direct_access is_address_ram on_stream_chunk queue_task
    asked-direct first =
        let end : add32 t.boot.task.transfer_addr len ≡ addr + 64 * k + len =
          omega (arith, r.at, range.high, valid.sram_fits) in
        ground (arith, r.at, end, range.low, range.high)

    -- The machine behind the task of the chunk.
    abbrev chunk_machine : Machine
    chunk_machine = record (t.machine) { ram = copy t.machine.ram buffer (addr + 64 * k) len }

    executed : k % 4 ≡ 0 → execute env task t.machine ≡ (env.sdk.picoboot_ok, chunk_machine)
    unfolding on_stream_chunk queue_task
    executed first =
        execute-read env task t.machine asked-IsReadTask r.awake (asked-direct first)
        ∙ rw (r.buffer_at, asked-at first) refl

    -- What the worker leaves.
    abbrev run : DataTransfer
    run = record t {
      boot = record asked { picoboot_queue = record (asked.picoboot_queue) { full = false } };
      machine = chunk_machine;
    }

    worked :
        k % 4 ≡ 0
        → run_worker env (record t { boot = asked })
          ≡ (some (record task { result = env.sdk.picoboot_ok }), run)
    unfolding run_worker worker_round dequeue_task execute_task on_stream_chunk queue_task
    worked first = ground (arith, r.no_disk, executed first)

    -- Where the packet is cut from, behind the completion of the task.
    abbrev behind : DataTransfer
    behind = record run {
      boot = (chunk_task_done (record task { result = env.sdk.picoboot_ok }) run.boot).1;
    }

    done_chunk_lem :
        done_chunk buffer (record task { result = env.sdk.picoboot_ok }) run
        ≡ sent (complete_data buffer behind).0 (complete_data buffer behind).1
    unfolding done_chunk chunk_task_done on_stream_chunk queue_task
    done_chunk_lem = ground (arith, valid.ok_zero)

    first_packet :
        k % 4 ≡ 0
        → data_packet env buffer t
          ≡ sent (complete_data buffer behind).0 (complete_data buffer behind).1
    unfolding data_packet
    first_packet first =
        let l : in_chunk_len t.stream ≡ len = ground (arith, chunk_len) in
        let some_len : (len == 0) ≡ false = ground arith in
        rw (l, some_len, worked first) done_chunk_lem

    later_packet :
        k % 4 ≢ 0
        → data_packet env buffer t ≡ sent (complete_data buffer t).0 (complete_data buffer t).1
    unfolding data_packet
    later_packet later = ground (arith, chunk_len)

    behind-task :
        behind.boot.task
        ≡ record (asked.task) { transfer_addr = add32 t.boot.task.transfer_addr len }
    unfolding chunk_task_done on_stream_chunk queue_task
    behind-task = ground arith

    behind-IsReadTask : IsReadTask behind.boot.task
    unfolding on_stream_chunk queue_task
    behind-IsReadTask = rw behind-task (ground (arith, r.task, r.task.plain))

    behind-disk : behind.boot.disk_queue ≡ t.boot.disk_queue
    unfolding chunk_task_done on_stream_chunk
    behind-disk = ground arith

    behind-IsLoaded : k % 4 ≡ 0 → IsLoaded k behind
    unfolding on_stream_chunk queue_task
    behind-IsLoaded first = record {
      is_at = record {
        offset = r.offset;
        transfer_length = r.transfer_length;
        chunk_size = r.chunk_size;
        task = behind-IsReadTask;
        buffer_at = rw behind-task r.buffer_at;
        at = rw behind-task (omega (arith, r.at, range.high, valid.sram_fits));
        awake = r.awake;
        no_disk = rw behind-disk r.no_disk;
        same = λ a lo hi. ground (arith, range.apart, r.same a lo hi);
      };
      filled = λ j h l.
          let place : addr + 64 * k + (buffer + j - buffer) ≡ addr + (256 * (k / 4) + j) =
            omega arith in
          let inside : j < len = omega arith in
          ground (arith, place, inside, r.same (addr + (256 * (k / 4) + j)));
    }

    later-IsLoaded : k % 4 ≢ 0 → IsLoaded k t
    later-IsLoaded later = record { is_at = rw (← same_next) r; filled = s.filled (omega arith) }
      where
        same_next : (k + 3) / 4 ≡ (k + 4) / 4
        same_next = omega arith

    -- The packet is cut from a buffer that holds its chunk.
    pub loaded :
        (u : DataTransfer) × (data_packet env buffer t
          ≡ sent (complete_data buffer u).0 (complete_data buffer u).1)
        × IsLoaded k u
    loaded = elim (ℕ_discrete (k % 4) 0) [
      | yes first ↦ (behind, first_packet first, behind-IsLoaded first)
      | no later ↦ (t, later_packet later, later-IsLoaded later)
    ]
