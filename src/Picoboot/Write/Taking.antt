-- ===== src/Picoboot/Write/Taking.antt =====
-- The packets of memory that the host writes with PICOBOOT.
use pico_bootrom_crashdump.Prelude.{
  ℕ, ◌+◌, ◌-◌, ◌≤◌, ◌<◌, ◌≡◌, ◌⊎◌, inr, refl, sym, ap, ◌∙◌, arith, dec_lt, true, false, some,
}
use pico_bootrom_crashdump.Buffer.{Buffer}
use pico_bootrom_crashdump.Platform.{IsValid, is_address_ram}
use pico_bootrom_crashdump.Task.{Task, Env}
use pico_bootrom_crashdump.Task.Execute.{add32, copy, direct_access, execute}
use pico_bootrom_crashdump.Task.Queue.{queue_task, dequeue_task, execute_task, worker_round}
use pico_bootrom_crashdump.Stream.Out.{packet}
use pico_bootrom_crashdump.Picoboot.{PicobootState}
use pico_bootrom_crashdump.Picoboot.Chunks.{on_stream_chunk, chunk_task_done}
use pico_bootrom_crashdump.Picoboot.Data.{DataTransfer, run_worker}
use pico_bootrom_crashdump.Picoboot.Data.ReadTask.{IsRamRange}
use pico_bootrom_crashdump.Picoboot.Write.WriteTask.{
  IsWriteTask, IsCleared, after_write, execute-write,
}
use pico_bootrom_crashdump.Picoboot.Write.{taken, receive, complete_packet, written_chunk}

module _ (env : Env) (valid : IsValid env.sdk) (buffer addr size : ℕ)
    (range : IsRamRange env buffer addr size) (ram message : Buffer) where
  -- The first `n` bytes of the message are in memory, which is as it was but for them and the buffer.
  pub record IsWritten (n : ℕ) (t : DataTransfer) : Type 0 where
    pub task : IsWriteTask t.boot.task
    pub buffer_at : t.boot.task.buffer ≡ buffer
    pub at : t.boot.task.transfer_addr ≡ addr + n
    pub awake : t.machine.rebooting ≡ false
    pub no_disk : t.boot.disk_queue.full ≡ false
    pub cleared : IsCleared t.boot.task t.machine
    pub written : (j : ℕ) → j < n → t.machine.ram (addr + j) ≡ message j
    pub kept :
        (a : ℕ)
        → (a < addr) ⊎ (addr + size ≤ a)
        → (a < buffer) ⊎ (buffer + 256 ≤ a)
        → t.machine.ram a ≡ ram a

  module _ (n : ℕ) (t : DataTransfer) (r : IsWritten n t) (k : ℕ) (len : ℕ) (fits : n + len ≤ size)
      (page : len ≤ 256) where
    abbrev pub filled : DataTransfer
    filled = (receive buffer (packet message size k) t).1

    pub filled-IsWritten : IsWritten n filled
    unfolding receive
    filled-IsWritten = record {
      task = r.task;
      buffer_at = r.buffer_at;
      at = r.at;
      awake = r.awake;
      no_disk = r.no_disk;
      cleared = r.cleared;
      written = λ j h. ground (arith, range.apart, r.written j h);
      kept = λ a out apart. ground (arith, r.kept a out apart);
    }

    abbrev pub asked : PicobootState
    asked = on_stream_chunk len t.boot

    abbrev pub task : Task
    task = asked.picoboot_queue.task

    asked-IsWriteTask : IsWriteTask task
    unfolding on_stream_chunk queue_task
    asked-IsWriteTask = ground (arith, r.task, r.task.plain)

    asked-direct : direct_access env task ≡ true
    unfolding direct_access is_address_ram on_stream_chunk queue_task
    asked-direct =
        let end : add32 t.boot.task.transfer_addr len ≡ addr + n + len =
          omega (arith, r.at, range.high, valid.sram_fits) in
        ground (arith, r.at, end, range.low, range.high)

    executed :
        execute env task filled.machine ≡ (env.sdk.picoboot_ok, after_write env task filled.machine)
    unfolding on_stream_chunk queue_task receive
    executed =
        execute-write env task filled.machine asked-IsWriteTask r.awake r.cleared asked-direct

    -- What the worker leaves.
    abbrev pub run : DataTransfer
    run = record filled {
      boot = record asked { picoboot_queue = record (asked.picoboot_queue) { full = false } };
      machine = after_write env task filled.machine;
    }

    pub worked :
        run_worker env (record filled { boot = asked })
        ≡ (some (record task { result = env.sdk.picoboot_ok }), run)
    unfolding run_worker worker_round dequeue_task execute_task on_stream_chunk queue_task receive
    worked = ground (arith, r.no_disk, executed)

    abbrev pub behind : DataTransfer
    behind = record run {
      boot = (chunk_task_done (record task { result = env.sdk.picoboot_ok }) run.boot).1;
    }

    pub written_chunk_lem :
        written_chunk
          (packet message size k)
          (some (record task { result = env.sdk.picoboot_ok }), run)
        ≡ taken (complete_packet (packet message size k) behind)
    unfolding written_chunk chunk_task_done on_stream_chunk queue_task
    written_chunk_lem = ground (arith, valid.ok_zero)

    behind-task :
        behind.boot.task
        ≡ record (asked.task) { transfer_addr = add32 t.boot.task.transfer_addr len }
    unfolding chunk_task_done on_stream_chunk queue_task
    behind-task = ground arith

    behind-disk : behind.boot.disk_queue ≡ t.boot.disk_queue
    unfolding chunk_task_done on_stream_chunk
    behind-disk = ground arith

    behind-IsWriteTask : IsWriteTask behind.boot.task
    unfolding on_stream_chunk queue_task
    behind-IsWriteTask = rw behind-task (ground (arith, r.task, r.task.plain))

    behind-ram : behind.machine.ram ≡ copy filled.machine.ram (addr + n) buffer len
    unfolding on_stream_chunk queue_task
    behind-ram = rw (r.at, r.buffer_at) refl

    behind-outside :
        (a : ℕ)
        → (a < addr + n) ⊎ (addr + n + len ≤ a)
        → behind.machine.ram a ≡ filled.machine.ram a
    behind-outside a out = ap (λ (b : Buffer). b a) behind-ram ∙ ground arith

    behind-inside :
        (j : ℕ) → j < len → behind.machine.ram (addr + (n + j)) ≡ filled.stream.chunk_buffer j
    unfolding receive
    behind-inside j h =
        let from : buffer + (addr + (n + j) - (addr + n)) ≡ buffer + j = omega arith in
        let at : buffer + j - buffer ≡ j = omega arith in
        ap (λ (b : Buffer). b (addr + (n + j))) behind-ram ∙ ground (arith, from, at)

    -- The chunk is in memory behind what is there.
    pub behind-IsWritten :
        ((j : ℕ) → j < len → filled.stream.chunk_buffer j ≡ message (n + j))
        → IsWritten (n + len) behind
    unfolding on_stream_chunk queue_task receive
    behind-IsWritten chunk =
        let f = filled-IsWritten in
        record {
          task = behind-IsWriteTask;
          buffer_at = rw behind-task r.buffer_at;
          at = rw behind-task (omega (arith, r.at, range.high, valid.sram_fits));
          awake = r.awake;
          no_disk = rw behind-disk r.no_disk;
          cleared = inr (ap (λ (u : Task). u.source) (sym behind-task));
          written = λ j h. elim (dec_lt j n) [
            | yes l ↦ behind-outside (addr + j) (omega arith) ∙ f.written j l
            | no l ↦
                let e : n + (j - n) ≡ j = omega arith in
                ap (λ (o : ℕ). behind.machine.ram (addr + o)) (sym e)
                ∙ behind-inside (j - n) (omega arith)
                ∙ chunk (j - n) (omega arith)
                ∙ ap message e
          ];
          kept = λ a out apart. behind-outside a (ground arith) ∙ f.kept a out apart;
        }
