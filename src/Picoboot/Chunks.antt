-- ===== src/Picoboot/Chunks.antt =====
-- `_picoboot_on_stream_chunk`, `_atc_chunk_task_done` and `_atc_ack` of bootrom/usb_boot_device.c: the
-- tasks for the chunks of a command's data.
use pico_bootrom_crashdump.Prelude.{
  ℕ, ◌+◌, ◌%◌, ◌^◌, ◌<◌, ◌≡◌, refl, ap, ◌∙◌, some, Bool, true, false, List, [], ◌∷◌, arith, ◌==◌,
  if◌then◌else◌,
}
use pico_bootrom_crashdump.Task.{Task, atc_chunk_task_done}
use pico_bootrom_crashdump.Task.Queue.{queue_task}
use pico_bootrom_crashdump.Task.Execute.{add32}
use pico_bootrom_crashdump.Picoboot.{PicobootState}

-- `_picoboot_on_stream_chunk`; always asynchronous.
unfoldable pub on_stream_chunk : ℕ → PicobootState → PicobootState
on_stream_chunk chunk_len s =
    let (queue, task) =
      queue_task s.picoboot_queue (record (s.task) { data_length = chunk_len })
        atc_chunk_task_done in
    record s { picoboot_queue = queue; task = record task { check_last_mutation_source = true } }

-- How a completed task is taken: it is not the current command's, or the stream goes on, with its
-- endpoint halted if the task failed.
pub data Completion : Type 0 where
  ignored continued continued_halted : Completion

-- `_atc_chunk_task_done`
unfoldable pub chunk_task_done : Task → PicobootState → Completion × PicobootState
chunk_task_done task s =
    if task.picoboot_user_token == s.task.picoboot_user_token
    then (
      if task.result == 0 then continued else continued_halted,
      record s {
        status = record (s.status) {
          status_code = task.result;
          in_progress = if task.result == 0 then s.status.in_progress else false;
        };
        task = record (s.task) { transfer_addr = add32 s.task.transfer_addr task.data_length };
      },
    )
    else (ignored, s)

-- `_atc_ack`: whether the command is acknowledged, which ends it.
unfoldable pub picoboot_ack : Task → PicobootState → Bool × PicobootState
picoboot_ack task s =
    if task.picoboot_user_token == s.task.picoboot_user_token
    then (true, record s { status = record (s.status) { in_progress = false } })
    else (false, s)

-- A chunk whose task succeeds.
abbrev pub good_chunk : ℕ → PicobootState → PicobootState
good_chunk chunk_len s =
    let queued = on_stream_chunk chunk_len s in
    (chunk_task_done (record (queued.picoboot_queue.task) { result = 0 }) queued).1

abbrev pub good_chunks : List ℕ → PicobootState → PicobootState
good_chunks [] s = s
good_chunks (n ∷ ns) s = good_chunks ns (good_chunk n s)

abbrev pub total : List ℕ → ℕ
total [] = 0
total (n ∷ ns) = n + total ns

-- Whether a task after these chunks checks the source of the last change.
abbrev pub checks : List ℕ → Bool → Bool
checks [] check = check
checks (n ∷ ns) check = true

checks-true : (ns : List ℕ) → checks ns true ≡ true
checks-true [] = refl
checks-true (n ∷ ns) = refl

good_chunk-task :
    (k : ℕ) (s : PicobootState)
    → (good_chunk k s).task ≡ record (s.task) {
      callback = some atc_chunk_task_done;
      transfer_addr = add32 s.task.transfer_addr k;
      data_length = k;
      check_last_mutation_source = true;
    }
unfolding on_stream_chunk chunk_task_done queue_task
good_chunk-task k s = ground arith

-- After any chunks that succeeded, the next chunk is queued for the address behind them all, with
-- the same type and range to erase; it checks the source of the last change if it is not the first.
pub chunk_addresses :
    (ns : List ℕ) (n : ℕ) (s : PicobootState)
    → s.task.transfer_addr < 2 ^ 32
    → let task = (on_stream_chunk n (good_chunks ns s)).picoboot_queue.task in
      (task.transfer_addr ≡ (s.task.transfer_addr + total ns) % 2 ^ 32)
      × (task.data_length ≡ n)
      × (task.kind ≡ s.task.kind)
      × (task.erase_size ≡ s.task.erase_size)
      × (task.check_last_mutation_source ≡ checks ns s.task.check_last_mutation_source)
unfolding on_stream_chunk queue_task
chunk_addresses [] n s small = (omega arith, refl, refl, refl, refl)
chunk_addresses (k ∷ ns) n s small =
    let step = good_chunk-task k s in
    let rest =
      chunk_addresses ns n (good_chunk k s)
        (omega (arith, ap (λ (t : Task). t.transfer_addr) step)) in
    (
      rest.0 ∙ omega (arith, ap (λ (t : Task). t.transfer_addr) step),
      rest.1,
      rest.2 ∙ ap (λ (t : Task). t.kind) step,
      rest.3 ∙ ap (λ (t : Task). t.erase_size) step,
      rest.4 ∙ ap (λ (t : Task). checks ns t.check_last_mutation_source) step ∙ checks-true ns,
    )
