-- ===== src/Task/Queue.antt =====
-- The one-place queues of bootrom/async_task.c, and a round of the worker's loop. The flag `disable`
-- of the disk queue is the field `disk_disable` of the machine; the other queue is never disabled.
use pico_bootrom_crashdump.Prelude.{
  ◌≡◌, refl, Bool, true, false, Option, none, some, arith, if◌then◌else◌,
}
use pico_bootrom_crashdump.Task.{Callback, Task, Machine, Env}
use pico_bootrom_crashdump.Task.Execute.{execute}

-- `struct async_task_queue`
pub record TaskQueue : Type 0 where
  pub task : Task
  pub full : Bool

-- Also sets the callback of the task that is passed.
unfoldable pub queue_task : TaskQueue → Task → Callback → TaskQueue × Task
queue_task queue task callback =
    let task' = record task { callback = some callback } in
    (record { task = task'; full = true }, task')

unfoldable pub dequeue_task : TaskQueue → Option Task × TaskQueue
dequeue_task queue =
    if queue.full then (some queue.task, record queue { full = false }) else (none, queue)

-- Runs the task, or fails it if its queue is disabled; the result is passed to the callback.
unfoldable pub execute_task : Env → Bool → Task → Machine → Task × Machine
execute_task env disabled task m =
    if disabled
    then (record task { result = 1 }, m)
    else let (ret, m') = execute env task m in (record task { result = ret }, m')

pub record Worker : Type 0 where
  pub disk : TaskQueue
  pub picoboot : TaskQueue
  pub machine : Machine

-- One round of `async_task_worker`: the task that was completed, if any.
unfoldable pub worker_round : Env → Worker → Option Task × Worker
worker_round env w =
    let (next, disk) = dequeue_task w.disk in
    let (other, picoboot) = dequeue_task w.picoboot in
    elim next [
      | some task ↦
          let (done, m) = execute_task env w.machine.disk_disable task w.machine in
          (some done, record w { disk = disk; machine = m })
      | none ↦ elim other [
        | some task ↦
            let (done, m) = execute_task env false task w.machine in
            (some done, record w { picoboot = picoboot; machine = m })
        | none ↦ (none, w)
      ]
    ]

-- A queue holds one task, the last that was queued, with the callback it was queued with; it is
-- taken out once.
pub dequeue-queue :
    (queue : TaskQueue) (first last : Task) (cb cb' : Callback)
    → let q = (queue_task (queue_task queue first cb).0 last cb').0 in
      ((dequeue_task q).0 ≡ some (record last { callback = some cb' }))
      × ((dequeue_task (dequeue_task q).1).0 ≡ none)
unfolding queue_task dequeue_task
dequeue-queue queue first last cb cb' = (refl, refl)

-- While the disk queue is disabled, a disk task is failed, and memory, flash and all else that
-- tasks change stay as they are.
pub worker_round-disabled :
    (env : Env) (w : Worker)
    → w.disk.full ≡ true
    → w.machine.disk_disable ≡ true
    → worker_round env w ≡ (
      some (record (w.disk.task) { result = 1 }),
      record w { disk = record (w.disk) { full = false } },
    )
unfolding worker_round dequeue_task execute_task
worker_round-disabled env w full off = ground arith

-- A disk task is run before a PICOBOOT task that waits, which stays queued.
pub worker_round-disk_first :
    (env : Env) (w : Worker) → w.disk.full ≡ true → (worker_round env w).1.picoboot ≡ w.picoboot
unfolding worker_round dequeue_task execute_task
worker_round-disk_first env w full = ground arith
