-- ===== src/Runtime/Executor.antt =====
-- hal/task_executor.h and .cpp: a queue and a worker for each shard. A call of `push` or `try_pop` is
-- not interrupted here; `Queue` has the interleavings. `ran` is the list of tasks that the worker's
-- thread has run, in their order; the program does not keep it.
use minicam_hal.Common.{
  ℕ, zero, suc, ◌%◌, max, Bool, true, false, not, ◌||◌, Option, none, some, List, [], ◌∷◌, ◌++◌,
  map, if◌then◌else◌, length, is_empty, get_elem?, set,
}
use minicam_hal.Queue.{BoundedTaskQueue, Producer, returned, new_queue, reset}
use minicam_hal.Queue
use minicam_hal.Queue.Serial.{push, try_pop}

pub record ShardedWorker (T : Type 0) : Type 0 where
  pub queue : BoundedTaskQueue T
  pub started : Bool
  pub ran : List (Option T)

pub record TaskExecutor (T : Type 0) : Type 0 where
  pub shard_queue_capacity : ℕ
  pub workers : List (ShardedWorker T)
  pub started : Bool

module _ {T : Type 0} where
  unfoldable pub new_worker : ℕ → ShardedWorker T
  new_worker n = record { queue = new_queue n; started = false; ran = [] }

  unfoldable pub worker_start : ShardedWorker T → ShardedWorker T
  worker_start w = if w.started then w else record w { queue = reset w.queue; started = true }

  unfoldable pub request_stop : ShardedWorker T → ShardedWorker T
  request_stop w = if w.started then record w { queue = Queue.stop w.queue } else w

  -- One round of the thread's loop: a task that is taken is run.
  abbrev pub ran_task : ShardedWorker T → Option (Option T) × BoundedTaskQueue T → ShardedWorker T
  ran_task w (none, q) = w
  ran_task w (some task, q) = record w { queue = q; ran = w.ran ++ (task ∷ []) }

  unfoldable pub run_one : ShardedWorker T → ShardedWorker T
  run_one w = ran_task w (try_pop w.queue)

  unfoldable pub run_rest : ℕ → ShardedWorker T → ShardedWorker T
  run_rest zero w = w
  run_rest (suc n) w = run_rest n (run_one w)

  -- The thread ends when the queue is stopped and empty, so that what is queued is run first: no more
  -- tasks than the capacity.
  unfoldable pub join : ShardedWorker T → ShardedWorker T
  join w = if w.started then record (run_rest w.queue.capacity w) { started = false } else w

  unfoldable pub worker_stop : ShardedWorker T → ShardedWorker T
  worker_stop w = if w.started then join (request_stop w) else w

  abbrev pub accepts : Producer T → Bool
  accepts (returned b) = b
  accepts _ = false

  unfoldable pub worker_post : Option T → ShardedWorker T → Bool × ShardedWorker T
  worker_post none w = (false, w)
  worker_post (some task) w =
      let (p, q) = push task w.queue in
      if w.started then (accepts p, record w { queue = q }) else (false, w)

  unfoldable pub new_workers : ℕ → ℕ → List (ShardedWorker T)
  new_workers zero n = []
  new_workers (suc shards) n = new_worker n ∷ new_workers shards n

  unfoldable pub new_executor : ℕ → ℕ → TaskExecutor T
  new_executor shards n = record {
    shard_queue_capacity = max n 1;
    workers = new_workers (max shards 1) (max n 1);
    started = false;
  }

  -- A worker's `start` does not fail.
  unfoldable pub start : TaskExecutor T → Bool × TaskExecutor T
  start e =
      if e.started
      then (true, e)
      else (true, record e { workers = map worker_start e.workers; started = true })

  unfoldable pub stop : TaskExecutor T → TaskExecutor T
  stop e = record e { workers = map join (map request_stop e.workers); started = false }

  unfoldable pub post : ℕ → Option T → TaskExecutor T → Bool × TaskExecutor T
  post key task e =
      let shard = key % length e.workers in
      if not e.started || is_empty e.workers
      then (false, e)
      else (elim (get_elem? e.workers shard) [
        | none ↦ (false, e)
        | some w ↦
            let (ok, w') = worker_post task w in (ok, record e { workers = set e.workers shard w' })
      ])

  unfoldable pub shard_count : TaskExecutor T → ℕ
  shard_count e = length e.workers
