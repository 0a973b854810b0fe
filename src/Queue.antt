-- ===== src/Queue.antt =====
-- hal/bounded_task_queue.h and .cpp: the ring of a shard, with many producers and one consumer. Each
-- atomic access is a step of its own, under sequential consistency: the memory orders are not
-- modelled. A vector is a function of the slot, and is read at slots below the capacity only. A task
-- is a value of `T`; `none` in the ring is a null task.
pub mod Slots
pub mod Invariant
pub mod Steps
pub mod Publish
pub mod Order
pub mod Contract
pub mod Serial
mod Tests
use minicam_hal.Common.{
  ℕ, zero, suc, ◌+◌, ◌-◌, ◌%◌, ◌^◌, ◌≤◌, ◌<◌, max, min, Bool, true, false, not, ◌&&◌, ◌||◌, Option,
  none, some, List, [], ◌∷◌, if◌then◌else◌, ◌==◌, ltb, leb, inc64,
}

pub record BoundedTaskQueue (T : Type 0) : Type 0 where
  pub capacity : ℕ
  pub ring : ℕ → Option T
  pub sequences : ℕ → ℕ
  pub head : ℕ
  pub tail : ℕ
  pub stopped : Bool

-- Where a call of `push` stands: returned, at the head of the loop, after the load of `stopped_`, of
-- `tail_` and of `head_`, after the exchange, after the wait for the slot, after the write.
pub data Producer (T : Type 0) : Type 0 where
  returned : Bool → Producer T
  entered : T → Producer T
  running : T → Producer T
  loaded : T → ℕ → Producer T
  admitted : T → ℕ → Producer T
  claimed : T → ℕ → Producer T
  reserved : T → ℕ → Producer T
  written : ℕ → Producer T

-- Where `try_pop` stands: before the load of the sequence, after it, after the task is moved out, and
-- after the sequence is stored.
pub data Consumer (T : Type 0) : Type 0 where
  polling : Consumer T
  ready : Consumer T
  taken : Option T → Consumer T
  freed : Option T → Consumer T

abbrev pub store {ℓ} : {A : Type ℓ} → ℕ → A → (ℕ → A) → ℕ → A
store i v f j = if i == j then v else f j

-- The difference of two `uint64_t`.
unfoldable pub sub64 : ℕ → ℕ → ℕ
sub64 a b = (a + (2 ^ 64 - b)) % 2 ^ 64

module _ {T : Type 0} where
  unfoldable pub reset : BoundedTaskQueue T → BoundedTaskQueue T
  reset q = record q { head = 0; tail = 0; stopped = false; ring = λ i. none; sequences = λ i. i }

  unfoldable pub new_queue : ℕ → BoundedTaskQueue T
  unfolding reset
  new_queue n = reset (record {
    capacity = max n 1;
    ring = λ i. none;
    sequences = λ i. 0;
    head = 0;
    tail = 0;
    stopped = false;
  })

  unfoldable pub stop : BoundedTaskQueue T → BoundedTaskQueue T
  stop q = record q { stopped = true }

  -- The next atomic access of a `push`. A failed exchange goes back to the head of the loop.
  unfoldable pub push_step : Producer T → BoundedTaskQueue T → Producer T × BoundedTaskQueue T
  push_step (returned b) q = (returned b, q)
  push_step (entered task) q = (if q.stopped then returned false else running task, q)
  push_step (running task) q = (loaded task q.tail, q)
  push_step (loaded task k) q =
      (if leb q.capacity (sub64 k q.head) then returned false else admitted task k, q)
  push_step (admitted task k) q =
      if q.tail == k then (claimed task k, record q { tail = inc64 k }) else (entered task, q)
  push_step (claimed task k) q =
      (if q.sequences (k % q.capacity) == k then reserved task k else claimed task k, q)
  push_step (reserved task k) q =
      (written k, record q { ring = store (k % q.capacity) (some task) q.ring })
  push_step (written k) q =
      (returned true, record q { sequences = store (k % q.capacity) (inc64 k) q.sequences })

  -- A weak exchange may also fail where it could succeed.
  unfoldable pub spurious_step : Producer T → Producer T
  spurious_step (admitted task k) = entered task
  spurious_step p = p

  unfoldable pub has_available_task : BoundedTaskQueue T → Bool
  has_available_task q = q.sequences (q.head % q.capacity) == inc64 q.head

  unfoldable pub has_no_pending_task : BoundedTaskQueue T → Bool
  has_no_pending_task q = q.head == q.tail

  -- The next access of a `try_pop`; `head_` is the consumer's own.
  unfoldable pub pop_step : Consumer T → BoundedTaskQueue T → Consumer T × BoundedTaskQueue T
  unfolding has_available_task
  pop_step polling q = (if has_available_task q then ready else polling, q)
  pop_step ready q = (
    taken (q.ring (q.head % q.capacity)),
    record q { ring = store (q.head % q.capacity) none q.ring },
  )
  pop_step (taken task) q = (
    freed task,
    record q {
      sequences = store (q.head % q.capacity) ((q.head + q.capacity) % 2 ^ 64) q.sequences;
    },
  )
  pop_step (freed task) q = (polling, record q { head = inc64 q.head })

  unfoldable pub size : BoundedTaskQueue T → ℕ
  size q = min (sub64 q.tail q.head) q.capacity

-- The queue with its threads; `claims` and `claim_count` record which task was claimed at which
-- position, and `popped` the tasks handed out, the newest first. They change nothing in the queue.
pub record System (T : Type 0) : Type 0 where
  pub queue : BoundedTaskQueue T
  pub producers : ℕ → Producer T
  pub consumer : Consumer T
  pub claims : ℕ → Option T
  pub claim_count : ℕ
  pub popped : List (Option T)

-- One step of one thread: a producer calls `push`, goes on, or fails its exchange; the consumer goes
-- on; some thread calls `stop`.
pub data Move (T : Type 0) : Type 0 where
  calls : ℕ → T → Move T
  pushes fails : ℕ → Move T
  pops stops : Move T

module _ {T : Type 0} where
  -- A producer that is about to exchange, and will succeed, claims its position for its task.
  unfoldable pub log_claim : Producer T → BoundedTaskQueue T → System T → System T
  log_claim (admitted task k) q s =
      if q.tail == k
      then record s { claims = store k (some task) s.claims; claim_count = s.claim_count + 1 }
      else s
  log_claim _ q s = s

  unfoldable pub log_pop : Consumer T → System T → System T
  log_pop (freed task) s = record s { popped = task ∷ s.popped }
  log_pop _ s = s

  unfoldable pub new_system : ℕ → System T
  unfolding new_queue
  new_system n = record {
    queue = new_queue n;
    producers = λ i. returned false;
    consumer = polling;
    claims = λ k. none;
    claim_count = 0;
    popped = [];
  }

  abbrev pub is_returned : Producer T → Bool
  is_returned (returned b) = true
  is_returned _ = false

  unfoldable pub move : Move T → System T → System T
  unfolding push_step pop_step log_claim log_pop
  move (calls i task) s =
      if is_returned (s.producers i)
      then record s { producers = store i (entered task) s.producers }
      else s
  move (pushes i) s =
      let (p, q) = push_step (s.producers i) s.queue in
      record (log_claim (s.producers i) s.queue s) { queue = q; producers = store i p s.producers }
  move (fails i) s = record s { producers = store i (spurious_step (s.producers i)) s.producers }
  move pops s =
      let (c, q) = pop_step s.consumer s.queue in
      record (log_pop s.consumer s) { queue = q; consumer = c }
  move stops s = record s { queue = stop s.queue }

  unfoldable pub run : List (Move T) → System T → System T
  unfolding move
  run [] s = s
  run (m ∷ ms) s = run ms (move m s)
