-- ===== src/Queue/Contract.antt =====
-- Whatever the threads do, the ring stays in order: first in, first out, and never past its capacity.
use minicam_hal.Common.{
  ℕ, ◌+◌, ◌%◌, ◌^◌, ◌≡◌, ◌≢◌, ◌≤◌, ◌<◌, refl, subst, true, false, some, List, [], ◌∷◌, inl, inr,
  arith, ◌==◌, ==_self, leb, max, Bool-cases,
}
use minicam_hal.Queue.{
  BoundedTaskQueue, Producer, returned, entered, running, loaded, admitted, claimed, reserved,
  written, Consumer, polling, ready, taken, freed, sub64, new_queue, reset, stop, push_step,
  pop_step, System, log_claim, log_pop, new_system, Move, calls, pushes, fails, pops, stops,
  is_returned, move, run,
}
use minicam_hal.Queue.Invariant.{ProducerOk, holds, claimed_below, IsValid, holds_inv}
use minicam_hal.Queue.Steps.{apart}
use minicam_hal.Common.{length}
use native.Mathlib.Nat.{mod-eq_of_lt}
use minicam_hal.Queue.Order.{move-IsValid}
use minicam_hal.Queue.Steps.{apart}

-- A tail behind the head makes the difference look large.
wraps : (k h c : ℕ) → k < h → h + c < 2 ^ 64 → leb c (sub64 k h) ≡ true
unfolding sub64
wraps k h c behind room = ground (arith, behind, room)

module _ {T : Type 0} where
  push-count :
      (p : Producer T) (s : System T)
      → ((log_claim p s.queue s).claim_count ≤ s.claim_count + 1)
        × ((push_step p s.queue).1.capacity ≡ s.queue.capacity)
  unfolding push_step log_claim
  push-count (admitted task k) s = elim (Bool-cases (s.queue.tail == k)) [
    | inl e ↦ rw e (omega arith, refl)
    | inr e ↦ rw e (omega arith, refl)
  ]
  push-count (returned b) s = (omega arith, refl)
  push-count (entered task) s = (omega arith, refl)
  push-count (running task) s = (omega arith, refl)
  push-count (loaded task k) s = (omega arith, refl)
  push-count (claimed task k) s = (omega arith, refl)
  push-count (reserved task k) s = (omega arith, refl)
  push-count (written k) s = (omega arith, refl)

  pop-count :
      (c : Consumer T) (s : System T)
      → ((log_pop c s).claim_count ≤ s.claim_count + 1)
        × ((pop_step c s.queue).1.capacity ≡ s.queue.capacity)
  unfolding pop_step log_pop
  pop-count polling s = (omega arith, refl)
  pop-count ready s = (omega arith, refl)
  pop-count (taken task) s = (omega arith, refl)
  pop-count (freed task) s = (omega arith, refl)

  -- A move claims at most one position, and never changes the capacity.
  move-count :
      (m : Move T) (s : System T)
      → ((move m s).claim_count ≤ s.claim_count + 1)
        × ((move m s).queue.capacity ≡ s.queue.capacity)
  unfolding move stop
  move-count (calls i task) s = elim (Bool-cases (is_returned (s.producers i))) [
    | inl e ↦ rw e (omega arith, refl)
    | inr e ↦ rw e (omega arith, refl)
  ]
  move-count (pushes i) s = push-count (s.producers i) s
  move-count (fails i) s = (omega arith, refl)
  move-count pops s = pop-count s.consumer s
  move-count stops s = (omega arith, refl)

  new-IsValid : (n : ℕ) → IsValid (new_system {T = T} n)
  unfolding new_system new_queue reset
  new-IsValid n = record {
    positive = omega arith;
    counted = refl;
    low = omega arith;
    high = omega arith;
    free = λ p above below. let small : p < max n 1 = omega (arith, below) in mod-eq_of_lt small;
    published = λ p above below e out. let never : ⊥ = omega (arith, below) in elim never [ ];
    producers_ok = λ i. tt;
    exclusive = λ i j k e f. cc;
    consumer_ok = tt;
    in_order = refl;
  }

  run-IsValid-from :
      (ms : List (Move T)) (s : System T)
      → s.claim_count + length ms + s.queue.capacity < 2 ^ 64
      → IsValid s
      → IsValid (run ms s)
  unfolding run
  run-IsValid-from [] s room v = v
  run-IsValid-from (m ∷ ms) s room v =
      let counts = move-count m s in
      run-IsValid-from ms (move m s) (omega (arith, room, counts.0, counts.1))
        (move-IsValid m s (omega (arith, room)) v)

  -- Whatever the threads do to a new queue, in any order, it stays in order: the tasks handed out are
  -- those that were claimed, in the order of their positions, each once; the tail is never more than
  -- a lap ahead of the head; the slots beyond the tail carry their positions; and no two calls of
  -- `push` hold one position. The number of steps and the capacity are together below 2^64.
  queue-IsValid :
      (n : ℕ) (ms : List (Move T)) → length ms + max n 1 < 2 ^ 64 → IsValid (run ms (new_system n))
  unfolding new_system new_queue reset
  queue-IsValid n ms room = run-IsValid-from ms (new_system n) (omega (arith, room)) (new-IsValid n)

  -- First in, first out, and bounded: after any steps of the threads on a new queue, the tasks handed
  -- out are those claimed at the positions below the head, in that order, each once; and the queue
  -- never holds more than its capacity. The number of steps and the capacity are together below 2^64.
  pub first_in_first_out :
      (n : ℕ) (ms : List (Move T))
      → length ms + max n 1 < 2 ^ 64
      → let s = run ms (new_system n) in
        (s.popped ≡ claimed_below s.claims s.queue.head)
        × (s.queue.head ≤ s.queue.tail)
        × (s.queue.tail ≤ s.queue.head + s.queue.capacity)
  first_in_first_out n ms room = let v = queue-IsValid n ms room in (v.in_order, v.low, v.high)

  -- The assertion in `push` holds, and its wait for the slot is never entered: a call that has
  -- claimed a position, after any steps of the threads on a new queue, finds the slot ready at
  -- its next access. The number of steps and the capacity are together below 2^64.
  pub slot_is_ready :
      (n : ℕ) (ms : List (Move T)) (i : ℕ) (task : T) (k : ℕ)
      → length ms + max n 1 < 2 ^ 64
      → (run ms (new_system n)).producers i ≡ claimed task k
      → push_step (claimed task k) (run ms (new_system n)).queue
        ≡ (reserved task k, (run ms (new_system n)).queue)
  unfolding push_step
  slot_is_ready n ms i task k room at =
      let s = run ms (new_system n) in
      let v = queue-IsValid n ms room in
      let held : ProducerOk s (claimed task k) = subst (ProducerOk s) at (v.producers_ok i) in
      rw (held.0.2, ==_self k) refl

  -- No two calls of `push` write to one slot: after any steps of the threads on a new queue, two
  -- different callers that hold positions hold positions in different slots. The number of steps
  -- and the capacity are together below 2^64.
  pub slots_are_exclusive :
      (n : ℕ) (ms : List (Move T)) (i j k p : ℕ)
      → length ms + max n 1 < 2 ^ 64
      → i ≢ j
      → holds ((run ms (new_system n)).producers i) ≡ some k
      → holds ((run ms (new_system n)).producers j) ≡ some p
      → k % (run ms (new_system n)).queue.capacity ≢ p % (run ms (new_system n)).queue.capacity
  slots_are_exclusive n ms i j k p room different e f same =
      let s = run ms (new_system n) in
      let v = queue-IsValid n ms room in
      let at_k = holds_inv s (s.producers i) k (v.producers_ok i) e in
      let at_p = holds_inv s (s.producers j) p (v.producers_ok j) f in
      let one : k ≡ p =
        apart s k p v at_k.0 (omega (arith, at_k.1, v.high)) at_p.0 (omega (arith, at_p.1, v.high))
          same in
      different (v.exclusive i j k e (rw one f))

-- A call of `push` may be refused although there is room: if other threads push and pop between its
-- load of `tail_` and its load of `head_`, the loaded tail is behind the head, the difference wraps
-- around, and the call returns false, whatever the queue holds. The head and the capacity are
-- together below 2^64.
pub stale_tail_refused :
    {T : Type 0} (task : T) (k : ℕ) (q : BoundedTaskQueue T)
    → k < q.head
    → q.head + q.capacity < 2 ^ 64
    → push_step (loaded task k) q ≡ (returned false, q)
unfolding push_step
stale_tail_refused task k q behind room = rw (wraps k q.head q.capacity behind room) refl
