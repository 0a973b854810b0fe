-- ===== src/Queue/Tests.antt =====
-- A queue of two slots with two callers of `push` and the consumer.
use minicam_hal.Common.{
  ℕ, ◌+◌, ◌%◌, ◌≡◌, ◌≢◌, ◌≤◌, refl, List, [], ◌∷◌, none, some, false, arith, inc64,
}
use minicam_hal.Queue.{
  BoundedTaskQueue, Move, calls, pushes, pops, run, move, push_step, pop_step, has_available_task,
  log_claim, log_pop, new_system, new_queue, reset, sub64, claimed, reserved, loaded, returned,
}
use minicam_hal.Queue.Invariant.{claimed_below}
use minicam_hal.Queue.Contract.{
  first_in_first_out, slot_is_ready, slots_are_exclusive, stale_tail_refused,
}

-- The first caller finishes, and its task is popped.
abbrev one_popped : List (Move ℕ)
one_popped =
    calls 0 50
    ∷ pushes 0
    ∷ pushes 0
    ∷ pushes 0
    ∷ pushes 0
    ∷ pushes 0
    ∷ pushes 0
    ∷ pushes 0
    ∷ pops
    ∷ pops
    ∷ pops
    ∷ pops
    ∷ []

one_popped_lem : (run one_popped (new_system 2)).popped ≡ some 50 ∷ []
unfolding run move push_step pop_step has_available_task log_claim log_pop new_system new_queue
    reset sub64 inc64
one_popped_lem = refl

first_in_first_out_example :
    let s = run one_popped (new_system 2) in
    (s.popped ≡ claimed_below s.claims s.queue.head)
    × (s.queue.head ≤ s.queue.tail)
    × (s.queue.tail ≤ s.queue.head + s.queue.capacity)
first_in_first_out_example = first_in_first_out 2 one_popped (omega arith)

abbrev one_claims : List (Move ℕ)
one_claims = calls 0 50 ∷ pushes 0 ∷ pushes 0 ∷ pushes 0 ∷ pushes 0 ∷ []

slot_is_ready_example :
    push_step (claimed 50 0) (run one_claims (new_system 2)).queue
    ≡ (reserved 50 0, (run one_claims (new_system 2)).queue)
unfolding run move push_step log_claim new_system new_queue reset sub64 inc64
slot_is_ready_example = slot_is_ready 2 one_claims 0 50 0 (omega arith) refl

abbrev two_claim : List (Move ℕ)
two_claim =
    calls 0 50
    ∷ calls 1 60
    ∷ pushes 0
    ∷ pushes 0
    ∷ pushes 0
    ∷ pushes 0
    ∷ pushes 1
    ∷ pushes 1
    ∷ pushes 1
    ∷ pushes 1
    ∷ []

slots_are_exclusive_example :
    0 % (run two_claim (new_system 2)).queue.capacity
    ≢ 1 % (run two_claim (new_system 2)).queue.capacity
unfolding run move push_step log_claim new_system new_queue reset sub64 inc64
slots_are_exclusive_example =
    slots_are_exclusive 2 two_claim 0 1 0 1 (omega arith) (omega arith) refl refl

-- An empty queue whose head and tail have gone on to 2 since the load of the tail.
abbrev moved_on : BoundedTaskQueue ℕ
moved_on = record {
  capacity = 2;
  ring = λ i. none;
  sequences = λ i. i + 2;
  head = 2;
  tail = 2;
  stopped = false;
}

stale_tail_refused_example : push_step (loaded 50 1) moved_on ≡ (returned false, moved_on)
stale_tail_refused_example = stale_tail_refused 50 1 moved_on (omega arith) (omega arith)
