-- ===== src/Runtime/Shards.antt =====
-- hal/task_executor.cpp: what a shard runs, and in which order.
use minicam_hal.Common.{
  ℕ, zero, suc, ◌+◌, ◌-◌, ◌%◌, ◌^◌, ◌≤◌, ◌<◌, ◌≡◌, refl, ap, sym, subst, ◌∙◌, Bool, true, false,
  Option, some, List, [], ◌∷◌, ◌++◌, inl, inr, arith, if◌then◌else◌, leb, Bool-cases, inc64,
}
use mathlib.Core.List.{append-nil, append_assoc}
use minicam_hal.Queue.{BoundedTaskQueue, returned}
use minicam_hal.Queue
use minicam_hal.Queue.Serial.{
  Quiet, contents, slots_from, pushed, popped, push-pushed, pushed-Quiet, pushed-contents,
  try_pop-popped, popped-Quiet, popped-contents,
}
use minicam_hal.Queue.Slots.{inc64_lem}
use minicam_hal.Runtime.Executor.{
  ShardedWorker, run_one, run_rest, request_stop, join, ran_task, worker_post,
}

module _ {T : Type 0} where
  -- A worker that runs, on a queue whose positions have room for `n` more tasks.
  abbrev pub Running : ℕ → ShardedWorker T → Type 0
  Running n w =
      (w.started ≡ true)
      × (w.queue.stopped ≡ false)
      × Quiet w.queue
      × (w.queue.tail + w.queue.capacity + n < 2 ^ 64)

  -- The tasks that the worker has run, and those that it will run next.
  abbrev pub line : ShardedWorker T → List (Option T)
  line w = w.ran ++ contents w.queue

  -- The outcome of a post: the line grows at its end by a task that is accepted.
  abbrev pub Posted : ℕ → T → ShardedWorker T → Bool × ShardedWorker T → Type 0
  Posted n task w p =
      Running n p.1 × (line p.1 ≡ (if p.0 then line w ++ (some task ∷ []) else line w))

  pub worker_post-line :
      (n : ℕ) (task : T) (w : ShardedWorker T)
      → Running (n + 1) w
      → Posted n task w (worker_post (some task) w)
  unfolding worker_post
  worker_post-line n task w r =
      let room : w.queue.tail + w.queue.capacity < 2 ^ 64 = omega (arith, r.3) in
      let e = push-pushed task w.queue r.2 room in
      elim (Bool-cases (leb w.queue.capacity (w.queue.tail - w.queue.head))) [
        | inl f ↦
            let refused : worker_post (some task) w ≡ (false, w) = rw (r.0, e, r.1, f) refl in
            subst (Posted n task w) (sym refused) ((r.0, r.1, r.2, omega (arith, r.3)), refl)
        | inr f ↦
            let free : w.queue.tail < w.queue.head + w.queue.capacity = ground (arith, f, r.2) in
            let next : inc64 w.queue.tail ≡ w.queue.tail + 1 =
              inc64_lem w.queue.tail (omega (arith, r.3)) in
            let w' : ShardedWorker T = record w { queue = pushed task w.queue } in
            let taken : worker_post (some task) w ≡ (true, w') = rw (r.0, e, r.1, f) refl in
            let longer =
              ap (λ l. w.ran ++ l) (pushed-contents task w.queue r.2 room free)
              ∙ sym (append_assoc w.ran (contents w.queue) (some task ∷ [])) in
            subst (Posted n task w) (sym taken) (
              (r.0, r.1, pushed-Quiet task w.queue r.2 room free, omega (arith, r.3, next)),
              longer,
            )
      ]

  -- A round of the thread moves the front of the line over, and a queue that is empty stays so.
  abbrev pub Moved : ℕ → ShardedWorker T → ShardedWorker T → Type 0
  Moved n w w' =
      Quiet w'.queue
      × (w'.queue.tail + w'.queue.capacity < 2 ^ 64)
      × (w'.queue.tail ≤ w'.queue.head + n)
      × (line w' ≡ line w)
      × (w'.started ≡ w.started)
      × (w'.queue.stopped ≡ w.queue.stopped)
      × (w'.queue.tail ≡ w.queue.tail)
      × (w'.queue.capacity ≡ w.queue.capacity)

  pub run_one-line :
      (n : ℕ) (w : ShardedWorker T)
      → Quiet w.queue
      → w.queue.tail + w.queue.capacity < 2 ^ 64
      → w.queue.tail ≤ w.queue.head + suc n
      → Moved n w (run_one w)
  unfolding run_one
  run_one-line n w quiet room few =
      let e = try_pop-popped w.queue quiet room in
      elim (Bool-cases (leb w.queue.tail w.queue.head)) [
        | inl f ↦
            let idle : run_one w ≡ w = ap (ran_task w) e ∙ rw f refl in
            subst (Moved n w) (sym idle)
              (quiet, room, ground (arith, f), refl, refl, refl, refl, refl)
        | inr f ↦
            let front = w.queue.ring (w.queue.head % w.queue.capacity) in
            let w' : ShardedWorker T = record w {
              queue = popped w.queue;
              ran = w.ran ++ (front ∷ []);
            } in
            let full : w.queue.head < w.queue.tail = ground (arith, f) in
            let next : inc64 w.queue.head ≡ w.queue.head + 1 =
              inc64_lem w.queue.head (omega (arith, room, full)) in
            let busy : run_one w ≡ w' = ap (ran_task w) e ∙ rw f refl in
            let same =
              append_assoc w.ran (front ∷ []) (contents (popped w.queue))
              ∙ ap (λ l. w.ran ++ l) (sym (popped-contents w.queue quiet room full)) in
            subst (Moved n w) (sym busy) (
              popped-Quiet w.queue quiet room full,
              room,
              omega (arith, next, few),
              same,
              refl,
              refl,
              refl,
              refl,
            )
      ]

  run_rest-line :
      (n : ℕ) (w : ShardedWorker T)
      → Quiet w.queue
      → w.queue.tail + w.queue.capacity < 2 ^ 64
      → w.queue.tail ≤ w.queue.head + n
      → (run_rest n w).ran ≡ line w
  unfolding run_rest
  run_rest-line zero w quiet room few =
      let empty : w.queue.tail - w.queue.head ≡ 0 = omega (arith, few) in
      sym (ap (λ k. w.ran ++ slots_from w.queue w.queue.head k) empty ∙ append-nil w.ran)
  run_rest-line (suc n) w quiet room few =
      let moved = run_one-line n w quiet room few in
      run_rest-line n (run_one w) moved.0 moved.1 moved.2 ∙ moved.3

  -- A worker that is stopped has run its line.
  pub stopped-ran :
      (n : ℕ) (w : ShardedWorker T) → Running n w → (join (request_stop w)).ran ≡ line w
  unfolding join request_stop Queue.stop
  stopped-ran n w r = ground (
    arith,
    r.0,
    run_rest-line w.queue.capacity (record w { queue = Queue.stop w.queue }) r.2
        (omega (arith, r.3)) r.2.2,
  )
