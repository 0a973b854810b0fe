-- ===== src/Runtime/Order.antt =====
-- hal/task_executor.cpp: the tasks of a shard run in the order in which they were posted, and a stop runs
-- all of them.
use minicam_hal.Common.{
  ℕ, zero, suc, ◌+◌, ◌%◌, ◌^◌, ◌<◌, ◌≡◌, refl, ap, sym, subst, ◌∙◌, ◌&&◌, Bool, false, some, List,
  [], ◌∷◌, ◌++◌, inl, inr, arith, if◌then◌else◌, ◌==◌, max, Bool-cases, Option-cases, map, length,
  is_empty, get_elem?, set, All,
}
use native.Mathlib.Nat.{mod-eq_of_lt}
use mathlib.Core.List.{append-nil, append_assoc}
use minicam_hal.Queue.{new_queue, reset}
use minicam_hal.Runtime.Executor.{
  ShardedWorker, TaskExecutor, run_one, request_stop, join, worker_post, post, stop, worker_start,
  new_worker, new_workers, new_executor, start,
}
use minicam_hal.Runtime.Shards.{Running, worker_post-line, run_one-line, stopped-ran}
use minicam_hal.Runtime.Turns.{
  AllRunning, Turn, accepted, end-line, fewer, get-All, line_of, posts, ran_of, run_shard, runs,
  same-line, set-All, turn, turns,
}

module _ {T : Type 0} where
  abbrev Ran : ℕ → ℕ → TaskExecutor T → TaskExecutor T → Type 0
  Ran n i e e' = AllRunning n e' × (line_of i e' ≡ line_of i e)

  run_shard-line :
      (n i j : ℕ) (e : TaskExecutor T) → AllRunning (n + 1) e → Ran n i e (run_shard j e)
  unfolding run_shard
  run_shard-line n i j e a = elim (Option-cases (get_elem? e.workers j)) [
    | inl h ↦
        let same : run_shard j e ≡ e = ground (arith, h) in
        subst (Ran n i e) (sym same) ((a.0, fewer n e.workers a.1), refl)
    | inr (w, h) ↦
        let r = get-All (Running (n + 1)) j w e.workers a.1 h in
        let moved =
          run_one-line w.queue.capacity w r.2 (omega (arith, r.3)) (omega (arith, r.2.2)) in
        let r' : Running n (run_one w) =
          (moved.4 ∙ r.0, moved.5 ∙ r.1, moved.0, omega (arith, moved.6, moved.7, r.3)) in
        let e' : TaskExecutor T = record e { workers = set e.workers j (run_one w) } in
        let done : run_shard j e ≡ e' = ground (arith, h) in
        subst (Ran n i e) (sym done) (
          (a.0, set-All (Running n) j (run_one w) e.workers (fewer n e.workers a.1) r'),
          same-line i j w (run_one w) e h moved.3,
        )
  ]

  -- A task that is posted goes to the end of its shard's line, if it is accepted.
  abbrev PostedAt : ℕ → ℕ → ℕ → T → TaskExecutor T → Bool × TaskExecutor T → Type 0
  PostedAt n i key task e p =
      AllRunning n p.1
      × (line_of i p.1 ≡ (
          if p.0 && (key % length e.workers == i)
          then line_of i e ++ (some task ∷ [])
          else line_of i e))

  post-line :
      (n i key : ℕ) (task : T) (e : TaskExecutor T)
      → AllRunning (n + 1) e
      → PostedAt n i key task e (post key (some task) e)
  unfolding post
  post-line n i key task e a =
      let s = key % length e.workers in
      let refused : PostedAt n i key task e (false, e) = ((a.0, fewer n e.workers a.1), refl) in
      elim (Bool-cases (is_empty e.workers)) [
        | inl f ↦
            let empty : post key (some task) e ≡ (false, e) = ground (arith, f) in
            subst (PostedAt n i key task e) (sym empty) refused
        | inr f ↦ elim (Option-cases (get_elem? e.workers s)) [
          | inl h ↦
              let missing : post key (some task) e ≡ (false, e) = ground (arith, f, h) in
              subst (PostedAt n i key task e) (sym missing) refused
          | inr (w, h) ↦
              let r = get-All (Running (n + 1)) s w e.workers a.1 h in
              let posted = worker_post-line n task w r in
              let (ok, w') = worker_post (some task) w in
              let e' : TaskExecutor T = record e { workers = set e.workers s w' } in
              let done : post key (some task) e ≡ (ok, e') = ground (arith, a.0, f, h) in
              subst (PostedAt n i key task e) (sym done) (
                (a.0, set-All (Running n) s w' e.workers (fewer n e.workers a.1) posted.0),
                end-line i s w w' ok task e h posted.1,
              )
        ]
      ]

  more : (n : ℕ) (e : TaskExecutor T) → AllRunning (suc n) e → AllRunning (n + 1) e
  more n e a = let one : suc n ≡ n + 1 = omega arith in subst (λ k. AllRunning k e) one a

  -- A stop runs what is in the queues.
  stop-line :
      (n i : ℕ) (ws : List (ShardedWorker T)) (e : TaskExecutor T)
      → All (Running n) ws
      → ran_of i (record e { workers = map join (map request_stop ws) })
        ≡ line_of i (record e { workers = ws })
  stop-line n i [] e a = refl
  stop-line n zero (w ∷ ws) e a = stopped-ran n w a.0
  stop-line n (suc i) (w ∷ ws) e a = stop-line n i ws e a.1

  -- On an executor that runs, for any sequence of posts and of rounds of the workers, and a stop at the
  -- end: each shard has run what was before it in line, and then the tasks that its posts brought and
  -- that were accepted, all of them, once, in the order of the posts. A shard's queue positions must have
  -- room below 2 ^ 64 for the turns.
  turns-stop :
      (ts : List (Turn T)) (i : ℕ) (e : TaskExecutor T)
      → AllRunning (length ts) e
      → ran_of i (stop (turns ts e)) ≡ line_of i e ++ accepted i ts e
  unfolding turns accepted stop turn
  turns-stop [] i e a = stop-line 0 i e.workers e a.1 ∙ sym (append-nil (line_of i e))
  turns-stop (runs j ∷ ts) i e a =
      let kept = run_shard-line (length ts) i j e (more (length ts) e a) in
      turns-stop ts i (run_shard j e) kept.0 ∙ ap (λ l. l ++ accepted i ts (run_shard j e)) kept.1
  turns-stop (posts key task ∷ ts) i e a =
      let kept = post-line (length ts) i key task e (more (length ts) e a) in
      let rest = turns-stop ts i (post key (some task) e).1 kept.0 in
      elim (Bool-cases ((post key (some task) e).0 && (key % length e.workers == i))) [
        | inl f ↦ ground (
          arith,
          f,
          kept.1,
          rest,
          append_assoc (line_of i e) (some task ∷ []) (accepted i ts (post key (some task) e).1),
        )
        | inr f ↦ ground (arith, f, kept.1, rest)
      ]

module _ (T : Type 0) where
  fresh-Running : (n c : ℕ) → max c 1 + n < 2 ^ 64 → Running n (worker_start {T = T} (new_worker c))
  unfolding worker_start new_worker new_queue reset
  fresh-Running n c room = (
    refl,
    refl,
    (
      omega arith,
      omega arith,
      omega arith,
      λ k low high. let never : ⊥ = omega (arith, high) in elim never [ ],
      λ k low high. mod-eq_of_lt (omega (arith, high)),
    ),
    omega (arith, room),
  )

  fresh-All :
      (n c k : ℕ)
      → max c 1 + n < 2 ^ 64
      → All (Running n) (map worker_start (new_workers {T = T} k c))
  unfolding new_workers
  fresh-All n c zero room = tt
  fresh-All n c (suc k) room = (fresh-Running n c room, fresh-All n c k room)

  fresh-line :
      (i c k : ℕ) (e : TaskExecutor T)
      → line_of i (record e { workers = map worker_start (new_workers k c) }) ≡ []
  unfolding new_workers worker_start new_worker new_queue reset
  fresh-line i c zero e = refl
  fresh-line zero c (suc k) e = refl
  fresh-line (suc i) c (suc k) e = fresh-line i c k e

  -- From a new executor that is started, through any sequence of posts and of rounds of the workers, to a
  -- stop: each shard has run the tasks that its posts brought and that were accepted, all of them, each
  -- once, in the order of the posts. The turns and the capacity of a shard together must stay below
  -- 2 ^ 64.
  pub executor-order :
      (shards capacity i : ℕ) (ts : List (Turn T))
      → max capacity 1 + length ts < 2 ^ 64
      → let e = (start (new_executor {T = T} shards capacity)).1 in
        ran_of i (stop (turns ts e)) ≡ accepted i ts e
  unfolding start new_executor
  executor-order shards capacity i ts room =
      let e = (start (new_executor {T = T} shards capacity)).1 in
      turns-stop ts i e
        (refl, fresh-All (length ts) (max capacity 1) (max shards 1) (omega (arith, room)))
      ∙ ap (λ l. l ++ accepted i ts e) (fresh-line i (max capacity 1) (max shards 1) e)
