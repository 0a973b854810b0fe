-- ===== src/Runtime/Turns.antt =====
-- hal/task_executor.cpp: the turns of an executor that runs, and the lines of its shards.
use minicam_hal.Common.{
  ℕ, zero, suc, ◌+◌, ◌%◌, ◌≡◌, refl, ap, subst, ◌&&◌, Bool, true, Option, none, some, List, [], ◌∷◌,
  ◌++◌, inl, inr, arith, if◌then◌else◌, ◌==◌, ==_iff, Bool-cases, length, get_elem?, set, All,
}
use minicam_hal.Runtime.Executor.{ShardedWorker, TaskExecutor, run_one, post}
use minicam_hal.Runtime.Shards.{Running, line}

module _ {ℓ} {A : Type ℓ} where
  get-set :
      (i s : ℕ) (v w : A) (xs : List A)
      → get_elem? xs s ≡ some w
      → get_elem? (set xs s v) i ≡ (if s == i then some v else get_elem? xs i)
  get-set i s v w [] h = cc
  get-set zero zero v w (x ∷ xs) h = refl
  get-set (suc i) zero v w (x ∷ xs) h = ground arith
  get-set zero (suc s) v w (x ∷ xs) h = ground arith
  get-set (suc i) (suc s) v w (x ∷ xs) h = ground (arith, get-set i s v w xs h)

  length-set : (s : ℕ) (v : A) (xs : List A) → length (set xs s v) ≡ length xs
  length-set s v [] = refl
  length-set zero v (x ∷ xs) = refl
  length-set (suc s) v (x ∷ xs) = ap suc (length-set s v xs)

  module _ {κ} (P : A → Type κ) where
    pub get-All : (i : ℕ) (w : A) (xs : List A) → All P xs → get_elem? xs i ≡ some w → P w
    get-All i w [] a h = cc
    get-All zero w (x ∷ xs) a h = subst P (ground (arith, h)) a.0
    get-All (suc i) w (x ∷ xs) a h = get-All i w xs a.1 h

    pub set-All : (s : ℕ) (v : A) (xs : List A) → All P xs → P v → All P (set xs s v)
    set-All s v [] a p = tt
    set-All zero v (x ∷ xs) a p = (p, a.1)
    set-All (suc s) v (x ∷ xs) a p = (a.0, set-All s v xs a.1 p)

-- What happens to an executor that runs: a task is posted, or a worker's thread goes once round.
pub data Turn (T : Type 0) : Type 0 where
  posts : ℕ → T → Turn T
  runs : ℕ → Turn T

module _ {T : Type 0} where
  unfoldable pub run_shard : ℕ → TaskExecutor T → TaskExecutor T
  run_shard i e = elim (get_elem? e.workers i) [
    | none ↦ e
    | some w ↦ record e { workers = set e.workers i (run_one w) }
  ]

  unfoldable pub turn : Turn T → TaskExecutor T → TaskExecutor T
  unfolding run_shard
  turn (posts key task) e = (post key (some task) e).1
  turn (runs i) e = run_shard i e

  unfoldable pub turns : List (Turn T) → TaskExecutor T → TaskExecutor T
  turns [] e = e
  turns (t ∷ ts) e = turns ts (turn t e)

  -- The tasks that the posts among the turns bring to a shard: those that are accepted, and whose key is
  -- the shard's.
  unfoldable pub accepted : ℕ → List (Turn T) → TaskExecutor T → List (Option T)
  unfolding turn
  accepted i [] e = []
  accepted i (runs j ∷ ts) e = accepted i ts (turn (runs j) e)
  accepted i (posts key task ∷ ts) e =
      let rest = accepted i ts (turn (posts key task) e) in
      if (post key (some task) e).0 && (key % length e.workers == i) then some task ∷ rest else rest

  -- The tasks that a shard has run, and with those that wait in its queue.
  abbrev pub ran_of : ℕ → TaskExecutor T → List (Option T)
  ran_of i e = elim (get_elem? e.workers i) [ none ↦ [] | some w ↦ w.ran ]

  abbrev pub line_of : ℕ → TaskExecutor T → List (Option T)
  line_of i e = elim (get_elem? e.workers i) [ none ↦ [] | some w ↦ line w ]

  -- Every worker runs, on a queue with room for `n` more tasks.
  abbrev pub AllRunning : ℕ → TaskExecutor T → Type 0
  AllRunning n e = (e.started ≡ true) × All (Running n) e.workers

  pub fewer : (n : ℕ) (ws : List (ShardedWorker T)) → All (Running (n + 1)) ws → All (Running n) ws
  fewer n [] a = tt
  fewer n (w ∷ ws) a = ((a.0.0, a.0.1, a.0.2, omega (arith, a.0.3)), fewer n ws a.1)

  replace-line :
      (i s : ℕ) (w w' : ShardedWorker T) (e : TaskExecutor T)
      → get_elem? e.workers s ≡ some w
      → line_of i (record e { workers = set e.workers s w' })
        ≡ (if s == i then line w' else line_of i e)
  replace-line i s w w' e h = elim (Bool-cases (s == i)) [
    | inl f ↦ ground (arith, f, get-set i s w' w e.workers h)
    | inr f ↦ ground (arith, f, get-set i s w' w e.workers h)
  ]

  pub same-line :
      (i s : ℕ) (w w' : ShardedWorker T) (e : TaskExecutor T)
      → get_elem? e.workers s ≡ some w
      → line w' ≡ line w
      → line_of i (record e { workers = set e.workers s w' }) ≡ line_of i e
  same-line i s w w' e h k = elim (Bool-cases (s == i)) [
    | inl f ↦
        let at : s ≡ i = (==_iff s i).0 f in
        let here : get_elem? e.workers i ≡ some w =
          subst (λ x. get_elem? e.workers x ≡ some w) at h in
        ground (arith, f, here, k, replace-line i s w w' e h)
    | inr f ↦ ground (arith, f, replace-line i s w w' e h)
  ]

  pub end-line :
      (i s : ℕ) (w w' : ShardedWorker T) (ok : Bool) (task : T) (e : TaskExecutor T)
      → get_elem? e.workers s ≡ some w
      → line w' ≡ (if ok then line w ++ (some task ∷ []) else line w)
      → line_of i (record e { workers = set e.workers s w' })
        ≡ (if ok && (s == i) then line_of i e ++ (some task ∷ []) else line_of i e)
  end-line i s w w' ok task e h k = elim (Bool-cases (s == i)) [
    | inl f ↦
        let at : s ≡ i = (==_iff s i).0 f in
        let here : get_elem? e.workers i ≡ some w =
          subst (λ x. get_elem? e.workers x ≡ some w) at h in
        ground (arith, f, here, k, replace-line i s w w' e h)
    | inr f ↦ ground (arith, f, replace-line i s w w' e h)
  ]
