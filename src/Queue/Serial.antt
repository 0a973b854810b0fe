-- ===== src/Queue/Serial.antt =====
-- hal/bounded_task_queue.cpp: a `push` and a `try_pop` that nothing interrupts, on a queue where no
-- other call is under way, and the list that the queue then is.
use native.Mathlib.Nat.{add-mod_right}
use minicam_hal.Common.{
  ℕ, zero, suc, ◌+◌, ◌-◌, ◌%◌, ◌^◌, ◌≤◌, ◌<◌, ◌≡◌, refl, ap, sym, ◌∙◌, ◌||◌, true, false, Option,
  none, some, List, [], ◌∷◌, ◌++◌, inl, inr, arith, if◌then◌else◌, ◌==◌, ==_iff, ==_self, leb,
  inc64, Bool-cases,
}
use minicam_hal.Queue.{
  BoundedTaskQueue, Producer, returned, entered, ready, freed, store, sub64, push_step, pop_step,
  has_available_task,
}
use minicam_hal.Queue.Slots.{same_slot, inc64_lem}

sub64-gap : (k h : ℕ) → h ≤ k → k < 2 ^ 64 → sub64 k h ≡ k - h
unfolding sub64
sub64-gap k h below room = omega arith

-- Positions less than a lap apart have slots of their own.
apart : (c a b : ℕ) → a < b → b < a + c → (a % c == b % c) ≡ false
apart c a b low high = elim (Bool-cases (a % c == b % c)) [
  | inl e ↦
      let never : ⊥ =
        omega
          (arith, low, same_slot c a b (omega (arith, low)) high ((==_iff (a % c) (b % c)).0 e)) in
      elim never [ ]
  | inr e ↦ e
]

apart_before : (c a b : ℕ) → b < a → a < b + c → (a % c == b % c) ≡ false
apart_before c a b low high = elim (Bool-cases (a % c == b % c)) [
  | inl e ↦
      let never : ⊥ = omega (
        arith,
        low,
        same_slot c b a (omega (arith, low)) high (sym ((==_iff (a % c) (b % c)).0 e)),
      ) in
      elim never [ ]
  | inr e ↦ e
]

module _ {T : Type 0} where
  unfoldable pub drive : ℕ → Producer T → BoundedTaskQueue T → Producer T × BoundedTaskQueue T
  unfolding push_step
  drive zero p q = (p, q)
  drive (suc n) p q = let (p', q') = push_step p q in drive n p' q'

  -- `push`, whose seven accesses follow each other.
  unfoldable pub push : T → BoundedTaskQueue T → Producer T × BoundedTaskQueue T
  unfolding drive
  push task q = drive 7 (entered task) q

  -- `try_pop`: the test, and then the accesses that take the task out.
  unfoldable pub try_pop : BoundedTaskQueue T → Option (Option T) × BoundedTaskQueue T
  unfolding pop_step has_available_task
  try_pop q =
      let (c, taking) = pop_step ready q in
      let (c', freeing) = pop_step c taking in
      let (c'', done) = pop_step c' freeing in
      if has_available_task q
      then (elim c' [ freed task ↦ some task | _ ↦ none ], done)
      else (none, q)

  -- No call is under way: the sequence of each slot says whether it holds a task.
  abbrev pub Quiet : BoundedTaskQueue T → Type 0
  Quiet q =
      (1 ≤ q.capacity)
      × (q.head ≤ q.tail)
      × (q.tail ≤ q.head + q.capacity)
      × ((k : ℕ) → q.head ≤ k → k < q.tail → q.sequences (k % q.capacity) ≡ k + 1)
      × ((k : ℕ) → q.tail ≤ k → k < q.head + q.capacity → q.sequences (k % q.capacity) ≡ k)

  -- The tasks of `n` slots from position `k` on.
  abbrev pub slots_from : BoundedTaskQueue T → ℕ → ℕ → List (Option T)
  slots_from q k zero = []
  slots_from q k (suc n) = q.ring (k % q.capacity) ∷ slots_from q (k + 1) n

  abbrev pub contents : BoundedTaskQueue T → List (Option T)
  contents q = slots_from q q.head (q.tail - q.head)

  abbrev pub pushed : T → BoundedTaskQueue T → BoundedTaskQueue T
  pushed task q = record q {
    tail = inc64 q.tail;
    ring = store (q.tail % q.capacity) (some task) q.ring;
    sequences = store (q.tail % q.capacity) (inc64 q.tail) q.sequences;
  }

  pub push-pushed :
      (task : T) (q : BoundedTaskQueue T)
      → Quiet q
      → q.tail + q.capacity < 2 ^ 64
      → push task q ≡ (
          if q.stopped || leb q.capacity (q.tail - q.head)
          then (returned false, q)
          else (returned true, pushed task q))
  unfolding push drive push_step
  push-pushed task q quiet room =
      let gap = sub64-gap q.tail q.head quiet.1 (omega (arith, room)) in
      elim (Bool-cases q.stopped) [
        | inl s ↦ rw s refl
        | inr s ↦ elim (Bool-cases (leb q.capacity (q.tail - q.head))) [
          | inl f ↦ rw (s, gap, f) refl
          | inr f ↦
              let here : q.sequences (q.tail % q.capacity) ≡ q.tail =
                quiet.4 q.tail (omega arith) (ground (arith, f, quiet)) in
              rw (s, gap, f, ==_self q.tail, here, ==_self q.tail) refl
        ]
      ]

  pub pushed-Quiet :
      (task : T) (q : BoundedTaskQueue T)
      → Quiet q
      → q.tail + q.capacity < 2 ^ 64
      → q.tail < q.head + q.capacity
      → Quiet (pushed task q)
  pushed-Quiet task q quiet room free =
      let next = inc64_lem q.tail (omega (arith, room, quiet.0)) in
      (
        quiet.0,
        omega (arith, next, quiet.1),
        omega (arith, next, free),
        λ k low high. elim (Bool-cases (k == q.tail)) [
          | inl e ↦
              let same : k ≡ q.tail = (==_iff k q.tail).0 e in
              rw (same, ==_self (q.tail % q.capacity), next) refl
          | inr e ↦
              let below : k < q.tail = ground (arith, e, high, next) in
              rw (apart_before q.capacity q.tail k below (omega (arith, free, low)))
                (quiet.3 k low below)
        ],
        λ k low high.
            let above : q.tail < k = omega (arith, next, low) in
            rw (apart q.capacity q.tail k above (omega (arith, high, quiet.1)))
              (quiet.4 k (omega (arith, above)) high),
      )

  slots-pushed :
      (task : T) (q : BoundedTaskQueue T) (k n : ℕ)
      → q.head ≤ k
      → k + n ≡ q.tail
      → q.tail < q.head + q.capacity
      → slots_from (pushed task q) k (suc n) ≡ slots_from q k n ++ (some task ∷ [])
  slots-pushed task q k zero low e free =
      let same : k ≡ q.tail = omega (arith, e) in rw (same, ==_self (q.tail % q.capacity)) refl
  slots-pushed task q k (suc n) low e free =
      let below : k < q.tail = omega (arith, e) in
      rw (apart_before q.capacity q.tail k below (omega (arith, free, low))) (
        ap (λ l. q.ring (k % q.capacity) ∷ l)
          (slots-pushed task q (k + 1) n (omega (arith, low)) (omega (arith, e)) free))

  pub pushed-contents :
      (task : T) (q : BoundedTaskQueue T)
      → Quiet q
      → q.tail + q.capacity < 2 ^ 64
      → q.tail < q.head + q.capacity
      → contents (pushed task q) ≡ contents q ++ (some task ∷ [])
  pushed-contents task q quiet room free =
      let next = inc64_lem q.tail (omega (arith, room, quiet.0)) in
      let longer : inc64 q.tail - q.head ≡ suc (q.tail - q.head) = omega (arith, next, quiet.1) in
      ap (slots_from (pushed task q) q.head) longer
      ∙ slots-pushed task q q.head (q.tail - q.head) (omega arith) (omega (arith, quiet.1)) free

  abbrev pub popped : BoundedTaskQueue T → BoundedTaskQueue T
  popped q = record q {
    head = inc64 q.head;
    ring = store (q.head % q.capacity) none q.ring;
    sequences = store (q.head % q.capacity) ((q.head + q.capacity) % 2 ^ 64) q.sequences;
  }

  pub try_pop-popped :
      (q : BoundedTaskQueue T)
      → Quiet q
      → q.tail + q.capacity < 2 ^ 64
      → try_pop q
        ≡ (if leb q.tail q.head then (none, q) else (some (q.ring (q.head % q.capacity)), popped q))
  unfolding try_pop pop_step has_available_task
  try_pop-popped q quiet room =
      let next = inc64_lem q.head (omega (arith, room, quiet.0, quiet.1)) in
      elim (Bool-cases (leb q.tail q.head)) [
        | inl e ↦
            let here = quiet.4 q.head (ground (arith, e)) (omega (arith, quiet.0)) in
            let waits : (q.sequences (q.head % q.capacity) == inc64 q.head) ≡ false =
              ground (arith, here, next) in
            rw (e, waits) refl
        | inr e ↦
            let here = quiet.3 q.head (omega arith) (ground (arith, e)) in
            let found : (q.sequences (q.head % q.capacity) == inc64 q.head) ≡ true =
              ground (arith, here, next) in
            rw (e, found) refl
      ]

  pub popped-Quiet :
      (q : BoundedTaskQueue T)
      → Quiet q
      → q.tail + q.capacity < 2 ^ 64
      → q.head < q.tail
      → Quiet (popped q)
  popped-Quiet q quiet room full =
      let next = inc64_lem q.head (omega (arith, room, quiet.0, full)) in
      let lap : (q.head + q.capacity) % 2 ^ 64 ≡ q.head + q.capacity = omega (arith, room, full) in
      (
        quiet.0,
        omega (arith, next, full),
        omega (arith, next, quiet.2),
        λ k low high.
            rw (apart q.capacity q.head k (omega (arith, next, low)) (omega (arith, high, quiet.2)))
              (quiet.3 k (omega (arith, next, low)) high),
        λ k low high. elim (Bool-cases (k == q.head + q.capacity)) [
          | inl e ↦
              let same : k ≡ q.head + q.capacity = (==_iff k (q.head + q.capacity)).0 e in
              let wraps : (q.head + q.capacity) % q.capacity ≡ q.head % q.capacity =
                add-mod_right q.head q.capacity in
              rw (same, wraps, ==_self (q.head % q.capacity), lap) refl
          | inr e ↦
              let below : k < q.head + q.capacity = ground (arith, e, high, next) in
              rw (apart q.capacity q.head k (omega (arith, full, low)) below) (quiet.4 k low below)
        ],
      )

  slots-popped :
      (q : BoundedTaskQueue T) (k n : ℕ)
      → q.head < k
      → k + n ≡ q.tail
      → q.tail ≤ q.head + q.capacity
      → slots_from (popped q) k n ≡ slots_from q k n
  slots-popped q k zero low e room = refl
  slots-popped q k (suc n) low e room =
      rw (apart q.capacity q.head k low (omega (arith, e, room))) (
        ap (λ l. q.ring (k % q.capacity) ∷ l)
          (slots-popped q (k + 1) n (omega (arith, low)) (omega (arith, e)) room))

  pub popped-contents :
      (q : BoundedTaskQueue T)
      → Quiet q
      → q.tail + q.capacity < 2 ^ 64
      → q.head < q.tail
      → contents q ≡ q.ring (q.head % q.capacity) ∷ contents (popped q)
  popped-contents q quiet room full =
      let next = inc64_lem q.head (omega (arith, room, quiet.0, full)) in
      let n = q.tail - (q.head + 1) in
      let one : q.tail - q.head ≡ suc n = omega (arith, full) in
      let rest : slots_from (popped q) (q.head + 1) n ≡ slots_from q (q.head + 1) n =
        slots-popped q (q.head + 1) n (omega arith) (omega (arith, full)) quiet.2 in
      ap (slots_from q q.head) one
      ∙ ap (λ l. q.ring (q.head % q.capacity) ∷ l) (sym rest)
      ∙ ap (λ h. q.ring (q.head % q.capacity) ∷ slots_from (popped q) h (q.tail - h)) (sym next)
