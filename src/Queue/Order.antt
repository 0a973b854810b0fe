-- ===== src/Queue/Order.antt =====
-- Each move of a thread keeps the ring in order.
use minicam_hal.Common.{
  ℕ, suc, ◌+◌, ◌%◌, ◌^◌, ◌≡◌, ◌≢◌, ◌≤◌, ◌<◌, refl, sym, ap₂, subst, Bool, true, false, Option, some,
  ◌∷◌, inl, inr, arith, if◌then◌else◌, ◌==◌, ==_iff, leb, inc64, Bool-cases,
}
use minicam_hal.Queue.{
  Producer, returned, entered, running, loaded, admitted, claimed, reserved, written, Consumer,
  polling, ready, taken, freed, store, sub64, stop, push_step, spurious_step, has_available_task,
  pop_step, System, log_claim, log_pop, Move, calls, pushes, fails, pops, stops, is_returned, move,
}
use minicam_hal.Queue.Slots.{inc64_lem}
use minicam_hal.Queue.Invariant.{
  ProducerOk, ConsumerOk, IsValid, local-IsValid, consumer_keeps, keeps,
}
use minicam_hal.Queue.Steps.{claim-IsValid, write-IsValid}
use minicam_hal.Queue.Publish.{
  publish-IsValid, check-IsValid, take-IsValid, free-IsValid, after_advance,
}
use native.Mathlib.Nat.{add-mod_right}

-- The difference in the capacity check, below 2^64.
sub64-room : (k h c : ℕ) → k < 2 ^ 64 → h < 2 ^ 64 → leb c (sub64 k h) ≡ false → k < h + c
unfolding sub64
sub64-room k h c a b e = ground (arith, e, a, b)

module _ {T : Type 0} where
  -- The head goes on.
  advance-IsValid :
      (s : System T) (task : Option T)
      → s.claim_count + s.queue.capacity < 2 ^ 64
      → IsValid s
      → s.consumer ≡ freed task
      → IsValid (after_advance s task)
  advance-IsValid s task room v at =
      let s' = after_advance s task in
      let c = s.queue.capacity in
      let h = s.queue.head in
      let mine : ConsumerOk s (freed task) = subst (ConsumerOk s) at v.consumer_ok in
      let next : inc64 h ≡ h + 1 =
        inc64_lem h (omega (arith, mine.0, v.counted, room, v.positive)) in
      let next' : inc64 h ≡ suc h = omega (arith, next) in
      record {
        positive = v.positive;
        counted = v.counted;
        low = omega (arith, next, mine.0);
        high = omega (arith, next, v.high);
        free = λ p above below. elim (Bool-cases (p == h + c)) [
          | inl f ↦ rw ((==_iff p (h + c)).0 f, add-mod_right h c) mine.1
          | inr f ↦ v.free p above (ground (arith, f, below, next))
        ];
        published = λ p above below e out.
            let d : (p == h) ≡ false = ground (arith, above, next) in
            v.published p (omega (arith, above, next)) below e (ground (arith, d));
        producers_ok = λ i.
            keeps s s' (s.producers i) (omega arith) (omega (arith, next))
              (λ k e held.
                let d : h ≢ k = λ same.
                  let seq : s.queue.sequences (h % c) ≡ h =
                    subst (λ x. s.queue.sequences (x % c) ≡ x) (sym same) held.2 in
                  omega (arith, seq, mine.1, v.positive) in
                ((ground (arith, next, d, held.0), held.1, held.2), refl, refl))
              (v.producers_ok i);
        exclusive = v.exclusive;
        consumer_ok = tt;
        in_order = rw next' (ap₂ (λ x l. x ∷ l) mine.2 v.in_order);
      }

  stay-IsValid :
      (s : System T) (i : ℕ) (p : Producer T)
      → IsValid s
      → s.producers i ≡ p
      → IsValid (record s { producers = store i p s.producers })
  stay-IsValid s i p v e =
      local-IsValid s i p v (subst (ProducerOk s) e (v.producers_ok i)) (λ k f. rw e f)

  wait-IsValid :
      (s : System T) → IsValid s → s.consumer ≡ polling → IsValid (record s { consumer = polling })
  wait-IsValid s v e = record {
    positive = v.positive;
    counted = v.counted;
    low = v.low;
    high = v.high;
    free = v.free;
    published = λ p above below f out. v.published p above below f (rw e refl);
    producers_ok = λ i.
        keeps s (record s { consumer = polling }) (s.producers i) (omega arith) (omega arith)
          (λ k _ h. (h, refl, refl)) (v.producers_ok i);
    exclusive = v.exclusive;
    consumer_ok = tt;
    in_order = v.in_order;
  }

  abbrev ClaimedAt : System T → ℕ → T → ℕ → Type 0
  ClaimedAt s i task k = IsValid (record s {
    claims = store k (some task) s.claims;
    claim_count = s.claim_count + 1;
    queue = record s.queue { tail = inc64 k };
    producers = store i (claimed task k) s.producers;
  })

  calls-IsValid : (s : System T) (i : ℕ) (task : T) → IsValid s → IsValid (move (calls i task) s)
  unfolding move
  calls-IsValid s i task v = elim (Bool-cases (is_returned (s.producers i))) [
    | inl e ↦ rw e (local-IsValid s i (entered task) v tt (λ k f. cc))
    | inr e ↦ rw e v
  ]

  fails-IsValid : (s : System T) (i : ℕ) → IsValid s → IsValid (move (fails i) s)
  unfolding move spurious_step
  fails-IsValid s i v = go (s.producers i) refl
    where
      go : (p : Producer T) → s.producers i ≡ p → IsValid (move (fails i) s)
      go (admitted task k) e = rw e (local-IsValid s i (entered task) v tt (λ k f. cc))
      go (returned b) e = rw e (stay-IsValid s i (returned b) v e)
      go (entered task) e = rw e (stay-IsValid s i (entered task) v e)
      go (running task) e = rw e (stay-IsValid s i (running task) v e)
      go (loaded task k) e = rw e (stay-IsValid s i (loaded task k) v e)
      go (claimed task k) e = rw e (stay-IsValid s i (claimed task k) v e)
      go (reserved task k) e = rw e (stay-IsValid s i (reserved task k) v e)
      go (written k) e = rw e (stay-IsValid s i (written k) v e)

  enter-IsValid :
      (s : System T) (i : ℕ) (task : T) (b : Bool)
      → IsValid s
      → IsValid (record s {
        producers = store i (if b then returned false else running task) s.producers;
      })
  enter-IsValid s i task true v = local-IsValid s i (returned false) v tt (λ k f. cc)
  enter-IsValid s i task false v = local-IsValid s i (running task) v tt (λ k f. cc)

  pushes-IsValid :
      (s : System T) (i : ℕ)
      → s.claim_count + 1 + s.queue.capacity < 2 ^ 64
      → IsValid s
      → IsValid (move (pushes i) s)
  unfolding move push_step log_claim
  pushes-IsValid s i room v = go (s.producers i) refl
    where
      go : (p : Producer T) → s.producers i ≡ p → IsValid (move (pushes i) s)
      go (returned b) e = rw e (stay-IsValid s i (returned b) v e)
      go (entered task) e = rw e (enter-IsValid s i task s.queue.stopped v)
      go (running task) e =
          rw e (local-IsValid s i (loaded task s.queue.tail) v (omega arith) (λ k f. cc))
      go (loaded task k) e = elim (Bool-cases (leb s.queue.capacity (sub64 k s.queue.head))) [
        | inl f ↦ rw (e, f) (local-IsValid s i (returned false) v tt (λ j g. cc))
        | inr f ↦
            let at_most : k ≤ s.queue.tail = subst (ProducerOk s) e (v.producers_ok i) in
            let space =
              sub64-room k s.queue.head s.queue.capacity (omega (arith, at_most, v.counted, room))
                (omega (arith, v.low, v.counted, room)) f in
            rw (e, f) (local-IsValid s i (admitted task k) v (at_most, space) (λ j g. cc))
      ]
      go (admitted task k) e = elim (Bool-cases (s.queue.tail == k)) [
        | inl f ↦
            let at : ProducerOk s (admitted task k) = subst (ProducerOk s) e (v.producers_ok i) in
            let same : s.queue.tail ≡ k = (==_iff _ _).0 f in
            let space : s.queue.tail < s.queue.head + s.queue.capacity =
              omega (arith, same, at.1) in
            rw (e, f)
              (subst (ClaimedAt s i task) same
                (claim-IsValid s i task (omega (arith, room)) v space))
        | inr f ↦ rw (e, f) (local-IsValid s i (entered task) v tt (λ j g. cc))
      ]
      go (claimed task k) e = elim (Bool-cases (s.queue.sequences (k % s.queue.capacity) == k)) [
        | inl f ↦
            let at : ProducerOk s (claimed task k) = subst (ProducerOk s) e (v.producers_ok i) in
            rw (e, f) (local-IsValid s i (reserved task k) v at (λ j g. rw e g))
        | inr f ↦ rw (e, f) (stay-IsValid s i (claimed task k) v e)
      ]
      go (reserved task k) e = rw e (write-IsValid s i task k v e)
      go (written k) e = rw e (publish-IsValid s i k (omega (arith, room)) v e)

  pops-IsValid :
      (s : System T) → s.claim_count + s.queue.capacity < 2 ^ 64 → IsValid s → IsValid (move pops s)
  unfolding move pop_step log_pop has_available_task
  pops-IsValid s room v = go s.consumer refl
    where
      go : (c : Consumer T) → s.consumer ≡ c → IsValid (move pops s)
      go polling e =
          elim (Bool-cases
            (s.queue.sequences (s.queue.head % s.queue.capacity) == inc64 s.queue.head)) [
              | inl f ↦ rw (e, f) (check-IsValid s room v e ((==_iff _ _).0 f))
              | inr f ↦ rw (e, f) (wait-IsValid s v e)
            ]
      go ready e = rw e (take-IsValid s v e)
      go (taken task) e = rw e (free-IsValid s task room v e)
      go (freed task) e = rw e (advance-IsValid s task room v e)

  stops-IsValid : (s : System T) → IsValid s → IsValid (move stops s)
  unfolding move stop
  stops-IsValid s v = record {
    positive = v.positive;
    counted = v.counted;
    low = v.low;
    high = v.high;
    free = v.free;
    published = v.published;
    producers_ok = λ i.
        keeps s (record s { queue = stop s.queue }) (s.producers i) (omega arith) (omega arith)
          (λ k _ h. (h, refl, refl)) (v.producers_ok i);
    exclusive = v.exclusive;
    consumer_ok =
        consumer_keeps s (record s { queue = stop s.queue }) s.consumer v.positive refl refl
          (omega arith) (λ _. refl) (λ _. refl) v.consumer_ok;
    in_order = v.in_order;
  }

  pub move-IsValid :
      (m : Move T) (s : System T)
      → s.claim_count + 1 + s.queue.capacity < 2 ^ 64
      → IsValid s
      → IsValid (move m s)
  move-IsValid (calls i task) s room v = calls-IsValid s i task v
  move-IsValid (pushes i) s room v = pushes-IsValid s i room v
  move-IsValid (fails i) s room v = fails-IsValid s i v
  move-IsValid pops s room v = pops-IsValid s (omega (arith, room)) v
  move-IsValid stops s room v = stops-IsValid s v
