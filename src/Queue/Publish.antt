-- ===== src/Queue/Publish.antt =====
-- The steps that publish, move out and free a slot keep the ring in order.
use minicam_hal.Common.{
  ℕ, ◌+◌, ◌%◌, ◌^◌, ◌≡◌, ◌≢◌, ◌≤◌, ◌<◌, refl, sym, subst, ◌∙◌, true, false, Option, none, some, ◌∷◌,
  inl, inr, arith, ◌==◌, ==_iff, ==_self, leb, inc64, Bool-cases,
}
use minicam_hal.Queue.{returned, written, polling, ready, taken, freed, store, System}
use minicam_hal.Queue.Slots.{inc64_lem}
use minicam_hal.Queue.Invariant.{
  ProducerOk, holds, ConsumerOk, IsValid, holds_inv, consumer_keeps, keeps,
}
use minicam_hal.Queue.Steps.{apart, held_apart}

module _ {T : Type 0} where
  abbrev pub after_publish : System T → ℕ → ℕ → System T
  after_publish s i k = record s {
    queue = record s.queue { sequences = store (k % s.queue.capacity) (inc64 k) s.queue.sequences };
    producers = store i (returned true) s.producers;
  }

  -- The slot is published.
  pub publish-IsValid :
      (s : System T) (i k : ℕ)
      → s.claim_count + s.queue.capacity < 2 ^ 64
      → IsValid s
      → s.producers i ≡ written k
      → IsValid (after_publish s i k)
  publish-IsValid s i k room v at =
      let s' = after_publish s i k in
      let c = s.queue.capacity in
      let mine : ProducerOk s (written k) = subst (ProducerOk s) at (v.producers_ok i) in
      let below_lap : k < s.queue.head + c = omega (arith, mine.0.1, v.high) in
      let held : holds (s.producers i) ≡ some k = rw at refl in
      let next : inc64 k ≡ k + 1 =
        inc64_lem k (omega (arith, mine.0.1, v.counted, room, v.positive)) in
      let keep : (j : ℕ) → (i == j) ≡ false → ProducerOk s' (s.producers j) = λ j d.
        keeps s s' (s.producers j) (omega arith) (omega arith)
          (λ p e h. ((h.0, h.1, rw (held_apart s i j k p v held e d) h.2), refl, refl))
          (v.producers_ok j) in
      let was : (j p : ℕ) → holds (s'.producers j) ≡ some p → holds (s.producers j) ≡ some p =
        λ j p e. elim (Bool-cases (i == j)) [
          | inl f ↦ let nothing_held : none ≡ some p = rw f at e in cc
          | inr f ↦ rw f at e
        ] in
      let other : (p : ℕ)
          → s.queue.head ≤ p
          → p < s.queue.head + c
          → k ≢ p
          → (k % c == p % c) ≡ false =
        λ p a b d. elim (Bool-cases (k % c == p % c)) [
          | inl f ↦
              let same = apart s k p v mine.0.0 below_lap a b ((==_iff _ _).0 f) in
              let never : ⊥ = d same in elim never [ ]
          | inr f ↦ f
        ] in
      record {
        positive = v.positive;
        counted = v.counted;
        low = v.low;
        high = v.high;
        free = λ p above below.
            rw (other p (omega (arith, above, v.low)) below (omega (arith, above, mine.0.1)))
              (v.free p above below);
        published = λ p above below e out. elim (Bool-cases (k == p)) [
          | inl f ↦ subst (λ x. s.queue.ring (x % c) ≡ s.claims x) ((==_iff k p).0 f) mine.1
          | inr f ↦
              let d = other p above (omega (arith, below, v.high)) (ground (arith, f)) in
              v.published p above below (rw d at e) out
        ];
        producers_ok =
            λ j. elim (Bool-cases (i == j)) [ inl e ↦ rw e tt | inr e ↦ rw e (keep j e) ];
        exclusive = λ j j' p e f. v.exclusive j j' p (was j p e) (was j' p f);
        consumer_ok =
            consumer_keeps s s' s.consumer v.positive refl refl (omega arith)
              (λ used.
                rw
                  (other s.queue.head (omega arith) (omega (arith, v.positive))
                    (λ e. used (subst (λ x. s.queue.sequences (x % c) ≡ x) e mine.0.2)))
                  refl)
              (λ _. refl) v.consumer_ok;
        in_order = v.in_order;
      }

  -- The sequence at the head is published.
  pub check-IsValid :
      (s : System T)
      → s.claim_count + s.queue.capacity < 2 ^ 64
      → IsValid s
      → s.consumer ≡ polling
      → s.queue.sequences (s.queue.head % s.queue.capacity) ≡ inc64 s.queue.head
      → IsValid (record s { consumer = ready })
  check-IsValid s room v at e =
      let next : inc64 s.queue.head ≡ s.queue.head + 1 =
        inc64_lem s.queue.head (omega (arith, v.low, v.counted, room, v.positive)) in
      let seq : s.queue.sequences (s.queue.head % s.queue.capacity) ≡ s.queue.head + 1 = e ∙ next in
      record {
        positive = v.positive;
        counted = v.counted;
        low = v.low;
        high = v.high;
        free = v.free;
        published = λ p above below f out. v.published p above below f (rw at refl);
        producers_ok = λ i.
            keeps s (record s { consumer = ready }) (s.producers i) (omega arith) (omega arith)
              (λ k _ h. (h, refl, refl)) (v.producers_ok i);
        exclusive = v.exclusive;
        consumer_ok = elim (Bool-cases (leb s.queue.tail s.queue.head)) [
          | inl f ↦
              let unused = v.free s.queue.head (ground (arith, f)) (omega (arith, v.positive)) in
              let never : ⊥ = omega (arith, unused, seq) in elim never [ ]
          | inr f ↦ (ground (arith, f), seq)
        ];
        in_order = v.in_order;
      }

  abbrev pub after_take : System T → System T
  after_take s = record s {
    consumer = taken (s.queue.ring (s.queue.head % s.queue.capacity));
    queue = record s.queue { ring = store (s.queue.head % s.queue.capacity) none s.queue.ring };
  }

  -- The position at the head is published, so no producer holds it.
  head_apart :
      (s : System T) (i k : ℕ)
      → IsValid s
      → s.queue.sequences (s.queue.head % s.queue.capacity) ≢ s.queue.head
      → holds (s.producers i) ≡ some k
      → (s.queue.head % s.queue.capacity == k % s.queue.capacity) ≡ false
  head_apart s i k v used e =
      elim (Bool-cases (s.queue.head % s.queue.capacity == k % s.queue.capacity)) [
        | inr f ↦ f
        | inl f ↦
            let held = holds_inv s (s.producers i) k (v.producers_ok i) e in
            let same =
              apart s s.queue.head k v (omega arith) (omega (arith, v.positive)) held.0
                (omega (arith, held.1, v.high)) ((==_iff _ _).0 f) in
            let never : ⊥ =
              used (subst (λ x. s.queue.sequences (x % s.queue.capacity) ≡ x) (sym same) held.2) in
            elim never [ ]
      ]

  -- The task is moved out.
  pub take-IsValid : (s : System T) → IsValid s → s.consumer ≡ ready → IsValid (after_take s)
  take-IsValid s v at =
      let s' = after_take s in
      let c = s.queue.capacity in
      let h = s.queue.head in
      let mine : ConsumerOk s ready = subst (ConsumerOk s) at v.consumer_ok in
      let used : s.queue.sequences (h % c) ≢ h = ground (arith, mine.1) in
      record {
        positive = v.positive;
        counted = v.counted;
        low = v.low;
        high = v.high;
        free = v.free;
        published = λ p above below e out.
            let d : h ≢ p = ground (arith, out) in
            let other : (h % c == p % c) ≡ false = elim (Bool-cases (h % c == p % c)) [
              | inl f ↦
                  let never : ⊥ = d (
                    apart s h p v (omega arith) (omega (arith, v.positive)) above
                      (omega (arith, below, v.high)) ((==_iff _ _).0 f)) in
                  elim never [ ]
              | inr f ↦ f
            ] in
            rw other (v.published p above below e (rw at refl));
        producers_ok = λ i.
            keeps s s' (s.producers i) (omega arith) (omega arith)
              (λ k e held. (held, refl, rw (head_apart s i k v used e) refl)) (v.producers_ok i);
        exclusive = v.exclusive;
        consumer_ok = (mine.0, mine.1, v.published h (omega arith) mine.0 mine.1 (rw at refl));
        in_order = v.in_order;
      }

  abbrev pub after_free : System T → Option T → System T
  after_free s task = record s {
    consumer = freed task;
    queue = record s.queue {
      sequences =
          store (s.queue.head % s.queue.capacity) ((s.queue.head + s.queue.capacity) % 2 ^ 64)
            s.queue.sequences;
    };
  }

  -- The slot is given to the next lap.
  pub free-IsValid :
      (s : System T) (task : Option T)
      → s.claim_count + s.queue.capacity < 2 ^ 64
      → IsValid s
      → s.consumer ≡ taken task
      → IsValid (after_free s task)
  free-IsValid s task room v at =
      let s' = after_free s task in
      let c = s.queue.capacity in
      let h = s.queue.head in
      let mine : ConsumerOk s (taken task) = subst (ConsumerOk s) at v.consumer_ok in
      let used : s.queue.sequences (h % c) ≢ h = ground (arith, mine.1) in
      let lap : (h + c) % 2 ^ 64 ≡ h + c = omega (arith, room, v.low, v.counted) in
      let other : (p : ℕ) → h ≤ p → p < h + c → h ≢ p → (h % c == p % c) ≡ false =
        λ p above below d. elim (Bool-cases (h % c == p % c)) [
          | inl f ↦
              let never : ⊥ = d (
                apart s h p v (omega arith) (omega (arith, v.positive)) above below
                  ((==_iff _ _).0 f)) in
              elim never [ ]
          | inr f ↦ f
        ] in
      record {
        positive = v.positive;
        counted = v.counted;
        low = v.low;
        high = v.high;
        free = λ p above below.
            rw (other p (omega (arith, above, v.low)) below (omega (arith, above, mine.0)))
              (v.free p above below);
        published = λ p above below e out.
            let d : h ≢ p = ground (arith, out) in
            let n = other p above (omega (arith, below, v.high)) d in
            v.published p above below (rw n at e) (ground (arith, out, at));
        producers_ok = λ i.
            keeps s s' (s.producers i) (omega arith) (omega arith)
              (λ k e held. ((held.0, held.1, rw (head_apart s i k v used e) held.2), refl, refl))
              (v.producers_ok i);
        exclusive = v.exclusive;
        consumer_ok = (mine.0, rw (==_self (h % c)) lap, mine.2);
        in_order = v.in_order;
      }

  abbrev pub after_advance : System T → Option T → System T
  after_advance s task = record s {
    popped = task ∷ s.popped;
    consumer = polling;
    queue = record s.queue { head = inc64 s.queue.head };
  }
