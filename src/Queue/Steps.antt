-- ===== src/Queue/Steps.antt =====
-- The steps of `push` and `try_pop` that change the queue keep it in order.
use minicam_hal.Common.{
  ℕ, ◌+◌, ◌%◌, ◌^◌, ◌≡◌, ◌≤◌, ◌<◌, refl, sym, subst, ◌∙◌, false, some, inl, inr, arith, ◌==◌,
  ==_iff, ==_self, leb, inc64, Bool-cases,
}
use minicam_hal.Queue.{Producer, claimed, reserved, written, store, System}
use minicam_hal.Queue.Slots.{same_slot, inc64_lem}
use minicam_hal.Queue.Invariant.{
  ProducerOk, holds, IsValid, claimed_below-store, holds_inv, consumer_keeps, keeps,
}

module _ {T : Type 0} where
  abbrev pub after_claim : System T → ℕ → T → System T
  after_claim s i task = record s {
    claims = store s.queue.tail (some task) s.claims;
    claim_count = s.claim_count + 1;
    queue = record s.queue { tail = inc64 s.queue.tail };
    producers = store i (claimed task s.queue.tail) s.producers;
  }

  after_claim-exclusive :
      (s : System T) (i : ℕ) (task : T) (j j' k : ℕ)
      → IsValid s
      → holds ((after_claim s i task).producers j) ≡ some k
      → holds ((after_claim s i task).producers j') ≡ some k
      → j ≡ j'
  after_claim-exclusive s i task j j' k v e e' =
      let t = s.queue.tail in
      let other : (m : ℕ) → holds (s.producers m) ≡ some k → k < t =
        λ m f. (holds_inv s (s.producers m) k (v.producers_ok m) f).1 in
      elim (Bool-cases (i == j)) [
        | inl f ↦ elim (Bool-cases (i == j')) [
          | inl f' ↦ ground (arith, f, f')
          | inr f' ↦
              let mine : t ≡ k = ground (arith, rw f at e) in
              ground (arith, mine, other j' (rw f' at e'))
        ]
        | inr f ↦ elim (Bool-cases (i == j')) [
          | inl f' ↦
              let mine : t ≡ k = ground (arith, rw f' at e') in
              ground (arith, mine, other j (rw f at e))
          | inr f' ↦ v.exclusive j j' k (rw f at e) (rw f' at e')
        ]
      ]

  -- The exchange succeeds.
  pub claim-IsValid :
      (s : System T) (i : ℕ) (task : T)
      → s.claim_count + 1 < 2 ^ 64
      → IsValid s
      → s.queue.tail < s.queue.head + s.queue.capacity
      → IsValid (after_claim s i task)
  claim-IsValid s i task room v space =
      let t = s.queue.tail in
      let s' = after_claim s i task in
      let next : inc64 t ≡ t + 1 = inc64_lem t (omega (arith, room, v.counted)) in
      let old : (p : ℕ) → p < t → s'.claims p ≡ s.claims p = λ p below. ground (arith, below) in
      let mine : ProducerOk s' (claimed task t) =
        ((v.low, omega (arith, next), v.free t (omega arith) space), ground arith) in
      let keep : (p : Producer T) → ProducerOk s p → ProducerOk s' p = λ p ok.
        keeps s s' p (omega (arith, next)) (omega arith)
          (λ k e held. ((held.0, omega (arith, held.1, next), held.2), old k held.1, refl)) ok in
      record {
        positive = v.positive;
        counted = omega (arith, next, v.counted);
        low = omega (arith, next, v.low);
        high = omega (arith, next, space);
        free = λ p above below. v.free p (omega (arith, next, above)) below;
        published = λ p above below e out. elim (Bool-cases (t == p)) [
          | inl f ↦
              let same : t ≡ p = (==_iff t p).0 f in
              let empty : s.queue.sequences (p % s.queue.capacity) ≡ p =
                v.free p (omega (arith, same)) (omega (arith, same, space)) in
              let never : ⊥ = omega (arith, empty, e) in elim never [ ]
          | inr f ↦
              let under : p < t = ground (arith, below, next, f) in
              v.published p above under e out ∙ sym (old p under)
        ];
        producers_ok = λ j. elim (Bool-cases (i == j)) [
          | inl e ↦ rw e mine
          | inr e ↦ rw e (keep (s.producers j) (v.producers_ok j))
        ];
        exclusive = λ j j' k e e'. after_claim-exclusive s i task j j' k v e e';
        consumer_ok =
            consumer_keeps s s' s.consumer v.positive refl refl (omega (arith, next)) (λ _. refl)
              (λ below. old s.queue.head below) v.consumer_ok;
        in_order = v.in_order ∙ sym (claimed_below-store t s.queue.head (some task) s.claims v.low);
      }

  abbrev pub after_write : System T → ℕ → T → ℕ → System T
  after_write s i task k = record s {
    queue = record s.queue { ring = store (k % s.queue.capacity) (some task) s.queue.ring };
    producers = store i (written k) s.producers;
  }

  -- Two positions in use at once are in different slots.
  pub apart :
      (s : System T) (k p : ℕ)
      → IsValid s
      → s.queue.head ≤ k
      → k < s.queue.head + s.queue.capacity
      → s.queue.head ≤ p
      → p < s.queue.head + s.queue.capacity
      → k % s.queue.capacity ≡ p % s.queue.capacity
      → k ≡ p
  apart s k p v a b c d e = elim (Bool-cases (leb k p)) [
    | inl f ↦ same_slot s.queue.capacity k p (ground (arith, f)) (omega (arith, a, d)) e
    | inr f ↦ sym (same_slot s.queue.capacity p k (ground (arith, f)) (omega (arith, b, c)) (sym e))
  ]

  pub held_apart :
      (s : System T) (i j k p : ℕ)
      → IsValid s
      → holds (s.producers i) ≡ some k
      → holds (s.producers j) ≡ some p
      → (i == j) ≡ false
      → (k % s.queue.capacity == p % s.queue.capacity) ≡ false
  held_apart s i j k p v e f d = elim (Bool-cases (k % s.queue.capacity == p % s.queue.capacity)) [
    | inr g ↦ g
    | inl g ↦
        let at_k = holds_inv s (s.producers i) k (v.producers_ok i) e in
        let at_p = holds_inv s (s.producers j) p (v.producers_ok j) f in
        let same : k ≡ p =
          apart s k p v at_k.0 (omega (arith, at_k.1, v.high)) at_p.0
            (omega (arith, at_p.1, v.high)) ((==_iff _ _).0 g) in
        let one : i ≡ j = v.exclusive i j k e (rw same f) in ground (arith, one, d)
  ]

  -- The task is written to the slot.
  pub write-IsValid :
      (s : System T) (i : ℕ) (task : T) (k : ℕ)
      → IsValid s
      → s.producers i ≡ reserved task k
      → IsValid (after_write s i task k)
  write-IsValid s i task k v at =
      let s' = after_write s i task k in
      let c = s.queue.capacity in
      let mine : ProducerOk s (reserved task k) = subst (ProducerOk s) at (v.producers_ok i) in
      let held : holds (s.producers i) ≡ some k = rw at refl in
      let new : s'.queue.ring (k % c) ≡ some task = ground (arith, ==_self (k % c)) in
      let keep : (j : ℕ) → (i == j) ≡ false → ProducerOk s' (s.producers j) = λ j d.
        keeps s s' (s.producers j) (omega arith) (omega arith)
          (λ p e h. (h, refl, rw (held_apart s i j k p v held e d) refl)) (v.producers_ok j) in
      let was : (j p : ℕ) → holds (s'.producers j) ≡ some p → holds (s.producers j) ≡ some p =
        λ j p e. elim (Bool-cases (i == j)) [
          | inl f ↦
              subst (λ x. holds (s.producers x) ≡ some p) ((==_iff i j).0 f) (held ∙ rw f at e)
          | inr f ↦ rw f at e
        ] in
      record {
        positive = v.positive;
        counted = v.counted;
        low = v.low;
        high = v.high;
        free = v.free;
        published = λ p above below e out. elim (Bool-cases (k % c == p % c)) [
          | inl f ↦
              let same : k ≡ p =
                apart s k p v mine.0.0 (omega (arith, mine.0.1, v.high)) above
                  (omega (arith, below, v.high)) ((==_iff _ _).0 f) in
              let seq : s.queue.sequences (p % c) ≡ p =
                subst (λ x. s.queue.sequences (x % c) ≡ x) same mine.0.2 in
              let never : ⊥ = omega (arith, seq, e) in elim never [ ]
          | inr f ↦ rw f (v.published p above below e out)
        ];
        producers_ok = λ j. elim (Bool-cases (i == j)) [
          | inl e ↦ rw e (mine.0, new ∙ sym mine.1)
          | inr e ↦ rw e (keep j e)
        ];
        exclusive = λ j j' p e f. v.exclusive j j' p (was j p e) (was j' p f);
        consumer_ok =
            consumer_keeps s s' s.consumer v.positive refl refl (omega arith) (λ _. refl)
              (λ _. refl) v.consumer_ok;
        in_order = v.in_order;
      }
