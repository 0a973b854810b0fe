-- ===== src/Queue/Invariant.antt =====
-- The ring is in order at every step of every thread.
use minicam_hal.Common.{
  ℕ, zero, suc, ◌+◌, ◌%◌, ◌≡◌, ◌≢◌, ◌≤◌, ◌<◌, refl, sym, ap, subst, ◌∙◌, Bool, true, false, ◌&&◌,
  Option, none, some, List, [], ◌∷◌, inl, inr, arith, ◌==◌, ==_iff, Bool-cases,
}
use minicam_hal.Queue.{
  Producer, returned, entered, running, loaded, admitted, claimed, reserved, written, Consumer,
  polling, ready, taken, freed, store, System,
}

module _ {T : Type 0} where
  -- A position that is claimed and whose slot is not published yet.
  abbrev pub Held : System T → ℕ → Type 0
  Held s k =
      (s.queue.head ≤ k) × (k < s.queue.tail) × (s.queue.sequences (k % s.queue.capacity) ≡ k)

  abbrev pub ProducerOk : System T → Producer T → Type 0
  ProducerOk s (returned b) = Unit
  ProducerOk s (entered task) = Unit
  ProducerOk s (running task) = Unit
  ProducerOk s (loaded task k) = k ≤ s.queue.tail
  ProducerOk s (admitted task k) = (k ≤ s.queue.tail) × (k < s.queue.head + s.queue.capacity)
  ProducerOk s (claimed task k) = Held s k × (s.claims k ≡ some task)
  ProducerOk s (reserved task k) = Held s k × (s.claims k ≡ some task)
  ProducerOk s (written k) = Held s k × (s.queue.ring (k % s.queue.capacity) ≡ s.claims k)

  -- The position that a call of `push` has claimed and not published.
  abbrev pub holds : Producer T → Option ℕ
  holds (claimed task k) = some k
  holds (reserved task k) = some k
  holds (written k) = some k
  holds _ = none

  abbrev pub ConsumerOk : System T → Consumer T → Type 0
  ConsumerOk s polling = Unit
  ConsumerOk s ready =
      (s.queue.head < s.queue.tail)
      × (s.queue.sequences (s.queue.head % s.queue.capacity) ≡ s.queue.head + 1)
  ConsumerOk s (taken task) =
      (s.queue.head < s.queue.tail)
      × (s.queue.sequences (s.queue.head % s.queue.capacity) ≡ s.queue.head + 1)
      × (task ≡ s.claims s.queue.head)
  ConsumerOk s (freed task) =
      (s.queue.head < s.queue.tail)
      × (s.queue.sequences (s.queue.head % s.queue.capacity) ≡ s.queue.head + s.queue.capacity)
      × (task ≡ s.claims s.queue.head)

  -- Has the consumer moved the task at the head out of the ring?
  abbrev pub has_moved : Consumer T → Bool
  has_moved (taken task) = true
  has_moved (freed task) = true
  has_moved _ = false

  -- The tasks claimed at the positions below `n`, the newest first.
  abbrev pub claimed_below : (ℕ → Option T) → ℕ → List (Option T)
  claimed_below f zero = []
  claimed_below f (suc n) = f n ∷ claimed_below f n

  -- The positions from the head to the tail are claimed, at most a lap; the slots of the others carry
  -- their position; a published slot holds the task that was claimed for it; no two calls of `push`
  -- hold one position; and the tasks handed out are those claimed below the head, in order.
  pub record IsValid (s : System T) : Type 0 where
    pub positive : 0 < s.queue.capacity
    pub counted : s.queue.tail ≡ s.claim_count
    pub low : s.queue.head ≤ s.queue.tail
    pub high : s.queue.tail ≤ s.queue.head + s.queue.capacity
    pub free :
        (p : ℕ)
        → s.queue.tail ≤ p
        → p < s.queue.head + s.queue.capacity
        → s.queue.sequences (p % s.queue.capacity) ≡ p
    pub published :
        (p : ℕ)
        → s.queue.head ≤ p
        → p < s.queue.tail
        → s.queue.sequences (p % s.queue.capacity) ≡ p + 1
        → (has_moved s.consumer && p == s.queue.head) ≡ false
        → s.queue.ring (p % s.queue.capacity) ≡ s.claims p
    pub producers_ok : (i : ℕ) → ProducerOk s (s.producers i)
    pub exclusive :
        (i j k : ℕ) → holds (s.producers i) ≡ some k → holds (s.producers j) ≡ some k → i ≡ j
    pub consumer_ok : ConsumerOk s s.consumer
    pub in_order : s.popped ≡ claimed_below s.claims s.queue.head

  -- A step that changes nothing but where one producer stands, and claims nothing new.
  pub local-IsValid :
      (s : System T) (i : ℕ) (p : Producer T)
      → IsValid s
      → ProducerOk s p
      → ((k : ℕ) → holds p ≡ some k → holds (s.producers i) ≡ some k)
      → IsValid (record s { producers = store i p s.producers })
  local-IsValid s i p v ok less = record {
    positive = v.positive;
    counted = v.counted;
    low = v.low;
    high = v.high;
    free = v.free;
    published = v.published;
    producers_ok =
        λ j. elim (Bool-cases (i == j)) [ inl e ↦ rw e ok | inr e ↦ rw e (v.producers_ok j) ];
    exclusive = λ j j' k e f. v.exclusive j j' k (was j k e) (was j' k f);
    consumer_ok = v.consumer_ok;
    in_order = v.in_order;
  }
    where
      was : (j k : ℕ) → holds (store i p s.producers j) ≡ some k → holds (s.producers j) ≡ some k
      was j k e = elim (Bool-cases (i == j)) [
        | inl f ↦
            subst (λ x. holds (s.producers x) ≡ some k) ((==_iff i j).0 f) (less k (rw f at e))
        | inr f ↦ rw f at e
      ]

  pub claimed_below-store :
      (k n : ℕ) (x : Option T) (f : ℕ → Option T)
      → n ≤ k
      → claimed_below (store k x f) n ≡ claimed_below f n
  claimed_below-store k zero x f h = refl
  claimed_below-store k (suc n) x f h =
      let other : (k == n) ≡ false = ground (arith, h) in
      rw other (ap (λ l. f n ∷ l) (claimed_below-store k n x f (omega (arith, h))))

  pub holds_inv :
      (s : System T) (p : Producer T) (k : ℕ) → ProducerOk s p → holds p ≡ some k → Held s k
  holds_inv s (returned b) k ok e = cc
  holds_inv s (entered task) k ok e = cc
  holds_inv s (running task) k ok e = cc
  holds_inv s (loaded task n) k ok e = cc
  holds_inv s (admitted task n) k ok e = cc
  holds_inv s (claimed task n) k ok e = ground (arith, ok)
  holds_inv s (reserved task n) k ok e = ground (arith, ok)
  holds_inv s (written n) k ok e = ground (arith, ok)

  -- What a step of a producer must leave alone for the consumer.
  pub consumer_keeps :
      (s s' : System T) (c : Consumer T)
      → 0 < s.queue.capacity
      → s'.queue.head ≡ s.queue.head
      → s'.queue.capacity ≡ s.queue.capacity
      → s.queue.tail ≤ s'.queue.tail
      → (s.queue.sequences (s.queue.head % s.queue.capacity) ≢ s.queue.head
          → s'.queue.sequences (s'.queue.head % s'.queue.capacity)
            ≡ s.queue.sequences (s.queue.head % s.queue.capacity))
      → (s.queue.head < s.queue.tail → s'.claims s'.queue.head ≡ s.claims s.queue.head)
      → ConsumerOk s c
      → ConsumerOk s' c
  consumer_keeps s s' polling pos e f t sq old ok = tt
  consumer_keeps s s' ready pos e f t sq old ok =
      let same = sq (ground (arith, ok.1)) in
      (omega (arith, e, t, ok.0), omega (arith, same, e, ok.1))
  consumer_keeps s s' (taken task) pos e f t sq old ok =
      let same = sq (ground (arith, ok.1)) in
      (omega (arith, e, t, ok.0), omega (arith, same, e, ok.1), ok.2 ∙ sym (old ok.0))
  consumer_keeps s s' (freed task) pos e f t sq old ok =
      let same = sq (ground (arith, ok.1, pos)) in
      (omega (arith, e, t, ok.0), omega (arith, same, e, f, ok.1), ok.2 ∙ sym (old ok.0))

  -- What a step must leave alone for a producer that it does not move.
  pub keeps :
      (s s' : System T) (p : Producer T)
      → s.queue.tail ≤ s'.queue.tail
      → s.queue.head + s.queue.capacity ≤ s'.queue.head + s'.queue.capacity
      → ((k : ℕ)
          → holds p ≡ some k
          → Held s k
          → Held s' k
            × (s'.claims k ≡ s.claims k)
            × (s'.queue.ring (k % s'.queue.capacity) ≡ s.queue.ring (k % s.queue.capacity)))
      → ProducerOk s p
      → ProducerOk s' p
  keeps s s' (returned b) t h held ok = tt
  keeps s s' (entered task) t h held ok = tt
  keeps s s' (running task) t h held ok = tt
  keeps s s' (loaded task k) t h held ok = omega (arith, t, ok)
  keeps s s' (admitted task k) t h held ok = (omega (arith, t, ok.0), omega (arith, h, ok.1))
  keeps s s' (claimed task k) t h held ok = let kept = held k refl ok.0 in (kept.0, kept.1 ∙ ok.1)
  keeps s s' (reserved task k) t h held ok = let kept = held k refl ok.0 in (kept.0, kept.1 ∙ ok.1)
  keeps s s' (written k) t h held ok =
      let kept = held k refl ok.0 in (kept.0, kept.2 ∙ ok.1 ∙ sym kept.1)
