-- ===== src/V4l2/Owner.antt =====
-- hal/v4l2_driver_adapter.cpp: every call of `V4L2MultiStreamDriverAdapter` keeps its adapters valid.
use minicam_hal.Common.{
  ℕ, ℤ, ◌+◌, ◌^◌, ◌≡◌, ◌≤◌, ◌<◌, refl, subst, Option, some, String, List, [], ◌∷◌, inl, inr, arith,
  length, All, Bool-cases, Option-cases, is_empty, ◌==ℤ◌, ◌==◌,
}
use Prim.Native.String.{len}
use minicam_hal.Interface.{StreamType}
use minicam_hal.Driver.Calls.{
  Call, configures, starts, stops, closes, submits, previews, dequeues, returns, needs, needs_of,
  call, calls,
}
use minicam_hal.V4l2.{Kernel, V4L2DriverAdapter}
use minicam_hal.V4l2.Stream
use minicam_hal.V4l2.Multi.{
  ◌==type◌, Endpoint, V4L2MultiStreamDriverAdapter, lend, endpoint_for, endpoint_for_fd, assign_for,
  assign_for_fd, call_for, start_each, start_streaming, stop_each, stop_streaming, close_each,
  close, configure_each, configure_stream, start_continuous_stream, submit_capture,
  return_stream_buffer, dequeue_completion, multi_driver,
}
use minicam_hal.V4l2.Slots.{Fresh-mono, tokens}
use minicam_hal.V4l2.Table.{IsValid, Kept}
use minicam_hal.V4l2.Queueing.{start_continuous-Kept, submit-Kept, return-Kept, dequeue-Kept}
use minicam_hal.V4l2.Configure.{start-Kept, stop-Kept, close-Kept, configure-Kept}

module _ {K : Type 0} where
  -- Every adapter is valid at the owner's counter.
  abbrev pub Valid : ℕ → List (Endpoint K) → Type 0
  Valid n = All (λ e. IsValid (record e.adapter { next_token = n }))

  Valid-mono : (n n' : ℕ) (es : List (Endpoint K)) → n ≤ n' → Valid n es → Valid n' es
  Valid-mono n n' [] k v = tt
  Valid-mono n n' (e ∷ es) k v = (
    (
      (v.0.0.0, v.0.0.1, v.0.0.2, Fresh-mono n n' (tokens e.adapter.queued_requests) k v.0.0.3),
      omega (arith, k, v.0.1),
      v.0.2,
      v.0.3,
    ),
    Valid-mono n n' es k v.1,
  )

  endpoint-Valid :
      (t : StreamType) (n : ℕ) (k : K) (a : V4L2DriverAdapter K) (es : List (Endpoint K))
      → Valid n es
      → endpoint_for t es ≡ some a
      → IsValid (lend n k a)
  unfolding endpoint_for
  endpoint-Valid t n k a [] v h = cc
  endpoint-Valid t n k a (e ∷ es) v h = elim (Bool-cases (e.stream_type ==type t)) [
    | inl f ↦
        let same : e.adapter ≡ a = ground (arith, f, h) in
        subst (λ x. IsValid (lend n k x)) same v.0
    | inr f ↦ endpoint-Valid t n k a es v.1 (ground (arith, f, h))
  ]

  fd-Valid :
      (fd : ℤ) (n : ℕ) (k : K) (a : V4L2DriverAdapter K) (es : List (Endpoint K))
      → Valid n es
      → endpoint_for_fd fd es ≡ some a
      → IsValid (lend n k a)
  unfolding endpoint_for_fd
  fd-Valid fd n k a [] v h = cc
  fd-Valid fd n k a (e ∷ es) v h = elim (Bool-cases (e.adapter.fd ==ℤ fd)) [
    | inl f ↦
        let same : e.adapter ≡ a = ground (arith, f, h) in
        subst (λ x. IsValid (lend n k x)) same v.0
    | inr f ↦ fd-Valid fd n k a es v.1 (ground (arith, f, h))
  ]

  assign-Valid :
      (t : StreamType) (a : V4L2DriverAdapter K) (n : ℕ) (es : List (Endpoint K))
      → Valid n es
      → IsValid (record a { next_token = n })
      → Valid n (assign_for t a es)
  unfolding assign_for
  assign-Valid t a n [] v w = tt
  assign-Valid t a n (e ∷ es) v w = elim (Bool-cases (e.stream_type ==type t)) [
    | inl f ↦ simp f (w, v.1)
    | inr f ↦ simp f (v.0, assign-Valid t a n es v.1 w)
  ]

  assign_fd-Valid :
      (fd : ℤ) (a : V4L2DriverAdapter K) (n : ℕ) (es : List (Endpoint K))
      → Valid n es
      → IsValid (record a { next_token = n })
      → Valid n (assign_for_fd fd a es)
  unfolding assign_for_fd
  assign_fd-Valid fd a n [] v w = tt
  assign_fd-Valid fd a n (e ∷ es) v w = elim (Bool-cases (e.adapter.fd ==ℤ fd)) [
    | inl f ↦ simp f (w, v.1)
    | inr f ↦ simp f (v.0, assign_fd-Valid fd a n es v.1 w)
  ]

  -- What a call that takes at most `n` tokens leaves.
  abbrev KeptAll : ℕ → V4L2MultiStreamDriverAdapter K → V4L2MultiStreamDriverAdapter K → Type 0
  KeptAll n m m' =
      Valid m'.next_token m'.endpoints
      × (m.next_token ≤ m'.next_token)
      × (m'.next_token ≤ m.next_token + n)

  call_for-Kept :
      {R : Type 0} (n : ℕ) (t : StreamType) (unknown : String)
      (f : V4L2DriverAdapter K → Option R × V4L2DriverAdapter K)
      (m : V4L2MultiStreamDriverAdapter K) (kern : Kernel K)
      → ((a : V4L2DriverAdapter K) → a.next_token ≡ m.next_token → IsValid a → Kept n a (f a).1)
      → Valid m.next_token m.endpoints
      → KeptAll n m (call_for t unknown f m).1
  unfolding call_for
  call_for-Kept n t unknown f m kern keeps v = elim (Option-cases (endpoint_for t m.endpoints)) [
    | inl h ↦ ground (arith, h, v)
    | inr (a, h) ↦
        let done = f (lend m.next_token m.kernel a) in
        let kept =
          keeps (lend m.next_token m.kernel a) refl
            (endpoint-Valid t m.next_token m.kernel a m.endpoints v h) in
        let es =
          assign-Valid t done.1 done.1.next_token m.endpoints
            (Valid-mono m.next_token done.1.next_token m.endpoints kept.1 v) kept.0 in
        elim (Option-cases done.0) [
          | inl e ↦ ground (arith, h, e, es, kept)
          | inr (r, e) ↦ ground (arith, h, e, es, kept)
        ]
  ]

  -- A call that takes no token leaves the counter where it was.
  at_least :
      (kern : Kernel K) (n : ℕ) (a a' : V4L2DriverAdapter K)
      → Kept 0 (record a { next_token = n }) a'
      → IsValid (record a' { next_token = n })
  at_least kern n a a' kept =
      let same : a'.next_token ≡ n = omega (arith, kept.1, kept.2) in ground (arith, same, kept.0)

  start_each-Valid :
      (kern : Kernel K) (n : ℕ) (k : K) (es : List (Endpoint K))
      → Valid n es
      → Valid n (start_each es n k).1
  unfolding start_each
  start_each-Valid kern n k [] v = tt
  start_each-Valid kern n k (e ∷ es) v =
      let kept =
        at_least kern n (lend n k e.adapter) (Stream.start_streaming (lend n k e.adapter)).1
          (start-Kept kern (lend n k e.adapter) v.0) in
      elim (Bool-cases (Stream.start_streaming (lend n k e.adapter)).0) [
        | inl f ↦ simp f (kept, start_each-Valid kern n k es v.1)
        | inr f ↦ simp f (kept, v.1)
      ]

module _ {K : Type 0} (kern : Kernel K) where
  stop_each-Valid :
      (n : ℕ) (es : List (Endpoint K)) (k : K) → Valid n es → Valid n (stop_each kern es n k).0
  unfolding stop_each
  stop_each-Valid n [] k v = tt
  stop_each-Valid n (e ∷ es) k v =
      let a = Stream.stop_streaming kern (lend n k e.adapter) in
      (
        at_least kern n (lend n k e.adapter) a (stop-Kept kern (lend n k e.adapter) v.0),
        stop_each-Valid n es a.kernel v.1,
      )

  close_each-Valid :
      (n : ℕ) (es : List (Endpoint K)) (k : K) → Valid n es → Valid n (close_each kern es n k).0
  unfolding close_each
  close_each-Valid n [] k v = tt
  close_each-Valid n (e ∷ es) k v =
      let a = Stream.close kern (lend n k e.adapter) in
      (
        at_least kern n (lend n k e.adapter) a (close-Kept kern (lend n k e.adapter) v.0),
        close_each-Valid n es a.kernel v.1,
      )

  configure_each-Valid :
      (n : ℕ) (es : List (Endpoint K)) (k : K)
      → Valid n es
      → Valid n (configure_each kern es n k).1.0
  unfolding configure_each
  configure_each-Valid n [] k v = tt
  configure_each-Valid n (e ∷ es) k v =
      let done = Stream.configure_stream kern (lend n k e.adapter) in
      let kept =
        at_least kern n (lend n k e.adapter) done.1
          (configure-Kept kern (lend n k e.adapter) v.0) in
      elim (Bool-cases done.0) [
        | inl f ↦ simp f (kept, configure_each-Valid n es done.1.kernel v.1)
        | inr f ↦ simp f (kept, v.1)
      ]

  configure-KeptAll :
      (m : V4L2MultiStreamDriverAdapter K)
      → Valid m.next_token m.endpoints
      → KeptAll 0 m (configure_stream kern m).1
  unfolding configure_stream close
  configure-KeptAll m v =
      let done = configure_each kern m.endpoints m.next_token m.kernel in
      let es = configure_each-Valid m.next_token m.endpoints m.kernel v in
      let closed = close_each-Valid m.next_token done.1.0 done.1.1 es in
      elim (Bool-cases (is_empty m.endpoints)) [
        | inl f ↦ ground (arith, f, v)
        | inr f ↦ elim (Option-cases done.0) [
          | inl e ↦ ground (arith, f, e, es)
          | inr (text, e) ↦ ground (arith, f, e, closed)
        ]
      ]

  dequeue-KeptAll :
      (fd : ℤ) (m : V4L2MultiStreamDriverAdapter K)
      → Valid m.next_token m.endpoints
      → KeptAll 0 m (dequeue_completion kern fd m).1
  unfolding dequeue_completion
  dequeue-KeptAll fd m v = elim (Option-cases (endpoint_for_fd fd m.endpoints)) [
    | inl h ↦ ground (arith, h, v)
    | inr (a, h) ↦
        let done = Stream.dequeue_completion kern fd (lend m.next_token m.kernel a) in
        let kept =
          dequeue-Kept kern fd (lend m.next_token m.kernel a)
            (fd-Valid fd m.next_token m.kernel a m.endpoints v h) in
        let es =
          assign_fd-Valid fd done.1 done.1.next_token m.endpoints
            (Valid-mono m.next_token done.1.next_token m.endpoints kept.1 v) kept.0 in
        elim (Option-cases done.0) [
          | inl e ↦ elim (Bool-cases (len done.1.last_error == 0)) [
            | inl g ↦ ground (arith, h, e, g, es, kept)
            | inr g ↦ ground (arith, h, e, g, es, kept)
          ]
          | inr (c, e) ↦ ground (arith, h, e, es, kept)
        ]
  ]

  call-KeptAll :
      (c : Call) (m : V4L2MultiStreamDriverAdapter K)
      → m.next_token + needs c < 2 ^ 64
      → Valid m.next_token m.endpoints
      → KeptAll (needs c) m (call (multi_driver kern) c m)
  unfolding call start_streaming stop_streaming close configure_stream submit_capture
      start_continuous_stream return_stream_buffer dequeue_completion
  call-KeptAll configures m room v = configure-KeptAll m v
  call-KeptAll starts m room v =
      let es = start_each-Valid kern m.next_token m.kernel m.endpoints v in
      elim (Option-cases (start_each m.endpoints m.next_token m.kernel).0) [
        | inl e ↦ ground (arith, e, es)
        | inr (text, e) ↦ ground (arith, e, es)
      ]
  call-KeptAll stops m room v =
      (stop_each-Valid m.next_token m.endpoints m.kernel v, omega arith, omega arith)
  call-KeptAll closes m room v =
      (close_each-Valid m.next_token m.endpoints m.kernel v, omega arith, omega arith)
  call-KeptAll (submits o) m room v =
      call_for-Kept 1 o.stream_type _ (Stream.submit_capture kern o) m kern
        (λ a e w. submit-Kept kern o a (omega (arith, e, room)) w) v
  call-KeptAll (previews stream os) m room v =
      let kept =
        call_for-Kept (length os) stream.stream_type _
          (Stream.start_continuous_stream kern stream os) m kern
          (λ a e w. start_continuous-Kept kern stream os a (omega (arith, e, room)) w) v in
      (kept.0, kept.1, omega (arith, kept.2))
  call-KeptAll (returns lease) m room v =
      call_for-Kept 1 lease.stream_type _ (Stream.return_stream_buffer kern lease) m kern
        (λ a e w. return-Kept kern lease a (omega (arith, e, room)) w) v
  call-KeptAll (dequeues fd) m room v = dequeue-KeptAll fd m v

  -- Whatever the kernels of the nodes answer, a sequence of calls keeps every adapter of the owner
  -- valid, at the counter of tokens that they share; while the counter has room for the tokens that the
  -- calls take.
  pub calls-Valid :
      (cs : List Call) (m : V4L2MultiStreamDriverAdapter K)
      → m.next_token + needs_of cs < 2 ^ 64
      → Valid m.next_token m.endpoints
      → Valid (calls (multi_driver kern) cs m).next_token (calls (multi_driver kern) cs m).endpoints
  unfolding calls
  calls-Valid [] m room v = v
  calls-Valid (c ∷ cs) m room v =
      let kept = call-KeptAll c m (omega (arith, room)) v in
      calls-Valid cs (call (multi_driver kern) c m) (omega (arith, room, kept.2)) kept.0
