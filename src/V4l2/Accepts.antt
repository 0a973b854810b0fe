-- ===== src/V4l2/Accepts.antt =====
-- hal/v4l2_driver_adapter.cpp: when `V4L2DriverAdapter` takes a buffer, what it does with it, and what
-- the completion of that buffer gives back.
use minicam_hal.Common.{
  ℕ, ◌+◌, ◌^◌, ◌≡◌, ◌≤◌, ◌<◌, ◌↔◌, refl, ap, subst, sym, ◌∙◌, minus_one, is_neg, true, false, some,
  List, [], ◌∷◌, inl, inr, arith, length, Option-cases, ==ℤ_self,
}
use minicam_hal.Interface.{OutputBufferTarget, StreamConfig}
use minicam_hal.V4l2.{
  dequeued, Kernel, V4L2DriverAdapter, queued_request_for_index, free_queued_request_count,
  bind_free_queued_request, clear_queued_request,
}
use minicam_hal.V4l2.Stream.{
  fits, all_fit, can_submit_capture_outputs, queue_capture_buffer, submit_capture, queue_each,
  start_continuous_stream, take_dequeued, dequeue_completion,
}
use minicam_hal.V4l2.Slots.{first_free, find-bind, bind-none, bind-slot, clear-bind}
use minicam_hal.Mock.Tokens.{upto}
use minicam_hal.V4l2.Table.{IsValid, inc64-eq}
use minicam_hal.V4l2.Queueing.{queue_capture-Kept}
use minicam_hal.V4l2.Taking.{Obliging, Takes, Took-free, queue_capture-some, queue_capture-Obliging}

module _ {K : Type 0} (kern : Kernel K) where
  fits-Takes :
      (o : OutputBufferTarget) (d : V4L2DriverAdapter K)
      → d.streaming ≡ true
      → is_neg d.fd ≡ false
      → fits d.buffer_size o ≡ true
      → Takes o.buffer_fd o.buffer_size d
  fits-Takes o d s f h = ground (arith, s, f, h)

  queue_each-some :
      (os : List OutputBufferTarget) (d : V4L2DriverAdapter K) (tokens : List ℕ)
      → (queue_each kern os d).0 ≡ some tokens
      → (all_fit d.buffer_size os ≡ true)
        × (length os ≤ free_queued_request_count d.queued_requests)
  unfolding queue_each all_fit
  queue_each-some [] d tokens h = (refl, omega arith)
  queue_each-some (o ∷ os) d tokens h =
      let d' = (queue_capture_buffer kern o.buffer_fd o.acquire_fence_fd o.buffer_size d).1 in
      elim (Option-cases
        (queue_capture_buffer kern o.buffer_fd o.acquire_fence_fd o.buffer_size d).0) [
          | inl e ↦ ground (arith, e, h)
          | inr (token, e) ↦ elim (Option-cases (queue_each kern os d').0) [
            | inl f ↦ ground (arith, e, f, h)
            | inr (rest, f) ↦
                let took =
                  queue_capture-some kern o.buffer_fd o.acquire_fence_fd o.buffer_size token d e in
                let ih = queue_each-some os d' rest f in
                let freed = Took-free o.buffer_fd o.buffer_size token d d' took.1 in
                let fit = subst (λ b. all_fit b os ≡ true) took.1.7 ih.0 in
                ground (arith, fit, took.0, ih.1, freed)
          ]
        ]

  queue_each-Obliging :
      (os : List OutputBufferTarget) (d : V4L2DriverAdapter K)
      → Obliging kern
      → d.streaming ≡ true
      → is_neg d.fd ≡ false
      → all_fit d.buffer_size os ≡ true
      → length os ≤ free_queued_request_count d.queued_requests
      → d.next_token + length os < 2 ^ 64
      → IsValid d
      → (queue_each kern os d).0 ≡ some (upto d.next_token (length os))
  unfolding queue_each all_fit
  queue_each-Obliging [] d obliging s f fit free room v = refl
  queue_each-Obliging (o ∷ os) d obliging s f fit free room v =
      let d' = (queue_capture_buffer kern o.buffer_fd o.acquire_fence_fd o.buffer_size d).1 in
      let first : fits d.buffer_size o ≡ true = ground (arith, fit) in
      let others : all_fit d.buffer_size os ≡ true = ground (arith, fit) in
      let e =
        queue_capture-Obliging kern o.buffer_fd o.acquire_fence_fd o.buffer_size d obliging
          (fits-Takes o d s f first) (omega (arith, free)) v in
      let took =
        (queue_capture-some kern o.buffer_fd o.acquire_fence_fd o.buffer_size d.next_token d e).1 in
      let kept =
        queue_capture-Kept kern o.buffer_fd o.acquire_fence_fd o.buffer_size d (omega (arith, room))
          v in
      let next = took.3 ∙ inc64-eq d.next_token (omega (arith, room)) in
      let ih =
        queue_each-Obliging os d' obliging (took.4 ∙ s) (ap is_neg took.6 ∙ f)
          (subst (λ b. all_fit b os ≡ true) (sym took.7) others)
          (omega (arith, free, Took-free o.buffer_fd o.buffer_size d.next_token d d' took))
          (omega (arith, room, next)) kept.0 in
      ground (arith, e, ih, ap (λ n. upto n (length os)) next)

  -- On a kernel that takes every buffer and a valid adapter, whose token counter has room, the buffers
  -- that `can_submit_capture_outputs` accepts are those that `start_continuous_stream` queues, each
  -- under a token of its own, counted up in the order of the buffers.
  pub can_submit-start_continuous :
      (stream : StreamConfig) (os : List OutputBufferTarget) (d : V4L2DriverAdapter K)
      → Obliging kern
      → IsValid d
      → d.next_token + length os < 2 ^ 64
      → (can_submit_capture_outputs d os ≡ true)
        ↔ ((start_continuous_stream kern stream os d).0 ≡ some (upto d.next_token (length os)))
  unfolding can_submit_capture_outputs start_continuous_stream
  can_submit-start_continuous stream os d obliging v room =
      let d' : V4L2DriverAdapter K = record d { continuous_streaming = true } in
      let valid' : d.streaming ≡ true → IsValid d' = λ s. (v.0, v.1, ground (arith, s, v.2), v.3) in
      (
        λ h.
            let s : d.streaming ≡ true = ground (arith, h) in
            let f : is_neg d.fd ≡ false = ground (arith, h) in
            ground (
              arith,
              h,
              s,
              f,
              queue_each-Obliging os d' obliging s f (ground (arith, h)) (ground (arith, h)) room
                  (valid' s),
            ),
        λ h. ground (arith, h, queue_each-some os d' (upto d.next_token (length os))),
      )

  -- A capture that was submitted to a valid adapter comes back: when the device then gives the buffer of
  -- the slot that was the first free one, the completion has the submission's token and the device's
  -- size and time stamp, and the table of slots is the one before the submission.
  pub submit-dequeue :
      (o : OutputBufferTarget) (d : V4L2DriverAdapter K) (token bytes timestamp : ℕ)
      → IsValid d
      → (submit_capture kern o d).0 ≡ some token
      → (kern.dequeue_buffer (submit_capture kern o d).1.fd (submit_capture kern o d).1.kernel).0
        ≡ dequeued (first_free d.queued_requests) bytes timestamp
      → let drained = dequeue_completion kern d.fd (submit_capture kern o d).1 in
        (drained.0 ≡ some (record { token = token; bytes_used = bytes; timestamp = timestamp }))
        × (drained.1.queued_requests ≡ d.queued_requests)
  unfolding submit_capture dequeue_completion take_dequeued
  submit-dequeue o d token bytes timestamp v h answer =
      let d' = (submit_capture kern o d).1 in
      let some' = queue_capture-some kern o.buffer_fd o.acquire_fence_fd o.buffer_size token d h in
      let took = some'.1 in
      let bound =
        bind_free_queued_request d.next_token o.buffer_fd minus_one o.buffer_size
          d.queued_requests in
      elim (Option-cases bound.0) [
        | inl e ↦
            let never : ⊥ = omega (
              arith,
              took.1,
              bind-none d.next_token o.buffer_fd minus_one o.buffer_size d.queued_requests e,
            ) in
            elim never [ ]
        | inr (slot, e) ↦
            let ff = first_free d.queued_requests in
            let zero_plus : 0 + ff ≡ ff = omega arith in
            let small : 0 + length d.queued_requests < 2 ^ 32 = omega (arith, v.0.2) in
            let found =
              find-bind d.next_token o.buffer_fd minus_one o.buffer_size 0 d.queued_requests slot
                v.0.1 small e in
            let cleared =
              clear-bind d.next_token o.buffer_fd minus_one o.buffer_size d.buffer_size 0
                d.queued_requests slot v.0.0 v.0.1 small e in
            let given =
              bind-slot d.next_token o.buffer_fd minus_one o.buffer_size 0 d.queued_requests slot
                v.0.1 e in
            let found' : queued_request_for_index ff d'.queued_requests ≡ some slot =
              ap (queued_request_for_index ff) took.2
              ∙ subst (λ n. queued_request_for_index n bound.1 ≡ some slot) zero_plus found.0 in
            let cleared' : clear_queued_request ff d'.queued_requests ≡ d.queued_requests =
              ap (clear_queued_request ff) took.2
              ∙ subst (λ n. clear_queued_request n bound.1 ≡ d.queued_requests) zero_plus cleared in
            ground (
              arith,
              answer,
              found',
              cleared',
              found.1,
              given.1,
              took.0,
              took.5,
              took.6,
              some'.0,
              ==ℤ_self d.fd,
            )
      ]
