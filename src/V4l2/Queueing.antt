-- ===== src/V4l2/Queueing.antt =====
-- hal/v4l2_driver_adapter.h and .cpp: the calls that queue and dequeue a buffer keep the adapter
-- valid.
use minicam_hal.Common.{
  ℕ, ℤ, ◌+◌, ◌^◌, ◌≡◌, ◌≤◌, ◌<◌, minus_one, is_neg, true, false, List, [], ◌∷◌, inl, inr, arith,
  length, Bool-cases, Option-cases,
}
use minicam_hal.Interface.{OutputBufferTarget, StreamConfig}
use minicam_hal.Driver.{StreamBufferLease}
use minicam_hal.V4l2.{
  Kernel, V4L2QueuedRequest, V4L2DriverAdapter, to_u32, bind_free_queued_request,
}
use minicam_hal.V4l2.Stream.{
  stream_on, queue_bound, queue_ready, queue_capture_buffer, submit_capture, queue_each,
  start_continuous_stream, take_dequeued, dequeue_completion, return_stream_buffer, close_fence,
  wait_for_fence,
}
use minicam_hal.V4l2.Slots.{clear-Idle}
use minicam_hal.V4l2.Table.{
  IsValid, Kept, clear-Table, bind-Table, clear-nil, bind-nil, inc64-eq, Dequeued-cases,
}

module _ {K : Type 0} (kern : Kernel K) where
  stream_on-Kept :
      (token index : ℕ) (d : V4L2DriverAdapter K)
      → d.streaming ≡ true
      → IsValid d
      → Kept 0 d (stream_on kern token index d).1
  unfolding stream_on
  stream_on-Kept token index d s v = ground (
    arith,
    s,
    v,
    clear-Table d.buffer_size d.next_token index d.queued_requests v.0,
    clear-nil index d.queued_requests,
  )

  queue_bound-Kept :
      (token : ℕ) (slot : V4L2QueuedRequest) (d : V4L2DriverAdapter K)
      → d.streaming ≡ true
      → IsValid d
      → Kept 0 d (queue_bound kern token slot d).1
  unfolding queue_bound
  queue_bound-Kept token slot d s v =
      elim (Bool-cases (kern.queue_buffer d.fd (to_u32 slot.index) slot.buffer_fd d.kernel).0) [
        | inl e ↦ ground (
          arith,
          e,
          s,
          v,
          stream_on-Kept token (to_u32 slot.index)
              (record d {
                kernel = (kern.queue_buffer d.fd (to_u32 slot.index) slot.buffer_fd d.kernel).1;
              })
              s v,
        )
        | inr e ↦ ground (
          arith,
          e,
          s,
          v,
          clear-Table d.buffer_size d.next_token (to_u32 slot.index) d.queued_requests v.0,
          clear-nil (to_u32 slot.index) d.queued_requests,
        )
      ]

  queue_ready-Kept :
      (fd : ℤ) (size : ℕ) (d : V4L2DriverAdapter K)
      → d.streaming ≡ true
      → is_neg fd ≡ false
      → d.buffer_size ≤ size
      → d.next_token + 1 < 2 ^ 64
      → IsValid d
      → Kept 1 d (queue_ready kern fd size d).1
  unfolding queue_ready
  queue_ready-Kept fd size d s f k room v =
      let answer = bind_free_queued_request d.next_token fd minus_one size d.queued_requests in
      let d' : V4L2DriverAdapter K = record d {
        next_token = d.next_token + 1;
        queued_requests = answer.1;
      } in
      let v' : IsValid d' = (
        bind-Table d.buffer_size d.next_token fd size d.queued_requests f k v.1 v.0,
        omega arith,
        ground (arith, s, v.2),
        λ e. bind-nil d.next_token fd size d.queued_requests (v.3 e),
      ) in
      let next = inc64-eq d.next_token room in
      elim (Option-cases answer.0) [
        | inl e ↦ ground (arith, e, next, v')
        | inr (slot, e) ↦
            let kept = queue_bound-Kept d.next_token slot d' s v' in ground (arith, e, next, kept)
      ]

  pub queue_capture-Kept :
      (fd fence : ℤ) (size : ℕ) (d : V4L2DriverAdapter K)
      → d.next_token + 1 < 2 ^ 64
      → IsValid d
      → Kept 1 d (queue_capture_buffer kern fd fence size d).1
  unfolding queue_capture_buffer
  queue_capture-Kept fd fence size d room v =
      let k = close_fence kern fence (wait_for_fence kern fence d.kernel).1 in
      ground (arith, v, queue_ready-Kept fd size (record d { kernel = k }))

  queue_each-Kept :
      (os : List OutputBufferTarget) (d : V4L2DriverAdapter K)
      → d.next_token + length os < 2 ^ 64
      → IsValid d
      → Kept (length os) d (queue_each kern os d).1
  unfolding queue_each
  queue_each-Kept [] d room v = (v, omega arith, omega arith)
  queue_each-Kept (o ∷ os) d room v =
      let d' = (queue_capture_buffer kern o.buffer_fd o.acquire_fence_fd o.buffer_size d).1 in
      let kept =
        queue_capture-Kept o.buffer_fd o.acquire_fence_fd o.buffer_size d (omega (arith, room)) v in
      let rest = queue_each-Kept os d' (omega (arith, room, kept.2)) kept.0 in
      elim (Option-cases
        (queue_capture_buffer kern o.buffer_fd o.acquire_fence_fd o.buffer_size d).0) [
          | inl e ↦ ground (arith, e, kept)
          | inr (token, e) ↦ ground (arith, e, kept, rest)
        ]

  pub start_continuous-Kept :
      (stream : StreamConfig) (os : List OutputBufferTarget) (d : V4L2DriverAdapter K)
      → d.next_token + length os < 2 ^ 64
      → IsValid d
      → Kept (length os) d (start_continuous_stream kern stream os d).1
  unfolding start_continuous_stream
  start_continuous-Kept stream os d room v =
      ground (arith, v, queue_each-Kept os (record d { continuous_streaming = true }) room)

  pub submit-Kept :
      (o : OutputBufferTarget) (d : V4L2DriverAdapter K)
      → d.next_token + 1 < 2 ^ 64
      → IsValid d
      → Kept 1 d (submit_capture kern o d).1
  unfolding submit_capture
  submit-Kept o d room v = queue_capture-Kept o.buffer_fd o.acquire_fence_fd o.buffer_size d room v

  pub return-Kept :
      (lease : StreamBufferLease) (d : V4L2DriverAdapter K)
      → d.next_token + 1 < 2 ^ 64
      → IsValid d
      → Kept 1 d (return_stream_buffer kern lease d).1
  unfolding return_stream_buffer
  return-Kept lease d room v = ground (
    arith,
    v,
    queue_capture-Kept lease.buffer_fd lease.consumer_release_fence_fd lease.buffer_size d room v,
  )

  take_dequeued-Kept :
      (index bytes timestamp : ℕ) (d : V4L2DriverAdapter K)
      → IsValid d
      → Kept 0 d (take_dequeued index bytes timestamp d).1
  unfolding take_dequeued
  take_dequeued-Kept index bytes timestamp d v = ground (
    arith,
    v,
    clear-Table d.buffer_size d.next_token index d.queued_requests v.0,
    clear-nil index d.queued_requests,
    clear-Idle index d.queued_requests,
  )

  pub dequeue-Kept :
      (fd : ℤ) (d : V4L2DriverAdapter K) → IsValid d → Kept 0 d (dequeue_completion kern fd d).1
  unfolding dequeue_completion
  dequeue-Kept fd d v =
      let answer = kern.dequeue_buffer d.fd d.kernel in
      let d' : V4L2DriverAdapter K = record d { kernel = answer.1 } in
      elim (Dequeued-cases answer.0) [
        | inl (inl e) ↦ ground (arith, e, v)
        | inl (inr e) ↦ ground (arith, e, v)
        | inr (index, bytes, timestamp, e) ↦
            ground (arith, e, v, take_dequeued-Kept index bytes timestamp d' v)
      ]
