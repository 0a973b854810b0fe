-- ===== src/V4l2/Taking.antt =====
-- hal/v4l2_driver_adapter.cpp: when `queue_capture_buffer` takes a buffer.
use minicam_hal.Common.{
  ℕ, ℤ, ◌+◌, ◌≡◌, ◌≤◌, ◌<◌, ap, ◌∙◌, minus_one, is_neg, true, false, some, inl, inr, arith,
  Option-cases, inc64,
}
use minicam_hal.V4l2.{
  Kernel, V4L2QueuedRequest, V4L2DriverAdapter, to_u32, free_queued_request_count,
  bind_free_queued_request,
}
use minicam_hal.V4l2.Stream.{
  stream_on, queue_bound, queue_ready, queue_capture_buffer, close_fence, wait_for_fence,
}
use minicam_hal.V4l2.Slots.{bind-none, bind-free_count, bind-slot}
use minicam_hal.V4l2.Table.{IsValid}

-- A kernel that takes every dma-buf it is given, and on which every fence is signalled.
abbrev pub Obliging : {K : Type 0} → Kernel K → Type 0
Obliging {K} kern =
    ((fence : ℤ) (k : K) → (kern.poll_fence fence k).0 ≡ true)
    × ((fd : ℤ) (index : ℕ) (buffer_fd : ℤ) (k : K)
        → (kern.queue_buffer fd index buffer_fd k).0 ≡ true)
    × ((fd : ℤ) (k : K) → (kern.stream_on fd k).0 ≡ true)

-- The adapter could take the buffer, if the kernel does.
abbrev pub Takes : {K : Type 0} → ℤ → ℕ → V4L2DriverAdapter K → Type 0
Takes fd size d =
    (d.streaming ≡ true) × (is_neg d.fd ≡ false) × (is_neg fd ≡ false) × (d.buffer_size ≤ size)

-- The adapter has taken the buffer: it has the first free slot, under the next token.
abbrev pub Took : {K : Type 0} → ℤ → ℕ → ℕ → V4L2DriverAdapter K → V4L2DriverAdapter K → Type 0
Took fd size token d d' =
    let bound = bind_free_queued_request d.next_token fd minus_one size d.queued_requests in
    (token ≡ d.next_token)
    × (0 < free_queued_request_count d.queued_requests)
    × (d'.queued_requests ≡ bound.1)
    × (d'.next_token ≡ inc64 d.next_token)
    × (d'.streaming ≡ d.streaming)
    × (d'.device_streaming ≡ true)
    × (d'.fd ≡ d.fd)
    × (d'.buffer_size ≡ d.buffer_size)

pub Took-free :
    {K : Type 0} (fd : ℤ) (size token : ℕ) (d d' : V4L2DriverAdapter K)
    → Took fd size token d d'
    → free_queued_request_count d'.queued_requests + 1 ≡ free_queued_request_count d.queued_requests
Took-free fd size token d d' took =
    let bound = bind_free_queued_request d.next_token fd minus_one size d.queued_requests in
    elim (Option-cases bound.0) [
      | inl e ↦ omega (arith, took.1, bind-none d.next_token fd minus_one size d.queued_requests e)
      | inr (slot, e) ↦
          ap (λ l. free_queued_request_count l + 1) took.2
          ∙ bind-free_count d.next_token fd minus_one size d.queued_requests slot e
    ]

module _ {K : Type 0} (kern : Kernel K) where
  queue_bound-some :
      (token t : ℕ) (slot : V4L2QueuedRequest) (d : V4L2DriverAdapter K)
      → (queue_bound kern token slot d).0 ≡ some t
      → let d' = (queue_bound kern token slot d).1 in
        (t ≡ token)
        × (d'.queued_requests ≡ d.queued_requests)
        × (d'.next_token ≡ d.next_token)
        × (d'.streaming ≡ d.streaming)
        × (d'.device_streaming ≡ true)
        × (d'.fd ≡ d.fd)
        × (d'.buffer_size ≡ d.buffer_size)
  unfolding queue_bound stream_on
  queue_bound-some token t slot d h = ground (arith, h)

  queue_ready-some :
      (fd : ℤ) (size token : ℕ) (d : V4L2DriverAdapter K)
      → (queue_ready kern fd size d).0 ≡ some token
      → Took fd size token d (queue_ready kern fd size d).1
  unfolding queue_ready
  queue_ready-some fd size token d h =
      let bound = bind_free_queued_request d.next_token fd minus_one size d.queued_requests in
      let d' : V4L2DriverAdapter K = record d {
        next_token = inc64 d.next_token;
        queued_requests = bound.1;
      } in
      elim (Option-cases bound.0) [
        | inl e ↦ ground (arith, e, h)
        | inr (slot, e) ↦ ground (
          arith,
          e,
          h,
          queue_bound-some d.next_token token slot d',
          bind-free_count d.next_token fd minus_one size d.queued_requests slot e,
        )
      ]

  -- Only a buffer that the adapter could take is taken.
  pub queue_capture-some :
      (fd fence : ℤ) (size token : ℕ) (d : V4L2DriverAdapter K)
      → (queue_capture_buffer kern fd fence size d).0 ≡ some token
      → Takes fd size d × Took fd size token d (queue_capture_buffer kern fd fence size d).1
  unfolding queue_capture_buffer
  queue_capture-some fd fence size token d h =
      let k = close_fence kern fence (wait_for_fence kern fence d.kernel).1 in
      ground (arith, h, queue_ready-some fd size token (record d { kernel = k }))

  -- And an obliging kernel takes each of them.
  queue_ready-Obliging :
      (fd : ℤ) (size : ℕ) (d : V4L2DriverAdapter K)
      → Obliging kern
      → is_neg fd ≡ false
      → 0 < free_queued_request_count d.queued_requests
      → IsValid d
      → (queue_ready kern fd size d).0 ≡ some d.next_token
  unfolding queue_ready queue_bound stream_on
  queue_ready-Obliging fd size d obliging f free v =
      let bound = bind_free_queued_request d.next_token fd minus_one size d.queued_requests in
      elim (Option-cases bound.0) [
        | inl e ↦ ground (arith, free, bind-none d.next_token fd minus_one size d.queued_requests e)
        | inr (slot, e) ↦
            let s = bind-slot d.next_token fd minus_one size 0 d.queued_requests slot v.0.1 e in
            let queued = kern.queue_buffer d.fd (to_u32 slot.index) slot.buffer_fd d.kernel in
            ground (
              arith,
              e,
              f,
              s,
              obliging.1 d.fd (to_u32 slot.index) slot.buffer_fd d.kernel,
              obliging.2 d.fd queued.1,
            )
      ]

  pub queue_capture-Obliging :
      (fd fence : ℤ) (size : ℕ) (d : V4L2DriverAdapter K)
      → Obliging kern
      → Takes fd size d
      → 0 < free_queued_request_count d.queued_requests
      → IsValid d
      → (queue_capture_buffer kern fd fence size d).0 ≡ some d.next_token
  unfolding queue_capture_buffer
  queue_capture-Obliging fd fence size d obliging takes free v =
      let k = close_fence kern fence (wait_for_fence kern fence d.kernel).1 in
      ground (
        arith,
        takes,
        obliging.0 fence d.kernel,
        queue_ready-Obliging fd size (record d { kernel = k }) obliging takes.2 free v,
      )
