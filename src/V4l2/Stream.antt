-- ===== src/V4l2/Stream.antt =====
-- hal/v4l2_driver_adapter.cpp: the methods of `V4L2DriverAdapter`.
use Prim.Native.String.{◌++◌ as append}
use minicam_hal.Common.{
  ℕ, ℤ, ◌%◌, ◌^◌, minus_one, is_neg, ◌==ℤ◌, Bool, true, false, not, ◌&&◌, ◌||◌, Option, none, some,
  List, [], ◌∷◌, String, if◌then◌else◌, ◌==◌, ltb, length, is_empty, to_size, mul_size, inc64,
}
use minicam_hal.Interface.{OutputBufferTarget, StreamConfig}
use minicam_hal.Driver.{DriverAdapter, DriverCompletion, StreamBufferLease}
use minicam_hal.V4l2.{
  Capability, try_again, dequeue_failed, dequeued, Kernel, V4L2QueuedRequest, V4L2DriverAdapter,
  set_error, to_u32, queued_request_for_index, free_queued_request_count, bind_free_queued_request,
  clear_queued_request, reset_queued_requests, number_slots,
}

abbrev pub fits : ℕ → OutputBufferTarget → Bool
fits size o = not (is_neg o.buffer_fd || ltb o.buffer_size size)

-- The loop of `can_submit_capture_outputs`.
unfoldable pub all_fit : ℕ → List OutputBufferTarget → Bool
all_fit size [] = true
all_fit size (o ∷ os) = let rest = all_fit size os in if fits size o then rest else false

-- The word of flags that counts, and two of them.
abbrev pub captures : Capability → Bool
captures c = if c.has_device_caps then c.device_captures else c.captures

abbrev pub streams : Capability → Bool
streams c = if c.has_device_caps then c.device_streams else c.streams

module _ {K : Type 0} where
  unfoldable pub start_streaming : V4L2DriverAdapter K → Bool × V4L2DriverAdapter K
  start_streaming d =
      if is_neg d.fd || is_empty d.queued_requests
      then (false, set_error "V4L2 stream is not configured" d)
      else (true, record d { streaming = true })

  unfoldable pub required_output_buffer_size : V4L2DriverAdapter K → OutputBufferTarget → ℕ
  required_output_buffer_size d output = d.buffer_size

  unfoldable pub can_submit_capture_outputs : V4L2DriverAdapter K → List OutputBufferTarget → Bool
  can_submit_capture_outputs d outputs =
      if not d.streaming
        || is_neg d.fd
        || ltb (free_queued_request_count d.queued_requests) (length outputs)
      then false
      else all_fit d.buffer_size outputs

  unfoldable pub event_fds : V4L2DriverAdapter K → List ℤ
  event_fds d = if is_neg d.fd then [] else d.fd ∷ []

  -- The answer of VIDIOC_DQBUF, and the slot of its index.
  unfoldable pub take_dequeued :
      ℕ → ℕ → ℕ → V4L2DriverAdapter K → Option DriverCompletion × V4L2DriverAdapter K
  take_dequeued index bytes timestamp d = elim (queued_request_for_index index d.queued_requests) [
    | none ↦ (none, set_error "VIDIOC_DQBUF returned an out-of-range buffer index" d)
    | some q ↦
        if q.queued
        then (
          some (record { token = q.token; bytes_used = bytes; timestamp = timestamp }),
          record d { queued_requests = clear_queued_request index d.queued_requests },
        )
        else (none, set_error "VIDIOC_DQBUF returned a buffer that is not queued" d)
  ]

module _ {K : Type 0} (kern : Kernel K) where
  unfoldable pub stop_streaming : V4L2DriverAdapter K → V4L2DriverAdapter K
  stop_streaming d = record d {
    kernel =
        if not (is_neg d.fd) && d.device_streaming then kern.stream_off d.fd d.kernel else d.kernel;
    queued_requests = reset_queued_requests d.queued_requests;
    device_streaming = false;
    streaming = false;
    continuous_streaming = false;
  }

  unfoldable pub close : V4L2DriverAdapter K → V4L2DriverAdapter K
  close d =
      let d' = stop_streaming d in
      record d' {
        queued_requests = [];
        kernel = if is_neg d'.fd then d'.kernel else kern.close_fd d'.fd d'.kernel;
        fd = if is_neg d'.fd then d'.fd else minus_one;
        device_streaming = false;
        streaming = false;
      }

  -- The ends of `configure_stream` that close the device again.
  abbrev give_up : String → V4L2DriverAdapter K → Bool × V4L2DriverAdapter K
  give_up e d = (false, close (set_error e d))

  abbrev failed : String → V4L2DriverAdapter K → String
  failed what d = append what (kern.strerror d.kernel)

  -- VIDIOC_REQBUFS, and the slots; `size` is the size of an image.
  unfoldable pub configure_buffers : ℕ → V4L2DriverAdapter K → Bool × V4L2DriverAdapter K
  configure_buffers sizeimage d =
      let (granted, k) = kern.request_buffers d.fd (d.config.buffer_count % 2 ^ 32) d.kernel in
      let d' : V4L2DriverAdapter K = record d { kernel = k } in
      elim granted [
        | none ↦ give_up (failed "VIDIOC_REQBUFS failed: " d') d'
        | some count ↦
            if count % 2 ^ 32 == 0 then give_up "VIDIOC_REQBUFS returned zero buffers" d' else (
              true,
              record d' {
                buffer_size =
                    if sizeimage == 0
                    then mul_size (mul_size (to_size d.config.width) (to_size d.config.height)) 2
                    else sizeimage;
                queued_requests = number_slots 0 (count % 2 ^ 32);
              },
            )
      ]

  -- VIDIOC_S_FMT.
  unfoldable pub configure_format : V4L2DriverAdapter K → Bool × V4L2DriverAdapter K
  configure_format d =
      let pixel_format =
        if d.config.pixel_format == 0 then kern.pix_fmt_yuyv else d.config.pixel_format in
      let (sizeimage, k) =
        kern.set_format d.fd (to_u32 d.config.width) (to_u32 d.config.height) pixel_format
          d.kernel in
      let d' : V4L2DriverAdapter K = record d { kernel = k } in
      elim sizeimage [
        | none ↦ give_up (failed "VIDIOC_S_FMT failed: " d') d'
        | some size ↦ configure_buffers (size % 2 ^ 32) d'
      ]

  -- VIDIOC_QUERYCAP, on the device that is open.
  unfoldable pub configure_opened : V4L2DriverAdapter K → Bool × V4L2DriverAdapter K
  configure_opened d =
      let (capability, k) = kern.query_capability d.fd d.kernel in
      let d' : V4L2DriverAdapter K = record d { kernel = k } in
      elim capability [
        | none ↦ give_up (failed "VIDIOC_QUERYCAP failed: " d') d'
        | some c ↦
            if not (captures c)
            then give_up "device does not support single-plane V4L2 capture" d'
            else if not (streams c)
            then give_up "device does not support V4L2 streaming I/O" d'
            else configure_format d'
      ]

  unfoldable pub configure_stream : V4L2DriverAdapter K → Bool × V4L2DriverAdapter K
  configure_stream d =
      if not (is_neg d.fd)
      then (true, d)
      else (let (fd, k) = kern.open_device d.config.device_path d.kernel in
          let d' : V4L2DriverAdapter K = record d { fd = fd; kernel = k } in
          if is_neg fd
          then (false, set_error (failed "open failed: " d') d')
          else configure_opened d')

  abbrev pub wait_for_fence : ℤ → K → Bool × K
  wait_for_fence fence k = if is_neg fence then (true, k) else kern.poll_fence fence k

  abbrev pub close_fence : ℤ → K → K
  close_fence fence k = if is_neg fence then k else kern.close_fd fence k

  -- VIDIOC_STREAMON, for the first buffer of a stream; `index` is the buffer's.
  unfoldable pub stream_on : ℕ → ℕ → V4L2DriverAdapter K → Option ℕ × V4L2DriverAdapter K
  stream_on token index d =
      if d.device_streaming
      then (some token, d)
      else (let (on, k) = kern.stream_on d.fd d.kernel in
          let d' : V4L2DriverAdapter K = record d { kernel = k } in
          if on then (some token, record d' { device_streaming = true }) else (
            none,
            set_error (failed "VIDIOC_STREAMON failed: " d')
                (record d' { queued_requests = clear_queued_request index d'.queued_requests }),
          ))

  -- The slot is bound, and its buffer goes to the device by VIDIOC_QBUF.
  unfoldable pub queue_bound :
      ℕ → V4L2QueuedRequest → V4L2DriverAdapter K → Option ℕ × V4L2DriverAdapter K
  queue_bound token slot d =
      if is_neg slot.buffer_fd
      then (none, set_error "V4L2 queued request binding failed" d)
      else (let (queued, k) = kern.queue_buffer d.fd (to_u32 slot.index) slot.buffer_fd d.kernel in
          let d' : V4L2DriverAdapter K = record d { kernel = k } in
          if queued then stream_on token (to_u32 slot.index) d' else (
            none,
            set_error (failed "VIDIOC_QBUF failed: " d') (record d' {
              queued_requests = clear_queued_request (to_u32 slot.index) d'.queued_requests;
            }),
          ))

  -- The fence has been waited for and closed: a token is taken, and a free slot bound.
  unfoldable pub queue_ready : ℤ → ℕ → V4L2DriverAdapter K → Option ℕ × V4L2DriverAdapter K
  queue_ready buffer_fd size d =
      let token = d.next_token in
      let (bound, slots) =
        bind_free_queued_request token buffer_fd minus_one size d.queued_requests in
      let d' : V4L2DriverAdapter K = record d {
        next_token = inc64 token;
        queued_requests = slots;
      } in
      elim bound [
        | none ↦ (none, set_error "V4L2 queue is full" d')
        | some slot ↦ queue_bound token slot d'
      ]

  unfoldable pub queue_capture_buffer :
      ℤ → ℤ → ℕ → V4L2DriverAdapter K → Option ℕ × V4L2DriverAdapter K
  queue_capture_buffer buffer_fd fence size d =
      if not d.streaming || is_neg d.fd
      then (none, set_error "V4L2 stream is not started" d)
      else if is_neg buffer_fd
      then (none, set_error "V4L2 capture requires a valid dma-buf from the request" d)
      else if ltb size d.buffer_size
      then (none, set_error "request dma-buf is smaller than the configured V4L2 frame" d)
      else (let (ready, k) = wait_for_fence fence d.kernel in
          let d' : V4L2DriverAdapter K = record d { kernel = close_fence fence k } in
          if ready
          then queue_ready buffer_fd size d'
          else (none, set_error (failed "acquire fence wait failed: " d') d'))

  unfoldable pub submit_capture :
      OutputBufferTarget → V4L2DriverAdapter K → Option ℕ × V4L2DriverAdapter K
  submit_capture o d = queue_capture_buffer o.buffer_fd o.acquire_fence_fd o.buffer_size d

  -- The loop of `start_continuous_stream`: the submissions so far are dropped if one fails.
  unfoldable pub queue_each :
      List OutputBufferTarget → V4L2DriverAdapter K → Option (List ℕ) × V4L2DriverAdapter K
  queue_each [] d = (some [], d)
  queue_each (o ∷ os) d =
      let (submission, d') = queue_capture_buffer o.buffer_fd o.acquire_fence_fd o.buffer_size d in
      let (rest, d'') = queue_each os d' in
      elim submission [
        | none ↦ (none, record d' { continuous_streaming = false })
        | some token ↦ (elim rest [ none ↦ none | some tokens ↦ some (token ∷ tokens) ], d'')
      ]

  unfoldable pub start_continuous_stream :
      StreamConfig
      → List OutputBufferTarget
      → V4L2DriverAdapter K
      → Option (List ℕ) × V4L2DriverAdapter K
  start_continuous_stream stream buffers d =
      if not d.streaming || is_neg d.fd
      then (none, set_error "V4L2 stream is not started" d)
      else queue_each buffers (record d { continuous_streaming = true })

  unfoldable pub dequeue_completion :
      ℤ → V4L2DriverAdapter K → Option DriverCompletion × V4L2DriverAdapter K
  dequeue_completion ready_fd d =
      if not (ready_fd ==ℤ d.fd) || not d.device_streaming || is_neg d.fd
      then (none, d)
      else (let (answer, k) = kern.dequeue_buffer d.fd d.kernel in
          let d' : V4L2DriverAdapter K = record d { kernel = k } in
          elim answer [
            | try_again ↦ (none, d')
            | dequeue_failed ↦ (none, set_error (failed "VIDIOC_DQBUF failed: " d') d')
            | dequeued index bytes timestamp ↦ take_dequeued index bytes timestamp d'
          ])

  -- Without a continuous stream the submission is the default one, of token 0.
  unfoldable pub return_stream_buffer :
      StreamBufferLease → V4L2DriverAdapter K → Option ℕ × V4L2DriverAdapter K
  return_stream_buffer lease d =
      if d.continuous_streaming
      then queue_capture_buffer lease.buffer_fd lease.consumer_release_fence_fd lease.buffer_size d
      else (some 0, d)

  abbrev pub v4l2_driver : DriverAdapter (V4L2DriverAdapter K)
  v4l2_driver = record {
    configure_stream = configure_stream;
    start_streaming = start_streaming;
    required_output_buffer_size = required_output_buffer_size;
    start_continuous_stream = start_continuous_stream;
    stop_streaming = stop_streaming;
    close = close;
    can_submit_capture_outputs = can_submit_capture_outputs;
    submit_capture = submit_capture;
    dequeue_completion = dequeue_completion;
    return_stream_buffer = return_stream_buffer;
    event_fds = event_fds;
    last_error = λ d. d.last_error;
  }
