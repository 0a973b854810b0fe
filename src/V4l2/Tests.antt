-- ===== src/V4l2/Tests.antt =====
-- A kernel with one capture node, the adapter that is configured and started on it, and two of them.
use minicam_hal.Common.{ℕ, ◌≡◌, ◌↔◌, refl, true, false, some, [], ◌∷◌, pos, arith, inc64}
use minicam_hal.Interface.{OutputBufferTarget, preview, still, rgb24}
use minicam_hal.Driver.Calls.{configures, starts, stops, submits, dequeues, calls, call}
use minicam_hal.Session.Tests.{target}
use minicam_hal.V4l2.{
  Kernel, V4L2DriverAdapter, V4L2StreamConfig, new_adapter, empty_slot, dequeued,
  bind_free_queued_request, to_int, to_u32, number_slots,
}
use minicam_hal.V4l2.Stream
use minicam_hal.V4l2.Multi
use minicam_hal.V4l2.Multi.{V4L2MultiStreamDriverAdapter, new_multi}
use minicam_hal.V4l2.Table.{IsValid}
use minicam_hal.V4l2.Invariant.{calls-IsValid}
use minicam_hal.V4l2.Taking.{Obliging}
use minicam_hal.V4l2.Accepts.{can_submit-start_continuous, submit-dequeue}
use minicam_hal.V4l2.Routing.{CameBack, route_submit-dequeue}
use minicam_hal.V4l2.Owner.{Valid, calls-Valid}
use minicam_hal.V4l2.Groups.{all_types, type_fits, of_type, can_submit-types}

-- The state is the index of the last buffer that was queued.
abbrev node : Kernel ℕ
node = record {
  open_device = λ path k. (pos 7, k);
  query_capability = λ fd k. (
    some (record {
      has_device_caps = false;
      captures = true;
      streams = true;
      device_captures = false;
      device_streams = false;
    }),
    k,
  );
  set_format = λ fd width height format k. (some 16, k);
  request_buffers = λ fd n k. (some n, k);
  queue_buffer = λ fd index buffer k. (true, index);
  dequeue_buffer = λ fd k. (dequeued k 16 99, k);
  stream_on = λ fd k. (true, k);
  stream_off = λ fd k. k;
  poll_fence = λ fence k. (true, k);
  close_fd = λ fd k. k;
  strerror = λ k. "error";
  pix_fmt_yuyv = 1448695129;
}

abbrev config : V4L2StreamConfig
config = record {
  device_path = "/dev/video0";
  width = pos 4;
  height = pos 2;
  pixel_format = 0;
  buffer_count = 2;
}

abbrev large : OutputBufferTarget
large = record target { buffer_fd = pos 5; buffer_size = 16 }

abbrev live : V4L2DriverAdapter ℕ
live = record {
  config = config;
  queued_requests = empty_slot (pos 0) ∷ empty_slot (pos 1) ∷ [];
  last_error = "";
  fd = pos 7;
  buffer_size = 16;
  next_token = 1;
  streaming = true;
  device_streaming = false;
  continuous_streaming = false;
  kernel = 0;
}

live_test : calls (Stream.v4l2_driver node) (configures ∷ starts ∷ []) (new_adapter config 0) ≡ live
unfolding calls call Stream.configure_stream Stream.configure_opened Stream.configure_format
    Stream.configure_buffers Stream.start_streaming number_slots to_int
live_test = refl

submit_test : (Stream.submit_capture node large live).0 ≡ some 1
unfolding Stream.submit_capture Stream.queue_capture_buffer Stream.queue_ready Stream.queue_bound
    Stream.stream_on bind_free_queued_request inc64
submit_test = refl

live-IsValid : IsValid live
unfolding to_int
live-IsValid = (
  ((refl, (refl, tt)), (refl, (refl, tt)), omega arith, tt),
  omega arith,
  refl,
  (λ e. ground (arith, e)),
)

calls-IsValid_example :
    IsValid (calls (Stream.v4l2_driver node) (submits large ∷ dequeues (pos 7) ∷ stops ∷ []) live)
calls-IsValid_example =
    calls-IsValid node (submits large ∷ dequeues (pos 7) ∷ stops ∷ []) live (omega arith)
      live-IsValid

node-Obliging : Obliging node
node-Obliging = (λ f k. refl, λ f i b k. refl, λ f k. refl)

can_submit-start_continuous_example :
    (Stream.can_submit_capture_outputs live (large ∷ large ∷ []) ≡ true) ↔ (
      (Stream.start_continuous_stream node
        (record {
          stream_id = pos 0;
          stream_type = preview;
          width = pos 4;
          height = pos 2;
          format = rgb24;
        })
        (large ∷ large ∷ [])
        live).0
      ≡ some (1 ∷ 2 ∷ []))
can_submit-start_continuous_example =
    can_submit-start_continuous node _ (large ∷ large ∷ []) live node-Obliging live-IsValid
      (omega arith)

submit-dequeue_example :
    let drained =
      Stream.dequeue_completion node (pos 7) (Stream.submit_capture node large live).1 in
    (drained.0 ≡ some (record { token = 1; bytes_used = 16; timestamp = 99 }))
    × (drained.1.queued_requests ≡ live.queued_requests)
unfolding Stream.submit_capture Stream.queue_capture_buffer Stream.queue_ready Stream.queue_bound
    Stream.stream_on bind_free_queued_request inc64 to_u32
submit-dequeue_example = submit-dequeue node large live 1 16 99 live-IsValid refl refl

-- A preview node and a still one.
abbrev two : V4L2MultiStreamDriverAdapter ℕ
two = record {
  endpoints =
      record { stream_type = preview; adapter = live }
      ∷ record { stream_type = still; adapter = live }
      ∷ [];
  last_error = "";
  next_token = 5;
  kernel = 0;
}

two-Valid : Valid 5 two.endpoints
unfolding to_int
two-Valid = (raised, (raised, tt))
  where
    raised : IsValid (record live { next_token = 5 })
    raised = (
      ((refl, (refl, tt)), (refl, (refl, tt)), omega arith, tt),
      omega arith,
      refl,
      (λ e. ground (arith, e)),
    )

calls-Valid_example :
    Valid
      (calls (Multi.multi_driver node) (submits large ∷ stops ∷ []) two).next_token
      (calls (Multi.multi_driver node) (submits large ∷ stops ∷ []) two).endpoints
calls-Valid_example = calls-Valid node (submits large ∷ stops ∷ []) two (omega arith) two-Valid

can_submit-types_example :
    Multi.can_submit_capture_outputs two (large ∷ large ∷ [])
    ≡ all_types (λ t. type_fits t two.endpoints (of_type t (large ∷ large ∷ [])))
can_submit-types_example = can_submit-types two (large ∷ large ∷ [])

-- The same, with a file for each node.
abbrev still_live : V4L2DriverAdapter ℕ
still_live = record live { fd = pos 8 }

abbrev apart : V4L2MultiStreamDriverAdapter ℕ
apart = record two {
  endpoints =
      record { stream_type = preview; adapter = live }
      ∷ record { stream_type = still; adapter = still_live }
      ∷ [];
}

still_live-IsValid : IsValid (Multi.lend 5 0 still_live)
unfolding to_int
still_live-IsValid = (
  ((refl, (refl, tt)), (refl, (refl, tt)), omega arith, tt),
  omega arith,
  refl,
  (λ e. ground (arith, e)),
)

route_submit-dequeue_example :
    (◌≡◌ {A = ℕ} 5 5)
    × CameBack node large
        (record { token = 5; bytes_used = 16; timestamp = 99 })
        still_live
        apart
        (Multi.dequeue_completion node (pos 8) (Multi.submit_capture node large apart).1)
unfolding Multi.submit_capture Multi.call_for Multi.endpoint_for Stream.submit_capture
    Stream.queue_capture_buffer Stream.queue_ready Stream.queue_bound Stream.stream_on
    bind_free_queued_request inc64 to_u32
route_submit-dequeue_example =
    route_submit-dequeue node large apart still_live 5 16 99 refl ((λ e. cc), ((λ e. refl), tt))
      still_live-IsValid refl refl
