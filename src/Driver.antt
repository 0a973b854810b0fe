-- ===== src/Driver.antt =====
-- hal/driver_adapter.h and hal/output_processor.h: the two interfaces that a session is built on.
-- A backend is a record of operations over its own state `D`; the methods that change the backend
-- return its new state. The token of a submission is its `uint64_t` value.
pub mod Calls
use minicam_hal.Common.{ℕ, ℤ, String, Bool, List, Option}
use minicam_hal.Interface.{OutputBufferTarget, StreamConfig, StreamType, FramePayloadFormat}

pub record DriverCompletion : Type 0 where
  pub token : ℕ
  pub bytes_used : ℕ
  pub timestamp : ℕ

pub record StreamBufferLease : Type 0 where
  pub frame_number : ℕ
  pub stream_id : ℤ
  pub stream_type : StreamType
  pub buffer_id : ℤ
  pub buffer_fd : ℤ
  pub buffer_size : ℕ
  pub consumer_release_fence_fd : ℤ

pub record DriverAdapter (D : Type 0) : Type 0 where
  pub configure_stream : D → Bool × D
  pub start_streaming : D → Bool × D
  pub required_output_buffer_size : D → OutputBufferTarget → ℕ
  pub start_continuous_stream : StreamConfig → List OutputBufferTarget → D → Option (List ℕ) × D
  pub stop_streaming : D → D
  pub close : D → D
  pub can_submit_capture_outputs : D → List OutputBufferTarget → Bool
  pub submit_capture : OutputBufferTarget → D → Option ℕ × D
  pub dequeue_completion : ℤ → D → Option DriverCompletion × D
  pub return_stream_buffer : StreamBufferLease → D → Option ℕ × D
  pub event_fds : D → List ℤ
  pub last_error : D → String

pub record OutputProcessRequest : Type 0 where
  pub frame_number : ℕ
  pub output_index : ℤ
  pub stream_id : ℤ
  pub buffer_id : ℤ
  pub buffer_fd : ℤ
  pub buffer_size : ℕ
  pub input_acquire_fence_fd : ℤ
  pub width : ℤ
  pub height : ℤ
  pub payload_format : FramePayloadFormat

-- `process_output` returns the release fence and the processor's new state.
pub record OutputProcessor (P : Type 0) : Type 0 where
  pub process_output : P → OutputProcessRequest → ℤ × P
