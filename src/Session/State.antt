-- ===== src/Session/State.antt =====
-- hal/camera_device_session.h: the state of a session, and what it does to the world outside.
use minicam_hal.Common.{
  ℕ, ℤ, Bool, true, false, ◌||◌, not, Option, none, some, List, ◌∷◌, is_neg, if◌then◌else◌,
}
use minicam_hal.Interface.{StreamConfig, OutputBufferTarget, CaptureResult}
use minicam_hal.Driver.{StreamBufferLease}
use minicam_hal.Metrics.{FrameMetrics, record_failure}
use minicam_hal.Tracker.{InFlightRequestTracker}

pub data CameraSessionState : Type 0 where
  created configured streaming flushing stopping stopped error : CameraSessionState

-- A call of `result_callback_` for a request or for a preview buffer, of `stream_result_callback_`
-- (with the lease that it is given), of `close` on a fence, and of the runtime's `unregister_session`.
pub data Event : Type 0 where
  request_result : CaptureResult → Event
  preview_result : CaptureResult → Event
  stream_result : CaptureResult → StreamBufferLease → Event
  closed_fence : ℤ → Event
  unregistered : ℤ → List ℤ → Event

-- `D` is the state of the driver, `P` that of an output processor; `none` is a null pointer. The
-- stream callback is the lease that it answers, a function of the result and the lease. `events` is
-- the newest first. The fields `buffer_count` and `capture_request_rejection_policy` of the
-- configuration are never read.
pub record CameraDeviceSession (D P : Type 0) : Type 0 where
  pub session_id : ℤ
  pub continuous_preview_config : Option StreamConfig
  pub continuous_preview_buffers : List OutputBufferTarget
  pub has_result_callback : Bool
  pub stream_result_callback : Option (CaptureResult → StreamBufferLease → StreamBufferLease)
  pub state : CameraSessionState
  pub driver : Option D
  pub driver_fds : List ℤ
  pub in_flight : InFlightRequestTracker
  pub output_processors : List (Option P)
  pub metrics : FrameMetrics
  pub next_streaming_frame_number : ℕ
  pub events : List Event

abbrev pub is_streaming : CameraSessionState → Bool
is_streaming CameraSessionState.streaming = true
is_streaming _ = false

abbrev pub is_none {ℓ} : {A : Type ℓ} → Option A → Bool
is_none none = true
is_none (some a) = false

module _ {D P : Type 0} where
  abbrev pub emit : Event → CameraDeviceSession D P → CameraDeviceSession D P
  emit e s = record s { events = e ∷ s.events }

  abbrev pub count_failure : CameraDeviceSession D P → CameraDeviceSession D P
  count_failure s = record s { metrics = record_failure s.metrics }

  -- A call of `result_callback_`, if there is one.
  unfoldable pub dispatch_result : CaptureResult → CameraDeviceSession D P → CameraDeviceSession D P
  dispatch_result r s = if s.has_result_callback then emit (request_result r) s else s

  unfoldable pub close_fence_fd : ℤ → CameraDeviceSession D P → CameraDeviceSession D P
  close_fence_fd fd s = if is_neg fd then s else emit (closed_fence fd) s

  unfoldable pub reject_request_locked : CameraDeviceSession D P → Bool
  reject_request_locked s = not (is_streaming s.state) || is_none s.driver
