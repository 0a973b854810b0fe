-- ===== src/Interface.antt =====
-- interface/capture_request.h, interface/capture_result.h: what passes between the framework and
-- the HAL. An `int` is a `ℤ`, a `size_t` or `uint64_t` a number; a `steady_clock::time_point` is its
-- count of nanoseconds, a `microseconds` its count.
use minicam_hal.Common.{ℕ, ℤ, String, List}

pub data StreamType : Type 0 where
  preview still video : StreamType

pub data PixelFormat : Type 0 where
  rgb24 yuyv422 : PixelFormat

pub record StreamConfig : Type 0 where
  pub stream_id : ℤ
  pub stream_type : StreamType
  pub width : ℤ
  pub height : ℤ
  pub format : PixelFormat

pub record OutputBufferTarget : Type 0 where
  pub stream_id : ℤ
  pub buffer_id : ℤ
  pub buffer_fd : ℤ
  pub acquire_fence_fd : ℤ
  pub buffer_size : ℕ
  pub stream_type : StreamType
  pub width : ℤ
  pub height : ℤ
  pub format : PixelFormat

pub record CaptureRequest : Type 0 where
  pub frame_number : ℕ
  pub width : ℤ
  pub height : ℤ
  pub output_buffers : List OutputBufferTarget
  pub submitted_at : ℕ

pub data CaptureStatus : Type 0 where
  ok flushed sensor_error processing_error : CaptureStatus

pub data FramePayloadFormat : Type 0 where
  no_payload rgb24_payload yuyv422_payload : FramePayloadFormat

pub record CompletedOutputBuffer : Type 0 where
  pub stream_id : ℤ
  pub buffer_id : ℤ
  pub output_index : ℤ
  pub status : CaptureStatus
  pub release_fence_fd : ℤ

pub record CaptureResult : Type 0 where
  pub frame_number : ℕ
  pub status : CaptureStatus
  pub completed_output_buffers : List CompletedOutputBuffer
  pub message : String
  pub latency : ℕ
  pub width : ℤ
  pub height : ℤ
  pub payload_format : FramePayloadFormat
