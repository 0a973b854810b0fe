-- ===== src/Session/Results.antt =====
-- hal/camera_device_session.cpp, the functions of its anonymous namespace: how a session builds
-- results, outputs and leases. `now` is a reading of the steady clock in nanoseconds.
use minicam_hal.Common.{
  ℕ, ℤ, ◌+◌, ◌-◌, ◌/◌, pos, minus_one, false, Option, none, some, List, [], ◌∷◌, map, String,
}
use minicam_hal.Interface.{
  OutputBufferTarget, PixelFormat, rgb24, yuyv422, still, CaptureRequest, CaptureStatus,
  CompletedOutputBuffer, CaptureResult, FramePayloadFormat, no_payload, rgb24_payload,
  yuyv422_payload,
}
use minicam_hal.Driver.{StreamBufferLease}
use minicam_hal.Tracker.{
  InFlightOutput, InFlightRequest, InFlightStreamingOutput, OutputCompletionResult, not_found,
  waiting_for_more_outputs, request_complete,
}

abbrev pub latency_since : ℕ → ℕ → ℕ
latency_since start now = (now - start) / 1000

abbrev pub make_result : ℕ → CaptureStatus → List CompletedOutputBuffer → String → ℕ → CaptureResult
make_result n status buffers message latency = record {
  frame_number = n;
  status = status;
  completed_output_buffers = buffers;
  message = message;
  latency = latency;
  width = pos 0;
  height = pos 0;
  payload_format = no_payload;
}

abbrev pub default_output : CaptureRequest → OutputBufferTarget
default_output request = record {
  stream_id = pos 0;
  buffer_id = minus_one;
  buffer_fd = minus_one;
  acquire_fence_fd = minus_one;
  buffer_size = 0;
  stream_type = still;
  width = request.width;
  height = request.height;
  format = rgb24;
}

-- A request that names no output gets one, without a buffer.
unfoldable pub outputs_or_default :
    CaptureRequest → List OutputBufferTarget → List OutputBufferTarget
outputs_or_default request [] = default_output request ∷ []
outputs_or_default request (o ∷ os) = o ∷ os

unfoldable pub request_outputs_for : CaptureRequest → List OutputBufferTarget
unfolding outputs_or_default
request_outputs_for request = outputs_or_default request request.output_buffers

abbrev pub completed_buffer : CaptureStatus → InFlightOutput → CompletedOutputBuffer
completed_buffer status b = record {
  stream_id = b.target.stream_id;
  buffer_id = b.target.buffer_id;
  output_index = b.output_index;
  status = status;
  release_fence_fd = b.release_fence_fd;
}

abbrev pub completed_buffers_for : List InFlightOutput → CaptureStatus → List CompletedOutputBuffer
completed_buffers_for buffers status = map (completed_buffer status) buffers

abbrev pub payload_format_for : PixelFormat → FramePayloadFormat
payload_format_for rgb24 = rgb24_payload
payload_format_for yuyv422 = yuyv422_payload

abbrev pub capture_result_from_standalone_completion : InFlightStreamingOutput → ℤ → CaptureResult
capture_result_from_standalone_completion o fence = record {
  frame_number = o.frame_number;
  status = CaptureStatus.ok;
  completed_output_buffers =
      record {
        stream_id = o.target.stream_id;
        buffer_id = o.target.buffer_id;
        output_index = minus_one;
        status = CaptureStatus.ok;
        release_fence_fd = fence;
      }
      ∷ [];
  message = "preview";
  latency = 0;
  width = o.target.width;
  height = o.target.height;
  payload_format = payload_format_for o.target.format;
}

abbrev pub stream_buffer_lease_from_completion : InFlightStreamingOutput → StreamBufferLease
stream_buffer_lease_from_completion o = record {
  frame_number = o.frame_number;
  stream_id = o.target.stream_id;
  stream_type = o.stream_type;
  buffer_id = o.target.buffer_id;
  buffer_fd = o.target.buffer_fd;
  buffer_size = o.target.buffer_size;
  consumer_release_fence_fd = minus_one;
}

abbrev pub ok_result : InFlightRequest → OutputBufferTarget → ℕ → CaptureResult
ok_result row target now = record {
  frame_number = row.frame_number;
  status = CaptureStatus.ok;
  completed_output_buffers = completed_buffers_for row.output_buffers CaptureStatus.ok;
  message = "ok";
  latency = latency_since row.submitted_at now;
  width = target.width;
  height = target.height;
  payload_format = payload_format_for target.format;
}

abbrev pub capture_result_from_output_completion :
    OutputCompletionResult → OutputBufferTarget → ℕ → Option CaptureResult
capture_result_from_output_completion not_found target now = none
capture_result_from_output_completion waiting_for_more_outputs target now = none
capture_result_from_output_completion (request_complete row) target now =
    some (ok_result row target now)

-- Output `i` of the request is tracked under index `i`.
unfoldable pub number_outputs : ℕ → List OutputBufferTarget → List InFlightOutput
number_outputs i [] = []
number_outputs i (o ∷ os) =
    record { target = o; output_index = pos i; completed = false; release_fence_fd = minus_one }
    ∷ number_outputs (i + 1) os

unfoldable pub make_in_flight_outputs : List OutputBufferTarget → List InFlightOutput
unfolding number_outputs
make_in_flight_outputs outputs = number_outputs 0 outputs
