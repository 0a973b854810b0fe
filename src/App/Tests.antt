-- ===== src/App/Tests.antt =====
-- A frame that is encoded and written, and a command line.
use text.Mathlib.Text.{◌==◌ as str_eq}
use minicam_hal.Common.{
  ℕ, ◌≡◌, ◌≤◌, ◌+◌, to_size, refl, Bool, true, if◌then◌else◌, some, none, String, List, [], ◌∷◌,
  ◌++◌, pos, minus_one, length, All,
}
use minicam_hal.Interface.{CaptureResult, CaptureStatus, FramePayloadFormat, CompletedOutputBuffer}
use minicam_hal.Runtime.Table.{lookup}
use minicam_hal.App.Jpeg.{Compressor, append_yuyv_as_rgb, compress_rgb_to_jpeg, encode_jpeg}
use minicam_hal.App.Pixels.{append_yuyv-pixels}
use minicam_hal.App.Encoder.{
  EncodeJob, JpegEncoder, FenceCalls, find_frame, run_job, encode_request,
}
use minicam_hal.App.Writer.{
  FenceAwareResultWriter, register_path, register_result, ready_write, block_wait_and_write,
  tracked_for, first_completed_buffer,
}
use minicam_hal.App.Written.{encode-write}
use minicam_hal.App.Cli.{
  CliOptions, Conversions, default_options, NumberTexts, parse_args, parse_args-arguments,
}

append_yuyv-pixels_example :
    (append_yuyv_as_rgb (16 ∷ 128 ∷ 235 ∷ 128 ∷ 1 ∷ []) ≡ 0 ∷ 0 ∷ 0 ∷ 255 ∷ 255 ∷ 255 ∷ [])
    × All (λ b. b ≤ 255) (append_yuyv_as_rgb (16 ∷ 128 ∷ 235 ∷ 128 ∷ 1 ∷ []))
append_yuyv-pixels_example = append_yuyv-pixels (16 ∷ 128 ∷ 235 ∷ 128 ∷ 1 ∷ [])

abbrev fences : FenceCalls ℕ
fences = record {
  make_pipe = λ k. (some (pos 5, pos 6), k);
  wait = λ fd k. (true, k);
  write_byte = λ fd k. k;
  close = λ fd k. k + 1;
}

-- The picture is the number of its pixels' bytes.
abbrev jpge : Compressor
jpge room width height rgb = some (length rgb ∷ [])

abbrev completed : CompletedOutputBuffer
completed = record {
  stream_id = pos 0;
  buffer_id = minus_one;
  output_index = pos 0;
  status = CaptureStatus.ok;
  release_fence_fd = pos 5;
}

abbrev result : CaptureResult
result = record {
  frame_number = 8;
  status = CaptureStatus.ok;
  completed_output_buffers = completed ∷ [];
  message = "still";
  latency = 0;
  width = pos 2;
  height = pos 1;
  payload_format = FramePayloadFormat.rgb24_payload;
}

abbrev job : EncodeJob ℕ
job = record {
  request = record {
    frame_number = 8;
    output_index = pos 0;
    stream_id = pos 0;
    buffer_id = minus_one;
    buffer_fd = minus_one;
    buffer_size = 0;
    input_acquire_fence_fd = minus_one;
    width = pos 2;
    height = pos 1;
    payload_format = FramePayloadFormat.rgb24_payload;
  };
  buffer = some 1;
  write_fd = pos 6;
}

abbrev encoder : JpegEncoder ℕ ℕ
encoder = record {
  preview_buffers = [];
  capture_buffers = [];
  has_encoded_frames = true;
  encoded_frames = [];
  workers = [];
  kernel = 0;
}

abbrev mapped : ℕ → List ℕ
mapped l = 1 ∷ 2 ∷ 3 ∷ 4 ∷ 5 ∷ 6 ∷ []

abbrev writer : FenceAwareResultWriter ℕ ℕ (List ℕ)
writer = record {
  pending_writes = [];
  preview_buffers = [];
  capture_buffers = [];
  has_encoded_frames = true;
  encoded_frames = (record { frame_number = 8; buffer_id = minus_one }, 6 ∷ []) ∷ [];
  kernel = 0;
  files = [];
}

abbrev write_file : String → List ℕ → List ℕ → Bool × List ℕ
write_file path bytes files = (true, bytes ++ files)

encode-write_example :
    let done =
      block_wait_and_write fences write_file 8
        (register_result result (register_path 8 "a.jpg" writer)) in
    (done.0 ≡ some (record { result = result; wrote_image = true }))
    × (done.1.files ≡ 6 ∷ [])
    × (find_frame (record { frame_number = 8; buffer_id = minus_one }) done.1.encoded_frames ≡ none)
    × (ready_write 8 done.1.pending_writes ≡ none)
unfolding encode_request encode_jpeg compress_rgb_to_jpeg run_job first_completed_buffer tracked_for
    to_size lookup
encode-write_example =
    encode-write fences jpge mapped write_file job encoder writer "a.jpg" result completed (6 ∷ [])
      refl refl refl refl refl refl refl refl refl refl refl

-- Conversions that know the numbers of one command line.
abbrev conv : Conversions
conv = record {
  stoi = λ text.
      if str_eq text "640"
      then some (pos 640)
      else if str_eq text "480"
      then some (pos 480)
      else none;
  stoul = λ text. if str_eq text "30" then some 30 else if str_eq text "4" then some 4 else none;
}

abbrev texts : NumberTexts
texts = record { frames_text = "30"; width_text = "640"; height_text = "480"; buffers_text = "4" }

abbrev options : CliOptions
options = record default_options {
  use_v4l2 = true;
  preview_device_path = some "/dev/video1";
  preview_frame_count = 30;
}

parse_args-arguments_example :
    parse_args conv (
      "--v4l2" ∷ "/dev/video0" ∷ "--preview-v4l2" ∷ "/dev/video1" ∷ "--preview-frames" ∷ "30"
      ∷ "--width" ∷ "640" ∷ "--height" ∷ "480" ∷ "--buffers" ∷ "4" ∷ [])
    ≡ some options
parse_args-arguments_example = parse_args-arguments conv options texts refl refl refl refl refl
