-- ===== src/App/Encoder.antt =====
-- app/jpeg_encoder_processor.h and .cpp: outputs are encoded on threads of their own, and the frames kept
-- until they are written. The buffers' bytes, `mapped`, and the system calls are parameters.
use minicam_hal.Common.{
  ℕ, ℤ, Bool, true, ◌&&◌, Option, none, some, List, [], ◌∷◌, ◌++◌, if◌then◌else◌, ◌==◌, ◌==ℤ◌,
  minus_one, is_neg,
}
use minicam_hal.Interface.{CaptureResult, CaptureStatus}
use minicam_hal.Driver.{OutputProcessRequest}
use minicam_hal.App.Jpeg.{Compressor, encode_jpeg, encode_synthetic_jpeg}
use minicam_hal.App.Buffers.{BufferTracker, resolve}

pub record EncodedFrameKey : Type 0 where
  pub frame_number : ℕ
  pub buffer_id : ℤ

abbrev pub same_key : EncodedFrameKey → EncodedFrameKey → Bool
same_key a b = a.frame_number == b.frame_number && a.buffer_id ==ℤ b.buffer_id

abbrev pub EncodedFrameStore : Type 0
EncodedFrameStore = List (EncodedFrameKey × List ℕ)

unfoldable pub find_frame : EncodedFrameKey → EncodedFrameStore → Option (List ℕ)
find_frame key [] = none
find_frame key ((k, bytes) ∷ rest) = if same_key k key then some bytes else find_frame key rest

unfoldable pub erase_frame : EncodedFrameKey → EncodedFrameStore → EncodedFrameStore
erase_frame key [] = []
erase_frame key ((k, bytes) ∷ rest) =
    let rest' = erase_frame key rest in if same_key k key then rest' else (k, bytes) ∷ rest'

unfoldable pub put_frame : EncodedFrameKey → List ℕ → EncodedFrameStore → EncodedFrameStore
unfolding erase_frame
put_frame key bytes frames = (key, bytes) ∷ erase_frame key frames

unfoldable pub take_frame :
    EncodedFrameKey → EncodedFrameStore → Option (List ℕ) × EncodedFrameStore
unfolding find_frame erase_frame
take_frame key frames = elim (find_frame key frames) [
  | none ↦ (none, frames)
  | some bytes ↦ (some bytes, erase_frame key frames)
]

-- A wait repeats an interrupted `poll`, and its answer is not looked at here.
pub record FenceCalls (K : Type 0) : Type 0 where
  pub make_pipe : K → Option (ℤ × ℤ) × K
  pub wait : ℤ → K → Bool × K
  pub write_byte : ℤ → K → K
  pub close : ℤ → K → K

abbrev pub close_fd : {K : Type 0} → FenceCalls K → ℤ → K → K
close_fd fences fd k = if is_neg fd then k else fences.close fd k

abbrev pub wait_for_fence : {K : Type 0} → FenceCalls K → ℤ → K → Bool × K
wait_for_fence fences fd k = if is_neg fd then (true, k) else fences.wait fd k

unfoldable pub signal_fence : {K : Type 0} → FenceCalls K → ℤ → K → K
signal_fence fences fd k = close_fd fences fd (fences.write_byte fd k)

-- A worker that has been started, and has not yet run.
pub record EncodeJob (L : Type 0) : Type 0 where
  pub request : OutputProcessRequest
  pub buffer : Option L
  pub write_fd : ℤ

-- `has_encoded_frames`: is the pointer `encoded_frames_` set. The store behind it is shared with the
-- writer.
pub record JpegEncoder (L K : Type 0) : Type 0 where
  pub preview_buffers : BufferTracker L
  pub capture_buffers : BufferTracker L
  pub has_encoded_frames : Bool
  pub encoded_frames : EncodedFrameStore
  pub workers : List (EncodeJob L)
  pub kernel : K

abbrev pub encode_result : OutputProcessRequest → CaptureResult
encode_result request = record {
  frame_number = request.frame_number;
  status = CaptureStatus.ok;
  completed_output_buffers = [];
  message = "jpeg-encode";
  latency = 0;
  width = request.width;
  height = request.height;
  payload_format = request.payload_format;
}

unfoldable pub encode_request :
    {L : Type 0} → Compressor → (L → List ℕ) → OutputProcessRequest → Option L → Option (List ℕ)
encode_request jpge mapped request none = encode_synthetic_jpeg jpge (encode_result request)
encode_request jpge mapped request (some l) = encode_jpeg jpge (encode_result request) (mapped l)

module _ {L K : Type 0} where
  unfoldable pub resolve_buffer : ℤ → JpegEncoder L K → Option L
  resolve_buffer buffer_id e = elim (resolve buffer_id e.capture_buffers) [
    | none ↦ resolve buffer_id e.preview_buffers
    | some l ↦ some l
  ]

module _ {L K : Type 0} (fences : FenceCalls K) where
  -- The release fence of the output is the read end of the pipe that the worker signals.
  unfoldable pub process_output : JpegEncoder L K → OutputProcessRequest → ℤ × JpegEncoder L K
  unfolding resolve_buffer
  process_output e request =
      let (ends, k) = fences.make_pipe e.kernel in
      elim ends [
        | none ↦ (minus_one, record e { kernel = close_fd fences request.input_acquire_fence_fd k })
        | some (read_fd, write_fd) ↦ (
          read_fd,
          record e {
            kernel = k;
            workers =
                e.workers
                ++ (record {
                  request = request;
                  buffer = resolve_buffer request.buffer_id e;
                  write_fd = write_fd;
                }
                    ∷ []);
          },
        )
      ]

module _ {L K : Type 0} (fences : FenceCalls K) (jpge : Compressor) (mapped : L → List ℕ) where
  -- The body of a worker's thread.
  unfoldable pub run_job : EncodeJob L → JpegEncoder L K → JpegEncoder L K
  unfolding signal_fence put_frame
  run_job job e =
      let (ready, k) = wait_for_fence fences job.request.input_acquire_fence_fd e.kernel in
      let key : EncodedFrameKey = record {
        frame_number = job.request.frame_number;
        buffer_id = job.request.buffer_id;
      } in
      record e {
        kernel =
            signal_fence fences job.write_fd (close_fd fences job.request.input_acquire_fence_fd k);
        encoded_frames =
            if e.has_encoded_frames
            then (elim (encode_request jpge mapped job.request job.buffer) [
              | none ↦ e.encoded_frames
              | some bytes ↦ put_frame key bytes e.encoded_frames
            ])
            else e.encoded_frames;
      }

  unfoldable pub run_jobs : List (EncodeJob L) → JpegEncoder L K → JpegEncoder L K
  unfolding run_job
  run_jobs [] e = e
  run_jobs (job ∷ jobs) e = run_jobs jobs (run_job job e)

  -- Every worker is waited for; here in the order in which they were started.
  unfoldable pub join_workers : JpegEncoder L K → JpegEncoder L K
  unfolding run_jobs
  join_workers e = record (run_jobs e.workers e) { workers = [] }
