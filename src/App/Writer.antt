-- ===== src/App/Writer.antt =====
-- app/fence_aware_result_writer.h and .cpp: the path and the result of a frame meet here, in either
-- order, and its encoded picture is written once its release fence is signalled. The preview's tracker,
-- the still captures' and the store of frames are shared with the program; files are a parameter.
use Prim.Native.String.{len}
use text.Mathlib.Text.{◌==◌ as str_eq}
use minicam_hal.Common.{
  ℕ, ℤ, Bool, true, false, ◌&&◌, ◌||◌, Option, none, some, List, [], ◌∷◌, String, if◌then◌else◌,
  ◌==◌, ◌==ℤ◌, minus_one, Map, find, erase,
}
use minicam_hal.Interface.{CaptureResult, CompletedOutputBuffer, CaptureStatus, ok}
use minicam_hal.App.Buffers.{BufferTracker, resolve_metadata, take_metadata}
use minicam_hal.App.Encoder.{EncodedFrameStore, FenceCalls, take_frame, close_fd, wait_for_fence}

pub record PendingWrite : Type 0 where
  pub output_path : String
  pub result : Option CaptureResult

pub record WriteResult : Type 0 where
  pub result : CaptureResult
  pub wrote_image : Bool

-- `write_file` opens a file and writes its bytes; it may fail at either.
pub record FenceAwareResultWriter (L K F : Type 0) : Type 0 where
  pub pending_writes : Map PendingWrite
  pub preview_buffers : BufferTracker L
  pub capture_buffers : BufferTracker L
  pub has_encoded_frames : Bool
  pub encoded_frames : EncodedFrameStore
  pub kernel : K
  pub files : F

abbrev pub no_write : PendingWrite
no_write = record { output_path = ""; result = none }

-- `pending_writes_[frame_number]`, which makes an empty entry where there is none.
unfoldable pub pending_at : ℕ → Map PendingWrite → PendingWrite
unfolding find
pending_at n m = elim (find n m) [ none ↦ no_write | some p ↦ p ]

unfoldable pub write_pending : ℕ → PendingWrite → Map PendingWrite → Map PendingWrite
unfolding erase
write_pending n p m = (n, p) ∷ erase n m

abbrev pub is_ok : CaptureStatus → Bool
is_ok ok = true
is_ok _ = false

module _ {L K F : Type 0} where
  unfoldable pub register_path :
      ℕ → String → FenceAwareResultWriter L K F → FenceAwareResultWriter L K F
  unfolding pending_at write_pending
  register_path n path w = record w {
    pending_writes =
        write_pending n (record (pending_at n w.pending_writes) { output_path = path })
          w.pending_writes;
  }

  unfoldable pub register_result :
      CaptureResult → FenceAwareResultWriter L K F → FenceAwareResultWriter L K F
  unfolding pending_at write_pending
  register_result result w =
      let n = result.frame_number in
      record w {
        pending_writes =
            write_pending n (record (pending_at n w.pending_writes) { result = some result })
              w.pending_writes;
      }

  unfoldable pub cancel : ℕ → FenceAwareResultWriter L K F → FenceAwareResultWriter L K F
  cancel n w = record w { pending_writes = erase n w.pending_writes }

  -- Is the buffer that the result names tracked? And the trackers after it: a still capture's leaves its tracker.
  unfoldable pub tracked_for :
      CaptureResult
      → CompletedOutputBuffer
      → FenceAwareResultWriter L K F
      → Bool × FenceAwareResultWriter L K F
  unfolding resolve_metadata take_metadata
  tracked_for result completed w =
      let is_preview = str_eq result.message "preview" in
      let (taken, captures) = take_metadata completed.buffer_id w.capture_buffers in
      let previewed : Bool = elim (resolve_metadata completed.buffer_id w.preview_buffers) [
        | none ↦ false
        | some m ↦ true
      ] in
      let captured : Bool = elim taken [ none ↦ false | some b ↦ true ] in
      let no_buffer = completed.buffer_id ==ℤ minus_one in
      (
        if is_preview then previewed || no_buffer else captured || no_buffer,
        record w { capture_buffers = if is_preview then w.capture_buffers else captures },
      )

-- What a frame waits for: none if it is not there yet, so that a wait ends by its timeout.
unfoldable pub ready_write : ℕ → Map PendingWrite → Option (String × CaptureResult)
ready_write n m = elim (find n m) [
  | none ↦ none
  | some p ↦ elim p.result [
    | none ↦ none
    | some result ↦ if len p.output_path == 0 then none else some (p.output_path, result)
  ]
]

unfoldable pub first_completed_buffer : CaptureResult → Option CompletedOutputBuffer
first_completed_buffer result = elim result.completed_output_buffers [ [] ↦ none | b ∷ bs ↦ some b ]

module _ {L K F : Type 0} (fences : FenceCalls K)
    (write_file : String → List ℕ → F → Bool × F) where
  unfoldable pub write_encoded_frame :
      String → ℕ → ℤ → FenceAwareResultWriter L K F → Bool × FenceAwareResultWriter L K F
  unfolding take_frame
  write_encoded_frame path n buffer_id w =
      let (encoded, frames) =
        take_frame (record { frame_number = n; buffer_id = buffer_id }) w.encoded_frames in
      if w.has_encoded_frames
      then (elim encoded [
        | none ↦ (false, record w { encoded_frames = frames })
        | some bytes ↦
            let (done, files) = write_file path bytes w.files in
            (done, record w { encoded_frames = frames; files = files })
      ])
      else (false, w)

  -- The frame's entry has been taken out; its picture is that of the first buffer of its result.
  unfoldable pub write_buffer :
      CompletedOutputBuffer
      → String
      → CaptureResult
      → FenceAwareResultWriter L K F
      → WriteResult × FenceAwareResultWriter L K F
  unfolding tracked_for write_encoded_frame
  write_buffer completed path result w =
      let (fence_ready, k) = wait_for_fence fences completed.release_fence_fd w.kernel in
      let waited : FenceAwareResultWriter L K F = record w {
        kernel = close_fd fences completed.release_fence_fd k;
      } in
      let (tracked, w') = tracked_for result completed waited in
      let (wrote, w'') = write_encoded_frame path result.frame_number completed.buffer_id w' in
      if is_ok result.status && fence_ready && tracked
      then (record { result = result; wrote_image = wrote }, w'')
      else (record { result = result; wrote_image = false }, w')

  unfoldable pub write_completed :
      String
      → CaptureResult
      → FenceAwareResultWriter L K F
      → WriteResult × FenceAwareResultWriter L K F
  unfolding write_buffer
  write_completed path result w = elim (first_completed_buffer result) [
    | none ↦ (record { result = result; wrote_image = false }, w)
    | some completed ↦ write_buffer completed path result w
  ]

  -- The wait as it ends: with the frame's entry, or by the timeout.
  unfoldable pub block_wait_and_write :
      ℕ → FenceAwareResultWriter L K F → Option WriteResult × FenceAwareResultWriter L K F
  unfolding write_completed ready_write
  block_wait_and_write n w = elim (ready_write n w.pending_writes) [
    | none ↦ (none, w)
    | some (path, result) ↦
        let (written, w') =
          write_completed path result (record w { pending_writes = erase n w.pending_writes }) in
        (some written, w')
  ]
