-- ===== src/App/Written.antt =====
-- app/: a frame from its encoder's thread to its file.
use Prim.Native.String.{len}
use minicam_hal.Common.{
  ℕ, ℤ, ◌≡◌, refl, ap, ◌∙◌, Bool, true, false, none, some, List, [], ◌∷◌, String, ◌==◌, ==_self,
  ==ℤ_self, arith, inl, inr, Bool-cases, find, erase, find-erase_self, Map,
}
use minicam_hal.Interface.{CaptureResult, CompletedOutputBuffer}
use minicam_hal.App.Jpeg.{Compressor}
use minicam_hal.App.Encoder.{
  EncodedFrameStore, EncodedFrameKey, same_key, FenceCalls, EncodeJob, JpegEncoder, find_frame,
  erase_frame, put_frame, take_frame, encode_request, run_job, wait_for_fence, close_fd,
}
use minicam_hal.App.Writer.{
  FenceAwareResultWriter, PendingWrite, pending_at, write_pending, register_path, register_result,
  ready_write, tracked_for, first_completed_buffer, is_ok, write_encoded_frame, write_buffer,
  write_completed, block_wait_and_write,
}

same_key_refl : (k : EncodedFrameKey) → same_key k k ≡ true
same_key_refl k = ground (arith, ==_self k.frame_number, ==ℤ_self k.buffer_id)

find-erase_frame :
    (k : EncodedFrameKey) (s : EncodedFrameStore) → find_frame k (erase_frame k s) ≡ none
unfolding find_frame erase_frame
find-erase_frame k [] = refl
find-erase_frame k ((j, bytes) ∷ s) = elim (Bool-cases (same_key j k)) [
  | inl e ↦ ground (arith, e, find-erase_frame k s)
  | inr e ↦ ground (arith, e, find-erase_frame k s)
]

find-put_frame :
    (k : EncodedFrameKey) (bytes : List ℕ) (s : EncodedFrameStore)
    → find_frame k (put_frame k bytes s) ≡ some bytes
unfolding find_frame put_frame
find-put_frame k bytes s = rw (same_key_refl k) refl

module _ {L K F : Type 0} where
  -- A frame's path and its result may be registered in either order: what was there for the frame is
  -- replaced, and it is ready to be written, to the path, if the path is not empty.
  register-order :
      (path : String) (result : CaptureResult) (w : FenceAwareResultWriter L K F)
      → (len path == 0) ≡ false
      → let n = result.frame_number in
        (ready_write n (register_result result (register_path n path w)).pending_writes
          ≡ some (path, result))
        × (ready_write n (register_path n path (register_result result w)).pending_writes
            ≡ some (path, result))
  unfolding ready_write register_path register_result pending_at write_pending find
  register-order path result w h =
      let n = result.frame_number in (ground (arith, h, ==_self n), ground (arith, h, ==_self n))

module _ {L K F : Type 0} (fences : FenceCalls K)
    (write_file : String → List ℕ → F → Bool × F) where
  write_encoded-frame :
      (path : String) (n : ℕ) (id : ℤ) (bytes : List ℕ) (w : FenceAwareResultWriter L K F)
      → let key : EncodedFrameKey = record { frame_number = n; buffer_id = id } in
        w.has_encoded_frames ≡ true
        → find_frame key w.encoded_frames ≡ some bytes
        → let done = write_encoded_frame fences write_file path n id w in
          (done.0 ≡ (write_file path bytes w.files).0)
          × (done.1.files ≡ (write_file path bytes w.files).1)
          × (done.1.encoded_frames ≡ erase_frame key w.encoded_frames)
          × (done.1.pending_writes ≡ w.pending_writes)
  unfolding write_encoded_frame take_frame
  write_encoded-frame path n id bytes w has h = ground (arith, has, h)

  tracked-same :
      (result : CaptureResult) (completed : CompletedOutputBuffer)
      (w : FenceAwareResultWriter L K F)
      → ((tracked_for result completed w).1.encoded_frames ≡ w.encoded_frames)
        × ((tracked_for result completed w).1.files ≡ w.files)
        × ((tracked_for result completed w).1.pending_writes ≡ w.pending_writes)
        × ((tracked_for result completed w).1.has_encoded_frames ≡ w.has_encoded_frames)
  unfolding tracked_for
  tracked-same result completed w = (refl, refl, refl, refl)

  write_buffer-ready :
      (path : String) (result : CaptureResult) (completed : CompletedOutputBuffer) (bytes : List ℕ)
      (w : FenceAwareResultWriter L K F)
      → let key : EncodedFrameKey = record {
        frame_number = result.frame_number;
        buffer_id = completed.buffer_id;
      } in
        w.has_encoded_frames ≡ true
        → find_frame key w.encoded_frames ≡ some bytes
        → is_ok result.status ≡ true
        → (wait_for_fence fences completed.release_fence_fd w.kernel).0 ≡ true
        → let k =
            close_fd fences completed.release_fence_fd
              (wait_for_fence fences completed.release_fence_fd w.kernel).1 in
          (tracked_for result completed (record w { kernel = k })).0 ≡ true
          → let done = write_buffer fences write_file completed path result w in
            (done.0 ≡ record { result = result; wrote_image = (write_file path bytes w.files).0 })
            × (done.1.files ≡ (write_file path bytes w.files).1)
            × (done.1.encoded_frames ≡ erase_frame key w.encoded_frames)
            × (done.1.pending_writes ≡ w.pending_writes)
  unfolding write_buffer
  write_buffer-ready path result completed bytes w has found is_good waited tracked =
      let k =
        close_fd fences completed.release_fence_fd
          (wait_for_fence fences completed.release_fence_fd w.kernel).1 in
      let w' = (tracked_for result completed (record w { kernel = k })).1 in
      let same = tracked-same result completed (record w { kernel = k }) in
      let wrote =
        write_encoded-frame path result.frame_number completed.buffer_id bytes w' (same.3 ∙ has)
          (ap (find_frame _) same.0 ∙ found) in
      let file = ap (write_file path bytes) same.1 in
      let all =
        write_encoded_frame fences write_file path result.frame_number completed.buffer_id w' in
      let done : write_buffer fences write_file completed path result w
          ≡ (record { result = result; wrote_image = all.0 }, all.1) =
        rw (is_good, waited, tracked) refl in
      (
        ap (λ p. p.0) done
            ∙ ap (λ b. record { result = result; wrote_image = b }) (wrote.0 ∙ ap (λ p. p.0) file),
        ap (λ p. p.1.files) done ∙ wrote.1 ∙ ap (λ p. p.1) file,
        ap (λ p. p.1.encoded_frames) done ∙ wrote.2 ∙ ap (erase_frame _) same.0,
        ap (λ p. p.1.pending_writes) done ∙ wrote.3 ∙ same.2,
      )

  completed-buffer :
      (path : String) (result : CaptureResult) (completed : CompletedOutputBuffer)
      (w : FenceAwareResultWriter L K F)
      → first_completed_buffer result ≡ some completed
      → write_completed fences write_file path result w
        ≡ write_buffer fences write_file completed path result w
  unfolding write_completed
  completed-buffer path result completed w h = rw (h, write_completed) refl

  block_wait-ready :
      (n : ℕ) (path : String) (result : CaptureResult) (w : FenceAwareResultWriter L K F)
      → ready_write n w.pending_writes ≡ some (path, result)
      → let done =
          write_completed fences write_file path result
            (record w { pending_writes = erase n w.pending_writes }) in
        block_wait_and_write fences write_file n w ≡ (some done.0, done.1)
  unfolding block_wait_and_write
  block_wait-ready n path result w h = rw (h, block_wait_and_write) refl

erased-ready : (n : ℕ) (m : Map PendingWrite) → ready_write n (erase n m) ≡ none
unfolding ready_write
erased-ready n m = rw (find-erase_self n m, ready_write) refl

module _ {L K F : Type 0} (fences : FenceCalls K) (jpge : Compressor) (mapped : L → List ℕ)
    (write_file : String → List ℕ → F → Bool × F) where
  job-frame :
      (job : EncodeJob L) (e : JpegEncoder L K) (w : FenceAwareResultWriter L K F)
      (result : CaptureResult) (completed : CompletedOutputBuffer) (bytes : List ℕ)
      → e.has_encoded_frames ≡ true
      → encode_request jpge mapped job.request job.buffer ≡ some bytes
      → w.encoded_frames ≡ (run_job fences jpge mapped job e).encoded_frames
      → result.frame_number ≡ job.request.frame_number
      → completed.buffer_id ≡ job.request.buffer_id
      → find_frame
          (record { frame_number = result.frame_number; buffer_id = completed.buffer_id })
          w.encoded_frames
        ≡ some bytes
  unfolding run_job
  job-frame job e w result completed bytes has encoded shared same_n same_b =
      let key : EncodedFrameKey = record {
        frame_number = job.request.frame_number;
        buffer_id = job.request.buffer_id;
      } in
      let stored : (run_job fences jpge mapped job e).encoded_frames
          ≡ put_frame key bytes e.encoded_frames =
        rw (has, encoded, run_job) refl in
      rw (same_n, same_b, shared, stored) (find-put_frame key bytes e.encoded_frames)

  -- A frame gets from its encoder's thread to its file. Where the encoder has run a job whose picture is
  -- some bytes, the writer shares the encoder's store of frames, which is there for both, and is given
  -- the path and then the result of that frame, the result is good, its first buffer is the job's and
  -- is tracked, and its fence is signalled: the wait gives the result, with the answer of writing
  -- those bytes to that path, the file system is what that writing leaves, the frame has left the
  -- store, and no write is pending for it.
  pub encode-write :
      (job : EncodeJob L) (e : JpegEncoder L K) (w : FenceAwareResultWriter L K F) (path : String)
      (result : CaptureResult) (completed : CompletedOutputBuffer) (bytes : List ℕ)
      → e.has_encoded_frames ≡ true
      → w.has_encoded_frames ≡ true
      → encode_request jpge mapped job.request job.buffer ≡ some bytes
      → w.encoded_frames ≡ (run_job fences jpge mapped job e).encoded_frames
      → result.frame_number ≡ job.request.frame_number
      → completed.buffer_id ≡ job.request.buffer_id
      → first_completed_buffer result ≡ some completed
      → is_ok result.status ≡ true
      → (len path == 0) ≡ false
      → (wait_for_fence fences completed.release_fence_fd w.kernel).0 ≡ true
      → (tracked_for result completed w).0 ≡ true
      → let n = result.frame_number in
        let done =
          block_wait_and_write fences write_file n
            (register_result result (register_path n path w)) in
        let key : EncodedFrameKey = record { frame_number = n; buffer_id = completed.buffer_id } in
        (done.0
          ≡ some (record { result = result; wrote_image = (write_file path bytes w.files).0 }))
        × (done.1.files ≡ (write_file path bytes w.files).1)
        × (find_frame key done.1.encoded_frames ≡ none)
        × (ready_write n done.1.pending_writes ≡ none)
  unfolding register_path register_result tracked_for
  encode-write job e w path result completed bytes e_has w_has encoded shared same_n same_b first
        is_good path_set waited tracked =
      let n = result.frame_number in
      let w1 = register_result result (register_path n path w) in
      let w2 : FenceAwareResultWriter L K F = record w1 {
        pending_writes = erase n w1.pending_writes;
      } in
      let found = job-frame job e w result completed bytes e_has encoded shared same_n same_b in
      let done =
        write_buffer-ready fences write_file path result completed bytes w2 w_has found is_good
          waited tracked in
      let written = completed-buffer fences write_file path result completed w2 first in
      let answer =
        block_wait-ready fences write_file n path result w1
          (register-order path result w path_set).0 in
      (
        ap (λ p. p.0) answer ∙ ap (λ p. some p.0) written ∙ ap some done.0,
        ap (λ p. p.1.files) answer ∙ ap (λ p. p.1.files) written ∙ done.1,
        ap (find_frame _)
              (ap (λ p. p.1.encoded_frames) answer ∙ ap (λ p. p.1.encoded_frames) written ∙ done.2)
            ∙ find-erase_frame _ w.encoded_frames,
        ap (ready_write n)
              (ap (λ p. p.1.pending_writes) answer ∙ ap (λ p. p.1.pending_writes) written ∙ done.3)
            ∙ erased-ready n w1.pending_writes,
      )
