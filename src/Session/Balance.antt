-- ===== src/Session/Balance.antt =====
-- For each locked part of a session: the frames for which it makes a result, against the frames in
-- flight before and after.
use minicam_hal.Common.{
  ℕ, ℤ, ◌+◌, ◌≡◌, refl, ap, true, false, List, [], ◌∷◌, map, Option, none, some, inl, inr, arith,
  ◌==◌, ==_self, if◌then◌else◌, find, contains, keys, Map, Distinct, Option-cases, count,
  find-erase, find-emplace, find-assign, count-find, count-Distinct, find-AllEntries, String,
  is_empty, minus_one,
}
use minicam_hal.Interface.{
  CaptureRequest, CaptureResult, CaptureStatus, CompletedOutputBuffer, OutputBufferTarget,
  sensor_error, processing_error,
}
use minicam_hal.Driver.{DriverAdapter, DriverCompletion, OutputProcessor}
use minicam_hal.Metrics.{FrameMetrics, record_failure}
use minicam_hal.Tracker.{
  InFlightRequestTracker, InFlightRequest, InFlightOutput, ResolvedDriverOutput, CaptureMetadata,
  OutputCompletionResult, start, fail, mark_queued_to_driver, queued_to_driver,
  clear_driver_outputs_for_frame, complete_output, flush_all, flushed_rows, clear_streaming_outputs,
  take_driver_output_context, initial_row, request_complete,
}
use minicam_hal.Tracker.Invariant as Tables
use minicam_hal.Tracker.Marks.{complete_output-mark_spec}
use minicam_hal.Tracker.Flush.{frames, flush_all_lem}
use minicam_hal.Session.State.{CameraDeviceSession, reject_request_locked, close_fence_fd}
use minicam_hal.Session.Results.{request_outputs_for, make_in_flight_outputs, completed_buffers_for}
use minicam_hal.Session.Submit.{
  fill_failed_result_locked, submit_outputs, submit_request_to_driver_locked, submit_accepted,
  submit_locked, text_or,
}
use minicam_hal.Session.Complete.{
  Filled, nothing, request_filled, preview_filled, run_processors, fill_from_completion,
  fill_resolved, try_fill_result_from_completion_locked,
}
use minicam_hal.Session.Stop.{
  collect_flushed, drop_in_flight, flush_locked, close_locked, map_driver,
}
use minicam_hal.Session.Tables.{submit_outputs-tables}
use minicam_hal.Session.Invariant.{IsValid, take-requests}

abbrev pub present {ℓ} : {A : Type ℓ} → Option A → ℕ
present none = 0
present (some a) = 1

-- 1 if the frame is in flight, else 0.
abbrev pub owes : {D P : Type 0} → ℕ → CameraDeviceSession D P → ℕ
owes n s = present (find n s.in_flight.requests)

abbrev pub result_frames : Option CaptureResult → List ℕ
result_frames none = []
result_frames (some r) = r.frame_number ∷ []

abbrev pub filled_frames : Filled → List ℕ
filled_frames nothing = []
filled_frames (request_filled r) = r.frame_number ∷ []
filled_frames (preview_filled r lease o) = []

abbrev pub frames_of : List CaptureResult → List ℕ
frames_of = map (λ r. r.frame_number)

module _ {D P : Type 0} where
  fill_failed-owes :
      (n : ℕ) (status : CaptureStatus) (message : String) (fallback : List CompletedOutputBuffer)
      (at now : ℕ) (s : CameraDeviceSession D P)
      → let (r, s') = fill_failed_result_locked n status message fallback at now s in
        (r.frame_number ≡ n)
        × ((j : ℕ)
            → find j s'.in_flight.requests ≡ (if n == j then none else find j s.in_flight.requests))
  unfolding fill_failed_result_locked fail clear_driver_outputs_for_frame
  fill_failed-owes n status message fallback at now s =
      (ground arith, λ j. ground (arith, find-erase n j s.in_flight.requests))

mark-present :
    (n j : ℕ) (t : InFlightRequestTracker)
    → present (find j (mark_queued_to_driver n t).1.requests) ≡ present (find j t.requests)
unfolding mark_queued_to_driver
mark-present n j t = elim (Option-cases (find n t.requests)) [
  | inl e ↦ rw (e, mark_queued_to_driver) refl
  | inr (row, e) ↦
      rw (e, mark_queued_to_driver)
        (ground (arith, find-assign n j (record row { state = queued_to_driver }) row t.requests e))
]

start_absent :
    (request : CaptureRequest) (outputs : List InFlightOutput) (t : InFlightRequestTracker)
    → find request.frame_number t.requests ≡ none
    → is_empty outputs ≡ false
    → ((start request outputs t).0 ≡ true)
      × ((j : ℕ)
          → present (find j (start request outputs t).1.requests)
            ≡ present (find j t.requests) + (if request.frame_number == j then 1 else 0))
unfolding start contains
start_absent request outputs t e h = (
  ground arith,
  λ j.
      ground
        (arith, find-emplace request.frame_number j (initial_row request outputs) t.requests e),
)

tracked-nonempty :
    (request : CaptureRequest)
    → is_empty (make_in_flight_outputs (request_outputs_for request)) ≡ false
unfolding make_in_flight_outputs request_outputs_for
tracked-nonempty request = ground arith

module _ {D : Type 0} (A : DriverAdapter D) where
  request_to_driver-present :
      (n : ℕ) (os : List OutputBufferTarget) (fs : List InFlightOutput) (d : D)
      (t : InFlightRequestTracker)
      → Tables.IsValid t
      → (j : ℕ)
      → present (find j (submit_request_to_driver_locked A n os fs d t).2.requests)
        ≡ present (find j t.requests)
  unfolding submit_request_to_driver_locked clear_driver_outputs_for_frame
  request_to_driver-present n os fs d t v j = ground (
    arith,
    submit_outputs-tables A n os fs d t v,
    mark-present n j (submit_outputs A n os fs d t).2,
  )

module _ {D P : Type 0} (A : DriverAdapter D) where
  submit_accepted-balance :
      (now : ℕ) (request : CaptureRequest) (d : D) (s : CameraDeviceSession D P)
      → IsValid s
      → find request.frame_number s.in_flight.requests ≡ none
      → let (r, s') = submit_accepted A now request d s in
        (j : ℕ)
        → count j (result_frames r) + owes j s'
          ≡ owes j s + (if request.frame_number == j then 1 else 0)
  unfolding submit_accepted Tables.step
  submit_accepted-balance now request d s v absent j =
      let n = request.frame_number in
      let outputs = request_outputs_for request in
      let tracked = make_in_flight_outputs outputs in
      let buffers = completed_buffers_for tracked processing_error in
      let started = start_absent request tracked s.in_flight absent (tracked-nonempty request) in
      let t = (start request tracked s.in_flight).1 in
      let tables : Tables.IsValid t =
        Tables.step-IsValid (Tables.starts request tracked) v.tables in
      let after = submit_request_to_driver_locked A n outputs tracked d t in
      let s' : CameraDeviceSession D P = record s { driver = some after.1; in_flight = after.2 } in
      let sent = request_to_driver-present A n outputs tracked d t tables j in
      let undone = fill_failed-owes n sensor_error (A.last_error after.1) [] now now s' in
      let refused =
        fill_failed-owes n sensor_error
          (text_or (A.last_error d) "driver cannot accept every output") buffers
          request.submitted_at now s in
      ground (
        arith,
        started.0,
        started.1 j,
        sent,
        undone.0,
        undone.1 j,
        refused.0,
        refused.1 j,
        ==_self n,
      )

  -- Submitting a frame that is not in flight, in a well-formed session, adds it to the requests
  -- in flight or makes one result for it, never both or neither; for any other frame nothing
  -- changes.
  pub submit-balance :
      (now : ℕ) (request : CaptureRequest) (s : CameraDeviceSession D P)
      → IsValid s
      → find request.frame_number s.in_flight.requests ≡ none
      → let (r, s') = submit_locked A now request s in
        (j : ℕ)
        → count j (result_frames r) + owes j s'
          ≡ owes j s + (if request.frame_number == j then 1 else 0)
  unfolding submit_locked reject_request_locked
  submit-balance now request s v absent j = elim (Option-cases s.driver) [
    | inl e ↦ ground arith
    | inr (d, e) ↦ ground (arith, submit_accepted-balance now request d s v absent j)
  ]

abbrev outcome_frames : OutputCompletionResult → List ℕ
outcome_frames (request_complete row) = row.frame_number ∷ []
outcome_frames _ = []

complete_output-balance :
    (n : ℕ) (i f : ℤ) (m : CaptureMetadata) (t : InFlightRequestTracker)
    → Tables.IsValid t
    → let (r, t') = complete_output n i f m t in
      (j : ℕ)
      → count j (outcome_frames r) + present (find j t'.requests) ≡ present (find j t.requests)
complete_output-balance n i f m t v j =
    let refined = complete_output-mark_spec n i f m t in
    elim (Option-cases (find n t.requests)) [
      | inl e ↦ ground (arith, refined.0, refined.1 j)
      | inr (row, e) ↦
          ground (
            arith,
            refined.0,
            refined.1 j,
            find-AllEntries Tables.RowOk n row t.requests v.rows_ok e,
          )
    ]

module _ {D P : Type 0} where
  fill_resolved-balance :
      (now : ℕ) (c : DriverCompletion) (r : ResolvedDriverOutput) (fence : ℤ)
      (s : CameraDeviceSession D P)
      → Tables.IsValid s.in_flight
      → let (filled, s') = fill_resolved now c r fence s in
        (j : ℕ) → count j (filled_frames filled) + owes j s' ≡ owes j s
  unfolding fill_resolved fill_from_completion close_fence_fd
  fill_resolved-balance now c r fence s v j = ground (
    arith,
    complete_output-balance r.frame_number r.output_index fence
        (record { sensor_timestamp = c.timestamp }) s.in_flight v j,
  )

module _ {D P : Type 0} (O : OutputProcessor P) where
  -- In a well-formed session, a completion makes a result only for a frame in flight, which then
  -- is in flight no more; for any other frame nothing changes.
  pub fill-balance :
      (now : ℕ) (c : DriverCompletion) (s : CameraDeviceSession D P)
      → IsValid s
      → let (filled, s') = try_fill_result_from_completion_locked O now c s in
        (j : ℕ) → count j (filled_frames filled) + owes j s' ≡ owes j s
  unfolding try_fill_result_from_completion_locked Tables.step
  fill-balance now c s v j =
      let t = (take_driver_output_context c.token s.in_flight).1 in
      let same = take-requests c.token s.in_flight in
      let taken : Tables.IsValid t = Tables.step-IsValid (Tables.takes c.token) v.tables in
      elim (Option-cases (take_driver_output_context c.token s.in_flight).0) [
        | inl e ↦ ground (arith, same)
        | inr (r, e) ↦
            let ran = run_processors O r s.output_processors minus_one in
            let s' : CameraDeviceSession D P = record s {
              in_flight = t;
              output_processors = ran.1;
            } in
            ground (arith, same, fill_resolved-balance now c r ran.0 s' taken j)
      ]

count-keys : (j : ℕ) (m : Map InFlightRequest) → Distinct m → count j (keys m) ≡ present (find j m)
count-keys j m d = elim (Option-cases (find j m)) [
  | inl e ↦ ground (arith, count-find j m e)
  | inr (row, e) ↦ ground (arith, count-Distinct j row m d e)
]

collect-frames :
    (message : String) (clock : ℕ → ℕ) (rows : List InFlightRequest) (m : FrameMetrics)
    → frames_of (collect_flushed message clock rows m).0 ≡ frames rows
unfolding collect_flushed
collect-frames message clock [] m = refl
collect-frames message clock (row ∷ rows) m =
    ap (◌∷◌ row.frame_number) (collect-frames message clock rows (record_failure m))

module _ {D P : Type 0} where
  drop-balance :
      (message : String) (clock : ℕ → ℕ) (s : CameraDeviceSession D P)
      → Tables.IsValid s.in_flight
      → let (results, s') = drop_in_flight message clock s in
        (j : ℕ) → count j (frames_of results) + owes j s' ≡ owes j s
  unfolding drop_in_flight clear_streaming_outputs flush_all find
  drop-balance message clock s v j =
      let rows = s.in_flight.requests in
      rw
        (
          collect-frames message clock (flushed_rows rows) s.metrics,
          (flush_all_lem s.in_flight v).0,
        )
        (omega (arith, count-keys j rows v.rows_distinct))

module _ {D P : Type 0} (A : DriverAdapter D) where
  -- A flush of a well-formed session makes one result for each frame that it removes from the
  -- requests in flight, and none for any other frame.
  pub flush-balance :
      (clock : ℕ → ℕ) (s : CameraDeviceSession D P)
      → IsValid s
      → let (results, s') = flush_locked A clock s in
        (j : ℕ) → count j (frames_of results) + owes j s' ≡ owes j s
  unfolding flush_locked
  flush-balance clock s v j = ground (
    arith,
    drop-balance "request flushed" clock
        (record s { driver = map_driver A.stop_streaming s.driver }) v.tables j,
  )

  -- A close of a well-formed session makes one result for each frame that it removes from the
  -- requests in flight, and none for any other frame.
  pub close-balance :
      (clock : ℕ → ℕ) (s : CameraDeviceSession D P)
      → IsValid s
      → let (fds, results, s') = close_locked A clock s in
        (j : ℕ) → count j (frames_of results) + owes j s' ≡ owes j s
  unfolding close_locked
  close-balance clock s v j = ground (
    arith,
    drop-balance "session closed" clock (record s { driver = map_driver A.stop_streaming s.driver })
        v.tables j,
  )
