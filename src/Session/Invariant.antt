-- ===== src/Session/Invariant.antt =====
-- The tables of a session stay well formed, and requests are in flight only while it streams.
use minicam_hal.Common.{
  ℕ, ℤ, ◌≡◌, refl, Bool, true, List, [], none, some, inl, inr, arith, minus_one, find, Option-cases,
  Map,
}
use minicam_hal.Interface.{StreamConfig, CaptureRequest, sensor_error, processing_error}
use minicam_hal.Driver.{DriverAdapter, DriverCompletion, StreamBufferLease, OutputProcessor}
use minicam_hal.Tracker.{
  InFlightRequestTracker, InFlightRequest, CaptureMetadata, InFlightStreamingOutput,
  ResolvedDriverOutput, start, take_driver_output_context, complete_output, flush_all,
  clear_streaming_outputs,
}
use minicam_hal.Tracker.Invariant as Tables
use minicam_hal.Tracker.Invariant.{
  step, step-IsValid, starts, marks, completes_output, registers, binds, takes, clears_frame,
  clears_streaming, fails, flushes,
}
use minicam_hal.Tracker.Tokens.{take-bindings}
use minicam_hal.Session.State.{
  CameraDeviceSession, CameraSessionState, streaming, is_streaming, close_fence_fd,
  reject_request_locked,
}
use minicam_hal.Session.Open.{number_previews, configure_streams, start_preview, start_streaming}
use minicam_hal.Session.Submit.{
  submit_request_to_driver_locked, submit_accepted, submit_locked, text_or,
}
use minicam_hal.Session.Results.{request_outputs_for, make_in_flight_outputs, completed_buffers_for}
use minicam_hal.Session.Complete.{
  run_processors, fill_from_completion, fill_resolved, try_fill_result_from_completion_locked,
  return_stream_buffer_locked, dequeue_locked,
}
use minicam_hal.Session.Stop.{drop_in_flight, flush_locked, close_locked}
use minicam_hal.Session.Tables.{
  fill_failed-tables, request_to_driver-tables, track-requests, track-tables, track_previews-tables,
}

-- No row outside the state Streaming.
abbrev pub IsQuiet : CameraSessionState → Map InFlightRequest → Type 0
IsQuiet streaming rows = Unit
IsQuiet _ rows = rows ≡ []

pub record IsValid {D P : Type 0} (s : CameraDeviceSession D P) : Type 0 where
  pub tables : Tables.IsValid s.in_flight
  pub quiet : IsQuiet s.state s.in_flight.requests

module _ {D P : Type 0} (A : DriverAdapter D) where
  submit_accepted-IsValid :
      (now : ℕ) (request : CaptureRequest) (d : D) (s : CameraDeviceSession D P)
      → is_streaming s.state ≡ true
      → IsValid s
      → IsValid (submit_accepted A now request d s).1
  unfolding submit_accepted step
  submit_accepted-IsValid now request d s on v =
      let n = request.frame_number in
      let outputs = request_outputs_for request in
      let tracked = make_in_flight_outputs outputs in
      let buffers = completed_buffers_for tracked processing_error in
      let started = step-IsValid (starts request tracked) v.tables in
      let t = (start request tracked s.in_flight).1 in
      let sent = request_to_driver-tables A n outputs tracked d t started in
      let after = submit_request_to_driver_locked A n outputs tracked d t in
      let s' : CameraDeviceSession D P = record s { driver = some after.1; in_flight = after.2 } in
      ground (
        arith,
        started,
        sent,
        fill_failed-tables n sensor_error (A.last_error after.1) [] now now s' sent,
        fill_failed-tables n processing_error "duplicate frame number" buffers request.submitted_at
            now s v.tables,
        fill_failed-tables n sensor_error
            (text_or (A.last_error d) "driver cannot accept every output") buffers
            request.submitted_at now s v.tables,
      )

  pub submit-IsValid :
      (now : ℕ) (request : CaptureRequest) (s : CameraDeviceSession D P)
      → IsValid s
      → IsValid (submit_locked A now request s).1
  unfolding submit_locked reject_request_locked
  submit-IsValid now request s v = elim (Option-cases s.driver) [
    | inl e ↦ ground arith
    | inr (d, e) ↦ ground (arith, submit_accepted-IsValid now request d s)
  ]

  pub configure-IsValid :
      (r : List ℤ → Bool) (s : CameraDeviceSession D P)
      → IsValid s
      → IsValid (configure_streams A r s).1
  unfolding configure_streams
  configure-IsValid r s v = elim (Option-cases s.driver) [
    | inl e ↦ ground arith
    | inr (d, e) ↦ ground arith
  ]

  start_preview-IsValid :
      (stream : StreamConfig) (d : D) (s : CameraDeviceSession D P)
      → s.in_flight.requests ≡ []
      → Tables.IsValid s.in_flight
      → IsValid (start_preview A stream d s).1
  unfolding start_preview
  start_preview-IsValid stream d s rows v =
      let outputs =
        (number_previews s.next_streaming_frame_number s.continuous_preview_buffers).0 in
      elim (Option-cases (A.start_continuous_stream stream s.continuous_preview_buffers d).0) [
        | inl e ↦ rw (e, start_preview) (ground arith)
        | inr (tokens, e) ↦
            rw (e, start_preview) (ground (arith, track_previews-tables outputs tokens v))
      ]

  pub start-IsValid : (s : CameraDeviceSession D P) → IsValid s → IsValid (start_streaming A s).1
  unfolding start_streaming
  start-IsValid s v = elim (Option-cases s.driver) [
    | inl e ↦ ground arith
    | inr (d, e) ↦ elim (Option-cases s.continuous_preview_config) [
      | inl off ↦ ground arith
      | inr (stream, on) ↦ ground (arith, start_preview-IsValid stream (A.start_streaming d).1 s)
    ]
  ]

  pub return-IsValid :
      (lease : StreamBufferLease) (o : InFlightStreamingOutput) (s : CameraDeviceSession D P)
      → IsValid s
      → IsValid (return_stream_buffer_locked A lease o s)
  unfolding return_stream_buffer_locked
  return-IsValid lease o s v =
      let next : InFlightStreamingOutput = record o {
        frame_number = s.next_streaming_frame_number;
      } in
      elim (Option-cases s.driver) [
        | inl e ↦ ground arith
        | inr (d, e) ↦ elim (Option-cases (A.return_stream_buffer lease d).0) [
          | inl f ↦ ground arith
          | inr (token, f) ↦
              ground
                (arith, track-tables next token v.tables, track-requests next token s.in_flight)
        ]
      ]

  pub dequeue-IsValid :
      (fd : ℤ) (s : CameraDeviceSession D P) → IsValid s → IsValid (dequeue_locked A fd s).1
  unfolding dequeue_locked
  dequeue-IsValid fd s v = elim (Option-cases s.driver) [
    | inl e ↦ ground arith
    | inr (d, e) ↦ ground arith
  ]

  pub flush-IsValid :
      (clock : ℕ → ℕ) (s : CameraDeviceSession D P) → IsValid s → IsValid (flush_locked A clock s).1
  unfolding flush_locked drop_in_flight flush_all clear_streaming_outputs
  flush-IsValid clock s v = ground arith

  pub close-IsValid :
      (clock : ℕ → ℕ) (s : CameraDeviceSession D P) → IsValid s → IsValid (close_locked A clock s).2
  unfolding close_locked drop_in_flight flush_all clear_streaming_outputs
  close-IsValid clock s v = ground arith

complete_output-empty :
    (n : ℕ) (i f : ℤ) (m : CaptureMetadata) (t : InFlightRequestTracker)
    → t.requests ≡ []
    → (complete_output n i f m t).1.requests ≡ []
unfolding complete_output find
complete_output-empty n i f m t e =
    let absent : find n t.requests ≡ none = rw e refl in rw (absent, complete_output) e

pub take-requests :
    (token : ℕ) (t : InFlightRequestTracker)
    → (take_driver_output_context token t).1.requests ≡ t.requests
take-requests token t = (take-bindings token t).1

module _ {D P : Type 0} where
  fill_resolved-IsValid :
      (now : ℕ) (c : DriverCompletion) (r : ResolvedDriverOutput) (fence : ℤ)
      (s : CameraDeviceSession D P)
      → IsValid s
      → IsValid (fill_resolved now c r fence s).1
  unfolding fill_resolved fill_from_completion close_fence_fd step
  fill_resolved-IsValid now c r fence s v =
      let m : CaptureMetadata = record { sensor_timestamp = c.timestamp } in
      let n = r.frame_number in
      ground (
        arith,
        step-IsValid (completes_output n r.output_index fence m) v.tables,
        complete_output-empty n r.output_index fence m s.in_flight,
      )

module _ {D P : Type 0} (O : OutputProcessor P) where
  pub fill-IsValid :
      (now : ℕ) (c : DriverCompletion) (s : CameraDeviceSession D P)
      → IsValid s
      → IsValid (try_fill_result_from_completion_locked O now c s).1
  unfolding try_fill_result_from_completion_locked step
  fill-IsValid now c s v =
      let taken = step-IsValid (takes c.token) v.tables in
      let same = take-requests c.token s.in_flight in
      let t = (take_driver_output_context c.token s.in_flight).1 in
      elim (Option-cases (take_driver_output_context c.token s.in_flight).0) [
        | inl e ↦ ground (arith, taken, same)
        | inr (r, e) ↦
            let ran = run_processors O r s.output_processors minus_one in
            let s' : CameraDeviceSession D P = record s {
              in_flight = t;
              output_processors = ran.1;
            } in
            let v' : IsValid s' = ground (arith, taken, same) in
            ground (arith, fill_resolved-IsValid now c r ran.0 s' v')
      ]

  pub fill-state :
      (now : ℕ) (c : DriverCompletion) (s : CameraDeviceSession D P)
      → (try_fill_result_from_completion_locked O now c s).1.state ≡ s.state
  unfolding try_fill_result_from_completion_locked fill_resolved fill_from_completion close_fence_fd
  fill-state now c s = ground arith
