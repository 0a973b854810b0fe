-- ===== src/Session/Submit.antt =====
-- hal/camera_device_session.cpp: `submit_capture_request`, the task that the executor runs for a
-- request, with `submit_request_to_driver_locked` and `fill_failed_result_locked`.
use minicam_hal.Common.{
  ℕ, Bool, true, false, Option, none, some, List, [], ◌∷◌, String, if◌then◌else◌,
}
use minicam_hal.Interface.{
  OutputBufferTarget, CaptureRequest, CaptureStatus, sensor_error, processing_error,
  CompletedOutputBuffer, CaptureResult,
}
use minicam_hal.Driver.{DriverAdapter}
use minicam_hal.Tracker.{
  InFlightRequestTracker, InFlightOutput, start, fail, bind_driver_output,
  clear_driver_outputs_for_frame, mark_queued_to_driver,
}
use minicam_hal.Session.State.{
  CameraDeviceSession, count_failure, dispatch_result, reject_request_locked,
}
use minicam_hal.Session.Results.{
  latency_since, make_result, request_outputs_for, completed_buffers_for, make_in_flight_outputs,
}

abbrev pub text_or : String → String → String
text_or String.[] default = default
text_or (String.◌∷◌ c text) default = String.◌∷◌ c text

module _ {D P : Type 0} where
  -- Removes the frame from the tracker, and builds its failed result: from the row, if there was one,
  -- else from the fallbacks.
  unfoldable pub fill_failed_result_locked :
      ℕ
      → CaptureStatus
      → String
      → List CompletedOutputBuffer
      → ℕ
      → ℕ
      → CameraDeviceSession D P
      → CaptureResult × CameraDeviceSession D P
  fill_failed_result_locked n status message fallback_buffers fallback_submitted_at now s =
      let (row, t) = fail n s.in_flight in
      let s' : CameraDeviceSession D P =
        count_failure (record s { in_flight = clear_driver_outputs_for_frame n t }) in
      elim row [
        | none ↦ (
          make_result n status fallback_buffers message (latency_since fallback_submitted_at now),
          s',
        )
        | some r ↦ (
          make_result n status (completed_buffers_for r.output_buffers status) message
              (latency_since r.submitted_at now),
          s',
        )
      ]

module _ {D : Type 0} (A : DriverAdapter D) where
  -- The loop over the outputs stops at the first that is not submitted or not bound. Both lists have
  -- one entry for each output.
  unfoldable pub submit_outputs :
      ℕ
      → List OutputBufferTarget
      → List InFlightOutput
      → D
      → InFlightRequestTracker
      → Bool × D × InFlightRequestTracker
  submit_outputs n [] tracked d t = (true, d, t)
  submit_outputs n (o ∷ os) [] d t = (false, d, t)
  submit_outputs n (o ∷ os) (f ∷ fs) d t = elim (A.submit_capture o d).0 [
    | none ↦ (false, (A.submit_capture o d).1, t)
    | some token ↦
        let (bound, t') =
          bind_driver_output token (record { frame_number = n; output_index = f.output_index }) t in
        let rest = submit_outputs n os fs (A.submit_capture o d).1 t' in
        if bound then rest else (false, (A.submit_capture o d).1, t')
  ]

  unfoldable pub submit_request_to_driver_locked :
      ℕ
      → List OutputBufferTarget
      → List InFlightOutput
      → D
      → InFlightRequestTracker
      → Bool × D × InFlightRequestTracker
  submit_request_to_driver_locked n outputs tracked d t =
      let (all, d', t') = submit_outputs n outputs tracked d t in
      if all
      then (let (queued, t'') = mark_queued_to_driver n t' in (queued, d', t''))
      else (false, d', clear_driver_outputs_for_frame n t')

module _ {D P : Type 0} (A : DriverAdapter D) where
  -- The session accepts requests, and `d` is its driver. The result of a failure is dispatched after
  -- the lock is released.
  unfoldable pub submit_accepted :
      ℕ
      → CaptureRequest
      → D
      → CameraDeviceSession D P
      → Option CaptureResult × CameraDeviceSession D P
  submit_accepted now request d s =
      let n = request.frame_number in
      let outputs = request_outputs_for request in
      let tracked = make_in_flight_outputs outputs in
      let failed_buffers = completed_buffers_for tracked processing_error in
      if A.can_submit_capture_outputs d outputs
      then (let (started, t) = start request tracked s.in_flight in
          if started
          then (let (queued, d', t') = submit_request_to_driver_locked A n outputs tracked d t in
              let s' : CameraDeviceSession D P = record s { driver = some d'; in_flight = t' } in
              if queued
              then (none, s')
              else (let (r, s'') =
                    fill_failed_result_locked n sensor_error (A.last_error d') [] now now s' in
                  (some r, s'')))
          else (let (r, s') =
                fill_failed_result_locked n processing_error "duplicate frame number" failed_buffers
                  request.submitted_at now s in
              (some r, s')))
      else (let (r, s') =
            fill_failed_result_locked n sensor_error
              (text_or (A.last_error d) "driver cannot accept every output") failed_buffers
              request.submitted_at now s in
          (some r, s'))

  -- The part under the lock: the result that it dispatches, if any, and the new state.
  unfoldable pub submit_locked :
      ℕ → CaptureRequest → CameraDeviceSession D P → Option CaptureResult × CameraDeviceSession D P
  submit_locked now request s =
      if reject_request_locked s
      then (
        some (
            make_result request.frame_number CaptureStatus.flushed []
              "session is not accepting requests" (latency_since request.submitted_at now)),
        count_failure s,
      )
      else elim s.driver [ none ↦ (none, s) | some d ↦ submit_accepted now request d s ]

  unfoldable pub submit_capture_request :
      ℕ → CaptureRequest → CameraDeviceSession D P → CameraDeviceSession D P
  submit_capture_request now request s =
      let (result, s') = submit_locked now request s in
      elim result [ none ↦ s' | some r ↦ dispatch_result r s' ]
