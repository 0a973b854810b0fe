-- ===== src/Session/Errors.antt =====
-- hal/camera_device_session.cpp: a frame number that is submitted while it is in flight.
use minicam_hal.Common.{
  ℕ, ◌≡◌, refl, true, none, some, List, arith, find, ==_self, contains, find-erase, ◌≢◌, ap, Map,
  String,
}
use minicam_hal.Interface.{CaptureRequest, CaptureStatus, CompletedOutputBuffer, processing_error}
use minicam_hal.Driver.{DriverAdapter}
use minicam_hal.Tracker.{
  InFlightRequest, DriverOutputContext, start, fail, clear_driver_outputs_for_frame,
}
use minicam_hal.Tracker.Tokens.{clear-unbound}
use minicam_hal.Session.State.{CameraDeviceSession, CameraSessionState, reject_request_locked}
use minicam_hal.Session.Results.{
  completed_buffers_for, latency_since, make_result, request_outputs_for, make_in_flight_outputs,
}
use minicam_hal.Session.Submit.{fill_failed_result_locked, submit_accepted, submit_locked}

contains_found :
    (n : ℕ) (m : Map InFlightRequest) {row : InFlightRequest}
    → find n m ≡ some row
    → contains n m ≡ true
unfolding contains
contains_found n m e = ground arith

module _ {D P : Type 0} (A : DriverAdapter D) where
  fill_failed_found :
      (n : ℕ) (status : CaptureStatus) (message : String) (fallback : List CompletedOutputBuffer)
      (at now : ℕ) (s : CameraDeviceSession D P) {row : InFlightRequest}
      → find n s.in_flight.requests ≡ some row
      → let (r, s') = fill_failed_result_locked n status message fallback at now s in
        (r
          ≡ make_result n status
              (completed_buffers_for row.output_buffers status)
              message
              (latency_since row.submitted_at now))
        × (find n s'.in_flight.requests ≡ none)
        × ((token : ℕ) (c : DriverOutputContext)
            → find token s'.in_flight.driver_outputs ≡ some c
            → c.frame_number ≢ n)
        × (s'.driver ≡ s.driver)
  unfolding fill_failed_result_locked fail clear_driver_outputs_for_frame
  fill_failed_found n status message fallback at now s {row} e =
      rw (e, fill_failed_result_locked, fail)
        (
          refl,
          ground (arith, find-erase n n s.in_flight.requests, ==_self n),
          λ token c h. clear-unbound n token (fail n s.in_flight).1 c h,
          refl,
        )

  submit_duplicate_result :
      (now : ℕ) (request : CaptureRequest) (d : D) (s : CameraDeviceSession D P)
      → s.state ≡ CameraSessionState.streaming
      → s.driver ≡ some d
      → A.can_submit_capture_outputs d (request_outputs_for request) ≡ true
      → contains request.frame_number s.in_flight.requests ≡ true
      → submit_locked A now request s ≡ (
          let (r, s') =
            fill_failed_result_locked request.frame_number processing_error "duplicate frame number"
              (completed_buffers_for
                (make_in_flight_outputs (request_outputs_for request))
                processing_error)
              request.submitted_at
              now
              s in
          (some r, s'))
  unfolding submit_locked submit_accepted reject_request_locked start
  submit_duplicate_result now request d s on driver room found = ground arith

  -- Submitting a frame number that is still in flight does not leave the earlier request alone: the
  -- earlier row is removed and its outputs are reported as failed, and nothing is submitted to the
  -- driver: two submissions share one result. The session streams, its driver would accept the outputs,
  -- and the frame is in flight.
  pub submit_duplicate :
      (now : ℕ) (request : CaptureRequest) (d : D) (s : CameraDeviceSession D P)
      (row : InFlightRequest)
      → s.state ≡ CameraSessionState.streaming
      → s.driver ≡ some d
      → A.can_submit_capture_outputs d (request_outputs_for request) ≡ true
      → find request.frame_number s.in_flight.requests ≡ some row
      → let (r, s') = submit_locked A now request s in
        (r
          ≡ some (
              make_result request.frame_number processing_error
                (completed_buffers_for row.output_buffers processing_error)
                "duplicate frame number"
                (latency_since row.submitted_at now)))
        × (find request.frame_number s'.in_flight.requests ≡ none)
        × (s'.driver ≡ s.driver)
  submit_duplicate now request d s row on driver room found =
      let failed =
        fill_failed_found request.frame_number processing_error "duplicate frame number"
          (completed_buffers_for (make_in_flight_outputs (request_outputs_for request))
            processing_error)
          request.submitted_at now s found in
      rw
        (submit_duplicate_result now request d s on driver room
          (contains_found request.frame_number s.in_flight.requests found))
        (ap some failed.0, failed.1, failed.3)
