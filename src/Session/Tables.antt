-- ===== src/Session/Tables.antt =====
-- hal/camera_device_session.cpp: what filling the tracker for a request keeps of its tables.
use minicam_hal.Common.{
  ℕ, ◌≡◌, refl, List, [], ◌∷◌, inl, inr, arith, String, minus_one, Option-cases,
}
use minicam_hal.Interface.{CaptureStatus, OutputBufferTarget, CompletedOutputBuffer}
use minicam_hal.Driver.{DriverAdapter}
use minicam_hal.Tracker.{
  InFlightRequestTracker, InFlightOutput, InFlightStreamingOutput, DriverOutputContext,
  bind_driver_output, register_streaming_output,
}
use minicam_hal.Tracker.Invariant as Tables
use minicam_hal.Tracker.Invariant.{
  step, step-IsValid, starts, marks, completes_output, registers, binds, takes, clears_frame,
  clears_streaming, fails, flushes,
}
use minicam_hal.Session.State.{CameraDeviceSession}
use minicam_hal.Session.Open.{track_streaming_output, track_previews}
use minicam_hal.Session.Submit.{
  fill_failed_result_locked, submit_outputs, submit_request_to_driver_locked,
}

-- Calls of the tracker that leave the rows alone.
pub track-requests :
    (o : InFlightStreamingOutput) (token : ℕ) (t : InFlightRequestTracker)
    → (track_streaming_output o token t).1.requests ≡ t.requests
unfolding track_streaming_output register_streaming_output bind_driver_output
track-requests o token t = ground arith

pub track-tables :
    (o : InFlightStreamingOutput) (token : ℕ) {t : InFlightRequestTracker}
    → Tables.IsValid t
    → Tables.IsValid (track_streaming_output o token t).1
unfolding track_streaming_output step
track-tables o token {t} v =
    let registered = step-IsValid (registers o) v in
    let context : DriverOutputContext = record {
      frame_number = o.frame_number;
      output_index = minus_one;
    } in
    ground (arith, registered, step-IsValid (binds token context) registered)

pub track_previews-tables :
    (os : List InFlightStreamingOutput) (tokens : List ℕ) {t : InFlightRequestTracker}
    → Tables.IsValid t
    → Tables.IsValid (track_previews os tokens t).1
      × ((track_previews os tokens t).1.requests ≡ t.requests)
unfolding track_previews
track_previews-tables [] tokens v = (v, refl)
track_previews-tables (o ∷ os) [] v = (v, refl)
track_previews-tables (o ∷ os) (token ∷ tokens) {t} v =
    let (tables, rows) = track_previews-tables os tokens (track-tables o token v) in
    ground (arith, tables, rows, track-tables o token v, track-requests o token t)

bind-requests :
    (token : ℕ) (c : DriverOutputContext) (t : InFlightRequestTracker)
    → (bind_driver_output token c t).1.requests ≡ t.requests
unfolding bind_driver_output
bind-requests token c t = ground arith

module _ {D : Type 0} (A : DriverAdapter D) where
  pub submit_outputs-tables :
      (n : ℕ) (os : List OutputBufferTarget) (fs : List InFlightOutput) (d : D)
      (t : InFlightRequestTracker)
      → Tables.IsValid t
      → Tables.IsValid (submit_outputs A n os fs d t).2
        × ((submit_outputs A n os fs d t).2.requests ≡ t.requests)
  unfolding submit_outputs step
  submit_outputs-tables n [] fs d t v = (v, refl)
  submit_outputs-tables n (o ∷ os) [] d t v = (v, refl)
  submit_outputs-tables n (o ∷ os) (f ∷ fs) d t v = elim (Option-cases (A.submit_capture o d).0) [
    | inl e ↦ rw (e, submit_outputs) (v, refl)
    | inr (token, e) ↦
        let context : DriverOutputContext = record {
          frame_number = n;
          output_index = f.output_index;
        } in
        let bound = step-IsValid (binds token context) v in
        let (tables, rows) =
          submit_outputs-tables n os fs (A.submit_capture o d).1
            (bind_driver_output token context t).1 bound in
        rw (e, submit_outputs) (ground (arith, bound, tables, rows, bind-requests token context t))
  ]

  pub request_to_driver-tables :
      (n : ℕ) (os : List OutputBufferTarget) (fs : List InFlightOutput) (d : D)
      (t : InFlightRequestTracker)
      → Tables.IsValid t
      → Tables.IsValid (submit_request_to_driver_locked A n os fs d t).2
  unfolding submit_request_to_driver_locked step
  request_to_driver-tables n os fs d t v =
      let tables = (submit_outputs-tables n os fs d t v).0 in
      ground (arith, tables, step-IsValid (marks n) tables, step-IsValid (clears_frame n) tables)

module _ {D P : Type 0} where
  pub fill_failed-tables :
      (n : ℕ) (status : CaptureStatus) (message : String) (fallback : List CompletedOutputBuffer)
      (at now : ℕ) (s : CameraDeviceSession D P)
      → Tables.IsValid s.in_flight
      → let s' = (fill_failed_result_locked n status message fallback at now s).1 in
        Tables.IsValid s'.in_flight × (s'.state ≡ s.state)
  unfolding fill_failed_result_locked step
  fill_failed-tables n status message fallback at now s v =
      let failed = step-IsValid (fails n) v in ground (arith, step-IsValid (clears_frame n) failed)
