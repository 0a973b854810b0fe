-- ===== src/Session/Rows.antt =====
-- hal/camera_device_session.cpp: the parts of the session that leave the rows of the tracker alone.
use minicam_hal.Common.{ℤ, ◌≡◌, Bool, List, inl, inr, arith, Option-cases}
use minicam_hal.Interface.{StreamConfig}
use minicam_hal.Driver.{DriverAdapter, StreamBufferLease}
use minicam_hal.Tracker.{InFlightStreamingOutput}
use minicam_hal.Tracker.Invariant as Tables
use minicam_hal.Tracker.Invariant.{
  step, step-IsValid, starts, marks, completes_output, registers, binds, takes, clears_frame,
  clears_streaming, fails, flushes,
}
use minicam_hal.Session.State.{CameraDeviceSession}
use minicam_hal.Session.Open.{number_previews, configure_streams, start_preview, start_streaming}
use minicam_hal.Session.Complete.{return_stream_buffer_locked, dequeue_locked}
use minicam_hal.Session.Invariant.{IsValid}
use minicam_hal.Session.Tables.{track-requests, track_previews-tables}

-- The other parts do not touch the rows.
module _ {D P : Type 0} (A : DriverAdapter D) where
  pub configure-requests :
      (r : List ℤ → Bool) (s : CameraDeviceSession D P)
      → (configure_streams A r s).1.in_flight.requests ≡ s.in_flight.requests
  unfolding configure_streams
  configure-requests r s = elim (Option-cases s.driver) [
    | inl e ↦ ground arith
    | inr (d, e) ↦ ground arith
  ]

  start_preview-requests :
      (stream : StreamConfig) (d : D) (s : CameraDeviceSession D P)
      → Tables.IsValid s.in_flight
      → (start_preview A stream d s).1.in_flight.requests ≡ s.in_flight.requests
  unfolding start_preview
  start_preview-requests stream d s v =
      let outputs =
        (number_previews s.next_streaming_frame_number s.continuous_preview_buffers).0 in
      elim (Option-cases (A.start_continuous_stream stream s.continuous_preview_buffers d).0) [
        | inl e ↦ rw (e, start_preview) (ground arith)
        | inr (tokens, e) ↦
            rw (e, start_preview) (ground (arith, track_previews-tables outputs tokens v))
      ]

  pub start-requests :
      (s : CameraDeviceSession D P)
      → IsValid s
      → (start_streaming A s).1.in_flight.requests ≡ s.in_flight.requests
  unfolding start_streaming
  start-requests s v = elim (Option-cases s.driver) [
    | inl e ↦ ground arith
    | inr (d, e) ↦ elim (Option-cases s.continuous_preview_config) [
      | inl off ↦ ground arith
      | inr (stream, on) ↦
          ground (arith, start_preview-requests stream (A.start_streaming d).1 s v.tables)
    ]
  ]

  pub dequeue-requests :
      (fd : ℤ) (s : CameraDeviceSession D P)
      → (dequeue_locked A fd s).1.in_flight.requests ≡ s.in_flight.requests
  unfolding dequeue_locked
  dequeue-requests fd s = elim (Option-cases s.driver) [
    | inl e ↦ ground arith
    | inr (d, e) ↦ ground arith
  ]

  pub return-requests :
      (lease : StreamBufferLease) (o : InFlightStreamingOutput) (s : CameraDeviceSession D P)
      → (return_stream_buffer_locked A lease o s).in_flight.requests ≡ s.in_flight.requests
  unfolding return_stream_buffer_locked
  return-requests lease o s =
      let next : InFlightStreamingOutput = record o {
        frame_number = s.next_streaming_frame_number;
      } in
      elim (Option-cases s.driver) [
        | inl e ↦ ground arith
        | inr (d, e) ↦ elim (Option-cases (A.return_stream_buffer lease d).0) [
          | inl f ↦ ground arith
          | inr (token, f) ↦ ground (arith, track-requests next token s.in_flight)
        ]
      ]
