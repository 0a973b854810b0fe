-- ===== src/Session/Stop.antt =====
-- hal/camera_device_session.cpp: `flush` and `close`. `clock n` is the reading of the clock for the
-- result of frame `n`.
use minicam_hal.Common.{
  ℕ, ℤ, Bool, true, false, Option, none, some, List, [], ◌∷◌, String, if◌then◌else◌, is_empty,
}
use minicam_hal.Interface.{CaptureStatus, CaptureResult}
use minicam_hal.Driver.{DriverAdapter}
use minicam_hal.Metrics.{FrameMetrics, record_failure}
use minicam_hal.Tracker.{InFlightRequest, flush_all, clear_streaming_outputs}
use minicam_hal.Session.State.{
  CameraDeviceSession, CameraSessionState, configured, streaming, stopped, dispatch_result, emit,
  unregistered,
}
use minicam_hal.Session.Results.{latency_since, make_result, completed_buffers_for}

abbrev pub flushed_result : String → (ℕ → ℕ) → InFlightRequest → CaptureResult
flushed_result message clock row =
    make_result row.frame_number CaptureStatus.flushed
      (completed_buffers_for row.output_buffers CaptureStatus.flushed) message
      (latency_since row.submitted_at (clock row.frame_number))

-- The loop over the flushed rows: their results, and a failure counted for each.
unfoldable pub collect_flushed :
    String → (ℕ → ℕ) → List InFlightRequest → FrameMetrics → List CaptureResult × FrameMetrics
collect_flushed message clock [] m = ([], m)
collect_flushed message clock (row ∷ rows) m =
    let (results, m') = collect_flushed message clock rows (record_failure m) in
    (flushed_result message clock row ∷ results, m')

abbrev pub can_flush : CameraSessionState → Bool
can_flush streaming = true
can_flush configured = true
can_flush _ = false

abbrev pub is_stopped : CameraSessionState → Bool
is_stopped stopped = true
is_stopped _ = false

abbrev pub map_driver : {D : Type 0} → (D → D) → Option D → Option D
map_driver f none = none
map_driver f (some d) = some (f d)

module _ {D P : Type 0} where
  -- After the lock is released, the results go to the callback in order.
  unfoldable pub dispatch_all :
      List CaptureResult → CameraDeviceSession D P → CameraDeviceSession D P
  dispatch_all [] s = s
  dispatch_all (r ∷ rs) s = dispatch_all rs (dispatch_result r s)

  -- What `flush` and `close` do alike to the tables and the metrics.
  unfoldable pub drop_in_flight :
      String → (ℕ → ℕ) → CameraDeviceSession D P → List CaptureResult × CameraDeviceSession D P
  drop_in_flight message clock s =
      let (rows, t) = flush_all s.in_flight in
      let (results, m) = collect_flushed message clock rows s.metrics in
      (results, record s { in_flight = clear_streaming_outputs t; metrics = m })

module _ {D P : Type 0} (A : DriverAdapter D) where
  unfoldable pub flush_locked :
      (ℕ → ℕ) → CameraDeviceSession D P → List CaptureResult × CameraDeviceSession D P
  flush_locked clock s =
      if can_flush s.state
      then (let (results, s') =
            drop_in_flight "request flushed" clock
              (record s { driver = map_driver A.stop_streaming s.driver }) in
          (results, record s' { state = configured }))
      else ([], s)

  unfoldable pub flush : (ℕ → ℕ) → CameraDeviceSession D P → CameraDeviceSession D P
  flush clock s = let (results, s') = flush_locked clock s in dispatch_all results s'

  abbrev unregister : List ℤ → CameraDeviceSession D P → CameraDeviceSession D P
  unregister fds s = if is_empty fds then s else emit (unregistered s.session_id fds) s

  -- The fds to unregister, the results to dispatch and the new state.
  unfoldable pub close_locked :
      (ℕ → ℕ) → CameraDeviceSession D P → List ℤ × List CaptureResult × CameraDeviceSession D P
  close_locked clock s =
      if is_stopped s.state
      then ([], [], s)
      else (let (results, s') =
            drop_in_flight "session closed" clock
              (record s { driver = map_driver A.stop_streaming s.driver }) in
          (
            elim s.driver [ none ↦ [] | some _ ↦ s.driver_fds ],
            results,
            record s' { driver = map_driver A.close s'.driver; driver_fds = []; state = stopped },
          ))

  unfoldable pub close : (ℕ → ℕ) → CameraDeviceSession D P → CameraDeviceSession D P
  close clock s =
      let (fds, results, s') = close_locked clock s in dispatch_all results (unregister fds s')
