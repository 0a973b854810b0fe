-- ===== src/Session/Open.antt =====
-- hal/camera_device_session.cpp: `configure_streams`, `start_streaming` and
-- `process_capture_request`. What the runtime answers is an argument.
use minicam_hal.Common.{
  ℕ, ℤ, Bool, true, false, none, some, List, [], ◌∷◌, minus_one, if◌then◌else◌, is_empty, length,
  ◌==◌, inc64, not,
}
use minicam_hal.Interface.{OutputBufferTarget, StreamConfig, CaptureRequest}
use minicam_hal.Driver.{DriverAdapter}
use minicam_hal.Tracker.{
  InFlightRequestTracker, InFlightStreamingOutput, register_streaming_output, bind_driver_output,
}
use minicam_hal.Session.State.{
  CameraDeviceSession, CameraSessionState, created, configured, error, reject_request_locked,
}

abbrev is_created : CameraSessionState → Bool
is_created created = true
is_created _ = false

abbrev is_configured : CameraSessionState → Bool
is_configured configured = true
is_configured _ = false

-- The frame numbers given to the preview buffers, and the next one.
unfoldable pub number_previews : ℕ → List OutputBufferTarget → List InFlightStreamingOutput × ℕ
number_previews next [] = ([], next)
number_previews next (o ∷ os) =
    let (outputs, next') = number_previews (inc64 next) os in
    (record { frame_number = next; target = o; stream_type = o.stream_type } ∷ outputs, next')

-- `register_streaming_output` and `bind_driver_output`, as `start_streaming` and the return of a
-- stream buffer call them: the binding is not tried if the registration fails.
unfoldable pub track_streaming_output :
    InFlightStreamingOutput → ℕ → InFlightRequestTracker → Bool × InFlightRequestTracker
track_streaming_output o token t =
    let (registered, t') = register_streaming_output o t in
    if registered
    then bind_driver_output token
        (record { frame_number = o.frame_number; output_index = minus_one }) t'
    else (false, t')

-- The loop over the submissions stops at the first that cannot be tracked. The lists are equally
-- long when it is called.
unfoldable pub track_previews :
    List InFlightStreamingOutput → List ℕ → InFlightRequestTracker → Bool × InFlightRequestTracker
track_previews [] tokens t = (true, t)
track_previews (o ∷ os) [] t = (true, t)
track_previews (o ∷ os) (token ∷ tokens) t =
    let (tracked, t') = track_streaming_output o token t in
    let rest = track_previews os tokens t' in if tracked then rest else (false, t')

module _ {D P : Type 0} (A : DriverAdapter D) where
  open A use {configure_stream, start_streaming as start_driver, start_continuous_stream, event_fds}

  -- `register_session` is the runtime's answer for the fds.
  unfoldable pub configure_streams :
      (List ℤ → Bool) → CameraDeviceSession D P → Bool × CameraDeviceSession D P
  configure_streams register_session s = elim s.driver [
    | none ↦ (false, s)
    | some d ↦
        if is_created s.state
        then (let (ready, d') = configure_stream d in
            if ready
            then (let fds = event_fds d' in
                if register_session fds
                then (true, record s { driver = some d'; driver_fds = fds; state = configured })
                else (false, record s { driver = some d'; driver_fds = fds; state = error }))
            else (false, record s { driver = some d'; state = error }))
        else (false, s)
  ]

  -- The preview buffers go to the driver, and each submission is tracked as a streaming output.
  unfoldable pub start_preview :
      StreamConfig → D → CameraDeviceSession D P → Bool × CameraDeviceSession D P
  start_preview stream d s =
      if is_empty s.continuous_preview_buffers
      then (false, record s { driver = some d; state = error })
      else (let (outputs, next) =
            number_previews s.next_streaming_frame_number s.continuous_preview_buffers in
          let (submissions, d') = start_continuous_stream stream s.continuous_preview_buffers d in
          let s' : CameraDeviceSession D P = record s {
            driver = some d';
            next_streaming_frame_number = next;
          } in
          elim submissions [
            | none ↦ (false, record s' { state = error })
            | some tokens ↦
                if length tokens == length outputs
                then (let (tracked, t) = track_previews outputs tokens s.in_flight in
                    if tracked
                    then (true, record s' { in_flight = t; state = CameraSessionState.streaming })
                    else (false, record s' { in_flight = t; state = error }))
                else (false, record s' { state = error })
          ])

  unfoldable pub start_streaming : CameraDeviceSession D P → Bool × CameraDeviceSession D P
  start_streaming s = elim s.driver [
    | none ↦ (false, s)
    | some d ↦
        if is_configured s.state
        then (let (ready, d') = start_driver d in
            if ready
            then elim s.continuous_preview_config [
              | none ↦ (true, record s { driver = some d'; state = CameraSessionState.streaming })
              | some stream ↦ start_preview stream d' s
            ]
            else (false, record s { driver = some d'; state = error }))
        else (false, s)
  ]

-- `alive` tells whether a shared pointer still owns the session; `post` is the runtime's answer to
-- the task that will call `submit_capture_request`.
unfoldable pub process_capture_request :
    {D P : Type 0}
    → Bool
    → (CaptureRequest → Bool)
    → CaptureRequest
    → CameraDeviceSession D P
    → Bool
process_capture_request alive post request s =
    if not alive then false else if reject_request_locked s then false else post request
