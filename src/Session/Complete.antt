-- ===== src/Session/Complete.antt =====
-- hal/camera_device_session.cpp: from a driver completion to a result: `on_driver_fd_ready`,
-- `on_driver_buffer_complete` and `try_fill_result_from_completion_locked`.
use minicam_hal.Common.{
  ℕ, zero, suc, ℤ, Bool, ◌||◌, Option, none, some, List, [], ◌∷◌, minus_one, if◌then◌else◌, inc64,
}
use minicam_hal.Interface.{OutputBufferTarget, CaptureResult}
use minicam_hal.Driver.{
  DriverAdapter, DriverCompletion, StreamBufferLease, OutputProcessRequest, OutputProcessor,
}
use minicam_hal.Metrics.{record_success}
use minicam_hal.Tracker.{
  InFlightStreamingOutput, ResolvedDriverOutput, OutputCompletionResult, not_found,
  waiting_for_more_outputs, request_complete, take_driver_output_context, complete_output,
}
use minicam_hal.Session.State.{
  CameraDeviceSession, is_streaming, emit, preview_result, stream_result, count_failure,
  dispatch_result, close_fence_fd,
}
use minicam_hal.Session.Results.{
  payload_format_for, capture_result_from_standalone_completion,
  stream_buffer_lease_from_completion, ok_result,
}
use minicam_hal.Session.Open.{track_streaming_output}

-- The request to a processor, with the fence that the one before it released.
abbrev pub process_request : ResolvedDriverOutput → ℤ → OutputProcessRequest
process_request resolved fence = record {
  frame_number = resolved.frame_number;
  output_index = resolved.output_index;
  stream_id = resolved.target.stream_id;
  buffer_id = resolved.target.buffer_id;
  buffer_fd = resolved.target.buffer_fd;
  buffer_size = resolved.target.buffer_size;
  input_acquire_fence_fd = fence;
  width = resolved.target.width;
  height = resolved.target.height;
  payload_format = payload_format_for resolved.target.format;
}

module _ {P : Type 0} (O : OutputProcessor P) where
  -- The loop over `output_processors_`, from `release_fence_fd = fence`.
  unfoldable pub run_processors : ResolvedDriverOutput → List (Option P) → ℤ → ℤ × List (Option P)
  run_processors resolved [] fence = (fence, [])
  run_processors resolved (none ∷ ps) fence =
      let (last, ps') = run_processors resolved ps fence in (last, none ∷ ps')
  run_processors resolved (some p ∷ ps) fence =
      let (released, p') = O.process_output p (process_request resolved fence) in
      let (last, ps') = run_processors resolved ps released in (last, some p' ∷ ps')

-- What is dispatched for a completion: a request's result, or a preview buffer's with its lease.
pub data Filled : Type 0 where
  nothing : Filled
  request_filled : CaptureResult → Filled
  preview_filled : CaptureResult → StreamBufferLease → InFlightStreamingOutput → Filled

module _ {D P : Type 0} where
  -- The outcome of `complete_output`, which has removed the row if the request is complete.
  unfoldable pub fill_from_completion :
      ℕ
      → OutputBufferTarget
      → ℤ
      → OutputCompletionResult
      → CameraDeviceSession D P
      → Filled × CameraDeviceSession D P
  fill_from_completion now target fence waiting_for_more_outputs s = (nothing, s)
  fill_from_completion now target fence not_found s =
      (nothing, count_failure (close_fence_fd fence s))
  fill_from_completion now target fence (request_complete row) s =
      let result = ok_result row target now in
      (request_filled result, record s { metrics = record_success result.latency s.metrics })

  -- The rest of `try_fill_result_from_completion_locked`, after the processors.
  unfoldable pub fill_resolved :
      ℕ
      → DriverCompletion
      → ResolvedDriverOutput
      → ℤ
      → CameraDeviceSession D P
      → Filled × CameraDeviceSession D P
  fill_resolved now completion resolved fence s = elim resolved.streaming_output [
    | some o ↦ (
      preview_filled (capture_result_from_standalone_completion o fence)
          (stream_buffer_lease_from_completion o) o,
      record s { metrics = record_success 0 s.metrics },
    )
    | none ↦
        let (outcome, t) =
          complete_output resolved.frame_number resolved.output_index fence
            (record { sensor_timestamp = completion.timestamp }) s.in_flight in
        fill_from_completion now resolved.target fence outcome (record s { in_flight = t })
  ]

module _ {D P : Type 0} (O : OutputProcessor P) where
  unfoldable pub try_fill_result_from_completion_locked :
      ℕ → DriverCompletion → CameraDeviceSession D P → Filled × CameraDeviceSession D P
  try_fill_result_from_completion_locked now completion s =
      let (found, t) = take_driver_output_context completion.token s.in_flight in
      elim found [
        | none ↦ (nothing, count_failure (record s { in_flight = t }))
        | some resolved ↦
            let (fence, processors) = run_processors O resolved s.output_processors minus_one in
            fill_resolved now completion resolved fence
              (record s { in_flight = t; output_processors = processors })
      ]

module _ {D P : Type 0} where
  -- The callback of a preview buffer, and the lease that goes back to the driver.
  unfoldable pub dispatch_preview :
      CaptureResult
      → StreamBufferLease
      → CameraDeviceSession D P
      → StreamBufferLease × CameraDeviceSession D P
  dispatch_preview result lease s = elim s.stream_result_callback [
    | some callback ↦ (callback result lease, emit (stream_result result lease) s)
    | none ↦ (lease, if s.has_result_callback then emit (preview_result result) s else s)
  ]

module _ {D P : Type 0} (A : DriverAdapter D) where
  -- The second locked part: the buffer is queued again under a new frame number and token.
  unfoldable pub return_stream_buffer_locked :
      StreamBufferLease
      → InFlightStreamingOutput
      → CameraDeviceSession D P
      → CameraDeviceSession D P
  return_stream_buffer_locked lease completed s = elim s.driver [
    | none ↦ s
    | some d ↦
        if is_streaming s.state
        then (let (submission, d') = A.return_stream_buffer lease d in
            elim submission [
              | none ↦ count_failure (record s { driver = some d' })
              | some token ↦
                  let next : InFlightStreamingOutput = record completed {
                    frame_number = s.next_streaming_frame_number;
                  } in
                  let (tracked, t) = track_streaming_output next token s.in_flight in
                  let s' : CameraDeviceSession D P = record s {
                    driver = some d';
                    in_flight = t;
                    next_streaming_frame_number = inc64 s.next_streaming_frame_number;
                  } in
                  if tracked then s' else count_failure s'
            ])
        else s
  ]

  -- One turn of the loop in `on_driver_fd_ready`: the completion dequeued under the lock, if any.
  unfoldable pub dequeue_locked :
      ℤ → CameraDeviceSession D P → Option DriverCompletion × CameraDeviceSession D P
  dequeue_locked fd s = elim s.driver [
    | none ↦ (none, s)
    | some d ↦
        if is_streaming s.state
        then (let (completion, d') = A.dequeue_completion fd d in
            (completion, record s { driver = some d' }))
        else (none, s)
  ]

module _ {D P : Type 0} (A : DriverAdapter D) (O : OutputProcessor P) where
  unfoldable pub on_driver_buffer_complete :
      ℕ → DriverCompletion → CameraDeviceSession D P → CameraDeviceSession D P
  on_driver_buffer_complete now completion s =
      let (filled, s') = try_fill_result_from_completion_locked O now completion s in
      elim filled [
        | nothing ↦ s'
        | request_filled result ↦ dispatch_result result s'
        | preview_filled result lease output ↦
            let (lease', s'') = dispatch_preview result lease s' in
            return_stream_buffer_locked A lease' output s''
      ]

  -- The loop runs until nothing is dequeued; `none` if the fuel runs out. The clock is read once for
  -- each turn.
  unfoldable pub drain :
      ℕ → (ℕ → ℕ) → ℤ → CameraDeviceSession D P → Option (CameraDeviceSession D P)
  drain zero clock fd s = none
  drain (suc fuel) clock fd s = elim (dequeue_locked A fd s).0 [
    | none ↦ some (dequeue_locked A fd s).1
    | some completion ↦
        drain fuel clock fd
          (on_driver_buffer_complete (clock fuel) completion (dequeue_locked A fd s).1)
  ]

  unfoldable pub on_driver_fd_ready :
      ℕ
      → (ℕ → ℕ)
      → ℤ
      → (readable error hangup : Bool) → CameraDeviceSession D P
      → Option (CameraDeviceSession D P)
  on_driver_fd_ready fuel clock fd readable error hangup s =
      if readable || error || hangup then drain fuel clock fd s else some s
