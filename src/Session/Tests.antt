-- ===== src/Session/Tests.antt =====
-- A session over the mock driver: a preview of one buffer, and a request with one output.
use minicam_hal.Common.{
  ℕ, ◌+◌, ◌≡◌, refl, true, false, [], ◌∷◌, ◌++◌, none, some, pos, minus_one, find, count, contains,
  emplace, assign, inc64, to_size, ◌*ℤ◌, inl, arith,
}
use minicam_hal.Interface.{
  OutputBufferTarget, CaptureRequest, still, preview, rgb24, processing_error,
}
use minicam_hal.Driver.{DriverAdapter, OutputProcessor}
use minicam_hal.Metrics.{no_metrics}
use minicam_hal.Tracker.{
  register_streaming_output, bind_driver_output, start, mark_queued_to_driver, empty_tracker,
  take_driver_output_context, flushed_rows, flush_all, InFlightRequest, initial_row,
}
use minicam_hal.Mock as Mock
use minicam_hal.Mock.{
  System, MockDriverAdapter, new_mock, mock_driver, configure_stream, open_pipe,
  start_continuous_stream, push_each, push_completion, event_fds, submit_capture,
  can_submit_capture_outputs,
}
use minicam_hal.Session.State.{
  reject_request_locked, CameraDeviceSession, CameraSessionState, created, stopped,
}
use minicam_hal.Session.Results.{
  outputs_or_default, make_in_flight_outputs, number_outputs, request_outputs_for, make_result,
  completed_buffers_for, latency_since,
}
use minicam_hal.Session.Open.{
  configure_streams, start_streaming, start_preview, number_previews, track_previews,
  track_streaming_output,
}
use minicam_hal.Session.Submit.{
  submit_locked, submit_accepted, submit_request_to_driver_locked, submit_outputs,
}
use minicam_hal.Session.Stop.{close_locked, flush_locked, drop_in_flight, collect_flushed}
use minicam_hal.Session.Invariant.{IsValid}
use minicam_hal.Session.Reach.{IsNew, Step, Reach, here, next, Reach-new-IsValid, closed_for_good}
use minicam_hal.Session.Transitions.{may_become, Step-may_become}
use minicam_hal.Session.Balance.{owes, result_frames, frames_of}
use minicam_hal.Session.Ledger.{Ledger, one_result, all_answered}
use minicam_hal.Session.RoundTrip.{submitted_output_resolves}
use minicam_hal.Session.Errors.{submit_duplicate}
use minicam_hal.Session.Late.{Ignored, deliver, late_completions}

abbrev pub system : System
system = record {
  pipe = some (pos 3, pos 4);
  set_nonblocking = λ fd. true;
  write_fails = λ token. false;
  clock = λ token. token;
  strerror = "";
}

abbrev pub mock : DriverAdapter MockDriverAdapter
mock = mock_driver system

-- A processor that releases a fresh fence for each output.
abbrev pub counting : OutputProcessor ℕ
counting = record { process_output = λ n request. (pos n, n + 1) }

abbrev pub target : OutputBufferTarget
target = record {
  stream_id = pos 1;
  buffer_id = pos 5;
  buffer_fd = pos 9;
  acquire_fence_fd = minus_one;
  buffer_size = 96;
  stream_type = still;
  width = pos 8;
  height = pos 4;
  format = rgb24;
}

abbrev pub request : CaptureRequest
request = record {
  frame_number = 7;
  width = pos 8;
  height = pos 4;
  output_buffers = target ∷ [];
  submitted_at = 1000;
}

abbrev pub fresh : CameraDeviceSession MockDriverAdapter ℕ
fresh = record {
  session_id = pos 1;
  continuous_preview_config = some (record {
    stream_id = pos 0;
    stream_type = preview;
    width = pos 8;
    height = pos 4;
    format = rgb24;
  });
  continuous_preview_buffers = target ∷ [];
  has_result_callback = true;
  stream_result_callback = none;
  state = created;
  driver = some new_mock;
  driver_fds = [];
  in_flight = empty_tracker;
  output_processors = some 20 ∷ [];
  metrics = no_metrics;
  next_streaming_frame_number = 1;
  events = [];
}

fresh-IsNew : IsNew fresh
fresh-IsNew = record { state = refl; tables = refl; silent = refl }

abbrev ready : CameraDeviceSession MockDriverAdapter ℕ
ready = (configure_streams mock (λ fds. true) fresh).1

abbrev pub live : CameraDeviceSession MockDriverAdapter ℕ
live = (start_streaming mock ready).1

abbrev pub sent : CameraDeviceSession MockDriverAdapter ℕ
sent = (submit_locked mock 2000 request live).1

abbrev done : CameraDeviceSession MockDriverAdapter ℕ
done = (close_locked mock (λ n. 9000) sent).2

sent-Reach : Reach mock counting fresh sent
sent-Reach =
    next (next (next here (Step.configures (λ fds. true))) Step.starts) (Step.submits 2000 request)

live-IsValid : IsValid live
live-IsValid =
    Reach-new-IsValid mock counting fresh-IsNew
      (next (next here (Step.configures (λ fds. true))) Step.starts)

sent-IsValid : IsValid sent
sent-IsValid = Reach-new-IsValid mock counting fresh-IsNew sent-Reach

absent : find 7 live.in_flight.requests ≡ none
unfolding find configure_streams start_streaming start_preview number_previews track_previews
    track_streaming_output register_streaming_output bind_driver_output contains emplace
    configure_stream open_pipe Mock.start_streaming start_continuous_stream push_each
    push_completion event_fds inc64 to_size ◌*ℤ◌
absent = refl

sent-Ledger :
    Ledger mock counting fresh
      (7 ∷ [])
      (result_frames (submit_locked mock 2000 request live).0 ++ [])
      sent
sent-Ledger =
    Ledger.submits 2000 request (Ledger.starts (Ledger.configures (λ fds. true) Ledger.opens))
      absent

one_result_example :
    count 7 (7 ∷ [])
    ≡ count 7 (result_frames (submit_locked mock 2000 request live).0 ++ []) + owes 7 sent
one_result_example = one_result mock counting 7 fresh-IsNew sent-Ledger

done-Ledger :
    Ledger mock counting fresh
      (7 ∷ [])
      (frames_of (close_locked mock (λ n. 9000) sent).1
        ++ (result_frames (submit_locked mock 2000 request live).0 ++ []))
      done
done-Ledger = Ledger.closes (λ n. 9000) sent-Ledger

all_answered_example :
    count 7 (7 ∷ [])
    ≡ count 7 (
        frames_of (close_locked mock (λ n. 9000) sent).1
        ++ (result_frames (submit_locked mock 2000 request live).0 ++ []))
all_answered_example =
    all_answered mock counting 7 fresh-IsNew done-Ledger
      (closed_for_good mock counting (λ n. 9000) fresh-IsNew sent-Reach here).0

Reach-new-IsValid_example : IsValid sent
Reach-new-IsValid_example = Reach-new-IsValid mock counting fresh-IsNew sent-Reach

closed_for_good_example :
    let late = (submit_locked mock 9500 request done).1 in
    (late.state ≡ stopped) × (late.in_flight.requests ≡ [])
closed_for_good_example =
    closed_for_good mock counting (λ n. 9000) fresh-IsNew sent-Reach
      (next here (Step.submits 9500 request))

Step-may_become_example : may_become sent.state done.state ≡ true
Step-may_become_example =
    Step-may_become mock counting {s = sent} {t = done} (Step.closes (λ n. 9000))

-- The driver of the session that streams.
abbrev pub live_mock : MockDriverAdapter
live_mock = record new_mock {
  completions = record { token = 1; bytes_used = 96; timestamp = 1 } ∷ [];
  read_fd = pos 3;
  write_fd = pos 4;
  configured = true;
  streaming = true;
  next_token = 2;
}

live-driver : live.driver ≡ some live_mock
unfolding find configure_streams start_streaming start_preview number_previews track_previews
    track_streaming_output register_streaming_output bind_driver_output contains emplace
    configure_stream open_pipe Mock.start_streaming start_continuous_stream push_each
    push_completion event_fds inc64 to_size ◌*ℤ◌
live-driver = refl

accepted : (submit_locked mock 2000 request live).0 ≡ none
unfolding find configure_streams start_streaming start_preview number_previews track_previews
    track_streaming_output register_streaming_output bind_driver_output contains emplace
    configure_stream open_pipe Mock.start_streaming start_continuous_stream push_each
    push_completion event_fds inc64 to_size ◌*ℤ◌ submit_locked reject_request_locked submit_accepted
    submit_request_to_driver_locked submit_outputs start mark_queued_to_driver request_outputs_for
    outputs_or_default make_in_flight_outputs number_outputs submit_capture
    can_submit_capture_outputs assign
accepted = refl

submitted_output_resolves_example :
    (token : ℕ) × ((take_driver_output_context token sent.in_flight).0
      ≡ some (record {
        frame_number = 7;
        output_index = pos 0;
        target = target;
        streaming_output = none;
      }))
unfolding request_outputs_for outputs_or_default
submitted_output_resolves_example =
    submitted_output_resolves mock 2000 request live_mock live 0 target live-IsValid live-driver
      accepted refl

-- The completion of the preview buffer, and one of no known token, after a flush.
late_completions_example :
    let flushed = (flush_locked mock (λ n. 3000) live).1 in
    Ignored mock counting 2 flushed (
      deliver mock counting
        ((3000, record { token = 1; bytes_used = 96; timestamp = 2 })
          ∷ (3001, record { token = 9; bytes_used = 96; timestamp = 3 })
          ∷ [])
        flushed)
unfolding flush_locked drop_in_flight collect_flushed flushed_rows flush_all configure_streams
    start_streaming start_preview number_previews track_previews track_streaming_output
    register_streaming_output bind_driver_output contains emplace configure_stream open_pipe
    Mock.start_streaming start_continuous_stream push_each push_completion event_fds inc64 to_size
    ◌*ℤ◌
late_completions_example =
    late_completions mock counting (λ n. 3000)
      ((3000, record { token = 1; bytes_used = 96; timestamp = 2 })
        ∷ (3001, record { token = 9; bytes_used = 96; timestamp = 3 })
        ∷ [])
      live (flush_locked mock (λ n. 3000) live).1 (inl (refl, refl)) (omega arith)

-- A session in which frame 7 is in flight.
abbrev waiting_row : InFlightRequest
waiting_row = initial_row request (make_in_flight_outputs (request_outputs_for request))

abbrev waiting : CameraDeviceSession MockDriverAdapter ℕ
waiting = record fresh {
  state = CameraSessionState.streaming;
  driver = some live_mock;
  in_flight = record empty_tracker { requests = (7, waiting_row) ∷ [] };
}

submit_duplicate_example :
    let (r, s') = submit_locked mock 2000 request waiting in
    (r
      ≡ some (
          make_result 7 processing_error
            (completed_buffers_for waiting_row.output_buffers processing_error)
            "duplicate frame number"
            (latency_since 1000 2000)))
    × (find 7 s'.in_flight.requests ≡ none)
    × (s'.driver ≡ some live_mock)
unfolding find can_submit_capture_outputs
submit_duplicate_example =
    submit_duplicate mock 2000 request live_mock waiting waiting_row refl refl refl refl
