-- ===== src/Mock.antt =====
-- hal/mock_driver_adapter.h and .cpp: a driver that completes every submission at once. What the
-- system answers (`pipe`, `fcntl`, `write`, the clock) is a parameter; the bytes in the pipe are the
-- kernel's and are not kept.
pub mod Tokens
pub mod Drain
mod Tests
use Prim.Native.String.{◌++◌ as append}
use minicam_hal.Common.{
  ℕ, ℤ, Bool, true, false, ◌&&◌, not, Option, none, some, List, [], ◌∷◌, ◌++◌, String,
  if◌then◌else◌, pos, minus_one, is_neg, ◌==ℤ◌, inc64, ◌*ℤ◌, to_size, mul_size,
}
use minicam_hal.Interface.{OutputBufferTarget, StreamConfig, StreamType, PixelFormat}
use minicam_hal.Driver.{DriverAdapter, DriverCompletion, StreamBufferLease}

-- `write_fails token` is a failed wake write for that submission, other than by EAGAIN; `clock token`
-- is the time stamp of its completion; `strerror` is the text of the last error.
pub record System : Type 0 where
  pub pipe : Option (ℤ × ℤ)
  pub set_nonblocking : ℤ → Bool
  pub write_fails : ℕ → Bool
  pub clock : ℕ → ℕ
  pub strerror : String

pub record MockDriverAdapter : Type 0 where
  pub completions : List DriverCompletion
  pub last_error : String
  pub read_fd : ℤ
  pub write_fd : ℤ
  pub configured : Bool
  pub streaming : Bool
  pub can_submit : Bool
  pub fail_submit : Bool
  pub submit_count : ℕ
  pub returned_stream_buffer_count : ℕ
  pub last_returned_stream_buffer : Option StreamBufferLease
  pub next_token : ℕ

abbrev pub new_mock : MockDriverAdapter
new_mock = record {
  completions = [];
  last_error = "";
  read_fd = minus_one;
  write_fd = minus_one;
  configured = false;
  streaming = false;
  can_submit = true;
  fail_submit = false;
  submit_count = 0;
  returned_stream_buffer_count = 0;
  last_returned_stream_buffer = none;
  next_token = 1;
}

abbrev set_error : String → MockDriverAdapter → MockDriverAdapter
set_error e d = record d { last_error = e }

unfoldable pub required_output_buffer_size : MockDriverAdapter → OutputBufferTarget → ℕ
required_output_buffer_size d o = mul_size (mul_size (to_size o.width) (to_size o.height)) 3

unfoldable pub stop_streaming : MockDriverAdapter → MockDriverAdapter
stop_streaming d = record d { streaming = false }

-- `close`: both ends of the pipe, the flags and the completions; the token counter goes on.
unfoldable pub close : MockDriverAdapter → MockDriverAdapter
close d = record d {
  read_fd = if is_neg d.read_fd then d.read_fd else minus_one;
  write_fd = if is_neg d.write_fd then d.write_fd else minus_one;
  configured = false;
  streaming = false;
  completions = [];
}

unfoldable pub can_submit_capture_outputs : MockDriverAdapter → List OutputBufferTarget → Bool
can_submit_capture_outputs d outputs = d.can_submit

unfoldable pub dequeue_completion :
    ℤ → MockDriverAdapter → Option DriverCompletion × MockDriverAdapter
dequeue_completion fd d =
    if fd ==ℤ d.read_fd
    then elim d.completions [
      | [] ↦ (none, d)
      | c ∷ rest ↦ (some c, record d { completions = rest })
    ]
    else (none, d)

unfoldable pub return_stream_buffer :
    StreamBufferLease → MockDriverAdapter → Option ℕ × MockDriverAdapter
return_stream_buffer lease d =
    if d.streaming
    then (
      some d.next_token,
      record d {
        returned_stream_buffer_count = inc64 d.returned_stream_buffer_count;
        last_returned_stream_buffer = some lease;
        next_token = inc64 d.next_token;
      },
    )
    else (none, set_error "mock driver is not streaming" d)

unfoldable pub event_fds : MockDriverAdapter → List ℤ
event_fds d = if is_neg d.read_fd then [] else d.read_fd ∷ []

unfoldable pub set_can_submit_capture_outputs : Bool → MockDriverAdapter → MockDriverAdapter
set_can_submit_capture_outputs can d =
    if can
    then record d { can_submit = can }
    else set_error "mock driver cannot accept every output" (record d { can_submit = can })

unfoldable pub set_fail_submit : Bool → MockDriverAdapter → MockDriverAdapter
set_fail_submit b d = record d { fail_submit = b }

-- The target that `start_continuous_stream` uses when it is given no buffer.
abbrev pub fallback_target : StreamConfig → OutputBufferTarget
fallback_target stream = record {
  stream_id = stream.stream_id;
  buffer_id = minus_one;
  buffer_fd = minus_one;
  acquire_fence_fd = minus_one;
  buffer_size = 0;
  stream_type = stream.stream_type;
  width = stream.width;
  height = stream.height;
  format = stream.format;
}

abbrev pub buffers_or_fallback : StreamConfig → List OutputBufferTarget → List OutputBufferTarget
buffers_or_fallback stream [] = fallback_target stream ∷ []
buffers_or_fallback stream (o ∷ os) = o ∷ os

module _ (sys : System) where
  unfoldable pub open_pipe : MockDriverAdapter → Bool × MockDriverAdapter
  open_pipe d =
      if not (is_neg d.read_fd) && not (is_neg d.write_fd) then (true, d) else elim sys.pipe [
        | none ↦ (false, set_error (append "pipe failed: " sys.strerror) d)
        | some (r, w) ↦
            if sys.set_nonblocking r && sys.set_nonblocking w
            then (true, record d { read_fd = r; write_fd = w })
            else (
              false,
              set_error (append "fcntl O_NONBLOCK failed: " sys.strerror)
                  (record d { read_fd = minus_one; write_fd = minus_one }),
            )
      ]

  unfoldable pub configure_stream : MockDriverAdapter → Bool × MockDriverAdapter
  configure_stream d =
      let (opened, d') = open_pipe d in
      if opened then (true, record d' { configured = true }) else (false, d')

  unfoldable pub start_streaming : MockDriverAdapter → Bool × MockDriverAdapter
  start_streaming d =
      if d.configured
      then (true, record d { streaming = true })
      else (false, set_error "mock driver is not configured" d)

  -- Takes the next token and queues its completion; false if the wake write fails, which leaves the
  -- completion queued.
  unfoldable pub push_completion : OutputBufferTarget → MockDriverAdapter → Bool × MockDriverAdapter
  push_completion o d =
      let pushed : MockDriverAdapter = record d {
        completions =
            d.completions
            ++ (record {
              token = d.next_token;
              bytes_used = to_size (o.width *ℤ o.height *ℤ pos 3);
              timestamp = sys.clock d.next_token;
            }
                ∷ []);
        next_token = inc64 d.next_token;
      } in
      if sys.write_fails d.next_token
      then (false, set_error (append "mock wake write failed: " sys.strerror) pushed)
      else (true, pushed)

  unfoldable pub submit_capture :
      OutputBufferTarget → MockDriverAdapter → Option ℕ × MockDriverAdapter
  submit_capture o d =
      if not d.streaming
      then (none, set_error "mock driver is not streaming" d)
      else if d.fail_submit
      then (none, set_error "mock submit failure" d)
      else (let (sent, d') = push_completion o (record d { submit_count = inc64 d.submit_count }) in
          (if sent then some d.next_token else none, d'))

  unfoldable pub push_each :
      List OutputBufferTarget → MockDriverAdapter → Option (List ℕ) × MockDriverAdapter
  push_each [] d = (some [], d)
  push_each (o ∷ os) d =
      let (sent, d') = push_completion o d in
      let (rest, d'') = push_each os d' in
      if sent
      then (elim rest [ none ↦ none | some tokens ↦ some (d.next_token ∷ tokens) ], d'')
      else (none, d')

  unfoldable pub start_continuous_stream :
      StreamConfig
      → List OutputBufferTarget
      → MockDriverAdapter
      → Option (List ℕ) × MockDriverAdapter
  start_continuous_stream stream buffers d =
      if d.streaming
      then push_each (buffers_or_fallback stream buffers) d
      else (none, set_error "mock driver is not streaming" d)

  abbrev pub mock_driver : DriverAdapter MockDriverAdapter
  mock_driver = record {
    configure_stream = configure_stream;
    start_streaming = start_streaming;
    required_output_buffer_size = required_output_buffer_size;
    start_continuous_stream = start_continuous_stream;
    stop_streaming = stop_streaming;
    close = close;
    can_submit_capture_outputs = can_submit_capture_outputs;
    submit_capture = submit_capture;
    dequeue_completion = dequeue_completion;
    return_stream_buffer = return_stream_buffer;
    event_fds = event_fds;
    last_error = λ d. d.last_error;
  }
