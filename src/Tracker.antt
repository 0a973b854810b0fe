-- ===== src/Tracker.antt =====
-- hal/in_flight_request_tracker.h and .cpp: which frame, output and stream buffer each driver token
-- stands for. Each method takes the tracker last and returns the new one.
pub mod Invariant
pub mod Marks
pub mod Completion
pub mod Tokens
pub mod Flush
mod Tests
use minicam_hal.Common.{
  ℕ, ℤ, ◌≡◌, Bool, true, false, ◌&&◌, ◌||◌, Option, none, some, List, [], ◌∷◌, Map, ◌==◌, ◌==ℤ◌,
  is_neg, minus_one, if◌then◌else◌, is_empty, length, find, contains, erase, assign, emplace,
  erase_if,
}
use minicam_hal.Interface.{OutputBufferTarget, CaptureRequest, StreamType}

pub data InFlightState : Type 0 where
  submitted queued_to_driver completed_state failed_state flushed_state : InFlightState

-- The exposure time and the gain keep their defaults everywhere in the program.
pub record CaptureMetadata : Type 0 where
  pub sensor_timestamp : ℕ

pub record InFlightOutput : Type 0 where
  pub target : OutputBufferTarget
  pub output_index : ℤ
  pub completed : Bool
  pub release_fence_fd : ℤ

-- `metadata` is `none` for the default, whose time stamp is the time of construction.
pub record InFlightRequest : Type 0 where
  pub frame_number : ℕ
  pub request : CaptureRequest
  pub output_buffers : List InFlightOutput
  pub metadata : Option CaptureMetadata
  pub state : InFlightState
  pub submitted_at : ℕ

pub record InFlightStreamingOutput : Type 0 where
  pub frame_number : ℕ
  pub target : OutputBufferTarget
  pub stream_type : StreamType

pub record DriverOutputContext : Type 0 where
  pub frame_number : ℕ
  pub output_index : ℤ

pub record ResolvedDriverOutput : Type 0 where
  pub frame_number : ℕ
  pub output_index : ℤ
  pub target : OutputBufferTarget
  pub streaming_output : Option InFlightStreamingOutput

-- `OutputCompletionResult`: the code sets `request` exactly in the state `RequestComplete`.
pub data OutputCompletionResult : Type 0 where
  not_found waiting_for_more_outputs : OutputCompletionResult
  request_complete : InFlightRequest → OutputCompletionResult

pub record InFlightRequestTracker : Type 0 where
  pub requests : Map InFlightRequest
  pub streaming_outputs : Map InFlightStreamingOutput
  pub driver_outputs : Map DriverOutputContext

abbrev pub empty_tracker : InFlightRequestTracker
empty_tracker = record { requests = []; streaming_outputs = []; driver_outputs = [] }

abbrev pub initial_row : CaptureRequest → List InFlightOutput → InFlightRequest
initial_row request outputs = record {
  frame_number = request.frame_number;
  request = request;
  output_buffers = outputs;
  metadata = none;
  state = submitted;
  submitted_at = request.submitted_at;
}

unfoldable pub start :
    CaptureRequest → List InFlightOutput → InFlightRequestTracker → Bool × InFlightRequestTracker
start request outputs t =
    if contains request.frame_number t.requests || is_empty outputs then (false, t) else (
      true,
      record t { requests = emplace request.frame_number (initial_row request outputs) t.requests },
    )

abbrev is_submitted : InFlightState → Bool
is_submitted submitted = true
is_submitted _ = false

unfoldable pub mark_queued_to_driver : ℕ → InFlightRequestTracker → Bool × InFlightRequestTracker
mark_queued_to_driver n t = elim (find n t.requests) [
  | none ↦ (false, t)
  | some row ↦
      if is_submitted row.state
      then (
        true,
        record t { requests = assign n (record row { state = queued_to_driver }) t.requests },
      )
      else (false, t)
]

-- The row is changed, copied out, and erased.
unfoldable pub complete :
    ℕ → CaptureMetadata → InFlightRequestTracker → Option InFlightRequest × InFlightRequestTracker
complete n m t = elim (find n t.requests) [
  | none ↦ (none, t)
  | some row ↦ (
    some (record row { metadata = some m; state = completed_state }),
    record t { requests = erase n t.requests },
  )
]

abbrev pub mark_output : ℤ → ℤ → InFlightOutput → InFlightOutput
mark_output index fence o =
    if o.output_index ==ℤ index then record o { completed = true; release_fence_fd = fence } else o

-- The loop of `complete_output`, over its variables `matched` and `all_completed`.
unfoldable pub mark_loop :
    ℤ → ℤ → List InFlightOutput → Bool → Bool → List InFlightOutput × Bool × Bool
mark_loop index fence [] matched all = ([], matched, all)
mark_loop index fence (o ∷ os) matched all =
    let o' = mark_output index fence o in
    let (os', matched', all') =
      mark_loop index fence os (if o.output_index ==ℤ index then true else matched)
        (o'.completed && all) in
    (o' ∷ os', matched', all')

unfoldable pub complete_output :
    ℕ
    → ℤ
    → ℤ
    → CaptureMetadata
    → InFlightRequestTracker
    → OutputCompletionResult × InFlightRequestTracker
unfolding mark_loop
complete_output n index fence m t = elim (find n t.requests) [
  | none ↦ (not_found, t)
  | some row ↦
      let (outputs, matched, all) = mark_loop index fence row.output_buffers false true in
      let row' : InFlightRequest = record row { output_buffers = outputs } in
      if matched
      then (if all
          then (
            request_complete (record row' { metadata = some m; state = completed_state }),
            record t { requests = erase n t.requests },
          )
          else (waiting_for_more_outputs, record t { requests = assign n row' t.requests }))
      else (not_found, record t { requests = assign n row' t.requests })
]

unfoldable pub register_streaming_output :
    InFlightStreamingOutput → InFlightRequestTracker → Bool × InFlightRequestTracker
register_streaming_output o t =
    if contains o.frame_number t.streaming_outputs
    then (false, t)
    else (true, record t { streaming_outputs = emplace o.frame_number o t.streaming_outputs })

unfoldable pub take_streaming_output :
    ℕ → InFlightRequestTracker → Option InFlightStreamingOutput × InFlightRequestTracker
take_streaming_output n t = elim (find n t.streaming_outputs) [
  | none ↦ (none, t)
  | some o ↦ (some o, record t { streaming_outputs = erase n t.streaming_outputs })
]

unfoldable pub bind_driver_output :
    ℕ → DriverOutputContext → InFlightRequestTracker → Bool × InFlightRequestTracker
bind_driver_output token context t =
    if token == 0 || contains token t.driver_outputs
    then (false, t)
    else (true, record t { driver_outputs = emplace token context t.driver_outputs })

unfoldable pub first_target : ℤ → List InFlightOutput → Option OutputBufferTarget
first_target index [] = none
first_target index (o ∷ os) =
    if o.output_index ==ℤ index then some o.target else first_target index os

unfoldable pub output_target : ℕ → ℤ → InFlightRequestTracker → Option OutputBufferTarget
unfolding first_target
output_target n index t = elim (find n t.requests) [
  | none ↦ none
  | some row ↦ first_target index row.output_buffers
]

-- The second half of `take_driver_output_context`, after the binding is erased.
unfoldable pub resolve_context :
    DriverOutputContext
    → InFlightRequestTracker
    → Option ResolvedDriverOutput × InFlightRequestTracker
unfolding take_streaming_output output_target
resolve_context context t =
    if is_neg context.output_index
    then (let (found, t') = take_streaming_output context.frame_number t in
        elim found [
          | none ↦ (none, t')
          | some o ↦ (
            some (record {
              frame_number = context.frame_number;
              output_index = context.output_index;
              target = o.target;
              streaming_output = some o;
            }),
            t',
          )
        ])
    else elim (output_target context.frame_number context.output_index t) [
      | none ↦ (none, t)
      | some target ↦ (
        some (record {
          frame_number = context.frame_number;
          output_index = context.output_index;
          target = target;
          streaming_output = none;
        }),
        t,
      )
    ]

unfoldable pub take_driver_output_context :
    ℕ → InFlightRequestTracker → Option ResolvedDriverOutput × InFlightRequestTracker
unfolding resolve_context
take_driver_output_context token t = elim (find token t.driver_outputs) [
  | none ↦ (none, t)
  | some context ↦
      resolve_context context (record t { driver_outputs = erase token t.driver_outputs })
]

unfoldable pub clear_driver_outputs_for_frame : ℕ → InFlightRequestTracker → InFlightRequestTracker
clear_driver_outputs_for_frame n t = record t {
  driver_outputs = erase_if (λ c. c.frame_number == n) t.driver_outputs;
}

unfoldable pub clear_streaming_outputs : InFlightRequestTracker → InFlightRequestTracker
clear_streaming_outputs t = record t { streaming_outputs = [] }

unfoldable pub fail : ℕ → InFlightRequestTracker → Option InFlightRequest × InFlightRequestTracker
fail n t = elim (find n t.requests) [
  | none ↦ (none, t)
  | some row ↦
      (some (record row { state = failed_state }), record t { requests = erase n t.requests })
]

-- The rows, in the order of iteration.
unfoldable pub flushed_rows : Map InFlightRequest → List InFlightRequest
flushed_rows [] = []
flushed_rows ((n, row) ∷ m) = record row { state = flushed_state } ∷ flushed_rows m

unfoldable pub flush_all : InFlightRequestTracker → List InFlightRequest × InFlightRequestTracker
unfolding flushed_rows
flush_all t = (flushed_rows t.requests, record t { requests = []; driver_outputs = [] })

unfoldable pub contains_frame : ℕ → InFlightRequestTracker → Bool
contains_frame n t = contains n t.requests

unfoldable pub size : InFlightRequestTracker → ℕ
size t = length t.requests
