-- ===== src/Tracker/Tests.antt =====
-- The tracker at a frame with two outputs, a preview buffer and their tokens.
use minicam_hal.Common.{
  true, ℕ, ℤ, ◌≡◌, refl, false, [], ◌∷◌, List, none, some, All, pos, minus_one, find, contains,
  emplace, if◌then◌else◌, keys, ◌==◌, arith,
}
use minicam_hal.Interface.{OutputBufferTarget, CaptureRequest, still, preview, rgb24}
use minicam_hal.Tracker.{
  completed_state, InFlightRequestTracker, InFlightRequest, InFlightOutput, InFlightStreamingOutput,
  DriverOutputContext, CaptureMetadata, empty_tracker, initial_row, start, complete_output,
  bind_driver_output, register_streaming_output, take_driver_output_context, output_target,
  first_target, clear_driver_outputs_for_frame, flush_all, flushed_state, contains_frame, size,
  waiting_for_more_outputs, request_complete,
}
use minicam_hal.Tracker.Invariant.{
  IsValid, Call, step, run, run-IsValid, empty-IsValid, starts, registers, binds,
}
use minicam_hal.Tracker.Completion.{
  complete_output_refines, complete_output-last, complete_each, complete_spec,
}
use minicam_hal.Tracker.Tokens.{take-take, take-bind, take-bind_streaming, take-clear}
use minicam_hal.Tracker.Flush.{flush_all_lem, frames}

abbrev target : ℤ → OutputBufferTarget
target stream = record {
  stream_id = stream;
  buffer_id = pos 5;
  buffer_fd = pos 9;
  acquire_fence_fd = minus_one;
  buffer_size = 96;
  stream_type = still;
  width = pos 8;
  height = pos 4;
  format = rgb24;
}

abbrev request : CaptureRequest
request = record {
  frame_number = 7;
  width = pos 8;
  height = pos 4;
  output_buffers = target (pos 0) ∷ target (pos 1) ∷ [];
  submitted_at = 1000;
}

abbrev output : ℕ → InFlightOutput
output i = record {
  target = target (pos i);
  output_index = pos i;
  completed = false;
  release_fence_fd = minus_one;
}

abbrev row : InFlightRequest
row = initial_row request (output 0 ∷ output 1 ∷ [])

abbrev preview_output : InFlightStreamingOutput
preview_output = record { frame_number = 3; target = target (pos 2); stream_type = preview }

abbrev context : ℕ → DriverOutputContext
context i = record { frame_number = 7; output_index = pos i }

abbrev preview_context : DriverOutputContext
preview_context = record { frame_number = 3; output_index = minus_one }

-- Frame 7 is in flight, with its outputs under the tokens 11 and 12, and the preview buffer of frame
-- 3 under token 10.
abbrev busy : InFlightRequestTracker
busy = record {
  requests = (7, row) ∷ [];
  streaming_outputs = (3, preview_output) ∷ [];
  driver_outputs = (12, context 1) ∷ (11, context 0) ∷ (10, preview_context) ∷ [];
}

abbrev calls : List Call
calls =
    registers preview_output
    ∷ binds 10 preview_context
    ∷ starts request (output 0 ∷ output 1 ∷ [])
    ∷ binds 11 (context 0)
    ∷ binds 12 (context 1)
    ∷ []

busy_lem : run calls empty_tracker ≡ busy
unfolding run step register_streaming_output bind_driver_output start contains find emplace
busy_lem = refl

abbrev meta : CaptureMetadata
meta = record { sensor_timestamp = 5000 }

run-IsValid_example : IsValid (run calls empty_tracker)
run-IsValid_example = run-IsValid calls empty-IsValid

complete_output-last_example :
    let (rs, t') = complete_each 7 meta ((pos 1, pos 21) ∷ []) busy in
    let (r, t'') = complete_output 7 (pos 0) (pos 20) meta t' in
    All (λ w. w ≡ waiting_for_more_outputs) rs
    × (r
        ≡ request_complete (record row {
          output_buffers =
              record (output 0) { completed = true; release_fence_fd = pos 20 }
              ∷ record (output 1) { completed = true; release_fence_fd = pos 21 }
              ∷ [];
          metadata = some meta;
          state = completed_state;
        }))
    × (find 7 t''.requests ≡ none)
unfolding find
complete_output-last_example =
    complete_output-last 7 meta (pos 0) (pos 20) ((pos 1, pos 21) ∷ []) busy row refl refl refl refl
      refl

complete_output_refines_example :
    let (r, t') = complete_output 7 (pos 1) (pos 21) meta busy in
    let (r', row') = complete_spec (pos 1) (pos 21) meta (find 7 busy.requests) in
    (r ≡ r')
    × ((j : ℕ) → find j t'.requests ≡ (if 7 == j then row' else find j busy.requests))
    × (t'.streaming_outputs ≡ busy.streaming_outputs)
    × (t'.driver_outputs ≡ busy.driver_outputs)
complete_output_refines_example = complete_output_refines 7 (pos 1) (pos 21) meta busy

take-take_example :
    let t' = (take_driver_output_context 11 busy).1 in take_driver_output_context 11 t' ≡ (none, t')
take-take_example = take-take 11 busy

take-bind_example :
    let t' = (bind_driver_output 13 (context 1) busy).1 in
    let (r, t'') = take_driver_output_context 13 t' in
    (r
      ≡ some (record {
        frame_number = 7;
        output_index = pos 1;
        target = target (pos 1);
        streaming_output = none;
      }))
    × (find 13 t''.driver_outputs ≡ none)
    × (t''.requests ≡ busy.requests)
unfolding find output_target first_target
take-bind_example = take-bind 13 (context 1) (target (pos 1)) busy (ground arith) refl refl refl

-- The stream buffer of another frame.
abbrev second : InFlightStreamingOutput
second = record preview_output { frame_number = 4 }

take-bind_streaming_example :
    let (registered, t1) = register_streaming_output second busy in
    let (bound, t2) =
      bind_driver_output 14 (record { frame_number = 4; output_index = minus_one }) t1 in
    let (r, t3) = take_driver_output_context 14 t2 in
    (registered ≡ true)
    × (bound ≡ true)
    × (r
        ≡ some (record {
          frame_number = 4;
          output_index = minus_one;
          target = target (pos 2);
          streaming_output = some second;
        }))
    × ((j : ℕ) → find j t3.driver_outputs ≡ find j busy.driver_outputs)
    × ((j : ℕ) → find j t3.streaming_outputs ≡ find j busy.streaming_outputs)
    × (t3.requests ≡ busy.requests)
unfolding find
take-bind_streaming_example =
    take-bind_streaming 14 minus_one second busy (ground arith) refl refl refl

-- Clearing frame 7 leaves the token of frame 3.
take-clear_example : take_driver_output_context 10 (clear_driver_outputs_for_frame 7 busy) ≡ (
  (take_driver_output_context 10 busy).0,
  clear_driver_outputs_for_frame 7 (take_driver_output_context 10 busy).1,
)
unfolding find
take-clear_example = take-clear 7 10 busy (omega arith)

flush_all_lem_example :
    let (rows, t') = flush_all (run calls empty_tracker) in
    (frames rows ≡ keys (run calls empty_tracker).requests)
    × All (λ row. row.state ≡ flushed_state) rows
    × (size t' ≡ 0)
    × ((n : ℕ) → contains_frame n t' ≡ false)
    × ((token : ℕ) → take_driver_output_context token t' ≡ (none, t'))
flush_all_lem_example = flush_all_lem (run calls empty_tracker) (run-IsValid calls empty-IsValid)
