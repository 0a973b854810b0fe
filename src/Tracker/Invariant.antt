-- ===== src/Tracker/Invariant.antt =====
-- The well-formedness of the three tables of `InFlightRequestTracker`, under any sequence of calls.
use minicam_hal.Common.{
  ℕ, ℤ, ◌≡◌, refl, Bool, false, true, List, [], ◌∷◌, some, inl, inr, arith, ◌==◌, is_empty, find,
  Distinct, AllEntries, Option-cases, erase-Distinct, erase_if-Distinct, assign-Distinct,
  emplace-Distinct, erase-AllEntries, erase_if-AllEntries, assign-AllEntries, find-AllEntries,
  emplace, contains, erase, assign,
}
use minicam_hal.Interface.{CaptureRequest}
use minicam_hal.Tracker.{
  InFlightRequestTracker, InFlightRequest, InFlightOutput, InFlightStreamingOutput,
  DriverOutputContext, CaptureMetadata, empty_tracker, queued_to_driver, initial_row, start,
  mark_queued_to_driver, complete, mark_loop, complete_output, register_streaming_output,
  take_streaming_output, bind_driver_output, resolve_context, take_driver_output_context,
  clear_driver_outputs_for_frame, clear_streaming_outputs, fail, flush_all,
}

-- A row stands at its own frame number and has an output.
abbrev pub RowOk : ℕ → InFlightRequest → Type 0
RowOk n row = (row.frame_number ≡ n) × (is_empty row.output_buffers ≡ false)

abbrev pub StreamingOk : ℕ → InFlightStreamingOutput → Type 0
StreamingOk n o = o.frame_number ≡ n

abbrev pub TokenOk : ℕ → DriverOutputContext → Type 0
TokenOk token c = (token == 0) ≡ false

pub record IsValid (t : InFlightRequestTracker) : Type 0 where
  pub rows_distinct : Distinct t.requests
  pub streaming_distinct : Distinct t.streaming_outputs
  pub tokens_distinct : Distinct t.driver_outputs
  pub rows_ok : AllEntries RowOk t.requests
  pub streaming_ok : AllEntries StreamingOk t.streaming_outputs
  pub tokens_ok : AllEntries TokenOk t.driver_outputs

-- The calls that change a tracker.
pub data Call : Type 0 where
  starts : CaptureRequest → List InFlightOutput → Call
  marks : ℕ → Call
  completes : ℕ → CaptureMetadata → Call
  completes_output : ℕ → ℤ → ℤ → CaptureMetadata → Call
  registers : InFlightStreamingOutput → Call
  binds : ℕ → DriverOutputContext → Call
  takes : ℕ → Call
  clears_frame : ℕ → Call
  clears_streaming : Call
  fails : ℕ → Call
  flushes : Call

unfoldable pub step : Call → InFlightRequestTracker → InFlightRequestTracker
step (starts request outputs) t = (start request outputs t).1
step (marks n) t = (mark_queued_to_driver n t).1
step (completes n m) t = (complete n m t).1
step (completes_output n i f m) t = (complete_output n i f m t).1
step (registers o) t = (register_streaming_output o t).1
step (binds token c) t = (bind_driver_output token c t).1
step (takes token) t = (take_driver_output_context token t).1
step (clears_frame n) t = clear_driver_outputs_for_frame n t
step clears_streaming t = clear_streaming_outputs t
step (fails n) t = (fail n t).1
step flushes t = (flush_all t).1

unfoldable pub run : List Call → InFlightRequestTracker → InFlightRequestTracker
run [] t = t
run (c ∷ cs) t = run cs (step c t)

mark_loop-is_empty :
    (i f : ℤ) (os : List InFlightOutput) (matched all : Bool)
    → is_empty (mark_loop i f os matched all).0 ≡ is_empty os
unfolding mark_loop
mark_loop-is_empty i f [] matched all = refl
mark_loop-is_empty i f (o ∷ os) matched all = refl

module _ {t : InFlightRequestTracker} (v : IsValid t) where
  start-IsValid :
      (request : CaptureRequest) (outputs : List InFlightOutput)
      → IsValid (start request outputs t).1
  unfolding start emplace contains
  start-IsValid request outputs = ground (
    arith,
    emplace-Distinct request.frame_number (initial_row request outputs) t.requests v.rows_distinct,
  )

  erased-IsValid : (n : ℕ) → IsValid (record t { requests = erase n t.requests })
  erased-IsValid n = record {
    rows_distinct = erase-Distinct n t.requests v.rows_distinct;
    streaming_distinct = v.streaming_distinct;
    tokens_distinct = v.tokens_distinct;
    rows_ok = erase-AllEntries RowOk n t.requests v.rows_ok;
    streaming_ok = v.streaming_ok;
    tokens_ok = v.tokens_ok;
  }

  assigned-IsValid :
      (n : ℕ) (row : InFlightRequest)
      → RowOk n row
      → IsValid (record t { requests = assign n row t.requests })
  assigned-IsValid n row ok = record {
    rows_distinct = assign-Distinct n row t.requests v.rows_distinct;
    streaming_distinct = v.streaming_distinct;
    tokens_distinct = v.tokens_distinct;
    rows_ok = assign-AllEntries RowOk n row t.requests ok v.rows_ok;
    streaming_ok = v.streaming_ok;
    tokens_ok = v.tokens_ok;
  }

  RowOk-at : (n : ℕ) (row : InFlightRequest) → find n t.requests ≡ some row → RowOk n row
  RowOk-at n row e = find-AllEntries RowOk n row t.requests v.rows_ok e

  mark-IsValid : (n : ℕ) → IsValid (mark_queued_to_driver n t).1
  unfolding mark_queued_to_driver
  mark-IsValid n = elim (Option-cases (find n t.requests)) [
    | inl e ↦ rw (e, mark_queued_to_driver) v
    | inr (row, e) ↦
        rw (e, mark_queued_to_driver)
          (ground (
            arith,
            assigned-IsValid n (record row { state = queued_to_driver }) (RowOk-at n row e),
          ))
  ]

  complete-IsValid : (n : ℕ) (m : CaptureMetadata) → IsValid (complete n m t).1
  unfolding complete
  complete-IsValid n m = ground (arith, erased-IsValid n)

  fail-IsValid : (n : ℕ) → IsValid (fail n t).1
  unfolding fail
  fail-IsValid n = ground (arith, erased-IsValid n)

  complete_output-IsValid :
      (n : ℕ) (i f : ℤ) (m : CaptureMetadata) → IsValid (complete_output n i f m t).1
  unfolding complete_output
  complete_output-IsValid n i f m = elim (Option-cases (find n t.requests)) [
    | inl e ↦ rw (e, complete_output) v
    | inr (row, e) ↦
        rw (e, complete_output)
          (ground (
            arith,
            erased-IsValid n,
            assigned-IsValid n
                (record row { output_buffers = (mark_loop i f row.output_buffers false true).0 }),
            RowOk-at n row e,
            mark_loop-is_empty i f row.output_buffers false true,
          ))
  ]

  register-IsValid : (o : InFlightStreamingOutput) → IsValid (register_streaming_output o t).1
  unfolding register_streaming_output emplace contains
  register-IsValid o =
      ground (arith, emplace-Distinct o.frame_number o t.streaming_outputs v.streaming_distinct)

  bind-IsValid : (token : ℕ) (c : DriverOutputContext) → IsValid (bind_driver_output token c t).1
  unfolding bind_driver_output emplace contains
  bind-IsValid token c = ground (arith, emplace-Distinct token c t.driver_outputs v.tokens_distinct)

  take_streaming-IsValid : (n : ℕ) → IsValid (take_streaming_output n t).1
  unfolding take_streaming_output
  take_streaming-IsValid n = ground (
    arith,
    erase-Distinct n t.streaming_outputs v.streaming_distinct,
    erase-AllEntries StreamingOk n t.streaming_outputs v.streaming_ok,
  )

  unbound-IsValid :
      (token : ℕ) → IsValid (record t { driver_outputs = erase token t.driver_outputs })
  unbound-IsValid token = record {
    rows_distinct = v.rows_distinct;
    streaming_distinct = v.streaming_distinct;
    tokens_distinct = erase-Distinct token t.driver_outputs v.tokens_distinct;
    rows_ok = v.rows_ok;
    streaming_ok = v.streaming_ok;
    tokens_ok = erase-AllEntries TokenOk token t.driver_outputs v.tokens_ok;
  }

  resolve-IsValid : (c : DriverOutputContext) → IsValid (resolve_context c t).1
  unfolding resolve_context
  resolve-IsValid c = ground (arith, take_streaming-IsValid c.frame_number)

  clear_frame-IsValid : (n : ℕ) → IsValid (clear_driver_outputs_for_frame n t)
  unfolding clear_driver_outputs_for_frame
  clear_frame-IsValid n = record {
    rows_distinct = v.rows_distinct;
    streaming_distinct = v.streaming_distinct;
    tokens_distinct = erase_if-Distinct _ t.driver_outputs v.tokens_distinct;
    rows_ok = v.rows_ok;
    streaming_ok = v.streaming_ok;
    tokens_ok = erase_if-AllEntries TokenOk _ t.driver_outputs v.tokens_ok;
  }

take-IsValid :
    (token : ℕ) (t : InFlightRequestTracker)
    → IsValid t
    → IsValid (take_driver_output_context token t).1
unfolding take_driver_output_context
take-IsValid token t v = elim (Option-cases (find token t.driver_outputs)) [
  | inl e ↦ rw (e, take_driver_output_context) v
  | inr (c, e) ↦ rw (e, take_driver_output_context) (resolve-IsValid (unbound-IsValid v token) c)
]

-- Every call keeps the three tables free of repeated keys, every row at its own frame number with
-- at least one output, every streaming output at its own frame number, and no binding at token 0.
pub step-IsValid : (c : Call) {t : InFlightRequestTracker} → IsValid t → IsValid (step c t)
unfolding step clear_streaming_outputs flush_all
step-IsValid (starts request outputs) v = start-IsValid v request outputs
step-IsValid (marks n) v = mark-IsValid v n
step-IsValid (completes n m) v = complete-IsValid v n m
step-IsValid (completes_output n i f m) v = complete_output-IsValid v n i f m
step-IsValid (registers o) v = register-IsValid v o
step-IsValid (binds token c) v = bind-IsValid v token c
step-IsValid (takes token) {t} v = take-IsValid token t v
step-IsValid (clears_frame n) v = clear_frame-IsValid v n
step-IsValid clears_streaming v = ground arith
step-IsValid (fails n) v = fail-IsValid v n
step-IsValid flushes v = ground arith

-- Any sequence of calls on a well-formed tracker leaves it well formed: no table repeats a key,
-- every row and streaming output stands at its own frame number, every row has an output, and no
-- binding stands at token 0.
pub run-IsValid : (cs : List Call) {t : InFlightRequestTracker} → IsValid t → IsValid (run cs t)
unfolding run
run-IsValid [] v = v
run-IsValid (c ∷ cs) v = run-IsValid cs (step-IsValid c v)

pub empty-IsValid : IsValid empty_tracker
empty-IsValid = ground arith
