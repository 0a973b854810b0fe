-- ===== src/Tracker/Marks.antt =====
-- hal/in_flight_request_tracker.cpp: the loop of `complete_output`, as a map over the outputs.
use minicam_hal.Common.{
  ℕ, ℤ, ◌≡◌, refl, Bool, false, true, ◌&&◌, ◌||◌, List, [], ◌∷◌, map, Option, none, some, inl, inr,
  arith, ◌==◌, ◌==ℤ◌, if◌then◌else◌, find, erase, assign, Map, Bool-cases, Option-cases,
  find-assign, find-erase,
}
use minicam_hal.Tracker.{
  InFlightRequestTracker, InFlightRequest, InFlightOutput, CaptureMetadata, OutputCompletionResult,
  not_found, waiting_for_more_outputs, request_complete, completed_state, mark_output, mark_loop,
  complete_output,
}

abbrev pub has_output : ℤ → List InFlightOutput → Bool
has_output index [] = false
has_output index (o ∷ os) = o.output_index ==ℤ index || has_output index os

abbrev pub all_completed : List InFlightOutput → Bool
all_completed [] = true
all_completed (o ∷ os) = o.completed && all_completed os

-- The loop marks every output with the index, and computes the two flags.
pub mark_loop_lem :
    (i f : ℤ) (os : List InFlightOutput) (matched all : Bool)
    → mark_loop i f os matched all ≡ (
      map (mark_output i f) os,
      matched || has_output i os,
      all && all_completed (map (mark_output i f) os),
    )
unfolding mark_loop
mark_loop_lem i f [] matched all = ground arith
mark_loop_lem i f (o ∷ os) matched all = ground (
  arith,
  mark_loop_lem i f os (if o.output_index ==ℤ i then true else matched)
      ((mark_output i f o).completed && all),
)

mark_absent :
    (i f : ℤ) (os : List InFlightOutput) → has_output i os ≡ false → map (mark_output i f) os ≡ os
mark_absent i f [] h = refl
mark_absent i f (o ∷ os) h = ground (arith, mark_absent i f os)

assign_found :
    (n : ℕ) (row : InFlightRequest) (m : Map InFlightRequest)
    → find n m ≡ some row
    → ((j : ℕ) → find j (assign n row m) ≡ find j m)
assign_found n row m h j = elim (Bool-cases (n == j)) [
  | inl e ↦ ground (arith, find-assign n j row row m)
  | inr e ↦ ground (arith, find-assign n j row row m)
]

-- The row with one output marked, as the next call finds it.
abbrev pub marked_row : ℤ → ℤ → InFlightRequest → InFlightRequest
marked_row i f row = record row { output_buffers = map (mark_output i f) row.output_buffers }

abbrev pub completed_row : CaptureMetadata → InFlightRequest → InFlightRequest
completed_row m row = record row { metadata = some m; state = completed_state }

module _ (n : ℕ) (i f : ℤ) (m : CaptureMetadata) (t : InFlightRequestTracker)
    {row : InFlightRequest} (found : find n t.requests ≡ some row) where
  complete_output_found : complete_output n i f m t ≡ (
      if has_output i row.output_buffers
      then (if all_completed (map (mark_output i f) row.output_buffers)
          then (
            request_complete (completed_row m (marked_row i f row)),
            record t { requests = erase n t.requests },
          )
          else (
            waiting_for_more_outputs,
            record t { requests = assign n (marked_row i f row) t.requests },
          ))
      else (not_found, record t { requests = assign n (marked_row i f row) t.requests }))
  unfolding complete_output
  complete_output_found =
      rw (found, complete_output) (rw (mark_loop_lem i f row.output_buffers false true) refl)

-- What a call does to the row of its frame, by the marks of its outputs.
abbrev pub mark_spec :
    ℤ
    → ℤ
    → CaptureMetadata
    → Option InFlightRequest
    → OutputCompletionResult × Option InFlightRequest
mark_spec i f m none = (not_found, none)
mark_spec i f m (some row) =
    if has_output i row.output_buffers
    then (if all_completed (marked_row i f row).output_buffers
        then (request_complete (completed_row m (marked_row i f row)), none)
        else (waiting_for_more_outputs, some (marked_row i f row)))
    else (not_found, some row)

pub complete_output-mark_spec :
    (n : ℕ) (i f : ℤ) (m : CaptureMetadata) (t : InFlightRequestTracker)
    → let (r, t') = complete_output n i f m t in
      let (r', row') = mark_spec i f m (find n t.requests) in
      (r ≡ r')
      × ((j : ℕ) → find j t'.requests ≡ (if n == j then row' else find j t.requests))
      × (t'.streaming_outputs ≡ t.streaming_outputs)
      × (t'.driver_outputs ≡ t.driver_outputs)
unfolding complete_output
complete_output-mark_spec n i f m t = elim (Option-cases (find n t.requests)) [
  | inl e ↦ rw (e, complete_output) (refl, λ j. ground arith, refl, refl)
  | inr (row, e) ↦
      rw (complete_output_found n i f m t e, e)
        (elim (Bool-cases (has_output i row.output_buffers)) [
          | inl h ↦ elim (Bool-cases (all_completed (marked_row i f row).output_buffers)) [
            | inl k ↦ rw (h, k) (refl, λ j. find-erase n j t.requests, refl, refl)
            | inr k ↦ rw (h, k) (refl, λ j. find-assign n j _ row t.requests e, refl, refl)
          ]
          | inr h ↦ rw h (
            refl,
            λ j. ground (
              arith,
              mark_absent i f row.output_buffers h,
              find-assign n j (marked_row i f row) row t.requests e,
            ),
            refl,
            refl,
          )
        ])
]
