-- ===== src/Tracker/Completion.antt =====
-- `complete_output`: a request completes at its last outstanding output, and only then.
use minicam_hal.Common.{
  ℕ, ℤ, ◌≡◌, refl, Bool, false, true, ◌&&◌, ◌||◌, List, [], ◌∷◌, ◌++◌, map, ap, sym, ◌∙◌, Option,
  none, some, arith, not, ◌==◌, ◌==ℤ◌, ==ℤ_iff, ==_self, if◌then◌else◌, find, All,
}
use minicam_hal.Tracker.{
  InFlightRequestTracker, InFlightRequest, InFlightOutput, CaptureMetadata, OutputCompletionResult,
  not_found, waiting_for_more_outputs, request_complete, completed_state, mark_output,
  complete_output,
}
use minicam_hal.Tracker.Marks.{
  all_completed, complete_output-mark_spec, completed_row, has_output, mark_spec, marked_row,
}

-- An output with the index that has not been completed.
abbrev pub is_outstanding : ℤ → List InFlightOutput → Bool
is_outstanding i [] = false
is_outstanding i (o ∷ os) = (o.output_index ==ℤ i && not o.completed) || is_outstanding i os

-- Pairs of an output index and its release fence, in the order of completion.
abbrev pub mark_all : List (ℤ × ℤ) → List InFlightOutput → List InFlightOutput
mark_all [] os = os
mark_all ((i, f) ∷ rest) os = mark_all rest (map (mark_output i f) os)

abbrev pub marked_all_row : List (ℤ × ℤ) → InFlightRequest → InFlightRequest
marked_all_row fences row = record row { output_buffers = mark_all fences row.output_buffers }

abbrev pub mentions : ℤ → List (ℤ × ℤ) → Bool
mentions i [] = false
mentions i ((k, f) ∷ rest) = k ==ℤ i || mentions i rest

abbrev pub all_outputs_of : List InFlightOutput → List (ℤ × ℤ) → Bool
all_outputs_of os [] = true
all_outputs_of os ((k, f) ∷ rest) = has_output k os && all_outputs_of os rest

unfoldable pub complete_each :
    ℕ
    → CaptureMetadata
    → List (ℤ × ℤ)
    → InFlightRequestTracker
    → List OutputCompletionResult × InFlightRequestTracker
complete_each n m [] t = ([], t)
complete_each n m ((i, f) ∷ rest) t =
    let (r, t') = complete_output n i f m t in
    let (rs, t'') = complete_each n m rest t' in (r ∷ rs, t'')

not-all_completed :
    (i : ℤ) (os : List InFlightOutput) → is_outstanding i os ≡ true → all_completed os ≡ false
not-all_completed i [] h = cc
not-all_completed i (o ∷ os) h = ground (arith, not-all_completed i os)

outstanding-mark :
    (i k f : ℤ) (os : List InFlightOutput)
    → (k ==ℤ i) ≡ false
    → is_outstanding i (map (mark_output k f) os) ≡ is_outstanding i os
outstanding-mark i k f [] h = refl
outstanding-mark i k f (o ∷ os) h = ground (
  arith,
  outstanding-mark i k f os,
  ==ℤ_iff o.output_index k,
  ==ℤ_iff o.output_index i,
  ==ℤ_iff k i,
)

has_output-mark :
    (i k f : ℤ) (os : List InFlightOutput)
    → has_output i (map (mark_output k f) os) ≡ has_output i os
has_output-mark i k f [] = refl
has_output-mark i k f (o ∷ os) = ground (arith, has_output-mark i k f os)

all_outputs_of-mark :
    (k f : ℤ) (os : List InFlightOutput) (rest : List (ℤ × ℤ))
    → all_outputs_of (map (mark_output k f) os) rest ≡ all_outputs_of os rest
all_outputs_of-mark k f os [] = refl
all_outputs_of-mark k f os ((i, g) ∷ rest) =
    ground (arith, all_outputs_of-mark k f os rest, has_output-mark i k f os)

outstanding-has_output :
    (i : ℤ) (os : List InFlightOutput) → is_outstanding i os ≡ true → has_output i os ≡ true
outstanding-has_output i [] h = cc
outstanding-has_output i (o ∷ os) h = ground (arith, outstanding-has_output i os)

-- While output `i` is outstanding, completing others leaves the request waiting.
complete_each-waiting :
    (n : ℕ) (m : CaptureMetadata) (i : ℤ) (before : List (ℤ × ℤ)) (t : InFlightRequestTracker)
    (row : InFlightRequest)
    → find n t.requests ≡ some row
    → all_outputs_of row.output_buffers before ≡ true
    → mentions i before ≡ false
    → is_outstanding i row.output_buffers ≡ true
    → let (rs, t') = complete_each n m before t in
      All (λ r. r ≡ waiting_for_more_outputs) rs
      × (find n t'.requests ≡ some (marked_all_row before row))
      × (is_outstanding i (mark_all before row.output_buffers) ≡ true)
unfolding complete_each
complete_each-waiting n m i [] t row e known absent open_i = (tt, e, open_i)
complete_each-waiting n m i ((k, f) ∷ rest) t row e known absent open_i =
    let still : is_outstanding i (marked_row k f row).output_buffers ≡ true =
      ground (arith, outstanding-mark i k f row.output_buffers) in
    let step = complete_output-mark_spec n k f m t in
    let waits : mark_spec k f m (find n t.requests)
        ≡ (waiting_for_more_outputs, some (marked_row k f row)) =
      rw e (ground (arith, not-all_completed i (marked_row k f row).output_buffers still)) in
    let at_n : find n (complete_output n k f m t).1.requests ≡ some (marked_row k f row) =
      ground (arith, step.1 n, waits, ==_self n) in
    let ih =
      complete_each-waiting n m i rest (complete_output n k f m t).1 (marked_row k f row) at_n
        (ground (arith, all_outputs_of-mark k f row.output_buffers rest)) (ground arith) still in
    ((ground (arith, step.0, waits), ih.0), ih.1, ih.2)

-- The fence that the last of these completions of an output brings, `fence` if there is none.
abbrev pub fence_of : ℤ → List (ℤ × ℤ) → ℤ → ℤ
fence_of i [] fence = fence
fence_of i ((k, f) ∷ rest) fence = fence_of i rest (if k ==ℤ i then f else fence)

-- An output after these completions.
abbrev pub answered : List (ℤ × ℤ) → InFlightOutput → InFlightOutput
answered fences o = record {
  target = o.target;
  output_index = o.output_index;
  completed = o.completed || mentions o.output_index fences;
  release_fence_fd = fence_of o.output_index fences o.release_fence_fd;
}

answered-mark :
    (i f : ℤ) (rest : List (ℤ × ℤ)) (o : InFlightOutput)
    → answered rest (mark_output i f o) ≡ answered ((i, f) ∷ rest) o
answered-mark i f rest o = ground (arith, ==ℤ_iff o.output_index i, ==ℤ_iff i o.output_index)

answered-map_mark :
    (i f : ℤ) (rest : List (ℤ × ℤ)) (os : List InFlightOutput)
    → map (answered rest) (map (mark_output i f) os) ≡ map (answered ((i, f) ∷ rest)) os
answered-map_mark i f rest [] = refl
answered-map_mark i f rest (o ∷ os) =
    rw (answered-mark i f rest o, answered-map_mark i f rest os) refl

answered_none : (os : List InFlightOutput) → os ≡ map (answered []) os
answered_none [] = refl
answered_none (o ∷ os) = ground (arith, answered_none os)

mark_all-answered :
    (fences : List (ℤ × ℤ)) (os : List InFlightOutput)
    → mark_all fences os ≡ map (answered fences) os
mark_all-answered [] os = answered_none os
mark_all-answered ((i, f) ∷ rest) os =
    mark_all-answered rest (map (mark_output i f) os) ∙ answered-map_mark i f rest os

mark_all-append :
    (i f : ℤ) (before : List (ℤ × ℤ)) (os : List InFlightOutput)
    → mark_all (before ++ ((i, f) ∷ [])) os ≡ map (mark_output i f) (mark_all before os)
mark_all-append i f [] os = refl
mark_all-append i f ((k, g) ∷ rest) os = mark_all-append i f rest (map (mark_output k g) os)

-- What a call does to the row of its frame, without the loop, its marks and the table.
abbrev pub complete_spec :
    ℤ
    → ℤ
    → CaptureMetadata
    → Option InFlightRequest
    → OutputCompletionResult × Option InFlightRequest
complete_spec i f m none = (not_found, none)
complete_spec i f m (some row) =
    let row' : InFlightRequest = record row {
      output_buffers = map (answered ((i, f) ∷ [])) row.output_buffers;
    } in
    if has_output i row.output_buffers
    then (if all_completed row'.output_buffers
        then (request_complete (completed_row m row'), none)
        else (waiting_for_more_outputs, some row'))
    else (not_found, some row)

mark_spec-complete_spec :
    (i f : ℤ) (m : CaptureMetadata) (row : Option InFlightRequest)
    → mark_spec i f m row ≡ complete_spec i f m row
mark_spec-complete_spec i f m none = refl
mark_spec-complete_spec i f m (some row) =
    rw (mark_all-answered ((i, f) ∷ []) row.output_buffers) refl

-- A call follows `complete_spec` on the row of its frame, absent or present; every other row, the
-- streaming outputs and the token bindings stay.
pub complete_output_refines :
    (n : ℕ) (i f : ℤ) (m : CaptureMetadata) (t : InFlightRequestTracker)
    → let (r, t') = complete_output n i f m t in
      let (r', row') = complete_spec i f m (find n t.requests) in
      (r ≡ r')
      × ((j : ℕ) → find j t'.requests ≡ (if n == j then row' else find j t.requests))
      × (t'.streaming_outputs ≡ t.streaming_outputs)
      × (t'.driver_outputs ≡ t.driver_outputs)
complete_output_refines n i f m t =
    let step = complete_output-mark_spec n i f m t in
    let same = mark_spec-complete_spec i f m (find n t.requests) in
    (
      step.0 ∙ ap (λ x. x.0) same,
      λ j. step.1 j ∙ ap (λ x. if n == j then x.1 else find j t.requests) same,
      step.2,
      step.3,
    )

-- A request completes at its last outstanding output: for a request in flight, completing any
-- other of its outputs, in any order, reports waiting each time; then the call for the last one,
-- if each output is completed already or among these completions, hands out the request: every output
-- is completed, carries the fence that the last of its completions brought, or the one it had if it
-- has none, and keeps its index and its buffer; and the row is gone.
pub complete_output-last :
    (n : ℕ) (m : CaptureMetadata) (i f : ℤ) (before : List (ℤ × ℤ)) (t : InFlightRequestTracker)
    (row : InFlightRequest)
    → find n t.requests ≡ some row
    → all_outputs_of row.output_buffers before ≡ true
    → mentions i before ≡ false
    → is_outstanding i row.output_buffers ≡ true
    → all_completed (map (answered (before ++ ((i, f) ∷ []))) row.output_buffers) ≡ true
    → let (rs, t') = complete_each n m before t in
      let (r, t'') = complete_output n i f m t' in
      All (λ w. w ≡ waiting_for_more_outputs) rs
      × (r
          ≡ request_complete (record row {
            output_buffers = map (answered (before ++ ((i, f) ∷ []))) row.output_buffers;
            metadata = some m;
            state = completed_state;
          }))
      × (find n t''.requests ≡ none)
complete_output-last n m i f before t row e known absent open_i done =
    let (waited, at_n, still) = complete_each-waiting n m i before t row e known absent open_i in
    let step = complete_output-mark_spec n i f m (complete_each n m before t).1 in
    let has = outstanding-has_output i (mark_all before row.output_buffers) still in
    let outputs =
      sym (mark_all-append i f before row.output_buffers)
      ∙ mark_all-answered (before ++ ((i, f) ∷ [])) row.output_buffers in
    let all_done = ap all_completed outputs ∙ done in
    (
      waited,
      ground (arith, step.0, at_n, has, all_done, outputs),
      ground (arith, step.1 n, ==_self n, at_n, has, all_done),
    )
