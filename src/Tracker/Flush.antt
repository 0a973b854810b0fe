-- ===== src/Tracker/Flush.antt =====
-- `flush_all`: what it hands out, and what it leaves.
use minicam_hal.Common.{
  ℕ, ◌≡◌, refl, ap₂, false, List, [], ◌∷◌, none, contains, keys, Map, All, AllEntries, map,
}
use minicam_hal.Tracker.{
  InFlightRequestTracker, InFlightRequest, take_driver_output_context, flush_all, flushed_rows,
  flushed_state, contains_frame, size,
}
use minicam_hal.Tracker.Invariant.{IsValid, RowOk}

abbrev pub frames : List InFlightRequest → List ℕ
frames = map (λ row. row.frame_number)

frames-flushed_rows :
    (m : Map InFlightRequest) → AllEntries RowOk m → frames (flushed_rows m) ≡ keys m
unfolding flushed_rows
frames-flushed_rows [] h = refl
frames-flushed_rows ((n, row) ∷ m) h = ap₂ ◌∷◌ h.0.0 (frames-flushed_rows m h.1)

All-flushed_rows :
    (m : Map InFlightRequest) → All (λ row. row.state ≡ flushed_state) (flushed_rows m)
unfolding flushed_rows
All-flushed_rows [] = tt
All-flushed_rows ((n, row) ∷ m) = (refl, All-flushed_rows m)

-- A flush of a well-formed tracker hands out one row for each frame in flight, in the table's
-- order and marked flushed, and leaves no row and no token that resolves.
pub flush_all_lem :
    (t : InFlightRequestTracker)
    → IsValid t
    → let (rows, t') = flush_all t in
      (frames rows ≡ keys t.requests)
      × All (λ row. row.state ≡ flushed_state) rows
      × (size t' ≡ 0)
      × ((n : ℕ) → contains_frame n t' ≡ false)
      × ((token : ℕ) → take_driver_output_context token t' ≡ (none, t'))
unfolding flush_all size contains_frame contains take_driver_output_context
flush_all_lem t v = (
  frames-flushed_rows t.requests v.rows_ok,
  All-flushed_rows t.requests,
  refl,
  λ n. refl,
  λ token. refl,
)
