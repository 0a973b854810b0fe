-- ===== src/Session/Fences.antt =====
-- hal/camera_device_session.cpp: the fences that pass through the output processors.
use minicam_hal.Common.{ℕ, suc, ℤ, ◌≡◌, Option, none, some, List, [], ◌∷◌, ◌++◌}
use minicam_hal.Driver.{OutputProcessRequest, OutputProcessor}
use minicam_hal.Tracker.{ResolvedDriverOutput}

-- A call of a processor: what it was asked, and the fence that it released.
pub record Handled : Type 0 where
  pub request : OutputProcessRequest
  pub released : ℤ

-- Each call takes the fence that the one before it released, for the output that was resolved; `last`
-- is the fence that the last one released.
abbrev pub IsChain : ResolvedDriverOutput → ℤ → List Handled → ℤ → Type 0
IsChain r fence [] last = last ≡ fence
IsChain r fence (h ∷ hs) last =
    (h.request.input_acquire_fence_fd ≡ fence)
    × (h.request.frame_number ≡ r.frame_number)
    × (h.request.output_index ≡ r.output_index)
    × (h.request.stream_id ≡ r.target.stream_id)
    × (h.request.buffer_id ≡ r.target.buffer_id)
    × (h.request.buffer_fd ≡ r.target.buffer_fd)
    × (h.request.buffer_size ≡ r.target.buffer_size)
    × (h.request.width ≡ r.target.width)
    × (h.request.height ≡ r.target.height)
    × IsChain r h.released hs last

module _ {P : Type 0} where
  -- The same processors, each of which also keeps the calls that it got.
  abbrev pub observe : OutputProcessor P → OutputProcessor (P × List Handled)
  observe O = record {
    process_output = λ (p, log) request.
        let (released, p') = O.process_output p request in
        (released, (p', log ++ (record { request = request; released = released } ∷ [])));
  }

  abbrev pub unasked : List (Option P) → List (Option (P × List Handled))
  unasked [] = []
  unasked (none ∷ ps) = none ∷ unasked ps
  unasked (some p ∷ ps) = some (p, []) ∷ unasked ps

  abbrev pub forget : List (Option (P × List Handled)) → List (Option P)
  forget [] = []
  forget (none ∷ ps) = none ∷ forget ps
  forget (some (p, log) ∷ ps) = some p ∷ forget ps

  -- All calls, in the order of the processors.
  abbrev pub handled : List (Option (P × List Handled)) → List Handled
  handled [] = []
  handled (none ∷ ps) = handled ps
  handled (some (p, log) ∷ ps) = log ++ handled ps

  abbrev pub present : List (Option P) → ℕ
  present [] = 0
  present (none ∷ ps) = present ps
  present (some p ∷ ps) = suc (present ps)
