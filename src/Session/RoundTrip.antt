-- ===== src/Session/RoundTrip.antt =====
-- From a submitted output to its completion: the token that the driver gave leads back to the frame,
-- the output index and the buffer that were submitted.
use native.Mathlib.Nat.{zero-add}
use minicam_hal.Common.{
  ap, ℕ, zero, suc, ℤ, ◌+◌, ◌≡◌, refl, sym, subst, ◌∙◌, true, false, Option, none, some, List, [],
  ◌∷◌, inl, inr, arith, pos, minus_one, find, ==_self, Option-cases, Bool-cases, contains,
  find-emplace, find-assign, get_elem?, ◌==◌,
}
use minicam_hal.Interface.{CaptureRequest, OutputBufferTarget}
use minicam_hal.Driver.{DriverAdapter}
use minicam_hal.Tracker.{
  InFlightRequestTracker, InFlightRequest, InFlightOutput, DriverOutputContext,
  ResolvedDriverOutput, initial_row, start, submitted, mark_queued_to_driver, queued_to_driver,
  bind_driver_output, first_target, output_target, take_driver_output_context,
}
use minicam_hal.Tracker.Tokens.{take-bound}
use minicam_hal.Session.State.{CameraDeviceSession, reject_request_locked}
use minicam_hal.Session.Results.{request_outputs_for, make_in_flight_outputs, number_outputs}
use minicam_hal.Session.Submit.{
  submit_outputs, submit_request_to_driver_locked, submit_accepted, submit_locked,
}
use minicam_hal.Session.Tables.{submit_outputs-tables}
use minicam_hal.Session.Invariant.{IsValid}
use minicam_hal.Tracker.Invariant as Tables

-- Output `i` of the list is the one tracked under index `k + i`.
first_target-number :
    (k i : ℕ) (os : List OutputBufferTarget)
    → first_target (pos (k + i)) (number_outputs k os) ≡ get_elem? os i
unfolding first_target number_outputs
first_target-number k i [] = refl
first_target-number k zero (o ∷ os) = ground arith
first_target-number k (suc i) (o ∷ os) =
    let shift : k + suc i ≡ k + 1 + i = omega arith in
    let apart : (k == k + suc i) ≡ false = ground arith in
    rw apart (
      subst (λ m. first_target (pos m) (number_outputs (k + 1) os) ≡ get_elem? os i) (sym shift)
        (first_target-number (k + 1) i os))

bind-keeps :
    (token j : ℕ) (c c' : DriverOutputContext) (t : InFlightRequestTracker)
    → find token t.driver_outputs ≡ some c
    → find token (bind_driver_output j c' t).1.driver_outputs ≡ some c
unfolding bind_driver_output contains
bind-keeps token j c c' t e = elim (Option-cases (find j t.driver_outputs)) [
  | inl f ↦ ground (arith, find-emplace j token c' t.driver_outputs f)
  | inr (old, f) ↦ ground arith
]

bind-found :
    (j : ℕ) (c : DriverOutputContext) (t : InFlightRequestTracker)
    → (bind_driver_output j c t).0 ≡ true
    → find j (bind_driver_output j c t).1.driver_outputs ≡ some c
unfolding bind_driver_output contains
bind-found j c t ok = elim (Option-cases (find j t.driver_outputs)) [
  | inl f ↦ ground (arith, find-emplace j j c t.driver_outputs f)
  | inr (old, f) ↦ ground arith
]

module _ {D : Type 0} (A : DriverAdapter D) where
  submit_outputs-keeps :
      (n token : ℕ) (c : DriverOutputContext) (os : List OutputBufferTarget)
      (fs : List InFlightOutput) (d : D) (t : InFlightRequestTracker)
      → find token t.driver_outputs ≡ some c
      → find token (submit_outputs A n os fs d t).2.driver_outputs ≡ some c
  unfolding submit_outputs
  submit_outputs-keeps n token c [] fs d t e = e
  submit_outputs-keeps n token c (o ∷ os) [] d t e = e
  submit_outputs-keeps n token c (o ∷ os) (f ∷ fs) d t e =
      elim (Option-cases (A.submit_capture o d).0) [
        | inl none_given ↦ rw (none_given, submit_outputs) e
        | inr (j, given) ↦
            let context : DriverOutputContext = record {
              frame_number = n;
              output_index = f.output_index;
            } in
            let kept = bind-keeps token j c context t e in
            let rest =
              submit_outputs-keeps n token c os fs (A.submit_capture o d).1
                (bind_driver_output j context t).1 kept in
            rw (given, submit_outputs) (ground (arith, kept, rest))
      ]

  -- A loop that succeeds has submitted and bound its first output, and goes on with the others.
  submit_outputs-cons :
      (n : ℕ) (o : OutputBufferTarget) (os : List OutputBufferTarget) (f : InFlightOutput)
      (fs : List InFlightOutput) (d : D) (t : InFlightRequestTracker)
      → (submit_outputs A n (o ∷ os) (f ∷ fs) d t).0 ≡ true
      → (j : ℕ) × (let bound =
            bind_driver_output j (record { frame_number = n; output_index = f.output_index }) t in
          (bound.0 ≡ true)
          × (submit_outputs A n (o ∷ os) (f ∷ fs) d t
              ≡ submit_outputs A n os fs (A.submit_capture o d).1 bound.1))
  unfolding submit_outputs
  submit_outputs-cons n o os f fs d t all = elim (Option-cases (A.submit_capture o d).0) [
    | inl e ↦
        let failed : (submit_outputs A n (o ∷ os) (f ∷ fs) d t).0 ≡ false =
          rw (e, submit_outputs) refl in
        cc
    | inr (j, e) ↦
        let bound =
          bind_driver_output j (record { frame_number = n; output_index = f.output_index }) t in
        elim (Bool-cases bound.0) [
          | inl ok ↦ (j, (ok, rw (e, submit_outputs) (rw ok refl)))
          | inr bad ↦
              let failed : (submit_outputs A n (o ∷ os) (f ∷ fs) d t).0 ≡ false =
                rw (e, submit_outputs) (rw bad refl) in
              cc
        ]
  ]

  submit_outputs-bound :
      (n k i : ℕ) (o' : OutputBufferTarget) (os : List OutputBufferTarget) (d : D)
      (t : InFlightRequestTracker)
      → (submit_outputs A n os (number_outputs k os) d t).0 ≡ true
      → get_elem? os i ≡ some o'
      → (token : ℕ) × (find token (submit_outputs A n os (number_outputs k os) d t).2.driver_outputs
          ≡ some (record { frame_number = n; output_index = pos (k + i) }))
  unfolding number_outputs
  submit_outputs-bound n k i o' [] d t all e = cc
  submit_outputs-bound n k zero o' (o ∷ os) d t all e =
      let fs = number_outputs (k + 1) os in
      let f : InFlightOutput = record {
        target = o;
        output_index = pos k;
        completed = false;
        release_fence_fd = minus_one;
      } in
      let (j, step) = submit_outputs-cons n o os f fs d t all in
      let c : DriverOutputContext = record { frame_number = n; output_index = pos k } in
      let same : k + 0 ≡ k = omega arith in
      (
        j,
        rw (step.1, same)
            (submit_outputs-keeps n j c os fs (A.submit_capture o d).1 (bind_driver_output j c t).1
              (bind-found j c t step.0)),
      )
  submit_outputs-bound n k (suc i) o' (o ∷ os) d t all e =
      let fs = number_outputs (k + 1) os in
      let f : InFlightOutput = record {
        target = o;
        output_index = pos k;
        completed = false;
        release_fence_fd = minus_one;
      } in
      let (j, step) = submit_outputs-cons n o os f fs d t all in
      let c : DriverOutputContext = record { frame_number = n; output_index = pos k } in
      let rest : (submit_outputs A n os fs (A.submit_capture o d).1 (bind_driver_output j c t).1).0
          ≡ true =
        rw step.1 at all in
      let (token, bound) =
        submit_outputs-bound n (k + 1) i o' os (A.submit_capture o d).1 (bind_driver_output j c t).1
          rest e in
      let same : k + suc i ≡ k + 1 + i = omega arith in (token, rw (step.1, same) bound)

  queued-inversion :
      (n : ℕ) (os : List OutputBufferTarget) (fs : List InFlightOutput) (d : D)
      (t : InFlightRequestTracker)
      → (submit_request_to_driver_locked A n os fs d t).0 ≡ true
      → ((submit_outputs A n os fs d t).0 ≡ true)
        × ((submit_request_to_driver_locked A n os fs d t).2
            ≡ (mark_queued_to_driver n (submit_outputs A n os fs d t).2).1)
  unfolding submit_request_to_driver_locked
  queued-inversion n os fs d t q = ground arith

mark-found :
    (n : ℕ) (t : InFlightRequestTracker) (row : InFlightRequest)
    → find n t.requests ≡ some row
    → row.state ≡ submitted
    → (find n (mark_queued_to_driver n t).1.requests
        ≡ some (record row { state = queued_to_driver }))
      × ((mark_queued_to_driver n t).1.driver_outputs ≡ t.driver_outputs)
unfolding mark_queued_to_driver
mark-found n t row e h =
    rw (e, mark_queued_to_driver)
      (ground (
        arith,
        find-assign n n (record row { state = queued_to_driver }) row t.requests e,
        ==_self n,
      ))

start-found :
    (request : CaptureRequest) (outputs : List InFlightOutput) (t : InFlightRequestTracker)
    → (start request outputs t).0 ≡ true
    → find request.frame_number (start request outputs t).1.requests
      ≡ some (initial_row request outputs)
unfolding start contains
start-found request outputs t e = elim (Option-cases (find request.frame_number t.requests)) [
  | inl absent ↦ ground (
    arith,
    find-emplace request.frame_number request.frame_number (initial_row request outputs) t.requests
        absent,
    ==_self request.frame_number,
  )
  | inr (old, there) ↦ ground arith
]

target-found :
    (n : ℕ) (i : ℤ) (t : InFlightRequestTracker) (row : InFlightRequest)
    → find n t.requests ≡ some row
    → output_target n i t ≡ first_target i row.output_buffers
unfolding output_target
target-found n i t row e = rw (e, output_target) refl

module _ {D P : Type 0} (A : DriverAdapter D) where
  accepted-inversion :
      (now : ℕ) (request : CaptureRequest) (d : D) (s : CameraDeviceSession D P)
      → (submit_accepted A now request d s).0 ≡ none
      → let outputs = request_outputs_for request in
        let tracked = make_in_flight_outputs outputs in
        let started = start request tracked s.in_flight in
        let after =
          submit_request_to_driver_locked A request.frame_number outputs tracked d started.1 in
        (started.0 ≡ true)
        × (after.0 ≡ true)
        × ((submit_accepted A now request d s).1.in_flight ≡ after.2)
  unfolding submit_accepted
  accepted-inversion now request d s e = ground arith

  locked-accepted :
      (now : ℕ) (request : CaptureRequest) (d : D) (s : CameraDeviceSession D P)
      → s.driver ≡ some d
      → (submit_locked A now request s).0 ≡ none
      → submit_locked A now request s ≡ submit_accepted A now request d s
  unfolding submit_locked reject_request_locked
  locked-accepted now request d s driver e = ground arith

  -- When a submission succeeds, in a session that is well formed and has a driver, each of its
  -- outputs has a token that leads back to it: a completion with that token resolves to the
  -- frame, to the output's index and to the buffer that was submitted.
  pub submitted_output_resolves :
      (now : ℕ) (request : CaptureRequest) (d : D) (s : CameraDeviceSession D P) (i : ℕ)
      (target : OutputBufferTarget)
      → IsValid s
      → s.driver ≡ some d
      → (submit_locked A now request s).0 ≡ none
      → get_elem? (request_outputs_for request) i ≡ some target
      → (token : ℕ) × ((take_driver_output_context token
            (submit_locked A now request s).1.in_flight).0
          ≡ some (record {
            frame_number = request.frame_number;
            output_index = pos i;
            target = target;
            streaming_output = none;
          }))
  unfolding Tables.step make_in_flight_outputs
  submitted_output_resolves now request d s i target v driver accepted e =
      let n = request.frame_number in
      let outputs = request_outputs_for request in
      let tracked = make_in_flight_outputs outputs in
      let t = (start request tracked s.in_flight).1 in
      let enter = locked-accepted now request d s driver accepted in
      let inv = accepted-inversion now request d s (rw enter at accepted) in
      let queued = queued-inversion A n outputs tracked d t inv.1 in
      let sent = (submit_outputs A n outputs tracked d t).2 in
      let tables =
        submit_outputs-tables A n outputs tracked d t
          (Tables.step-IsValid (Tables.starts request tracked) v.tables) in
      let row = initial_row request tracked in
      let there : find n sent.requests ≡ some row =
        rw tables.1 (start-found request tracked s.in_flight inv.0) in
      let marked = mark-found n sent row there refl in
      let (token, bound) = submit_outputs-bound A n 0 i target outputs d t queued.0 e in
      let after = (mark_queued_to_driver n sent).1 in
      let known : output_target n (pos i) after ≡ some target =
        target-found n (pos i) after (record row { state = queued_to_driver }) marked.0
        ∙ subst (λ m. first_target (pos m) tracked ≡ get_elem? outputs i) (zero-add i)
            (first_target-number 0 i outputs)
        ∙ e in
      let bound' : find token after.driver_outputs
          ≡ some (record { frame_number = n; output_index = pos i }) =
        rw marked.1 (
          subst
            (λ m.
              find token sent.driver_outputs
              ≡ some (record { frame_number = n; output_index = pos m }))
            (zero-add i) bound) in
      (
        token,
        rw (enter, inv.2, queued.1)
            (ap (λ (x : Option ResolvedDriverOutput × InFlightRequestTracker). x.0)
              (take-bound token (record { frame_number = n; output_index = pos i }) target after
                bound' refl known)),
      )
