-- ===== src/Session/Ledger.antt =====
-- Every request gets exactly one result: the frames submitted, against those for which a result was
-- made and those still in flight, under any interleaving of the locked parts.
use minicam_hal.Common.{
  subst, ℕ, ℤ, ◌+◌, ◌≡◌, refl, Bool, List, [], ◌∷◌, ◌++◌, none, arith, find, count, count-append,
}
use minicam_hal.Interface.{CaptureRequest}
use minicam_hal.Driver.{DriverAdapter, DriverCompletion, StreamBufferLease, OutputProcessor}
use minicam_hal.Tracker.{InFlightStreamingOutput}
use minicam_hal.Session.State.{CameraDeviceSession, stopped, Event, emit}
use minicam_hal.Session.Open.{configure_streams, start_streaming}
use minicam_hal.Session.Submit.{submit_locked}
use minicam_hal.Session.Complete.{
  try_fill_result_from_completion_locked, return_stream_buffer_locked, dequeue_locked,
}
use minicam_hal.Session.Stop.{flush_locked, close_locked}
use minicam_hal.Session.Rows.{configure-requests, start-requests, dequeue-requests, return-requests}
use minicam_hal.Session.Invariant.{IsValid, IsQuiet}
use minicam_hal.Session.Reach.{IsNew, Step, new-IsValid, Step-IsValid}
use minicam_hal.Session.Balance.{
  owes, result_frames, filled_frames, frames_of, submit-balance, fill-balance, flush-balance,
  close-balance,
}

module _ {D P : Type 0} (A : DriverAdapter D) (O : OutputProcessor P) where
  -- `Ledger s ns fs t`: from `s` the locked parts of some calls lead to `t`; `ns` are the frames
  -- submitted, and `fs` those of the results made for requests. Each submission is of a frame that is
  -- not in flight.
  pub data Ledger (s : CameraDeviceSession D P)
      : List ℕ → List ℕ → CameraDeviceSession D P → Type 0 where
    opens : Ledger s [] [] s
    submits :
        {ns fs : List ℕ} {t : CameraDeviceSession D P} (now : ℕ) (request : CaptureRequest)
        → Ledger s ns fs t
        → find request.frame_number t.in_flight.requests ≡ none
        → Ledger s
            (request.frame_number ∷ ns)
            (result_frames (submit_locked A now request t).0 ++ fs)
            (submit_locked A now request t).1
    fills :
        {ns fs : List ℕ} {t : CameraDeviceSession D P} (now : ℕ) (c : DriverCompletion)
        → Ledger s ns fs t
        → Ledger s ns
            (filled_frames (try_fill_result_from_completion_locked O now c t).0 ++ fs)
            (try_fill_result_from_completion_locked O now c t).1
    flushes :
        {ns fs : List ℕ} {t : CameraDeviceSession D P} (clock : ℕ → ℕ)
        → Ledger s ns fs t
        → Ledger s ns (frames_of (flush_locked A clock t).0 ++ fs) (flush_locked A clock t).1
    closes :
        {ns fs : List ℕ} {t : CameraDeviceSession D P} (clock : ℕ → ℕ)
        → Ledger s ns fs t
        → Ledger s ns (frames_of (close_locked A clock t).1 ++ fs) (close_locked A clock t).2
    configures :
        {ns fs : List ℕ} {t : CameraDeviceSession D P} (register_session : List ℤ → Bool)
        → Ledger s ns fs t
        → Ledger s ns fs (configure_streams A register_session t).1
    starts :
        {ns fs : List ℕ} {t : CameraDeviceSession D P}
        → Ledger s ns fs t
        → Ledger s ns fs (start_streaming A t).1
    dequeues :
        {ns fs : List ℕ} {t : CameraDeviceSession D P} (fd : ℤ)
        → Ledger s ns fs t
        → Ledger s ns fs (dequeue_locked A fd t).1
    returns :
        {ns fs : List ℕ} {t : CameraDeviceSession D P} (lease : StreamBufferLease)
        (o : InFlightStreamingOutput)
        → Ledger s ns fs t
        → Ledger s ns fs (return_stream_buffer_locked A lease o t)
    acts :
        {ns fs : List ℕ} {t : CameraDeviceSession D P} (e : Event)
        → Ledger s ns fs t
        → Ledger s ns fs (emit e t)

  Ledger-IsValid :
      {s t : CameraDeviceSession D P} {ns fs : List ℕ} → IsValid s → Ledger s ns fs t → IsValid t
  Ledger-IsValid v opens = v
  Ledger-IsValid v (submits now request l _) =
      Step-IsValid A O (Step.submits now request) (Ledger-IsValid v l)
  Ledger-IsValid v (fills now c l) = Step-IsValid A O (Step.fills now c) (Ledger-IsValid v l)
  Ledger-IsValid v (flushes clock l) = Step-IsValid A O (Step.flushes clock) (Ledger-IsValid v l)
  Ledger-IsValid v (closes clock l) = Step-IsValid A O (Step.closes clock) (Ledger-IsValid v l)
  Ledger-IsValid v (configures r l) = Step-IsValid A O (Step.configures r) (Ledger-IsValid v l)
  Ledger-IsValid v (starts l) = Step-IsValid A O Step.starts (Ledger-IsValid v l)
  Ledger-IsValid v (dequeues fd l) = Step-IsValid A O (Step.dequeues fd) (Ledger-IsValid v l)
  Ledger-IsValid v (returns lease o l) =
      Step-IsValid A O (Step.returns lease o) (Ledger-IsValid v l)
  Ledger-IsValid v (acts e l) = Step-IsValid A O (Step.acts e) (Ledger-IsValid v l)

  balanced :
      {s t : CameraDeviceSession D P} {ns fs : List ℕ} (n : ℕ)
      → IsValid s
      → ((j : ℕ) → owes j s ≡ 0)
      → Ledger s ns fs t
      → count n ns ≡ count n fs + owes n t
  balanced n v none_yet opens = omega (arith, none_yet n)
  balanced n v none_yet (submits {ns} {fs} {t} now request l absent) = omega (
    arith,
    balanced n v none_yet l,
    submit-balance A now request t (Ledger-IsValid v l) absent n,
    count-append n (result_frames (submit_locked A now request t).0) fs,
  )
  balanced n v none_yet (fills {ns} {fs} {t} now c l) = omega (
    arith,
    balanced n v none_yet l,
    fill-balance O now c t (Ledger-IsValid v l) n,
    count-append n (filled_frames (try_fill_result_from_completion_locked O now c t).0) fs,
  )
  balanced n v none_yet (flushes {ns} {fs} {t} clock l) = omega (
    arith,
    balanced n v none_yet l,
    flush-balance A clock t (Ledger-IsValid v l) n,
    count-append n (frames_of (flush_locked A clock t).0) fs,
  )
  balanced n v none_yet (closes {ns} {fs} {t} clock l) = omega (
    arith,
    balanced n v none_yet l,
    close-balance A clock t (Ledger-IsValid v l) n,
    count-append n (frames_of (close_locked A clock t).1) fs,
  )
  balanced n v none_yet (configures {t = t} r l) =
      rw (configure-requests A r t) (balanced n v none_yet l)
  balanced n v none_yet (starts {t = t} l) =
      rw (start-requests A t (Ledger-IsValid v l)) (balanced n v none_yet l)
  balanced n v none_yet (dequeues {t = t} fd l) =
      rw (dequeue-requests A fd t) (balanced n v none_yet l)
  balanced n v none_yet (returns {t = t} lease o l) =
      rw (return-requests A lease o t) (balanced n v none_yet l)
  balanced n v none_yet (acts e l) = balanced n v none_yet l

  new-owes : (s : CameraDeviceSession D P) → IsNew s → (j : ℕ) → owes j s ≡ 0
  unfolding find
  new-owes s n j = rw n.tables refl

  -- Exactly one result: however the threads interleave on a session that was new, a frame has been
  -- submitted as often as a result was made for it, plus once more if it is still in flight. Each
  -- submission is of a frame that is not in flight at that time.
  pub one_result :
      {s t : CameraDeviceSession D P} {ns fs : List ℕ} (n : ℕ)
      → IsNew s
      → Ledger s ns fs t
      → count n ns ≡ count n fs + owes n t
  one_result {s} n new l = balanced n (new-IsValid A O s new) (new-owes s new) l

  -- No request is lost on close: however the threads interleave on a session that was new, once
  -- it is stopped every frame has been answered exactly as often as it was submitted. Each
  -- submission is of a frame that is not in flight at that time.
  pub all_answered :
      {s t : CameraDeviceSession D P} {ns fs : List ℕ} (n : ℕ)
      → IsNew s
      → Ledger s ns fs t
      → t.state ≡ stopped
      → count n ns ≡ count n fs
  unfolding find
  all_answered {s} {t} n new l e =
      let v = Ledger-IsValid (new-IsValid A O s new) l in
      let rows : t.in_flight.requests ≡ [] =
        subst (λ st. IsQuiet st t.in_flight.requests) e v.quiet in
      let nobody : owes n t ≡ 0 = rw rows refl in omega (arith, one_result n new l, nobody)
