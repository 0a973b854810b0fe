-- ===== src/Session/Reach.antt =====
-- Any interleaving of the locked parts of a session's methods, as they may run on several threads.
use minicam_hal.Common.{subst, Option-cases, inl, inr, ◌∙◌, ℕ, ℤ, ◌≡◌, refl, Bool, List, [], arith}
use minicam_hal.Interface.{CaptureRequest}
use minicam_hal.Driver.{DriverAdapter, DriverCompletion, StreamBufferLease, OutputProcessor}
use minicam_hal.Tracker.{InFlightStreamingOutput, empty_tracker}
use minicam_hal.Tracker.Invariant as Tables
use minicam_hal.Session.State.{
  CameraDeviceSession, created, stopped, Event, emit, reject_request_locked,
}
use minicam_hal.Session.Open.{configure_streams, start_streaming}
use minicam_hal.Session.Submit.{submit_locked}
use minicam_hal.Session.Complete.{
  try_fill_result_from_completion_locked, return_stream_buffer_locked, dequeue_locked,
}
use minicam_hal.Session.Stop.{flush_locked, close_locked}
use minicam_hal.Session.Invariant.{
  IsValid, IsQuiet, fill-state, submit-IsValid, configure-IsValid, start-IsValid, return-IsValid,
  dequeue-IsValid, flush-IsValid, close-IsValid, fill-IsValid,
}

-- A new session: nothing in flight, nothing done.
pub record IsNew {D P : Type 0} (s : CameraDeviceSession D P) : Type 0 where
  pub state : s.state ≡ created
  pub tables : s.in_flight ≡ empty_tracker
  pub silent : s.events ≡ []

module _ {D P : Type 0} (A : DriverAdapter D) (O : OutputProcessor P) where
  -- One locked part, with any arguments; or a callback, a fence or the runtime outside the lock.
  pub data Step (s : CameraDeviceSession D P) : CameraDeviceSession D P → Type 0 where
    configures :
        (register_session : List ℤ → Bool) → Step s (configure_streams A register_session s).1
    starts : Step s (start_streaming A s).1
    submits : (now : ℕ) (request : CaptureRequest) → Step s (submit_locked A now request s).1
    dequeues : (fd : ℤ) → Step s (dequeue_locked A fd s).1
    fills :
        (now : ℕ) (c : DriverCompletion)
        → Step s (try_fill_result_from_completion_locked O now c s).1
    returns :
        (lease : StreamBufferLease) (o : InFlightStreamingOutput)
        → Step s (return_stream_buffer_locked A lease o s)
    flushes : (clock : ℕ → ℕ) → Step s (flush_locked A clock s).1
    closes : (clock : ℕ → ℕ) → Step s (close_locked A clock s).2
    acts : (e : Event) → Step s (emit e s)

  pub data Reach (s : CameraDeviceSession D P) : CameraDeviceSession D P → Type 0 where
    here : Reach s s
    next : {t u : CameraDeviceSession D P} → Reach s t → Step t u → Reach s u

  pub Step-IsValid : {s t : CameraDeviceSession D P} → Step s t → IsValid s → IsValid t
  Step-IsValid {s} (configures r) v = configure-IsValid A r s v
  Step-IsValid {s} starts v = start-IsValid A s v
  Step-IsValid {s} (submits now request) v = submit-IsValid A now request s v
  Step-IsValid {s} (dequeues fd) v = dequeue-IsValid A fd s v
  Step-IsValid {s} (fills now c) v = fill-IsValid O now c s v
  Step-IsValid {s} (returns lease o) v = return-IsValid A lease o s v
  Step-IsValid {s} (flushes clock) v = flush-IsValid A clock s v
  Step-IsValid {s} (closes clock) v = close-IsValid A clock s v
  Step-IsValid (acts e) v = record { tables = v.tables; quiet = v.quiet }

  Reach-IsValid : {s t : CameraDeviceSession D P} → IsValid s → Reach s t → IsValid t
  Reach-IsValid v here = v
  Reach-IsValid v (next r st) = Step-IsValid st (Reach-IsValid v r)

  pub new-IsValid : (s : CameraDeviceSession D P) → IsNew s → IsValid s
  new-IsValid s n = record {
    tables = rw n.tables Tables.empty-IsValid;
    quiet = rw (n.state, n.tables) refl;
  }

  -- However the threads interleave, a session that was new has well-formed tables, and no request in
  -- flight unless it is streaming: not before the stream starts, nor after an error, a flush or a
  -- close.
  pub Reach-new-IsValid : {s t : CameraDeviceSession D P} → IsNew s → Reach s t → IsValid t
  Reach-new-IsValid {s} n r = Reach-IsValid (new-IsValid s n) r

  Step-stopped : {s t : CameraDeviceSession D P} → Step s t → s.state ≡ stopped → t.state ≡ stopped
  unfolding configure_streams start_streaming submit_locked reject_request_locked dequeue_locked
      return_stream_buffer_locked flush_locked close_locked
  Step-stopped {s} (configures r) e = elim (Option-cases s.driver) [
    | inl f ↦ ground arith
    | inr (d, f) ↦ ground arith
  ]
  Step-stopped {s} starts e = elim (Option-cases s.driver) [
    | inl f ↦ ground arith
    | inr (d, f) ↦ ground arith
  ]
  Step-stopped (submits now request) e = ground arith
  Step-stopped {s} (dequeues fd) e = elim (Option-cases s.driver) [
    | inl f ↦ ground arith
    | inr (d, f) ↦ ground arith
  ]
  Step-stopped {s} (fills now c) e = fill-state O now c s ∙ e
  Step-stopped {s} (returns lease o) e = elim (Option-cases s.driver) [
    | inl f ↦ ground arith
    | inr (d, f) ↦ ground arith
  ]
  Step-stopped (flushes clock) e = ground arith
  Step-stopped (closes clock) e = ground arith
  Step-stopped (acts ev) e = e

  Reach-stopped :
      {s t : CameraDeviceSession D P} → s.state ≡ stopped → Reach s t → t.state ≡ stopped
  Reach-stopped e here = e
  Reach-stopped e (next r st) = Step-stopped st (Reach-stopped e r)

  Reach-trans : {s t u : CameraDeviceSession D P} → Reach s t → Reach t u → Reach s u
  Reach-trans r here = r
  Reach-trans r (next q st) = next (Reach-trans r q) st

  close_locked-stopped :
      (clock : ℕ → ℕ) (s : CameraDeviceSession D P) → (close_locked A clock s).2.state ≡ stopped
  unfolding close_locked
  close_locked-stopped clock s = ground arith

  -- A closed session stays closed: after a session that was new has been closed, no interleaving of
  -- calls leaves the state Stopped or puts a request in flight.
  pub closed_for_good :
      {s t u : CameraDeviceSession D P} (clock : ℕ → ℕ)
      → IsNew s
      → Reach s t
      → Reach (close_locked A clock t).2 u
      → (u.state ≡ stopped) × (u.in_flight.requests ≡ [])
  closed_for_good {s} {t} {u} clock n r q =
      let e = Reach-stopped (close_locked-stopped clock t) q in
      let v = Reach-new-IsValid n (Reach-trans (next r (closes clock)) q) in
      (e, subst (λ st. IsQuiet st u.in_flight.requests) e v.quiet)
