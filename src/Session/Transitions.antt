-- ===== src/Session/Transitions.antt =====
-- The state machine of a session: which changes of state any locked part can make.
use minicam_hal.Common.{ℕ, ◌≡◌, refl, Bool, true, false, inl, inr, arith, Option-cases}
use minicam_hal.Interface.{CaptureRequest, StreamConfig}
use minicam_hal.Driver.{DriverAdapter, OutputProcessor}
use minicam_hal.Session.State.{
  CameraDeviceSession, CameraSessionState, created, configured, streaming, flushing, stopping,
  stopped, error,
}
use minicam_hal.Session.Open.{configure_streams, start_preview, start_streaming}
use minicam_hal.Session.Submit.{fill_failed_result_locked, submit_accepted, submit_locked}
use minicam_hal.Session.Complete.{return_stream_buffer_locked, dequeue_locked}
use minicam_hal.Session.Stop.{flush_locked, close_locked}
use minicam_hal.Session.Invariant.{fill-state}
use minicam_hal.Session.Reach.{
  Step, configures, starts, submits, dequeues, fills, returns, flushes, closes, acts,
}

-- May a call leave a session in the second state that found it in the first? Every state may stay as
-- it is, and every state may be closed.
abbrev pub may_become : CameraSessionState → CameraSessionState → Bool
may_become created created = true
may_become created configured = true
may_become created error = true
may_become configured configured = true
may_become configured streaming = true
may_become configured error = true
may_become streaming streaming = true
may_become streaming configured = true
may_become error error = true
may_become flushing flushing = true
may_become stopping stopping = true
may_become _ stopped = true
may_become _ _ = false

may_become_self : (st : CameraSessionState) → may_become st st ≡ true
may_become_self created = refl
may_become_self _ = refl

module _ {D P : Type 0} (A : DriverAdapter D) where
  start_preview-state :
      (stream : StreamConfig) (d : D) (s : CameraDeviceSession D P)
      → s.state ≡ configured
      → may_become configured (start_preview A stream d s).1.state ≡ true
  unfolding start_preview
  start_preview-state stream d s e =
      elim (Option-cases (A.start_continuous_stream stream s.continuous_preview_buffers d).0) [
        | inl f ↦ rw (f, start_preview) (ground arith)
        | inr (tokens, f) ↦ rw (f, start_preview) (ground arith)
      ]

  submit-state :
      (now : ℕ) (request : CaptureRequest) (s : CameraDeviceSession D P)
      → (submit_locked A now request s).1.state ≡ s.state
  unfolding submit_locked submit_accepted fill_failed_result_locked
  submit-state now request s = elim (Option-cases s.driver) [
    | inl e ↦ ground arith
    | inr (d, e) ↦ ground arith
  ]

module _ {D P : Type 0} (A : DriverAdapter D) (O : OutputProcessor P) where
  -- Whatever is called, and however the calls interleave, each locked part changes the state only
  -- along `may_become`: streaming is entered from Configured only and left for Configured or Stopped,
  -- and Error and Stopped are left at most for Stopped.
  pub Step-may_become :
      {s t : CameraDeviceSession D P} → Step A O s t → may_become s.state t.state ≡ true
  unfolding configure_streams start_streaming dequeue_locked return_stream_buffer_locked
      flush_locked close_locked
  Step-may_become {s} (configures r) = elim (Option-cases s.driver) [
    | inl e ↦ ground arith
    | inr (d, e) ↦ ground arith
  ]
  Step-may_become {s} starts = elim (Option-cases s.driver) [
    | inl e ↦ ground arith
    | inr (d, e) ↦ elim (Option-cases s.continuous_preview_config) [
      | inl off ↦ ground arith
      | inr (stream, on) ↦ ground (arith, start_preview-state A stream (A.start_streaming d).1 s)
    ]
  ]
  Step-may_become {s} (submits now request) =
      rw (submit-state A now request s) (may_become_self s.state)
  Step-may_become {s} (dequeues fd) = elim (Option-cases s.driver) [
    | inl e ↦ ground arith
    | inr (d, e) ↦ ground arith
  ]
  Step-may_become {s} (fills now c) = rw (fill-state O now c s) (may_become_self s.state)
  Step-may_become {s} (returns lease o) = elim (Option-cases s.driver) [
    | inl e ↦ ground arith
    | inr (d, e) ↦ ground arith
  ]
  Step-may_become (flushes clock) = ground arith
  Step-may_become (closes clock) = ground arith
  Step-may_become {s} (acts e) = may_become_self s.state
