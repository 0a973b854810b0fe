-- ===== src/Session/Drain.antt =====
-- hal/camera_device_session.cpp: the loop of `on_driver_fd_ready` ends, over any driver whose backlog
-- of completions shrinks with each that is dequeued.
use minicam_hal.Common.{
  ℕ, zero, suc, ℤ, ◌≡◌, ◌≤◌, ◌<◌, refl, none, some, inl, inr, arith, Option-cases,
}
use minicam_hal.Interface.{CaptureResult}
use minicam_hal.Driver.{DriverAdapter, DriverCompletion, StreamBufferLease, OutputProcessor}
use minicam_hal.Tracker.{InFlightStreamingOutput}
use minicam_hal.Session.State.{CameraDeviceSession, dispatch_result, close_fence_fd}
use minicam_hal.Session.Complete.{
  Filled, nothing, request_filled, preview_filled, fill_from_completion, fill_resolved,
  try_fill_result_from_completion_locked, dispatch_preview, return_stream_buffer_locked,
  dequeue_locked, on_driver_buffer_complete, drain,
}

-- A number of completions that a driver holds, with the laws of a finite queue: a dequeued completion
-- leaves it, and the return of a stream buffer completes nothing at once.
pub record Backlog {D : Type 0} (A : DriverAdapter D) : Type 0 where
  pub backlog : D → ℕ
  pub dequeue_lem :
      (fd : ℤ) (d : D) (c : DriverCompletion)
      → (A.dequeue_completion fd d).0 ≡ some c
      → backlog (A.dequeue_completion fd d).1 < backlog d
  pub idle_lem :
      (fd : ℤ) (d : D) → (A.dequeue_completion fd d).0 ≡ none → (A.dequeue_completion fd d).1 ≡ d
  pub return_lem :
      (lease : StreamBufferLease) (d : D) → backlog (A.return_stream_buffer lease d).1 ≤ backlog d

-- The completions that a session's driver holds.
abbrev pub pending : {D P : Type 0} → (D → ℕ) → CameraDeviceSession D P → ℕ
pending b s = elim s.driver [ none ↦ 0 | some d ↦ b d ]

module _ {D P : Type 0} where
  dispatch-driver :
      (r : CaptureResult) (s : CameraDeviceSession D P) → (dispatch_result r s).driver ≡ s.driver
  unfolding dispatch_result
  dispatch-driver r s = ground arith

  preview-driver :
      (r : CaptureResult) (lease : StreamBufferLease) (s : CameraDeviceSession D P)
      → (dispatch_preview r lease s).1.driver ≡ s.driver
  unfolding dispatch_preview
  preview-driver r lease s = ground arith

  fill-driver :
      (O : OutputProcessor P) (now : ℕ) (c : DriverCompletion) (s : CameraDeviceSession D P)
      → (try_fill_result_from_completion_locked O now c s).1.driver ≡ s.driver
  unfolding try_fill_result_from_completion_locked fill_resolved fill_from_completion close_fence_fd
  fill-driver O now c s = ground arith

module _ {D P : Type 0} (A : DriverAdapter D) (B : Backlog A) where
  return-pending :
      (lease : StreamBufferLease) (o : InFlightStreamingOutput) (s : CameraDeviceSession D P)
      → pending B.backlog (return_stream_buffer_locked A lease o s) ≤ pending B.backlog s
  unfolding return_stream_buffer_locked
  return-pending lease o s = elim (Option-cases s.driver) [
    | inl e ↦ ground arith
    | inr (d, e) ↦ ground (arith, B.return_lem lease d)
  ]

  -- What `on_driver_buffer_complete` does with a completion that is filled.
  abbrev after : Filled → CameraDeviceSession D P → CameraDeviceSession D P
  after nothing s' = s'
  after (request_filled r) s' = dispatch_result r s'
  after (preview_filled r lease o) s' =
      return_stream_buffer_locked A (dispatch_preview r lease s').0 o
        (dispatch_preview r lease s').1

  after-pending :
      (filled : Filled) (s' : CameraDeviceSession D P)
      → pending B.backlog (after filled s') ≤ pending B.backlog s'
  after-pending nothing s' = omega arith
  after-pending (request_filled r) s' = rw (dispatch-driver r s', pending) (omega arith)
  after-pending (preview_filled r lease o) s' =
      let s'' = (dispatch_preview r lease s').1 in
      let same : pending B.backlog s'' ≡ pending B.backlog s' =
        rw (preview-driver r lease s', pending) refl in
      omega (arith, return-pending (dispatch_preview r lease s').0 o s'', same)

  complete_lem :
      (O : OutputProcessor P) (now : ℕ) (c : DriverCompletion) (s : CameraDeviceSession D P)
      → on_driver_buffer_complete A O now c s
        ≡ after
            (try_fill_result_from_completion_locked O now c s).0
            (try_fill_result_from_completion_locked O now c s).1
  unfolding on_driver_buffer_complete
  complete_lem O now c s = ground arith

  idle-locked :
      (fd : ℤ) (s : CameraDeviceSession D P)
      → (dequeue_locked A fd s).0 ≡ none
      → (dequeue_locked A fd (dequeue_locked A fd s).1).0 ≡ none
  unfolding dequeue_locked
  idle-locked fd s e = elim (Option-cases s.driver) [
    | inl f ↦ ground arith
    | inr (d, f) ↦ ground (arith, B.idle_lem fd d)
  ]

  complete-pending :
      (O : OutputProcessor P) (now : ℕ) (c : DriverCompletion) (s : CameraDeviceSession D P)
      → pending B.backlog (on_driver_buffer_complete A O now c s) ≤ pending B.backlog s
  complete-pending O now c s =
      let (filled, s') = try_fill_result_from_completion_locked O now c s in
      let same : pending B.backlog s' ≡ pending B.backlog s =
        rw (fill-driver O now c s, pending) refl in
      rw (complete_lem O now c s) (omega (arith, after-pending filled s', same))

  dequeue-pending :
      (fd : ℤ) (s : CameraDeviceSession D P) (c : DriverCompletion)
      → (dequeue_locked A fd s).0 ≡ some c
      → pending B.backlog (dequeue_locked A fd s).1 < pending B.backlog s
  unfolding dequeue_locked
  dequeue-pending fd s c e = elim (Option-cases s.driver) [
    | inl f ↦ ground arith
    | inr (d, f) ↦ ground (arith, B.dequeue_lem fd d c)
  ]

  -- The loop ends: with more fuel than the driver holds completions, it comes to a state in which
  -- nothing is left to dequeue.
  pub drain_ends :
      (O : OutputProcessor P) (fuel : ℕ) (clock : ℕ → ℕ) (fd : ℤ) (s : CameraDeviceSession D P)
      → pending B.backlog s < fuel
      → (t : CameraDeviceSession D P) × (drain A O fuel clock fd s ≡ some t)
        × ((dequeue_locked A fd t).0 ≡ none)
  unfolding drain
  drain_ends O zero clock fd s h = let never : ⊥ = omega (arith, h) in elim never [ ]
  drain_ends O (suc fuel) clock fd s h = elim (Option-cases (dequeue_locked A fd s).0) [
    | inl e ↦ ((dequeue_locked A fd s).1, rw (e, drain) refl, idle-locked fd s e)
    | inr (c, e) ↦
        let s' = on_driver_buffer_complete A O (clock fuel) c (dequeue_locked A fd s).1 in
        let less : pending B.backlog s' < fuel = omega (
          arith,
          complete-pending O (clock fuel) c (dequeue_locked A fd s).1,
          dequeue-pending fd s c e,
        ) in
        let (t, ends, idle) = drain_ends O fuel clock fd s' less in (t, rw (e, drain) ends, idle)
  ]
