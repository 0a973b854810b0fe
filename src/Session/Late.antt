-- ===== src/Session/Late.antt =====
-- hal/camera_device_session.cpp: completions that reach `on_driver_buffer_complete` after a flush or a
-- close, since the event loop had dequeued them before it.
use minicam_hal.Common.{
  ℕ, ◌+◌, ◌^◌, ◌≡◌, ◌<◌, ◌⊎◌, inl, inr, refl, ap, ◌∙◌, suc, subst, sym, true, false, none, find,
  List, [], ◌∷◌, arith, length, inc64,
}
use minicam_hal.Driver.{DriverAdapter, DriverCompletion, OutputProcessor}
use minicam_hal.Metrics.{record_failure}
use minicam_hal.Tracker.{flush_all, clear_streaming_outputs}
use minicam_hal.Tracker.Tokens.{take-unbound}
use minicam_hal.Session.State.{CameraDeviceSession, count_failure}
use minicam_hal.Session.Complete.{try_fill_result_from_completion_locked, on_driver_buffer_complete}
use minicam_hal.Session.Stop.{can_flush, is_stopped, drop_in_flight, flush_locked, close_locked}

module _ {D P : Type 0} (A : DriverAdapter D) (O : OutputProcessor P) where
  -- The completions, each with the time at which it is delivered.
  unfoldable pub deliver :
      List (ℕ × DriverCompletion) → CameraDeviceSession D P → CameraDeviceSession D P
  deliver [] s = s
  deliver ((now, c) ∷ cs) s = deliver cs (on_driver_buffer_complete A O now c s)

  -- `k` completions changed nothing but the count of failures.
  abbrev pub Ignored : ℕ → CameraDeviceSession D P → CameraDeviceSession D P → Type 0
  Ignored k s s' =
      (s'.events ≡ s.events)
      × (s'.driver ≡ s.driver)
      × (s'.output_processors ≡ s.output_processors)
      × (s'.in_flight ≡ s.in_flight)
      × (s'.state ≡ s.state)
      × (s'.metrics.completed ≡ s.metrics.completed)
      × (s'.metrics.failed ≡ s.metrics.failed + k)

  complete-unbound :
      (now : ℕ) (c : DriverCompletion) (s : CameraDeviceSession D P)
      → find c.token s.in_flight.driver_outputs ≡ none
      → on_driver_buffer_complete A O now c s ≡ count_failure s
  unfolding on_driver_buffer_complete try_fill_result_from_completion_locked
  complete-unbound now c s e = ground (arith, take-unbound c.token s.in_flight e)

  unbound :
      (token : ℕ) (s : CameraDeviceSession D P)
      → s.in_flight.driver_outputs ≡ []
      → find token s.in_flight.driver_outputs ≡ none
  unfolding find
  unbound token s e = ap (find token) e

  failed-count :
      (s : CameraDeviceSession D P)
      → s.metrics.failed + 1 < 2 ^ 64
      → (count_failure s).metrics.failed ≡ s.metrics.failed + 1
  unfolding record_failure inc64
  failed-count s room = omega arith

  completed-count :
      (s : CameraDeviceSession D P) → (count_failure s).metrics.completed ≡ s.metrics.completed
  unfolding record_failure
  completed-count s = refl

  deliver-Ignored :
      (cs : List (ℕ × DriverCompletion)) (s : CameraDeviceSession D P)
      → s.in_flight.driver_outputs ≡ []
      → s.metrics.failed + length cs < 2 ^ 64
      → Ignored (length cs) s (deliver cs s)
  unfolding deliver
  deliver-Ignored [] s e room = (refl, refl, refl, refl, refl, refl, omega arith)
  deliver-Ignored ((now, c) ∷ cs) s e room =
      let one = complete-unbound now c s (unbound c.token s e) in
      let count = failed-count s (omega (arith, room)) in
      let rest = deliver-Ignored cs (count_failure s) e (omega (arith, room, count)) in
      let counted : Ignored (suc (length cs)) s (deliver cs (count_failure s)) = (
        rest.0,
        rest.1,
        rest.2,
        rest.3,
        rest.4,
        rest.5 ∙ completed-count s,
        omega (arith, rest.6, count),
      ) in
      subst (λ x. Ignored (suc (length cs)) s (deliver cs x)) (sym one) counted

  -- The two ways in which a session drops what is in flight: a flush that is allowed, and a close of a
  -- session that is not stopped.
  abbrev pub Drops : (ℕ → ℕ) → CameraDeviceSession D P → CameraDeviceSession D P → Type 0
  Drops clock s s' =
      ((can_flush s.state ≡ true) × (s' ≡ (flush_locked A clock s).1))
      ⊎ ((is_stopped s.state ≡ false) × (s' ≡ (close_locked A clock s).2))

  dropped-unbound :
      (clock : ℕ → ℕ) (s s' : CameraDeviceSession D P)
      → Drops clock s s'
      → s'.in_flight.driver_outputs ≡ []
  unfolding flush_locked close_locked drop_in_flight flush_all clear_streaming_outputs
  dropped-unbound clock s s' (inl (can, e)) = ground (arith, can, e)
  dropped-unbound clock s s' (inr (can, e)) = ground (arith, can, e)

  -- Completions that arrive late are lost without harm: after a flush that is allowed, or a close of a
  -- session that is not stopped, any completions whatever, of requests or of preview buffers,
  -- call nothing back, run no processor, return no buffer to the driver, and leave the tables and the
  -- state alone; each counts as a failure. The counter of failures has room for them.
  pub late_completions :
      (clock : ℕ → ℕ) (cs : List (ℕ × DriverCompletion)) (s s' : CameraDeviceSession D P)
      → Drops clock s s'
      → s'.metrics.failed + length cs < 2 ^ 64
      → Ignored (length cs) s' (deliver cs s')
  late_completions clock cs s s' drops room =
      deliver-Ignored cs s' (dropped-unbound clock s s' drops) room
