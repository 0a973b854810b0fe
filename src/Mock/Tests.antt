-- ===== src/Mock/Tests.antt =====
-- The mock driver with one completion in its queue, and a session over it.
use minicam_hal.Common.{ℕ, ◌≡◌, refl, true, false, [], ◌∷◌, some, none, pos, arith, inc64}
use minicam_hal.Mock.{MockDriverAdapter, push_each, push_completion}
use minicam_hal.Mock.Tokens.{IsValid, step, step-IsValid, push_each-tokens, tokens_of, upto}
use minicam_hal.Driver.Calls.{submits}
use minicam_hal.Mock.Drain.{fd_ready_ends}
use minicam_hal.Session.State.{CameraDeviceSession, CameraSessionState}
use minicam_hal.Session.Complete.{dequeue_locked, on_driver_fd_ready}
use minicam_hal.Session.Tests.{system, mock, counting, target, fresh, live_mock}

step-IsValid_example : IsValid (step system (submits target) live_mock)
step-IsValid_example =
    step-IsValid system (submits target) live_mock (omega arith) (omega arith, omega arith)

push_each-tokens_example :
    (2 ∷ 3 ∷ [] ≡ upto 2 2)
    × (tokens_of (push_each system (target ∷ target ∷ []) live_mock).1.completions ≡ 1 ∷ 2 ∷ 3 ∷ [])
unfolding push_each push_completion inc64
push_each-tokens_example =
    push_each-tokens system (target ∷ target ∷ []) live_mock (2 ∷ 3 ∷ []) (omega arith) refl

abbrev watched : CameraDeviceSession MockDriverAdapter ℕ
watched = record fresh { state = CameraSessionState.streaming; driver = some live_mock }

fd_ready_ends_example :
    (t : CameraDeviceSession MockDriverAdapter ℕ) × (on_driver_fd_ready mock counting 2
        (λ n. 5000)
        (pos 3)
        true
        false
        false
        watched
      ≡ some t)
    × ((dequeue_locked mock (pos 3) t).0 ≡ none)
fd_ready_ends_example =
    fd_ready_ends system counting 2 (λ n. 5000) (pos 3) true false false watched (omega arith) refl
