-- ===== src/Runtime/Tests.antt =====
-- A runtime that watches one file, and an executor with two shards.
use minicam_hal.Common.{
  ℕ, ◌+◌, ◌≡◌, ◌⊎◌, refl, arith, true, false, some, none, [], ◌∷◌, pos, minus_one,
}
use minicam_hal.Runtime.Table.{lookup}
use minicam_hal.Runtime.Epoll.{EpollKernel, added, register_fd}
use minicam_hal.Runtime.Sessions.{
  CameraHalRuntime, register_fds, register_session, unregister_session,
}
use minicam_hal.Runtime.Registry.{
  Gone, register_session-callbacks, register_session-unregister_session,
}
use minicam_hal.Runtime.Executor.{new_executor, start, stop}
use minicam_hal.Runtime.Turns.{posts, runs, turns, accepted, ran_of}
use minicam_hal.Runtime.Order.{executor-order}

abbrev kernel : EpollKernel ℕ
kernel = record {
  epoll_create = λ k. (pos 3, k);
  eventfd = λ k. (pos 4, k);
  ctl_add_wake = λ e fd k. (true, k);
  ctl_add = λ e fd k. (added, k + 1);
  ctl_mod = λ e fd k. (true, k);
  ctl_del = λ e fd k. k;
  write_wake = λ fd k. k;
  drain_wake = λ fd k. k;
  close_fd = λ fd k. k;
  strerror = λ k. "error";
}

abbrev idle : CameraHalRuntime ℕ ℕ ℕ
idle = record {
  sessions = [];
  event_loop = record {
    callbacks = (pos 9, 70) ∷ [];
    running = true;
    last_error = "";
    epoll_fd = pos 3;
    wake_fd = pos 4;
    kernel = 0;
  };
  executor = 0;
  last_error = "";
}

register_session-callbacks_example :
    let (ok, r') = register_session kernel (pos 1) 50 (pos 7 ∷ minus_one ∷ []) idle in
    ((ok ≡ true)
      × (lookup (pos 1) r'.sessions ≡ some 50)
      × (false ≡ false)
      × (lookup (pos 7) r'.event_loop.callbacks ≡ some 50))
    ⊎ ((ok ≡ false)
        × (lookup (pos 1) r'.sessions ≡ none)
        × Gone (lookup (pos 7) idle.event_loop.callbacks) (lookup (pos 7) r'.event_loop.callbacks))
register_session-callbacks_example =
    register_session-callbacks kernel (pos 1) 50 (pos 7 ∷ minus_one ∷ []) idle (pos 7)

register_session-unregister_session_example :
    let r' =
      unregister_session kernel
        (pos 1)
        (pos 7 ∷ minus_one ∷ [])
        (register_session kernel (pos 1) 50 (pos 7 ∷ minus_one ∷ []) idle).1 in
    (lookup (pos 1) r'.sessions ≡ none) × (lookup (pos 7) r'.event_loop.callbacks ≡ none)
unfolding register_session register_fds register_fd
register_session-unregister_session_example =
    register_session-unregister_session kernel (pos 1) 50 (pos 7 ∷ minus_one ∷ []) idle (pos 7) refl

executor-order_example :
    let e = (start (new_executor {T = ℕ} 2 16)).1 in
    ran_of 1 (stop (turns (posts 1 10 ∷ posts 2 20 ∷ runs 1 ∷ posts 3 30 ∷ []) e))
    ≡ accepted 1 (posts 1 10 ∷ posts 2 20 ∷ runs 1 ∷ posts 3 30 ∷ []) e
executor-order_example =
    executor-order ℕ 2 16 1 (posts 1 10 ∷ posts 2 20 ∷ runs 1 ∷ posts 3 30 ∷ []) (omega arith)
