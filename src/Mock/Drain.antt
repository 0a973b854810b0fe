-- ===== src/Mock/Drain.antt =====
-- A session over the mock driver: what `dequeue_completion` and `return_stream_buffer` do to the
-- queue, and the end of `on_driver_fd_ready`.
use minicam_hal.Common.{ℕ, ℤ, ◌≡◌, ◌≤◌, ◌<◌, Bool, true, ◌||◌, none, some, arith, length}
use minicam_hal.Driver.{DriverCompletion, StreamBufferLease, OutputProcessor}
use minicam_hal.Mock.{
  System, MockDriverAdapter, dequeue_completion, return_stream_buffer, mock_driver,
}
use minicam_hal.Session.State.{CameraDeviceSession}
use minicam_hal.Session.Complete.{dequeue_locked, on_driver_fd_ready}
use minicam_hal.Session.Drain.{Backlog, pending, drain_ends}

abbrev pub queued : MockDriverAdapter → ℕ
queued d = length d.completions

dequeue-queued :
    (fd : ℤ) (d : MockDriverAdapter) (c : DriverCompletion)
    → (dequeue_completion fd d).0 ≡ some c
    → queued (dequeue_completion fd d).1 < queued d
unfolding dequeue_completion
dequeue-queued fd d c e = ground arith

dequeue_idle :
    (fd : ℤ) (d : MockDriverAdapter)
    → (dequeue_completion fd d).0 ≡ none
    → (dequeue_completion fd d).1 ≡ d
unfolding dequeue_completion
dequeue_idle fd d e = ground arith

return-queued :
    (lease : StreamBufferLease) (d : MockDriverAdapter)
    → queued (return_stream_buffer lease d).1 ≤ queued d
unfolding return_stream_buffer
return-queued lease d = ground arith

unfoldable mock_backlog : (sys : System) → Backlog (mock_driver sys)
mock_backlog sys = record {
  backlog = queued;
  dequeue_lem = dequeue-queued;
  idle_lem = dequeue_idle;
  return_lem = return-queued;
}

-- A wake-up of a session over the mock driver is handled to the end: on a readable, an error or a
-- hang-up event, and with more fuel than the mock's queue is long, `on_driver_fd_ready` returns, and
-- nothing is then left to dequeue.
pub fd_ready_ends :
    {P : Type 0} (sys : System) (O : OutputProcessor P) (fuel : ℕ) (clock : ℕ → ℕ) (fd : ℤ)
    (readable error hangup : Bool) (s : CameraDeviceSession MockDriverAdapter P)
    → pending queued s < fuel
    → (readable || error || hangup) ≡ true
    → (t : CameraDeviceSession MockDriverAdapter P) × (on_driver_fd_ready
          (mock_driver sys)
          O
          fuel
          clock
          fd
          readable
          error
          hangup
          s
        ≡ some t)
      × ((dequeue_locked (mock_driver sys) fd t).0 ≡ none)
unfolding on_driver_fd_ready mock_backlog
fd_ready_ends sys O fuel clock fd readable error hangup s room woken =
    let (t, ends, idle) = drain_ends (mock_driver sys) (mock_backlog sys) O fuel clock fd s room in
    (t, rw woken ends, idle)
