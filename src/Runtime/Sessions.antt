-- ===== src/Runtime/Sessions.antt =====
-- hal/camera_hal_runtime.h and .cpp: the registry of sessions over the event loop and the executor.
use minicam_hal.Common.{
  ℕ, ℤ, Bool, true, false, Option, none, some, List, [], ◌∷◌, ◌++◌, String, if◌then◌else◌, is_neg,
  to_size, is_empty,
}
use minicam_hal.Runtime.Table.{Table, remove, put}
use minicam_hal.Runtime.Epoll
use minicam_hal.Runtime.Executor as Tasks
use minicam_hal.Runtime.Executor.{TaskExecutor}
use minicam_hal.Runtime.Epoll.{FdReadyEvents, EpollKernel, EpollEventLoop}

-- The task that a ready file posts: the closure of the session's weak pointer, the file and the events.
pub record ReadyTask (W : Type 0) : Type 0 where
  pub session : W
  pub fd : ℤ
  pub events : FdReadyEvents

-- What the runtime uses of its executor, over a task type.
pub record Executor (T E : Type 0) : Type 0 where
  pub start : E → Bool × E
  pub stop : E → E
  pub post : ℕ → T → E → Bool × E

-- The program's: a task that is posted is never the empty one.
abbrev pub task_executor : {T : Type 0} → Executor T (TaskExecutor T)
task_executor = record {
  start = Tasks.start;
  stop = Tasks.stop;
  post = λ key task. Tasks.post key (some task);
}

-- The sessions of the program, `A`, behind weak pointers: `lock` finds the id of one that is alive.
pub record Sessions (W A : Type 0) : Type 0 where
  pub lock : W → A → Option ℤ
  pub on_driver_fd_ready : W → ℤ → FdReadyEvents → A → A

-- The callback that is registered for a file is a closure of the session's weak pointer.
pub record CameraHalRuntime (W E K : Type 0) : Type 0 where
  pub sessions : Table W
  pub event_loop : EpollEventLoop W K
  pub executor : E
  pub last_error : String

module _ {W E K T : Type 0} (kern : EpollKernel K) (exec : Executor T E) where
  unfoldable pub start : CameraHalRuntime W E K → Bool × CameraHalRuntime W E K
  start r =
      let (executing, e) = exec.start r.executor in
      let (looping, l) = Epoll.start kern r.event_loop in
      if executing
      then (if looping then (true, record r { executor = e; event_loop = l }) else (
        false,
        record r { executor = exec.stop e; event_loop = l; last_error = l.last_error },
      ))
      else (false, record r { executor = e; last_error = "failed to start TaskExecutor" })

  unfoldable pub stop : CameraHalRuntime W E K → CameraHalRuntime W E K
  stop r = record r { event_loop = Epoll.stop kern r.event_loop; executor = exec.stop r.executor }

module _ {W E K T : Type 0} (exec : Executor T E) where
  unfoldable pub post_session_task : ℤ → T → CameraHalRuntime W E K → Bool × CameraHalRuntime W E K
  post_session_task session_id task r =
      let (posted, e) = exec.post (to_size session_id) task r.executor in
      (posted, record r { executor = e })

module _ {W K : Type 0} (kern : EpollKernel K) where
  unfoldable pub unregister_fds : List ℤ → EpollEventLoop W K → EpollEventLoop W K
  unregister_fds [] l = l
  unregister_fds (fd ∷ fds) l = unregister_fds fds (Epoll.unregister_fd kern fd l)

  -- The loop of `register_session`, with the files that are registered so far: nothing if one of them
  -- is refused, and those are taken back then.
  unfoldable pub register_fds :
      W → List ℤ → List ℤ → EpollEventLoop W K → Option (List ℤ) × EpollEventLoop W K
  register_fds w registered [] l = (some registered, l)
  register_fds w registered (fd ∷ fds) l =
      let (ok, l') = Epoll.register_fd kern fd w l in
      let skipped = register_fds w registered fds l in
      let further = register_fds w (registered ++ (fd ∷ [])) fds l' in
      if is_neg fd then skipped else if ok then further else (none, unregister_fds registered l')

  -- The loop of `unregister_session`, which passes over what is no file.
  unfoldable pub unregister_each : List ℤ → EpollEventLoop W K → EpollEventLoop W K
  unregister_each [] l = l
  unregister_each (fd ∷ fds) l =
      unregister_each fds (if is_neg fd then l else Epoll.unregister_fd kern fd l)

module _ {W E K : Type 0} (kern : EpollKernel K) where
  unfoldable pub register_session :
      ℤ → W → List ℤ → CameraHalRuntime W E K → Bool × CameraHalRuntime W E K
  register_session session_id w driver_fds r =
      let (registered, l) = register_fds kern w [] driver_fds r.event_loop in
      let sessions = put session_id w r.sessions in
      let dropped = remove session_id sessions in
      elim registered [
        | none ↦ (false, record r { event_loop = l; sessions = dropped; last_error = l.last_error })
        | some fds ↦
            if is_empty fds
            then (
              false,
              record r {
                event_loop = l;
                sessions = dropped;
                last_error = "driver exposed no event fd";
              },
            )
            else (true, record r { event_loop = l; sessions = sessions })
      ]

  unfoldable pub unregister_session : ℤ → List ℤ → CameraHalRuntime W E K → CameraHalRuntime W E K
  unregister_session session_id driver_fds r = record r {
    event_loop = unregister_each kern driver_fds r.event_loop;
    sessions = remove session_id r.sessions;
  }

-- A file that is ready: its session, if it is alive, is handed a task, which runs the session and arms
-- the file again.
module _ {W A E K : Type 0} (kern : EpollKernel K) (exec : Executor (ReadyTask W) E)
    (world : Sessions W A) where
  unfoldable pub on_driver_fd_ready :
      W → ℤ → FdReadyEvents → A × CameraHalRuntime W E K → A × CameraHalRuntime W E K
  unfolding post_session_task
  on_driver_fd_ready w fd events (a, r) = elim (world.lock w a) [
    | none ↦ (a, r)
    | some session_id ↦
        let (posted, r') =
          post_session_task exec session_id (record { session = w; fd = fd; events = events }) r in
        (
          a,
          if posted then r' else record r' { last_error = "failed to post driver readiness task" },
        )
  ]

  unfoldable pub run_task : ReadyTask W → A × CameraHalRuntime W E K → A × CameraHalRuntime W E K
  run_task task (a, r) = elim (world.lock task.session a) [
    | none ↦ (a, r)
    | some session_id ↦ (
      world.on_driver_fd_ready task.session task.fd task.events a,
      record r { event_loop = (Epoll.rearm_fd kern task.fd r.event_loop).1 },
    )
  ]
