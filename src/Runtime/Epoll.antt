-- ===== src/Runtime/Epoll.antt =====
-- hal/epoll_event_loop.h and .cpp, as compiled on Linux: the table of callbacks behind one epoll. The
-- system calls are a parameter over the kernel's state `K`; a callback is a value of `C`.
use Prim.Native.String.{◌++◌ as append}
use minicam_hal.Common.{
  ℤ, Bool, true, false, not, ◌||◌, none, some, List, [], ◌∷◌, String, if◌then◌else◌, minus_one,
  is_neg, ◌==ℤ◌,
}
use minicam_hal.Runtime.Table.{Table, lookup, remove, put}

pub record FdReadyEvents : Type 0 where
  pub readable : Bool
  pub writable : Bool
  pub error : Bool
  pub hangup : Bool

-- The flags of an `epoll_event` that the loop asks for.
pub record EpollEvents : Type 0 where
  pub epollin : Bool
  pub epollout : Bool
  pub epollerr : Bool
  pub epollhup : Bool

-- The answer of EPOLL_CTL_ADD.
pub data Added : Type 0 where
  added add_exists add_failed : Added

-- `epoll_wait`: interrupted, failed, or the files that are ready.
pub data Waited : Type 0 where
  interrupted wait_failed : Waited
  ready_fds : List (ℤ × EpollEvents) → Waited

pub record EpollKernel (K : Type 0) : Type 0 where
  pub epoll_create : K → ℤ × K
  pub eventfd : K → ℤ × K
  pub ctl_add_wake : ℤ → ℤ → K → Bool × K
  pub ctl_add : ℤ → ℤ → K → Added × K
  pub ctl_mod : ℤ → ℤ → K → Bool × K
  pub ctl_del : ℤ → ℤ → K → K
  pub write_wake : ℤ → K → K
  pub drain_wake : ℤ → K → K
  pub close_fd : ℤ → K → K
  pub strerror : K → String

-- `running` says that the thread runs as well: `stop` waits for it.
pub record EpollEventLoop (C K : Type 0) : Type 0 where
  pub callbacks : Table C
  pub running : Bool
  pub last_error : String
  pub epoll_fd : ℤ
  pub wake_fd : ℤ
  pub kernel : K

unfoldable pub to_fd_ready_events : EpollEvents → FdReadyEvents
to_fd_ready_events e = record {
  readable = e.epollin;
  writable = e.epollout;
  error = e.epollerr;
  hangup = e.epollhup;
}

abbrev pub new_event_loop : {C K : Type 0} → K → EpollEventLoop C K
new_event_loop k = record {
  callbacks = [];
  running = false;
  last_error = "";
  epoll_fd = minus_one;
  wake_fd = minus_one;
  kernel = k;
}

abbrev close_if_open : {K : Type 0} → EpollKernel K → ℤ → K → K
close_if_open kern fd k = if is_neg fd then k else kern.close_fd fd k

module _ {C K : Type 0} (kern : EpollKernel K) where
  abbrev failed : String → EpollEventLoop C K → EpollEventLoop C K
  failed what l = record l { last_error = append what (kern.strerror l.kernel) }

  -- The end of `start`, with both files open.
  unfoldable pub watch_wake : EpollEventLoop C K → Bool × EpollEventLoop C K
  watch_wake l =
      let (ok, k) = kern.ctl_add_wake l.epoll_fd l.wake_fd l.kernel in
      let l' : EpollEventLoop C K = record l { kernel = k } in
      if ok then (true, record l' { running = true }) else (
        false,
        record (failed "epoll_ctl wake fd failed: " l') {
          kernel = kern.close_fd l.epoll_fd (kern.close_fd l.wake_fd k);
          wake_fd = minus_one;
          epoll_fd = minus_one;
        },
      )

  unfoldable pub start : EpollEventLoop C K → Bool × EpollEventLoop C K
  start l =
      let (epoll, k) = kern.epoll_create l.kernel in
      let (wake, k') = kern.eventfd k in
      let opened : EpollEventLoop C K = record l { epoll_fd = epoll; kernel = k } in
      let woken : EpollEventLoop C K = record l { epoll_fd = epoll; wake_fd = wake; kernel = k' } in
      if l.running
      then (true, l)
      else if is_neg epoll
      then (false, failed "epoll_create1 failed: " opened)
      else if is_neg wake
      then (
        false,
        record (failed "eventfd failed: " woken) {
          kernel = kern.close_fd epoll k';
          epoll_fd = minus_one;
        },
      )
      else watch_wake woken

  unfoldable pub stop : EpollEventLoop C K → EpollEventLoop C K
  stop l =
      let k = if is_neg l.wake_fd then l.kernel else kern.write_wake l.wake_fd l.kernel in
      if l.running
      then record l {
        running = false;
        kernel = close_if_open kern l.epoll_fd (close_if_open kern l.wake_fd k);
        wake_fd = if is_neg l.wake_fd then l.wake_fd else minus_one;
        epoll_fd = if is_neg l.epoll_fd then l.epoll_fd else minus_one;
        callbacks = [];
      }
      else l

  abbrev watches : ℤ → EpollEventLoop C K → Bool
  watches fd l = not (not l.running || is_neg l.epoll_fd || is_neg fd)

  abbrev refuse_fd : ℤ → EpollEventLoop C K → Bool × EpollEventLoop C K
  refuse_fd fd l =
      let l' = failed "epoll_ctl add/mod failed: " l in
      (false, record l' { callbacks = remove fd l'.callbacks })

  -- A callback that is given is never the empty one.
  unfoldable pub register_fd : ℤ → C → EpollEventLoop C K → Bool × EpollEventLoop C K
  register_fd fd callback l =
      let (answer, k) = kern.ctl_add l.epoll_fd fd l.kernel in
      let (modified, k') = kern.ctl_mod l.epoll_fd fd k in
      let entered : EpollEventLoop C K = record l {
        callbacks = put fd callback l.callbacks;
        kernel = k;
      } in
      if watches fd l
      then (elim answer [
        | added ↦ (true, entered)
        | add_exists ↦
            if modified
            then (true, record entered { kernel = k' })
            else refuse_fd fd (record entered { kernel = k' })
        | add_failed ↦ refuse_fd fd entered
      ])
      else (false, l)

  unfoldable pub rearm_fd : ℤ → EpollEventLoop C K → Bool × EpollEventLoop C K
  rearm_fd fd l =
      let (ok, k) = kern.ctl_mod l.epoll_fd fd l.kernel in
      let l' : EpollEventLoop C K = record l { kernel = k } in
      if watches fd l
      then (if ok then (true, l') else (false, failed "epoll_ctl rearm failed: " l'))
      else (false, l)

  unfoldable pub unregister_fd : ℤ → EpollEventLoop C K → EpollEventLoop C K
  unregister_fd fd l = record l {
    kernel =
        if is_neg l.epoll_fd || is_neg fd then l.kernel else kern.ctl_del l.epoll_fd fd l.kernel;
    callbacks = remove fd l.callbacks;
  }

-- The thread's loop, in the program's state `S`: the loop stands in it, and a callback may change all
-- of it.
module _ {C K S : Type 0} (kern : EpollKernel K) (event_loop : S → EpollEventLoop C K)
    (with_loop : EpollEventLoop C K → S → S) (callback : C → ℤ → FdReadyEvents → S → S) where
  unfoldable pub dispatch : List (ℤ × EpollEvents) → S → S
  dispatch [] s = s
  dispatch ((fd, events) ∷ rest) s =
      let l = event_loop s in
      let woken = with_loop (record l { kernel = kern.drain_wake l.wake_fd l.kernel }) s in
      let called : S = elim (lookup fd l.callbacks) [
        | none ↦ s
        | some c ↦ callback c fd (to_fd_ready_events events) s
      ] in
      dispatch rest (if fd ==ℤ l.wake_fd then woken else called)

  -- The answers of `epoll_wait` are given; the loop ends with them, at a failure, or when `running` is
  -- off. The bool says whether it has ended before the answers do.
  unfoldable pub loop : List Waited → S → Bool × S
  loop [] s = (false, s)
  loop (answer ∷ answers) s =
      let l = event_loop s in
      let again = loop answers s in
      let handled = λ (fds : List (ℤ × EpollEvents)). loop answers (dispatch fds s) in
      if l.running
      then (elim answer [
        | interrupted ↦ again
        | wait_failed ↦ (true, with_loop (failed kern "epoll_wait failed: " l) s)
        | ready_fds fds ↦ handled fds
      ])
      else (true, s)
