-- ===== src/V4l2.antt =====
-- hal/v4l2_driver_adapter.h and .cpp, as compiled on Linux: the backend for one capture node. What the
-- kernel does is a parameter over a state `K` of its own, which the system calls change.
pub mod Stream
pub mod Multi
pub mod Slots
pub mod Table
pub mod Queueing
pub mod Configure
pub mod Invariant
pub mod Taking
pub mod Accepts
pub mod Routing
pub mod Owner
pub mod Groups
mod Tests
use minicam_hal.Common.{
  ℕ, zero, suc, ℤ, ◌+◌, ◌-◌, ◌*◌, ◌%◌, ◌^◌, pos, negsuc, minus_one, is_neg, ◌==ℤ◌, Bool, true,
  false, not, ◌&&◌, ◌||◌, Option, none, some, List, [], ◌∷◌, String, if◌then◌else◌, ◌==◌, ltb,
  to_size, mul_size,
}

-- The two words of flags that VIDIOC_QUERYCAP gives: is the second one valid, and which of them say
-- video capture and streaming.
pub record Capability : Type 0 where
  pub has_device_caps : Bool
  pub captures : Bool
  pub streams : Bool
  pub device_captures : Bool
  pub device_streams : Bool

-- The answer of VIDIOC_DQBUF: nothing yet, an error, or a buffer's index, size and time stamp.
pub data Dequeued : Type 0 where
  try_again dequeue_failed : Dequeued
  dequeued : ℕ → ℕ → ℕ → Dequeued

-- `xioctl` repeats a call that a signal interrupted, and `wait_for_fence` a `poll`: these are the
-- answers after that. A fence that is negative is never waited for or closed.
pub record Kernel (K : Type 0) : Type 0 where
  pub open_device : String → K → ℤ × K
  pub query_capability : ℤ → K → Option Capability × K
  pub set_format : ℤ → ℕ → ℕ → ℕ → K → Option ℕ × K
  pub request_buffers : ℤ → ℕ → K → Option ℕ × K
  pub queue_buffer : ℤ → ℕ → ℤ → K → Bool × K
  pub dequeue_buffer : ℤ → K → Dequeued × K
  pub stream_on : ℤ → K → Bool × K
  pub stream_off : ℤ → K → K
  pub poll_fence : ℤ → K → Bool × K
  pub close_fd : ℤ → K → K
  pub strerror : K → String
  pub pix_fmt_yuyv : ℕ

-- `static_cast<__u32>` of an `int`, and back.
unfoldable pub to_u32 : ℤ → ℕ
to_u32 (pos n) = n % 2 ^ 32
to_u32 (negsuc n) = 2 ^ 32 - 1 - n % 2 ^ 32

unfoldable pub to_int : ℕ → ℤ
to_int n = if ltb (n % 2 ^ 32) (2 ^ 31) then pos (n % 2 ^ 32) else negsuc (2 ^ 32 - 1 - n % 2 ^ 32)

pub record V4L2StreamConfig : Type 0 where
  pub device_path : String
  pub width : ℤ
  pub height : ℤ
  pub pixel_format : ℕ
  pub buffer_count : ℕ

pub record V4L2QueuedRequest : Type 0 where
  pub index : ℤ
  pub token : ℕ
  pub buffer_fd : ℤ
  pub acquire_fence_fd : ℤ
  pub buffer_size : ℕ
  pub queued : Bool

-- `next_token` is the counter that `next_token()` reads: the adapter's own, or its owner's, who lends
-- it for the call. `kernel` is the state of the kernel.
pub record V4L2DriverAdapter (K : Type 0) : Type 0 where
  pub config : V4L2StreamConfig
  pub queued_requests : List V4L2QueuedRequest
  pub last_error : String
  pub fd : ℤ
  pub buffer_size : ℕ
  pub next_token : ℕ
  pub streaming : Bool
  pub device_streaming : Bool
  pub continuous_streaming : Bool
  pub kernel : K

abbrev pub new_adapter : {K : Type 0} → V4L2StreamConfig → K → V4L2DriverAdapter K
new_adapter config k = record {
  config = config;
  queued_requests = [];
  last_error = "";
  fd = minus_one;
  buffer_size = 0;
  next_token = 1;
  streaming = false;
  device_streaming = false;
  continuous_streaming = false;
  kernel = k;
}

abbrev pub set_error : {K : Type 0} → String → V4L2DriverAdapter K → V4L2DriverAdapter K
set_error e d = record d { last_error = e }

abbrev pub empty_slot : ℤ → V4L2QueuedRequest
empty_slot index = record {
  index = index;
  token = 0;
  buffer_fd = minus_one;
  acquire_fence_fd = minus_one;
  buffer_size = 0;
  queued = false;
}

unfoldable pub queued_request_for_index : ℕ → List V4L2QueuedRequest → Option V4L2QueuedRequest
queued_request_for_index index [] = none
queued_request_for_index index (q ∷ qs) =
    if q.index ==ℤ to_int index then some q else queued_request_for_index index qs

unfoldable pub free_queued_request_count : List V4L2QueuedRequest → ℕ
free_queued_request_count [] = 0
free_queued_request_count (q ∷ qs) = (if q.queued then 0 else 1) + free_queued_request_count qs

-- The slot that was bound, as the pointer shows it, and all of them.
unfoldable pub bind_free_queued_request :
    ℕ → ℤ → ℤ → ℕ → List V4L2QueuedRequest → Option V4L2QueuedRequest × List V4L2QueuedRequest
bind_free_queued_request token fd fence size [] = (none, [])
bind_free_queued_request token fd fence size (q ∷ qs) =
    let (bound, qs') = bind_free_queued_request token fd fence size qs in
    let q' : V4L2QueuedRequest = record q {
      queued = true;
      token = token;
      buffer_fd = fd;
      acquire_fence_fd = fence;
      buffer_size = size;
    } in
    if q.queued then (bound, q ∷ qs') else (some q', q' ∷ qs)

-- The first slot with the index is emptied.
unfoldable pub clear_queued_request : ℕ → List V4L2QueuedRequest → List V4L2QueuedRequest
clear_queued_request index [] = []
clear_queued_request index (q ∷ qs) =
    let qs' = clear_queued_request index qs in
    if q.index ==ℤ to_int index then empty_slot q.index ∷ qs else q ∷ qs'

unfoldable pub reset_queued_requests : List V4L2QueuedRequest → List V4L2QueuedRequest
reset_queued_requests [] = []
reset_queued_requests (q ∷ qs) = empty_slot q.index ∷ reset_queued_requests qs

-- The slots that `configure_stream` makes: `n` of them, numbered from `i` on.
unfoldable pub number_slots : ℕ → ℕ → List V4L2QueuedRequest
number_slots i zero = []
number_slots i (suc n) = empty_slot (to_int i) ∷ number_slots (i + 1) n
