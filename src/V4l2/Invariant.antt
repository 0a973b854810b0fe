-- ===== src/V4l2/Invariant.antt =====
-- hal/v4l2_driver_adapter.cpp: what every call of `V4L2DriverAdapter` keeps, whatever the kernel
-- answers.
use minicam_hal.Common.{◌+◌, ◌^◌, ◌<◌, List, [], ◌∷◌, arith}
use minicam_hal.Driver.Calls.{
  Call, configures, starts, stops, closes, submits, previews, dequeues, returns, needs, needs_of,
  call, calls,
}
use minicam_hal.V4l2.{Kernel, V4L2DriverAdapter}
use minicam_hal.V4l2.Stream.{v4l2_driver}
use minicam_hal.V4l2.Table.{IsValid, Kept}
use minicam_hal.V4l2.Queueing.{start_continuous-Kept, submit-Kept, return-Kept, dequeue-Kept}
use minicam_hal.V4l2.Configure.{start-Kept, stop-Kept, close-Kept, configure-Kept}

module _ {K : Type 0} (kern : Kernel K) where
  -- A call that the interface offers, on a valid adapter.
  call-Kept :
      (c : Call) (d : V4L2DriverAdapter K)
      → d.next_token + needs c < 2 ^ 64
      → IsValid d
      → Kept (needs c) d (call (v4l2_driver kern) c d)
  unfolding call
  call-Kept configures d room v = configure-Kept kern d v
  call-Kept starts d room v = start-Kept kern d v
  call-Kept stops d room v = stop-Kept kern d v
  call-Kept closes d room v = close-Kept kern d v
  call-Kept (submits o) d room v = submit-Kept kern o d room v
  call-Kept (previews stream os) d room v =
      let kept = start_continuous-Kept kern stream os d (omega (arith, room)) v in
      (kept.0, kept.1, omega (arith, kept.2))
  call-Kept (dequeues fd) d room v = dequeue-Kept kern fd d v
  call-Kept (returns lease) d room v = return-Kept kern lease d room v

  -- Whatever the kernel answers, a sequence of calls keeps the adapter valid: the slots are numbered by
  -- their places; a queued slot has a dma-buf of at least an image's size, and a token from 1 on that
  -- was given out and that no other slot has; a free slot is empty; a device that streams is open; one
  -- that does not has nothing queued; one that is not open has no slots. The token counter must have
  -- room for the tokens that the calls take.
  pub calls-IsValid :
      (cs : List Call) (d : V4L2DriverAdapter K)
      → d.next_token + needs_of cs < 2 ^ 64
      → IsValid d
      → IsValid (calls (v4l2_driver kern) cs d)
  unfolding calls
  calls-IsValid [] d room v = v
  calls-IsValid (c ∷ cs) d room v =
      let kept = call-Kept c d (omega (arith, room)) v in
      calls-IsValid cs (call (v4l2_driver kern) c d) (omega (arith, room, kept.2)) kept.0
