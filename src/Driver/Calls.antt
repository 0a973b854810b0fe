-- ===== src/Driver/Calls.antt =====
-- hal/driver_adapter.h: the calls that change a backend, as data, for the statements on a sequence of
-- them.
use minicam_hal.Common.{ℕ, ℤ, ◌+◌, List, [], ◌∷◌, length}
use minicam_hal.Interface.{OutputBufferTarget, StreamConfig}
use minicam_hal.Driver.{DriverAdapter, StreamBufferLease}

pub data Call : Type 0 where
  configures starts stops closes : Call
  submits : OutputBufferTarget → Call
  previews : StreamConfig → List OutputBufferTarget → Call
  dequeues : ℤ → Call
  returns : StreamBufferLease → Call

-- How many tokens a call may take.
abbrev pub needs : Call → ℕ
needs (previews stream os) = length os + 1
needs (submits o) = 1
needs (returns lease) = 1
needs _ = 0

abbrev pub needs_of : List Call → ℕ
needs_of [] = 0
needs_of (c ∷ cs) = needs c + needs_of cs

module _ {D : Type 0} (driver : DriverAdapter D) where
  unfoldable pub call : Call → D → D
  call configures d = (driver.configure_stream d).1
  call starts d = (driver.start_streaming d).1
  call stops d = driver.stop_streaming d
  call closes d = driver.close d
  call (submits o) d = (driver.submit_capture o d).1
  call (previews stream os) d = (driver.start_continuous_stream stream os d).1
  call (dequeues fd) d = (driver.dequeue_completion fd d).1
  call (returns lease) d = (driver.return_stream_buffer lease d).1

  unfoldable pub calls : List Call → D → D
  calls [] d = d
  calls (c ∷ cs) d = calls cs (call c d)
