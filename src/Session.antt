-- ===== src/Session.antt =====
-- hal/camera_device_session.h and .cpp: one camera session. A method that holds `mutex_` throughout
-- is one function on the state; what runs outside the lock is a function of its own.
pub mod State
pub mod Results
pub mod Open
pub mod Submit
pub mod Complete
pub mod Stop
pub mod Tables
pub mod Invariant
pub mod Rows
pub mod Reach
pub mod Transitions
pub mod Errors
pub mod Late
pub mod Fences
pub mod RoundTrip
pub mod Balance
pub mod Ledger
pub mod Drain
pub mod Tests
