-- ===== src/Runtime.antt =====
-- hal/camera_hal_runtime.h and .cpp, hal/epoll_event_loop.h and .cpp, hal/task_executor.h and .cpp: what
-- the sessions of a process share.
pub mod Table
pub mod Epoll
pub mod Sessions
pub mod Registry
pub mod Executor
pub mod Shards
pub mod Turns
pub mod Order
mod Tests
