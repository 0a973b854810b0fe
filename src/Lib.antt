-- ===== src/Lib.antt =====
-- MiniCam HAL: a camera hardware abstraction layer. A framework submits capture requests to a camera
-- session; the session routes their outputs to a driver, resolves the driver's completions back to
-- requests and preview buffers, and calls back with results.
--
-- The parts, and the files that model them:
--   Interface       interface/capture_request.h, interface/capture_result.h
--   Driver          hal/driver_adapter.h, hal/output_processor.h: the interfaces of a backend and of an
--                   output processor, records of operations that every session takes as a parameter
--   Tracker         hal/in_flight_request_tracker.*: which frame, output and stream buffer each driver
--                   token stands for. Tracker/Invariant, Marks, Completion, Tokens and Flush hold the
--                   proofs
--   Metrics         hal/frame_metrics.*, hal/latency_tracker.*
--   Session         hal/camera_device_session.*: State (the object), Results (the helpers of the
--                   anonymous namespace), Open (configure_streams, start_streaming,
--                   process_capture_request), Submit (submit_capture_request), Complete
--                   (on_driver_fd_ready, on_driver_buffer_complete), Stop (flush, close). The other
--                   children hold proofs: Tables, Invariant, Rows, Reach, Transitions, Balance, Ledger,
--                   RoundTrip, Errors, Late, Fences, Drain
--   Mock            hal/mock_driver_adapter.*: a driver, with its tokens (Mock/Tokens) and the end of
--                   the event loop over it (Mock/Drain)
--   V4l2            hal/v4l2_driver_adapter.*: V4l2.antt has the table of slots, Stream the methods of
--                   V4L2DriverAdapter, Multi those of V4L2MultiStreamDriverAdapter. The other children
--                   hold proofs: Slots and Table (the table), Queueing and Configure (what each call
--                   keeps), Invariant, Taking, Accepts, Groups, Routing, Owner
--   Dma             hal/dma_buf_allocator.*: the pool of DMA buffers and its leases; Dma/Books and
--                   Dma/Pool keep the books, Dma/Leases says what a lease gives back
--   Queue           hal/bounded_task_queue.*: the ring of an executor's shard, one atomic access a step.
--                   Queue/Invariant says what is in order, Steps, Publish and Order prove each step,
--                   Contract what follows for the queue, Serial a call that nothing interrupts
--   Runtime         hal/epoll_event_loop.* (Epoll), hal/camera_hal_runtime.* (Sessions) and
--                   hal/task_executor.* (Executor). Registry holds the proofs on the table of callbacks,
--                   Shards, Turns and Order those on what a shard runs
--   App             app/: Buffers (buffer_tracker.*), Jpeg (jpeg_codec.*), Encoder
--                   (jpeg_encoder_processor.*), Writer (fence_aware_result_writer.*) and Cli
--                   (minicam_cli.cpp); Pixels holds the proofs on the colours,
--                   Written those on a frame's way to its file
--   Common          lists, maps, numbers and tests that the parts share
--
-- State and steps. An object is a record; a method takes it last and returns it with its result. The
-- part of a session's method under `mutex_` is one function, and `Step` in Session/Reach is one of
-- those parts, so that a chain of steps is any interleaving of several threads. Callbacks and other
-- effects outside the session are a list of events. `std::unordered_map` is a list of pairs with
-- distinct keys; its order stands for the unspecified order of iteration. `size_t` and `uint64_t` are
-- natural numbers, with `% 2 ^ 64` where the code increments one; `int` is an integer without bound,
-- since an overflow of one is undefined in the source. A clock reading is an argument of the
-- function that reads the clock.
--
-- Fuel: the loop of `on_driver_fd_ready` runs on fuel, one unit for each completion that it dequeues;
-- a fuel above the length of the driver's queue is enough. The loop of `append_yuyv_as_rgb` has a round
-- of fuel for each byte of the picture, and goes on by four bytes a round.
--
-- The ring of the queue is a function of the slot; its steps interleave in any order, but each access
-- is seen at once by every thread: the memory orders of the atomics are not modelled. Its positions
-- are those of `uint64_t`, and the theorems on it ask that the steps and the capacity stay below 2^64.
--
-- The code is modelled as it is compiled on Linux. What the kernel answers (open, ioctl, poll, epoll,
-- pipe, close) is a parameter: a record of functions over a state of the kernel's own, so that a theorem
-- holds for whatever it answers. An adapter of V4L2MultiStreamDriverAdapter draws its tokens from its
-- owner's counter: the owner lends counter and kernel to the adapter it calls, and takes them back.
--
-- The executor's shards are seen a whole call of the queue at a time; a stopped worker runs what is in its
-- queue, at most as many tasks as the queue's capacity, which is the number of rounds it is given.
-- A `push` that nothing interrupts makes seven accesses.
--
-- Not modelled: the parking of the queue's consumer on its condition variable, the main function of the
-- command line program with its terminal and signals, and the lengths of waits. Files, the JPEG library
-- and the bytes of mapped memory are parameters. The session's calls of the runtime are arguments of its
-- functions, and the runtime's calls of a session are a parameter of it. Of the DMA buffers, the
-- allocation by the kernel is a parameter, and the mapping and moving of single buffers is left out.
pub mod Common
pub mod Interface
pub mod Driver
pub mod Tracker
pub mod Metrics
pub mod Session
pub mod Mock
pub mod V4l2
pub mod Dma
pub mod Queue
pub mod Runtime
pub mod App
