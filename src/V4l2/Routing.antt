-- ===== src/V4l2/Routing.antt =====
-- hal/v4l2_driver_adapter.cpp: `V4L2MultiStreamDriverAdapter` sends a call to the endpoint of its type,
-- and a file descriptor to the endpoint that owns it.
use minicam_hal.Common.{
  ℕ, ℤ, ◌≡◌, refl, ap, sym, subst, ◌∙◌, true, false, Option, some, List, [], ◌∷◌, inl, inr, arith,
  if◌then◌else◌, Option-cases, All, ◌==ℤ◌, ==ℤ_self, inc64,
}
use minicam_hal.Interface.{OutputBufferTarget, StreamType, preview, still, video}
use minicam_hal.Driver.{DriverCompletion}
use minicam_hal.V4l2.{Kernel, V4L2DriverAdapter, dequeued}
use minicam_hal.V4l2.Stream
use minicam_hal.V4l2.Stream.{take_dequeued}
use minicam_hal.V4l2.Multi.{
  ◌==type◌, Endpoint, V4L2MultiStreamDriverAdapter, lend, endpoint_for, endpoint_for_fd, assign_for,
  assign_for_fd, call_for, submit_capture, dequeue_completion,
}
use minicam_hal.V4l2.Slots.{first_free}
use minicam_hal.V4l2.Table.{IsValid}
use minicam_hal.V4l2.Taking.{queue_capture-some}
use minicam_hal.V4l2.Accepts.{submit-dequeue}

-- The file is that of no endpoint but those of a stream type.
abbrev pub Owns : {K : Type 0} → ℤ → StreamType → List (Endpoint K) → Type 0
Owns fd t = All (λ e. (e.adapter.fd ==ℤ fd) ≡ true → (e.stream_type ==type t) ≡ true)

==type_self : (t : StreamType) → (t ==type t) ≡ true
==type_self preview = refl
==type_self still = refl
==type_self video = refl

module _ {K : Type 0} where
  endpoint-assign :
      (t s : StreamType) (a a' : V4L2DriverAdapter K) (es : List (Endpoint K))
      → endpoint_for t es ≡ some a
      → endpoint_for s (assign_for t a' es) ≡ (if t ==type s then some a' else endpoint_for s es)
  unfolding endpoint_for assign_for
  endpoint-assign t s a a' [] h = cc
  endpoint-assign t s a a' (e ∷ es) h = ground (arith, endpoint-assign t s a a' es)

  -- The endpoint that was written is the one that owns its file.
  endpoint_fd-assign :
      (t : StreamType) (fd : ℤ) (a a' : V4L2DriverAdapter K) (es : List (Endpoint K))
      → endpoint_for t es ≡ some a
      → Owns fd t es
      → (a'.fd ==ℤ fd) ≡ true
      → endpoint_for_fd fd (assign_for t a' es) ≡ some a'
  unfolding endpoint_for endpoint_for_fd assign_for
  endpoint_fd-assign t fd a a' [] h own same = cc
  endpoint_fd-assign t fd a a' (e ∷ es) h own same =
      ground (arith, own.0, endpoint_fd-assign t fd a a' es)

  assign_fd-assign :
      (t : StreamType) (fd : ℤ) (a a' a'' : V4L2DriverAdapter K) (es : List (Endpoint K))
      → endpoint_for t es ≡ some a
      → Owns fd t es
      → (a'.fd ==ℤ fd) ≡ true
      → assign_for_fd fd a'' (assign_for t a' es) ≡ assign_for t a'' es
  unfolding endpoint_for assign_for assign_for_fd
  assign_fd-assign t fd a a' a'' [] h own same = cc
  assign_fd-assign t fd a a' a'' (e ∷ es) h own same =
      ground (arith, own.0, assign_fd-assign t fd a a' a'' es)

module _ {K : Type 0} (kern : Kernel K) where
  -- The adapter after the submission, and the owner.
  abbrev submitted :
      OutputBufferTarget
      → V4L2MultiStreamDriverAdapter K
      → V4L2DriverAdapter K
      → V4L2DriverAdapter K
  submitted o m a = (Stream.submit_capture kern o (lend m.next_token m.kernel a)).1

  submit-routed :
      (o : OutputBufferTarget) (m : V4L2MultiStreamDriverAdapter K) (a : V4L2DriverAdapter K)
      (token : ℕ)
      → endpoint_for o.stream_type m.endpoints ≡ some a
      → (submit_capture kern o m).0 ≡ some token
      → ((Stream.submit_capture kern o (lend m.next_token m.kernel a)).0 ≡ some token)
        × ((submit_capture kern o m).1 ≡ record m {
          endpoints = assign_for o.stream_type (submitted o m a) m.endpoints;
          next_token = (submitted o m a).next_token;
          kernel = (submitted o m a).kernel;
        })
  unfolding submit_capture call_for
  submit-routed o m a token h done =
      elim (Option-cases (Stream.submit_capture kern o (lend m.next_token m.kernel a)).0) [
        | inl e ↦ ground (arith, h, done, e)
        | inr (x, e) ↦ ground (arith, h, done, e)
      ]

  dequeue-next_token :
      (fd : ℤ) (d : V4L2DriverAdapter K)
      → (Stream.dequeue_completion kern fd d).1.next_token ≡ d.next_token
  unfolding Stream.dequeue_completion take_dequeued
  dequeue-next_token fd d = ground arith

  dequeue-routed :
      (fd : ℤ) (m : V4L2MultiStreamDriverAdapter K) (a : V4L2DriverAdapter K) (c : DriverCompletion)
      → endpoint_for_fd fd m.endpoints ≡ some a
      → (Stream.dequeue_completion kern fd (lend m.next_token m.kernel a)).0 ≡ some c
      → let a' = (Stream.dequeue_completion kern fd (lend m.next_token m.kernel a)).1 in
        dequeue_completion kern fd m ≡ (
          some c,
          record m {
            endpoints = assign_for_fd fd a' m.endpoints;
            next_token = a'.next_token;
            kernel = a'.kernel;
          },
        )
  unfolding dequeue_completion
  dequeue-routed fd m a c h done = ground (arith, h, done)

  submitted-took :
      (o : OutputBufferTarget) (d : V4L2DriverAdapter K) (token : ℕ)
      → (Stream.submit_capture kern o d).0 ≡ some token
      → (token ≡ d.next_token)
        × ((Stream.submit_capture kern o d).1.next_token ≡ inc64 d.next_token)
        × ((Stream.submit_capture kern o d).1.fd ≡ d.fd)
  unfolding Stream.submit_capture
  submitted-took o d token done =
      let took =
        (queue_capture-some kern o.buffer_fd o.acquire_fence_fd o.buffer_size token d done).1 in
      (took.0, took.3, took.6)

  -- What the owner has when a capture came back from the adapter `a`: the completion, and the state.
  abbrev pub CameBack :
      OutputBufferTarget
      → DriverCompletion
      → V4L2DriverAdapter K
      → V4L2MultiStreamDriverAdapter K
      → Option DriverCompletion × V4L2MultiStreamDriverAdapter K
      → Type 0
  CameBack o c a m (c', m') =
      (c' ≡ some c)
      × ((a' : V4L2DriverAdapter K) × (endpoint_for o.stream_type m'.endpoints ≡ some a')
          × (a'.queued_requests ≡ a.queued_requests))
      × (m'.next_token ≡ inc64 m.next_token)
      × ((s : StreamType)
          → (o.stream_type ==type s) ≡ false
          → endpoint_for s m'.endpoints ≡ endpoint_for s m.endpoints)
      × (m'.last_error ≡ m.last_error)

  -- A capture goes to the adapter of its stream type, and comes back from it. The owner has an adapter
  -- for the type, which is valid at the owner's counter and whose file no adapter of another type has;
  -- the submission is accepted, and the device then gives the buffer of the slot that was the first
  -- free one. Then the completion that the owner dequeues at that file has the submission's token,
  -- which was the owner's next one, and the device's size and time stamp; the adapter's table of
  -- slots is the one before the submission; the owner's counter has gone on by one; no other type's
  -- adapter has changed; and no error is told.
  pub route_submit-dequeue :
      (o : OutputBufferTarget) (m : V4L2MultiStreamDriverAdapter K) (a : V4L2DriverAdapter K)
      (token bytes timestamp : ℕ)
      → endpoint_for o.stream_type m.endpoints ≡ some a
      → Owns a.fd o.stream_type m.endpoints
      → IsValid (lend m.next_token m.kernel a)
      → (submit_capture kern o m).0 ≡ some token
      → (kern.dequeue_buffer a.fd (submit_capture kern o m).1.kernel).0
        ≡ dequeued (first_free a.queued_requests) bytes timestamp
      → (token ≡ m.next_token)
        × CameBack o
            (record { token = token; bytes_used = bytes; timestamp = timestamp })
            a
            m
            (dequeue_completion kern a.fd (submit_capture kern o m).1)
  route_submit-dequeue o m a token bytes timestamp h own v done answer =
      let t = o.stream_type in
      let c : DriverCompletion = record {
        token = token;
        bytes_used = bytes;
        timestamp = timestamp;
      } in
      let d = lend m.next_token m.kernel a in
      let a1 = submitted o m a in
      let (sent, moved) = submit-routed o m a token h done in
      let (first, counted, file) = submitted-took o d token sent in
      let m1 : V4L2MultiStreamDriverAdapter K = record m {
        endpoints = assign_for t a1 m.endpoints;
        next_token = a1.next_token;
        kernel = a1.kernel;
      } in
      let answer' : (kern.dequeue_buffer a1.fd a1.kernel).0
          ≡ dequeued (first_free a.queued_requests) bytes timestamp =
        rw file (rw moved at answer) in
      let back = submit-dequeue kern o d token bytes timestamp v sent answer' in
      let same : (a1.fd ==ℤ a.fd) ≡ true = rw file (==ℤ_self a.fd) in
      let a2 = (Stream.dequeue_completion kern a.fd a1).1 in
      let step =
        dequeue-routed a.fd m1 a1 c (endpoint_fd-assign t a.fd a a1 m.endpoints h own same)
          back.0 in
      let written = assign_fd-assign t a.fd a a1 a2 m.endpoints h own same in
      let found =
        λ (s : StreamType). ap (endpoint_for s) written ∙ endpoint-assign t s a a2 m.endpoints h in
      (
        first,
        subst (λ x. CameBack o c a m (dequeue_completion kern a.fd x)) (sym moved)
            (subst (CameBack o c a m) (sym step) (
              refl,
              (a2, ground (arith, found t, ==type_self t), back.1),
              dequeue-next_token a.fd a1 ∙ counted,
              λ s other. ground (arith, found s, other),
              refl,
            )),
      )
