-- ===== src/V4l2/Configure.antt =====
-- hal/v4l2_driver_adapter.h and .cpp: the calls that open, start, stop and close the device
-- keep the adapter valid.
use minicam_hal.Common.{
  ℕ, ◌%◌, ◌^◌, ◌≡◌, refl, ap, is_neg, false, [], inl, inr, arith, if◌then◌else◌, ◌==◌, Bool-cases,
  Option-cases, mul_size, to_size,
}
use minicam_hal.V4l2.{Kernel, V4L2DriverAdapter, to_u32, reset_queued_requests}
use minicam_hal.V4l2.Stream.{
  start_streaming, stop_streaming, close, configure_buffers, configure_format, configure_opened,
  configure_stream, captures, streams,
}
use minicam_hal.V4l2.Slots.{reset-Idle, reset-length, reset-Numbered, number_slots-Idle}
use minicam_hal.V4l2.Table.{IsValid, Kept, new-Table, Idle-Table}

module _ {K : Type 0} (kern : Kernel K) where
  stop-IsValid : (d : V4L2DriverAdapter K) → IsValid d → IsValid (stop_streaming kern d)
  unfolding stop_streaming reset_queued_requests
  stop-IsValid d v = (
    Idle-Table d.buffer_size d.next_token (reset_queued_requests d.queued_requests)
        (reset-Idle d.queued_requests) (reset-Numbered 0 d.queued_requests v.0.1)
        (omega (arith, reset-length d.queued_requests, v.0.2)),
    v.1,
    (reset-Idle d.queued_requests, refl, refl),
    λ e. ap reset_queued_requests (v.3 e),
  )

  close-IsValid : (d : V4L2DriverAdapter K) → IsValid d → IsValid (close kern d)
  unfolding close stop_streaming
  close-IsValid d v = ((tt, tt, omega arith, tt), v.1, (tt, refl, refl), λ e. refl)

  pub start-Kept : (d : V4L2DriverAdapter K) → IsValid d → Kept 0 d (start_streaming d).1
  unfolding start_streaming
  start-Kept d v = ground (arith, v)

  pub stop-Kept : (d : V4L2DriverAdapter K) → IsValid d → Kept 0 d (stop_streaming kern d)
  unfolding stop_streaming
  stop-Kept d v = (stop-IsValid d v, omega arith, omega arith)

  pub close-Kept : (d : V4L2DriverAdapter K) → IsValid d → Kept 0 d (close kern d)
  unfolding close stop_streaming
  close-Kept d v = (close-IsValid d v, omega arith, omega arith)

  -- A device that was just opened, and is being configured.
  abbrev Opened : V4L2DriverAdapter K → Type 0
  Opened d = (is_neg d.fd ≡ false) × (d.queued_requests ≡ []) × (d.streaming ≡ false) × IsValid d

  configure_buffers-Kept :
      (size : ℕ) (d : V4L2DriverAdapter K) → Opened d → Kept 0 d (configure_buffers kern size d).1
  unfolding configure_buffers close stop_streaming
  configure_buffers-Kept size d v =
      let answer = kern.request_buffers d.fd (d.config.buffer_count % 2 ^ 32) d.kernel in
      let d' : V4L2DriverAdapter K = record d { kernel = answer.1 } in
      elim (Option-cases answer.0) [
        | inl e ↦ ground (arith, e, v)
        | inr (granted, e) ↦ elim (Bool-cases (granted % 2 ^ 32 == 0)) [
          | inl f ↦ ground (arith, e, f, v)
          | inr f ↦ ground (
            arith,
            e,
            f,
            v,
            number_slots-Idle 0 (granted % 2 ^ 32),
            new-Table
                (if size == 0
                  then mul_size (mul_size (to_size d.config.width) (to_size d.config.height)) 2
                  else size)
                d.next_token granted,
          )
        ]
      ]

  configure_format-Kept :
      (d : V4L2DriverAdapter K) → Opened d → Kept 0 d (configure_format kern d).1
  unfolding configure_format close stop_streaming
  configure_format-Kept d v =
      let answer =
        kern.set_format d.fd (to_u32 d.config.width) (to_u32 d.config.height)
          (if d.config.pixel_format == 0 then kern.pix_fmt_yuyv else d.config.pixel_format)
          d.kernel in
      let d' : V4L2DriverAdapter K = record d { kernel = answer.1 } in
      elim (Option-cases answer.0) [
        | inl e ↦ ground (arith, e, v)
        | inr (size, e) ↦ ground (arith, e, configure_buffers-Kept (size % 2 ^ 32) d' v)
      ]

  configure_opened-Kept :
      (d : V4L2DriverAdapter K) → Opened d → Kept 0 d (configure_opened kern d).1
  unfolding configure_opened close stop_streaming
  configure_opened-Kept d v =
      let answer = kern.query_capability d.fd d.kernel in
      let d' : V4L2DriverAdapter K = record d { kernel = answer.1 } in
      elim (Option-cases answer.0) [
        | inl e ↦ ground (arith, e, v)
        | inr (c, e) ↦ elim (Bool-cases (captures c)) [
          | inr f ↦ ground (arith, e, f, v)
          | inl f ↦ elim (Bool-cases (streams c)) [
            | inr g ↦ ground (arith, e, f, g, v)
            | inl g ↦ ground (arith, e, f, g, configure_format-Kept d' v)
          ]
        ]
      ]

  pub configure-Kept : (d : V4L2DriverAdapter K) → IsValid d → Kept 0 d (configure_stream kern d).1
  unfolding configure_stream
  configure-Kept d v =
      let answer = kern.open_device d.config.device_path d.kernel in
      let d' : V4L2DriverAdapter K = record d { fd = answer.0; kernel = answer.1 } in
      elim (Bool-cases (is_neg d.fd)) [
        | inr f ↦ ground (arith, f, v)
        | inl f ↦
            let unused : d.queued_requests ≡ [] = v.3 f in
            let off : d.streaming ≡ false = ground (arith, f, v.2) in
            let v' : IsValid d' = (v.0, v.1, ground (arith, off, v.2), λ e. unused) in
            elim (Bool-cases (is_neg answer.0)) [
              | inl g ↦ ground (arith, f, g, v')
              | inr g ↦ ground (arith, f, g, configure_opened-Kept d' (g, unused, off, v'))
            ]
      ]
