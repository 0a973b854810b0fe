-- ===== src/V4l2/Table.antt =====
-- hal/v4l2_driver_adapter.h and .cpp: the table of slots of a valid adapter, and what a call may change.
use minicam_hal.Common.{
  ℕ, ℤ, ◌+◌, ◌%◌, ◌^◌, ◌≡◌, ◌≤◌, ◌<◌, refl, ap, subst, sym, minus_one, is_neg, true, false, [], inl,
  inr, ◌⊎◌, arith, length, All, inc64,
}
use minicam_hal.V4l2.{
  Dequeued, try_again, dequeue_failed, dequeued, V4L2DriverAdapter, V4L2StreamConfig,
  bind_free_queued_request, clear_queued_request, number_slots, new_adapter,
}
use minicam_hal.V4l2.Slots.{
  Slots, SlotOk, Numbered, tokens, Fresh, bind-length, bind-Numbered, bind-SlotOk, bind-Fresh,
  clear-length, clear-Numbered, clear-SlotOk, clear-Fresh, Idle, Idle-SlotOk, Idle-tokens,
  number_slots-Idle, number_slots-length, number_slots-Numbered,
}

-- A table for dma-bufs of a size, whose tokens were given out before `n`.
abbrev pub Table : ℕ → ℕ → Slots → Type 0
Table size n qs = All (SlotOk size) qs × Numbered 0 qs × (length qs < 2 ^ 32) × Fresh n (tokens qs)

-- A device that streams is open; one that does not has nothing queued; one that is not open has no
-- slots.
abbrev pub IsValid : {K : Type 0} → V4L2DriverAdapter K → Type 0
IsValid d =
    Table d.buffer_size d.next_token d.queued_requests
    × (1 ≤ d.next_token)
    × (elim d.streaming [
      | true ↦ is_neg d.fd ≡ false
      | false ↦
          Idle d.queued_requests × (d.device_streaming ≡ false) × (d.continuous_streaming ≡ false)
    ])
    × (is_neg d.fd ≡ true → d.queued_requests ≡ [])

pub clear-Table :
    (size n index : ℕ) (qs : Slots) → Table size n qs → Table size n (clear_queued_request index qs)
clear-Table size n index qs t = (
  clear-SlotOk index size qs t.0,
  clear-Numbered index 0 qs t.1,
  omega (arith, clear-length index qs, t.2),
  clear-Fresh index n qs t.3,
)

pub bind-Table :
    (size n : ℕ) (fd : ℤ) (held : ℕ) (qs : Slots)
    → is_neg fd ≡ false
    → size ≤ held
    → 1 ≤ n
    → Table size n qs
    → Table size (n + 1) (bind_free_queued_request n fd minus_one held qs).1
bind-Table size n fd held qs f k one t = (
  bind-SlotOk n fd minus_one held size qs f refl k t.0,
  bind-Numbered n fd minus_one held 0 qs t.1,
  omega (arith, bind-length n fd minus_one held qs, t.2),
  bind-Fresh n fd minus_one held qs one t.3,
)

pub Idle-Table :
    (size n : ℕ) (qs : Slots) → Idle qs → Numbered 0 qs → length qs < 2 ^ 32 → Table size n qs
Idle-Table size n qs i k l =
    (Idle-SlotOk size qs i, k, l, subst (Fresh n) (sym (Idle-tokens qs i)) tt)

pub clear-nil : (index : ℕ) (qs : Slots) → qs ≡ [] → clear_queued_request index qs ≡ []
unfolding clear_queued_request
clear-nil index qs e = ap (clear_queued_request index) e

pub bind-nil :
    (token : ℕ) (fd : ℤ) (size : ℕ) (qs : Slots)
    → qs ≡ []
    → (bind_free_queued_request token fd minus_one size qs).1 ≡ []
unfolding bind_free_queued_request
bind-nil token fd size qs e = ap (λ l. (bind_free_queued_request token fd minus_one size l).1) e

pub inc64-eq : (n : ℕ) → n + 1 < 2 ^ 64 → inc64 n ≡ n + 1
unfolding inc64
inc64-eq n h = omega arith

pub Dequeued-cases :
    (a : Dequeued)
    → ((a ≡ try_again) ⊎ (a ≡ dequeue_failed))
      ⊎ ((index : ℕ) × (bytes : ℕ) × (timestamp : ℕ) × (a ≡ dequeued index bytes timestamp))
Dequeued-cases try_again = inl (inl refl)
Dequeued-cases dequeue_failed = inl (inr refl)
Dequeued-cases (dequeued index bytes timestamp) = inr (index, bytes, timestamp, refl)

pub new-Table : (size n c : ℕ) → Table size n (number_slots 0 (c % 2 ^ 32))
new-Table size n c =
    Idle-Table size n (number_slots 0 (c % 2 ^ 32)) (number_slots-Idle 0 (c % 2 ^ 32))
      (number_slots-Numbered 0 (c % 2 ^ 32)) (omega (arith, number_slots-length 0 (c % 2 ^ 32)))

-- What a call that takes at most `n` tokens leaves.
abbrev pub Kept : {K : Type 0} → ℕ → V4L2DriverAdapter K → V4L2DriverAdapter K → Type 0
Kept n d d' = IsValid d' × (d.next_token ≤ d'.next_token) × (d'.next_token ≤ d.next_token + n)

pub new-IsValid : {K : Type 0} (config : V4L2StreamConfig) (k : K) → IsValid (new_adapter config k)
new-IsValid config k = ((tt, tt, omega arith, tt), omega arith, (tt, refl, refl), λ e. refl)
