-- ===== src/V4l2/Slots.antt =====
-- hal/v4l2_driver_adapter.cpp: the table of slots of `V4L2DriverAdapter`, by which the driver's
-- buffers and the tokens of the submissions are matched.
use minicam_hal.Common.{
  ℕ, zero, suc, ℤ, ◌+◌, ◌^◌, ◌≡◌, ◌≤◌, ◌<◌, refl, ap, subst, sym, minus_one, is_neg, ◌==ℤ◌, true,
  false, none, some, List, [], ◌∷◌, inl, inr, arith, if◌then◌else◌, ◌==◌, count, length, All,
  Bool-cases, ==ℤ_iff, ==ℤ_self,
}
use minicam_hal.V4l2.{
  V4L2QueuedRequest, empty_slot, to_int, to_u32, queued_request_for_index,
  free_queued_request_count, bind_free_queued_request, clear_queued_request, reset_queued_requests,
  number_slots,
}

abbrev pub Slots : Type 0
Slots = List V4L2QueuedRequest

-- A slot that is queued has a dma-buf that is large enough and no fence, and one that is free is empty.
abbrev pub SlotOk : ℕ → V4L2QueuedRequest → Type 0
SlotOk size q = elim q.queued [
  | true ↦ (is_neg q.buffer_fd ≡ false) × (q.acquire_fence_fd ≡ minus_one) × (size ≤ q.buffer_size)
  | false ↦ q ≡ empty_slot q.index
]

-- The slots are numbered from `i` on.
abbrev pub Numbered : ℕ → Slots → Type 0
Numbered i [] = Unit
Numbered i (q ∷ qs) = (q.index ≡ to_int i) × Numbered (i + 1) qs

-- The tokens of the slots that are queued.
abbrev pub tokens : Slots → List ℕ
tokens [] = []
tokens (q ∷ qs) = elim q.queued [ true ↦ q.token ∷ tokens qs | false ↦ tokens qs ]

-- The tokens have been given out, before `n`, and none stands there twice.
abbrev pub Fresh : ℕ → List ℕ → Type 0
Fresh n [] = Unit
Fresh n (t ∷ ts) = (1 ≤ t) × (t < n) × (count t ts ≡ 0) × Fresh n ts

-- The place of the first slot that is free.
abbrev pub first_free : Slots → ℕ
first_free [] = 0
first_free (q ∷ qs) = elim q.queued [ true ↦ first_free qs + 1 | false ↦ 0 ]

pub Fresh-mono : (n m : ℕ) (ts : List ℕ) → n ≤ m → Fresh n ts → Fresh m ts
Fresh-mono n m [] k h = tt
Fresh-mono n m (t ∷ ts) k h = (h.0, omega (arith, k, h.1), h.2, Fresh-mono n m ts k h.3)

Fresh-count : (n : ℕ) (ts : List ℕ) → Fresh n ts → count n ts ≡ 0
Fresh-count n [] h = refl
Fresh-count n (t ∷ ts) h = ground (arith, Fresh-count n ts h.3)

-- What binding, clearing and numbering do to a table.
module _ (token : ℕ) (fd fence : ℤ) (size : ℕ) where
  pub bind-length :
      (qs : Slots) → length (bind_free_queued_request token fd fence size qs).1 ≡ length qs
  unfolding bind_free_queued_request
  bind-length [] = refl
  bind-length (q ∷ qs) = elim (Bool-cases q.queued) [
    | inl e ↦ rw e (ap suc (bind-length qs))
    | inr e ↦ rw e refl
  ]

  pub bind-Numbered :
      (i : ℕ) (qs : Slots)
      → Numbered i qs
      → Numbered i (bind_free_queued_request token fd fence size qs).1
  unfolding bind_free_queued_request
  bind-Numbered i [] h = tt
  bind-Numbered i (q ∷ qs) h = elim (Bool-cases q.queued) [
    | inl e ↦ rw e (h.0, bind-Numbered (i + 1) qs h.1)
    | inr e ↦ rw e (h.0, h.1)
  ]

  pub bind-SlotOk :
      (least : ℕ) (qs : Slots)
      → is_neg fd ≡ false
      → fence ≡ minus_one
      → least ≤ size
      → All (SlotOk least) qs
      → All (SlotOk least) (bind_free_queued_request token fd fence size qs).1
  unfolding bind_free_queued_request
  bind-SlotOk least [] f g k h = tt
  bind-SlotOk least (q ∷ qs) f g k h = ground (arith, bind-SlotOk least qs f g k h.1)

  bind-tokens :
      (t : ℕ) (qs : Slots)
      → count t (tokens (bind_free_queued_request token fd fence size qs).1)
        ≤ (if token == t then 1 else 0) + count t (tokens qs)
  unfolding bind_free_queued_request
  bind-tokens t [] = omega arith
  bind-tokens t (q ∷ qs) = elim (Bool-cases q.queued) [
    | inl e ↦ rw e (omega (arith, bind-tokens t qs))
    | inr e ↦ rw e (omega arith)
  ]

  pub bind-Fresh :
      (qs : Slots)
      → 1 ≤ token
      → Fresh token (tokens qs)
      → Fresh (token + 1) (tokens (bind_free_queued_request token fd fence size qs).1)
  unfolding bind_free_queued_request
  bind-Fresh [] k h = tt
  bind-Fresh (q ∷ qs) k h = ground (
    arith,
    bind-Fresh qs k,
    bind-tokens q.token qs,
    Fresh-mono token (token + 1) (tokens qs),
    Fresh-count token (tokens qs),
  )

  -- What was bound is the first free slot, whose binding a completion of its index undoes.
  pub bind-none :
      (qs : Slots)
      → (bind_free_queued_request token fd fence size qs).0 ≡ none
      → free_queued_request_count qs ≡ 0
  unfolding bind_free_queued_request free_queued_request_count
  bind-none [] h = refl
  bind-none (q ∷ qs) h = ground (arith, bind-none qs)

  pub bind-free_count :
      (qs : Slots) (slot : V4L2QueuedRequest)
      → (bind_free_queued_request token fd fence size qs).0 ≡ some slot
      → free_queued_request_count (bind_free_queued_request token fd fence size qs).1 + 1
        ≡ free_queued_request_count qs
  unfolding bind_free_queued_request free_queued_request_count
  bind-free_count [] slot h = cc
  bind-free_count (q ∷ qs) slot h = ground (arith, bind-free_count qs slot)

  pub bind-slot :
      (i : ℕ) (qs : Slots) (slot : V4L2QueuedRequest)
      → Numbered i qs
      → (bind_free_queued_request token fd fence size qs).0 ≡ some slot
      → (slot.index ≡ to_int (i + first_free qs))
        × (slot.token ≡ token)
        × (slot.buffer_fd ≡ fd)
        × (first_free qs < length qs)
  unfolding bind_free_queued_request
  bind-slot i [] slot n h = cc
  bind-slot i (q ∷ qs) slot n h = ground (arith, bind-slot (i + 1) qs slot)

pub clear-length : (index : ℕ) (qs : Slots) → length (clear_queued_request index qs) ≡ length qs
unfolding clear_queued_request
clear-length index [] = refl
clear-length index (q ∷ qs) = ground (arith, clear-length index qs)

pub clear-Numbered :
    (index i : ℕ) (qs : Slots) → Numbered i qs → Numbered i (clear_queued_request index qs)
unfolding clear_queued_request
clear-Numbered index i [] h = tt
clear-Numbered index i (q ∷ qs) h = ground (arith, clear-Numbered index (i + 1) qs h.1)

pub clear-SlotOk :
    (index least : ℕ) (qs : Slots)
    → All (SlotOk least) qs
    → All (SlotOk least) (clear_queued_request index qs)
unfolding clear_queued_request
clear-SlotOk index least [] h = tt
clear-SlotOk index least (q ∷ qs) h = ground (arith, clear-SlotOk index least qs h.1)

clear-tokens :
    (index t : ℕ) (qs : Slots)
    → count t (tokens (clear_queued_request index qs)) ≤ count t (tokens qs)
unfolding clear_queued_request
clear-tokens index t [] = omega arith
clear-tokens index t (q ∷ qs) = ground (arith, clear-tokens index t qs)

pub clear-Fresh :
    (index n : ℕ) (qs : Slots)
    → Fresh n (tokens qs)
    → Fresh n (tokens (clear_queued_request index qs))
unfolding clear_queued_request
clear-Fresh index n [] h = tt
clear-Fresh index n (q ∷ qs) h =
    ground (arith, clear-Fresh index n qs, clear-tokens index q.token qs)

-- A table that was reset has every slot free, and so has a new one.
abbrev pub Idle : Slots → Type 0
Idle = All (λ q. q ≡ empty_slot q.index)

pub Idle-SlotOk : (least : ℕ) (qs : Slots) → Idle qs → All (SlotOk least) qs
Idle-SlotOk least [] h = tt
Idle-SlotOk least (q ∷ qs) h = (subst (SlotOk least) (sym h.0) refl, Idle-SlotOk least qs h.1)

pub Idle-tokens : (qs : Slots) → Idle qs → tokens qs ≡ []
Idle-tokens [] h = refl
Idle-tokens (q ∷ qs) h = simp (h.0, Idle-tokens qs h.1)

pub clear-Idle : (index : ℕ) (qs : Slots) → Idle qs → Idle (clear_queued_request index qs)
unfolding clear_queued_request
clear-Idle index [] h = tt
clear-Idle index (q ∷ qs) h = ground (arith, clear-Idle index qs h.1)

pub reset-Idle : (qs : Slots) → Idle (reset_queued_requests qs)
unfolding reset_queued_requests
reset-Idle [] = tt
reset-Idle (q ∷ qs) = (refl, reset-Idle qs)

pub reset-length : (qs : Slots) → length (reset_queued_requests qs) ≡ length qs
unfolding reset_queued_requests
reset-length [] = refl
reset-length (q ∷ qs) = ap suc (reset-length qs)

pub reset-Numbered : (i : ℕ) (qs : Slots) → Numbered i qs → Numbered i (reset_queued_requests qs)
unfolding reset_queued_requests
reset-Numbered i [] h = tt
reset-Numbered i (q ∷ qs) h = (h.0, reset-Numbered (i + 1) qs h.1)

pub number_slots-Idle : (i n : ℕ) → Idle (number_slots i n)
unfolding number_slots
number_slots-Idle i zero = tt
number_slots-Idle i (suc n) = (refl, number_slots-Idle (i + 1) n)

pub number_slots-length : (i n : ℕ) → length (number_slots i n) ≡ n
unfolding number_slots
number_slots-length i zero = refl
number_slots-length i (suc n) = ap suc (number_slots-length (i + 1) n)

pub number_slots-Numbered : (i n : ℕ) → Numbered i (number_slots i n)
unfolding number_slots
number_slots-Numbered i zero = tt
number_slots-Numbered i (suc n) = (refl, number_slots-Numbered (i + 1) n)

to_int-inj : (i j : ℕ) → i < 2 ^ 32 → j < 2 ^ 32 → to_int i ≡ to_int j → i ≡ j
unfolding to_int
to_int-inj i j h k e = ground arith

to_u32-to_int : (i : ℕ) → i < 2 ^ 32 → to_u32 (to_int i) ≡ i
unfolding to_int to_u32
to_u32-to_int i h = ground arith

to_int-differ : (i j : ℕ) → i < j → j < 2 ^ 32 → (to_int i ==ℤ to_int j) ≡ false
to_int-differ i j h k = elim (Bool-cases (to_int i ==ℤ to_int j)) [
  | inl e ↦
      let never : ⊥ =
        omega (
          arith,
          h,
          to_int-inj i j (omega (arith, h, k)) k ((==ℤ_iff (to_int i) (to_int j)).0 e),
        ) in
      elim never [ ]
  | inr e ↦ e
]

-- Clearing the slot that was just bound gives the table before it.
pub clear-bind :
    (token : ℕ) (fd fence : ℤ) (size least i : ℕ) (qs : Slots) (slot : V4L2QueuedRequest)
    → All (SlotOk least) qs
    → Numbered i qs
    → i + length qs < 2 ^ 32
    → (bind_free_queued_request token fd fence size qs).0 ≡ some slot
    → clear_queued_request (i + first_free qs) (bind_free_queued_request token fd fence size qs).1
      ≡ qs
unfolding bind_free_queued_request clear_queued_request
clear-bind token fd fence size least i [] slot ok n room h = cc
clear-bind token fd fence size least i (q ∷ qs) slot ok n room h = ground (
  arith,
  clear-bind token fd fence size least (i + 1) qs slot ok.1 n.1,
  to_int-differ i (i + (first_free qs + 1)),
  ==ℤ_self (to_int i),
  bind-slot token fd fence size (i + 1) qs slot n.1,
)

-- The slot that was just bound is the one that its index finds.
pub find-bind :
    (token : ℕ) (fd fence : ℤ) (size i : ℕ) (qs : Slots) (slot : V4L2QueuedRequest)
    → Numbered i qs
    → i + length qs < 2 ^ 32
    → (bind_free_queued_request token fd fence size qs).0 ≡ some slot
    → (queued_request_for_index
          (i + first_free qs)
          (bind_free_queued_request token fd fence size qs).1
        ≡ some slot)
      × (slot.queued ≡ true)
unfolding bind_free_queued_request queued_request_for_index
find-bind token fd fence size i [] slot n room h = cc
find-bind token fd fence size i (q ∷ qs) slot n room h = ground (
  arith,
  find-bind token fd fence size (i + 1) qs slot n.1,
  to_int-differ i (i + (first_free qs + 1)),
  ==ℤ_self (to_int i),
  bind-slot token fd fence size (i + 1) qs slot n.1,
)
