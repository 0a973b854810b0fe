-- ===== src/V4l2/Groups.antt =====
-- hal/v4l2_driver_adapter.cpp: `V4L2MultiStreamDriverAdapter::can_submit_capture_outputs`, whose
-- grouping of the outputs by endpoint is compared with a question to each stream type.
use minicam_hal.Common.{
  ◌≡◌, ◌≢◌, refl, sym, Bool, true, false, ◌&&◌, none, some, List, [], ◌∷◌, ◌++◌, inl, inr, ◌⊎◌,
  arith, if◌then◌else◌, Bool-cases, Option-cases,
}
use mathlib.Core.List.{append-nil, append_assoc}
use minicam_hal.Interface.{OutputBufferTarget, StreamType, preview, still, video}
use minicam_hal.V4l2.Stream
use minicam_hal.V4l2.Multi.{
  ◌==type◌, Endpoint, V4L2MultiStreamDriverAdapter, endpoint_for, Groups, push_output,
  group_outputs, groups_fit, can_submit_capture_outputs,
}

-- The outputs of a type, in their order.
abbrev pub of_type : StreamType → List OutputBufferTarget → List OutputBufferTarget
of_type t [] = []
of_type t (o ∷ os) = if o.stream_type ==type t then o ∷ of_type t os else of_type t os

-- Can the outputs of a type be submitted to its endpoint? None can always be.
abbrev pub type_fits :
    {K : Type 0} → StreamType → List (Endpoint K) → List OutputBufferTarget → Bool
type_fits t es [] = true
type_fits t es (o ∷ os) = elim (endpoint_for t es) [
  | none ↦ false
  | some a ↦ Stream.can_submit_capture_outputs a (o ∷ os)
]

-- The group of a type, empty if there is none.
abbrev group : StreamType → Groups → List OutputBufferTarget
group t [] = []
group t ((s, os) ∷ groups) = if s ==type t then os else group t groups

-- No type has two groups, and no group is empty.
abbrev Proper : Groups → Type 0
Proper [] = Unit
Proper ((s, os) ∷ groups) = (os ≢ []) × (group s groups ≡ []) × Proper groups

group-push :
    (t : StreamType) (o : OutputBufferTarget) (groups : Groups)
    → group t (push_output o groups)
      ≡ group t groups ++ (if o.stream_type ==type t then o ∷ [] else [])
unfolding push_output
group-push t o [] = refl
group-push t o ((s, os) ∷ groups) =
    ground (arith, group-push t o groups, append-nil os, append-nil (group t groups))

push-Proper :
    (o : OutputBufferTarget) (groups : Groups) → Proper groups → Proper (push_output o groups)
unfolding push_output
push-Proper o [] h = ((λ e. cc), refl, tt)
push-Proper o ((s, os) ∷ groups) h = elim (Bool-cases (s ==type o.stream_type)) [
  | inl e ↦ simp e (append-nonempty os, h.1, h.2)
  | inr e ↦ simp e (
    h.0,
    ground (arith, e, h.1, group-push s o groups, type_comm s o.stream_type),
    push-Proper o groups h.2,
  )
]
  where
    append-nonempty : (l : List OutputBufferTarget) → (l ++ (o ∷ [])) ≢ []
    append-nonempty [] e = cc
    append-nonempty (x ∷ l) e = cc

    type_comm : (a b : StreamType) → (b ==type a) ≡ (a ==type b)
    type_comm preview preview = refl
    type_comm preview still = refl
    type_comm preview video = refl
    type_comm still preview = refl
    type_comm still still = refl
    type_comm still video = refl
    type_comm video preview = refl
    type_comm video still = refl
    type_comm video video = refl

same_type : (t : StreamType) → (t ==type t) ≡ true
same_type preview = refl
same_type still = refl
same_type video = refl

abbrev pub all_types : (StreamType → Bool) → Bool
all_types f = f preview && (f still && f video)

module _ {K : Type 0} (es : List (Endpoint K)) where
  -- Is there an endpoint for each output?
  abbrev served : List OutputBufferTarget → Bool
  served [] = true
  served (o ∷ os) = elim (endpoint_for o.stream_type es) [ none ↦ false | some a ↦ served os ]

  -- The groups, when each output has an endpoint.
  group_outputs-served :
      (os : List OutputBufferTarget) (groups : Groups)
      → Proper groups
      → (served os ≡ false) × (group_outputs es os groups ≡ none)
        ⊎ ((served os ≡ true)
            × ((groups' : Groups) × (group_outputs es os groups ≡ some groups')
                × Proper groups'
                × ((t : StreamType) → group t groups' ≡ group t groups ++ of_type t os)))
  unfolding group_outputs
  group_outputs-served [] groups p =
      inr (refl, (groups, refl, p, λ t. sym (append-nil (group t groups))))
  group_outputs-served (o ∷ os) groups p = elim (Option-cases (endpoint_for o.stream_type es)) [
    | inl e ↦ inl (ground (arith, e), ground (arith, e))
    | inr (a, e) ↦ elim (group_outputs-served os (push_output o groups) (push-Proper o groups p)) [
      | inl h ↦ inl (ground (arith, e, h), ground (arith, e, h))
      | inr (h, (groups', f, p', each)) ↦ inr (
        ground (arith, e, h),
        (
          groups',
          ground (arith, e, f),
          p',
          λ t. ground (
            arith,
            each t,
            group-push t o groups,
            append_assoc (group t groups) (o ∷ []) (of_type t os),
            append-nil (group t groups),
          ),
        ),
      )
    ]
  ]

  groups_fit-types :
      (groups : Groups)
      → Proper groups
      → groups_fit es groups ≡ all_types (λ t. type_fits t es (group t groups))
  unfolding groups_fit
  groups_fit-types [] p = refl
  groups_fit-types ((s, []) ∷ groups) p = elim (p.0 refl) [ ]
  groups_fit-types ((preview, o ∷ os) ∷ groups) p = ground (arith, p, groups_fit-types groups p.2)
  groups_fit-types ((still, o ∷ os) ∷ groups) p = ground (arith, p, groups_fit-types groups p.2)
  groups_fit-types ((video, o ∷ os) ∷ groups) p = ground (arith, p, groups_fit-types groups p.2)

  unserved :
      (os : List OutputBufferTarget)
      → served os ≡ false
      → (t : StreamType) × (endpoint_for t es ≡ none) × (of_type t os ≢ [])
  unserved [] h = cc
  unserved (o ∷ os) h = elim (Option-cases (endpoint_for o.stream_type es)) [
    | inl e ↦ (o.stream_type, e, λ f. ground (arith, f, same_type o.stream_type))
    | inr (a, e) ↦
        let (t, none', some') = unserved os (ground (arith, e, h)) in
        (t, none', λ f. some' (ground (arith, f)))
  ]

  unserved-fits :
      (t : StreamType) (os : List OutputBufferTarget)
      → endpoint_for t es ≡ none
      → os ≢ []
      → type_fits t es os ≡ false
  unserved-fits t [] e f = elim (f refl) [ ]
  unserved-fits t (o ∷ os) e f = rw (e, type_fits) refl

  served-types :
      (os : List OutputBufferTarget)
      → served os ≡ false
      → all_types (λ t. type_fits t es (of_type t os)) ≡ false
  served-types os h =
      let (t, e, some') = unserved os h in
      all-false t (λ u. type_fits u es (of_type u os)) (unserved-fits t (of_type t os) e some')
    where
      all-false : (t : StreamType) (f : StreamType → Bool) → f t ≡ false → all_types f ≡ false
      all-false preview f h = ground (arith, h)
      all-false still f h = ground (arith, h)
      all-false video f h = ground (arith, h)

-- The outputs can be submitted exactly if, for each stream type, its outputs can be submitted to its
-- endpoint: there is one if there are any, it is streaming, it has a free slot for each of them, and
-- each has a dma-buf of at least an image's size.
pub can_submit-types :
    {K : Type 0} (m : V4L2MultiStreamDriverAdapter K) (outputs : List OutputBufferTarget)
    → can_submit_capture_outputs m outputs
      ≡ all_types (λ t. type_fits t m.endpoints (of_type t outputs))
unfolding can_submit_capture_outputs
can_submit-types m outputs = elim (group_outputs-served m.endpoints outputs [] tt) [
  | inl h ↦ ground (arith, h, served-types m.endpoints outputs h.0)
  | inr (h, (groups, f, p, each)) ↦
      ground (arith, f, groups_fit-types m.endpoints groups p, each preview, each still, each video)
]
