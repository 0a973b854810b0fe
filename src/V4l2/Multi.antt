-- ===== src/V4l2/Multi.antt =====
-- hal/v4l2_driver_adapter.h and .cpp: `V4L2MultiStreamDriverAdapter`, an adapter for each stream type.
use minicam_hal.Common.{
  ℕ, ℤ, Bool, true, false, Option, none, some, List, [], ◌∷◌, ◌++◌, String, if◌then◌else◌, ◌==ℤ◌,
  ◌==◌, is_empty,
}
use Prim.Native.String.{len}
use minicam_hal.Interface.{OutputBufferTarget, StreamConfig, StreamType, preview, still, video}
use minicam_hal.Driver.{DriverAdapter, DriverCompletion, StreamBufferLease}
use minicam_hal.V4l2.{Kernel, V4L2DriverAdapter, V4L2StreamConfig, new_adapter}
use minicam_hal.V4l2.Stream

infix 50 ◌==type◌
abbrev pub ◌==type◌ : StreamType → StreamType → Bool
preview ==type preview = true
still ==type still = true
video ==type video = true
s ==type t = false

pub record Endpoint (K : Type 0) : Type 0 where
  pub stream_type : StreamType
  pub adapter : V4L2DriverAdapter K

-- The adapters' own `next_token` and `kernel` are what they were lent in their last call: the counter
-- is the owner's, and the kernel is everyone's.
pub record V4L2MultiStreamDriverAdapter (K : Type 0) : Type 0 where
  pub endpoints : List (Endpoint K)
  pub last_error : String
  pub next_token : ℕ
  pub kernel : K

-- The endpoints that serve the outputs, each with its outputs in their order. The endpoint of a type
-- is the first one with that type, so that the type stands for its address.
abbrev pub Groups : Type 0
Groups = List (StreamType × List OutputBufferTarget)

unfoldable pub push_output : OutputBufferTarget → Groups → Groups
push_output o [] = (o.stream_type, o ∷ []) ∷ []
push_output o ((t, os) ∷ groups) =
    let rest = push_output o groups in
    if t ==type o.stream_type then (t, os ++ (o ∷ [])) ∷ groups else (t, os) ∷ rest

module _ {K : Type 0} where
  unfoldable pub new_endpoints : K → List (StreamType × V4L2StreamConfig) → List (Endpoint K)
  new_endpoints k [] = []
  new_endpoints k ((t, config) ∷ rest) =
      record { stream_type = t; adapter = new_adapter config k } ∷ new_endpoints k rest

  abbrev pub new_multi : List (StreamType × V4L2StreamConfig) → K → V4L2MultiStreamDriverAdapter K
  unfolding new_endpoints
  new_multi configs k = record {
    endpoints = new_endpoints k configs;
    last_error = "";
    next_token = 1;
    kernel = k;
  }

  abbrev pub set_error : String → V4L2MultiStreamDriverAdapter K → V4L2MultiStreamDriverAdapter K
  set_error e m = record m { last_error = e }

  -- The counter and the kernel, as an adapter finds them in a call.
  abbrev pub lend : ℕ → K → V4L2DriverAdapter K → V4L2DriverAdapter K
  lend n k a = record a { next_token = n; kernel = k }

  unfoldable pub endpoint_for : StreamType → List (Endpoint K) → Option (V4L2DriverAdapter K)
  endpoint_for t [] = none
  endpoint_for t (e ∷ es) = if e.stream_type ==type t then some e.adapter else endpoint_for t es

  unfoldable pub endpoint_for_fd : ℤ → List (Endpoint K) → Option (V4L2DriverAdapter K)
  endpoint_for_fd fd [] = none
  endpoint_for_fd fd (e ∷ es) =
      if e.adapter.fd ==ℤ fd then some e.adapter else endpoint_for_fd fd es

  -- The pointer that `endpoint_for` returns is written through.
  unfoldable pub assign_for :
      StreamType → V4L2DriverAdapter K → List (Endpoint K) → List (Endpoint K)
  assign_for t a [] = []
  assign_for t a (e ∷ es) =
      let es' = assign_for t a es in
      if e.stream_type ==type t then record e { adapter = a } ∷ es else e ∷ es'

  unfoldable pub assign_for_fd : ℤ → V4L2DriverAdapter K → List (Endpoint K) → List (Endpoint K)
  assign_for_fd fd a [] = []
  assign_for_fd fd a (e ∷ es) =
      let es' = assign_for_fd fd a es in
      if e.adapter.fd ==ℤ fd then record e { adapter = a } ∷ es else e ∷ es'

  -- A call of the endpoint's adapter, whose failure is told to the owner.
  unfoldable pub call_for :
      {R : Type 0}
      → StreamType
      → String
      → (V4L2DriverAdapter K → Option R × V4L2DriverAdapter K)
      → V4L2MultiStreamDriverAdapter K
      → Option R × V4L2MultiStreamDriverAdapter K
  call_for t unknown f m = elim (endpoint_for t m.endpoints) [
    | none ↦ (none, set_error unknown m)
    | some a ↦
        let (r, a') = f (lend m.next_token m.kernel a) in
        let m' : V4L2MultiStreamDriverAdapter K = record m {
          endpoints = assign_for t a' m.endpoints;
          next_token = a'.next_token;
          kernel = a'.kernel;
        } in
        elim r [ none ↦ (none, set_error a'.last_error m') | some x ↦ (some x, m') ]
  ]

  -- The loop of `start_streaming`, which ends at a failure with its error.
  unfoldable pub start_each : List (Endpoint K) → ℕ → K → Option String × List (Endpoint K)
  start_each [] n k = (none, [])
  start_each (e ∷ es) n k =
      let (ok, a) = Stream.start_streaming (lend n k e.adapter) in
      let (failure, es') = start_each es n k in
      let e' : Endpoint K = record e { adapter = a } in
      if ok then (failure, e' ∷ es') else (some a.last_error, e' ∷ es)

  unfoldable pub start_streaming :
      V4L2MultiStreamDriverAdapter K → Bool × V4L2MultiStreamDriverAdapter K
  start_streaming m =
      let (failure, es) = start_each m.endpoints m.next_token m.kernel in
      let m' : V4L2MultiStreamDriverAdapter K = record m { endpoints = es } in
      elim failure [ none ↦ (true, m') | some e ↦ (false, set_error e m') ]

  unfoldable pub required_output_buffer_size :
      V4L2MultiStreamDriverAdapter K → OutputBufferTarget → ℕ
  required_output_buffer_size m o = elim (endpoint_for o.stream_type m.endpoints) [
    | none ↦ 0
    | some a ↦ Stream.required_output_buffer_size a o
  ]

  unfoldable pub event_fds_each : List (Endpoint K) → List ℤ
  event_fds_each [] = []
  event_fds_each (e ∷ es) = Stream.event_fds e.adapter ++ event_fds_each es

  unfoldable pub event_fds : V4L2MultiStreamDriverAdapter K → List ℤ
  event_fds m = event_fds_each m.endpoints

  unfoldable pub group_outputs :
      List (Endpoint K) → List OutputBufferTarget → Groups → Option Groups
  group_outputs es [] groups = some groups
  group_outputs es (o ∷ os) groups =
      let rest = group_outputs es os (push_output o groups) in
      elim (endpoint_for o.stream_type es) [ none ↦ none | some a ↦ rest ]

  -- Every group has an endpoint.
  unfoldable pub groups_fit : List (Endpoint K) → Groups → Bool
  groups_fit es [] = true
  groups_fit es ((t, os) ∷ groups) =
      let rest = groups_fit es groups in
      elim (endpoint_for t es) [
        | none ↦ false
        | some a ↦ if Stream.can_submit_capture_outputs a os then rest else false
      ]

  unfoldable pub can_submit_capture_outputs :
      V4L2MultiStreamDriverAdapter K → List OutputBufferTarget → Bool
  can_submit_capture_outputs m outputs = elim (group_outputs m.endpoints outputs []) [
    | none ↦ false
    | some groups ↦ groups_fit m.endpoints groups
  ]

module _ {K : Type 0} (kern : Kernel K) where
  unfoldable pub stop_each : List (Endpoint K) → ℕ → K → List (Endpoint K) × K
  stop_each [] n k = ([], k)
  stop_each (e ∷ es) n k =
      let a = Stream.stop_streaming kern (lend n k e.adapter) in
      let (es', k') = stop_each es n a.kernel in (record e { adapter = a } ∷ es', k')

  unfoldable pub stop_streaming : V4L2MultiStreamDriverAdapter K → V4L2MultiStreamDriverAdapter K
  stop_streaming m =
      let (es, k) = stop_each m.endpoints m.next_token m.kernel in
      record m { endpoints = es; kernel = k }

  unfoldable pub close_each : List (Endpoint K) → ℕ → K → List (Endpoint K) × K
  close_each [] n k = ([], k)
  close_each (e ∷ es) n k =
      let a = Stream.close kern (lend n k e.adapter) in
      let (es', k') = close_each es n a.kernel in (record e { adapter = a } ∷ es', k')

  unfoldable pub close : V4L2MultiStreamDriverAdapter K → V4L2MultiStreamDriverAdapter K
  close m =
      let (es, k) = close_each m.endpoints m.next_token m.kernel in
      record m { endpoints = es; kernel = k }

  -- The loop of `configure_stream`, which ends at a failure with its error.
  unfoldable pub configure_each :
      List (Endpoint K) → ℕ → K → Option String × (List (Endpoint K) × K)
  configure_each [] n k = (none, ([], k))
  configure_each (e ∷ es) n k =
      let (ok, a) = Stream.configure_stream kern (lend n k e.adapter) in
      let (failure, (es', k')) = configure_each es n a.kernel in
      let e' : Endpoint K = record e { adapter = a } in
      if ok then (failure, (e' ∷ es', k')) else (some a.last_error, (e' ∷ es, a.kernel))

  unfoldable pub configure_stream :
      V4L2MultiStreamDriverAdapter K → Bool × V4L2MultiStreamDriverAdapter K
  configure_stream m =
      if is_empty m.endpoints
      then (false, set_error "no V4L2 stream endpoints configured" m)
      else (let (failure, (es, k)) = configure_each m.endpoints m.next_token m.kernel in
          let m' : V4L2MultiStreamDriverAdapter K = record m { endpoints = es; kernel = k } in
          elim failure [ none ↦ (true, m') | some text ↦ (false, close (set_error text m')) ])

  unfoldable pub start_continuous_stream :
      StreamConfig
      → List OutputBufferTarget
      → V4L2MultiStreamDriverAdapter K
      → Option (List ℕ) × V4L2MultiStreamDriverAdapter K
  start_continuous_stream stream buffers =
      call_for stream.stream_type "no V4L2 endpoint for continuous stream type"
        (Stream.start_continuous_stream kern stream buffers)

  unfoldable pub submit_capture :
      OutputBufferTarget
      → V4L2MultiStreamDriverAdapter K
      → Option ℕ × V4L2MultiStreamDriverAdapter K
  submit_capture o =
      call_for o.stream_type "no V4L2 endpoint for requested stream type"
        (Stream.submit_capture kern o)

  unfoldable pub return_stream_buffer :
      StreamBufferLease → V4L2MultiStreamDriverAdapter K → Option ℕ × V4L2MultiStreamDriverAdapter K
  return_stream_buffer lease =
      call_for lease.stream_type "no V4L2 endpoint for continuous stream type"
        (Stream.return_stream_buffer kern lease)

  unfoldable pub dequeue_completion :
      ℤ → V4L2MultiStreamDriverAdapter K → Option DriverCompletion × V4L2MultiStreamDriverAdapter K
  dequeue_completion fd m = elim (endpoint_for_fd fd m.endpoints) [
    | none ↦ (none, m)
    | some a ↦
        let (completion, a') = Stream.dequeue_completion kern fd (lend m.next_token m.kernel a) in
        let m' : V4L2MultiStreamDriverAdapter K = record m {
          endpoints = assign_for_fd fd a' m.endpoints;
          next_token = a'.next_token;
          kernel = a'.kernel;
        } in
        elim completion [
          | none ↦ (none, if len a'.last_error == 0 then m' else set_error a'.last_error m')
          | some c ↦ (some c, m')
        ]
  ]

  abbrev pub multi_driver : DriverAdapter (V4L2MultiStreamDriverAdapter K)
  multi_driver = record {
    configure_stream = configure_stream;
    start_streaming = start_streaming;
    required_output_buffer_size = required_output_buffer_size;
    start_continuous_stream = start_continuous_stream;
    stop_streaming = stop_streaming;
    close = close;
    can_submit_capture_outputs = can_submit_capture_outputs;
    submit_capture = submit_capture;
    dequeue_completion = dequeue_completion;
    return_stream_buffer = return_stream_buffer;
    event_fds = event_fds;
    last_error = λ m. m.last_error;
  }
