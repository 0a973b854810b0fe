-- ===== src/Tracker/Tokens.antt =====
-- Driver tokens: what a completion resolves to, and for how long.
use minicam_hal.Common.{
  ℕ, ℤ, ◌≡◌, ◌≢◌, refl, Bool, false, true, Option, Distinct, find-count, ==_iff, [], ◌∷◌, none,
  some, inl, inr, arith, ◌==◌, if◌then◌else◌, is_neg, find, contains, erase, erase_if, emplace, Map,
  Option-cases, find-erase, find-emplace, ==_self,
}
use minicam_hal.Interface.{OutputBufferTarget}
use minicam_hal.Tracker.{
  InFlightRequestTracker, InFlightStreamingOutput, DriverOutputContext, bind_driver_output,
  register_streaming_output, output_target, resolve_context, take_streaming_output,
  take_driver_output_context, clear_driver_outputs_for_frame,
}

resolve-driver_outputs :
    (c : DriverOutputContext) (t : InFlightRequestTracker)
    → ((resolve_context c t).1.driver_outputs ≡ t.driver_outputs)
      × ((resolve_context c t).1.requests ≡ t.requests)
unfolding resolve_context take_streaming_output
resolve-driver_outputs c t = ground arith

-- Taking a token forgets that token's binding and no other, found or not, and no row.
pub take-bindings :
    (token : ℕ) (t : InFlightRequestTracker)
    → let t' = (take_driver_output_context token t).1 in
      ((j : ℕ) → find j t'.driver_outputs ≡ (if token == j then none else find j t.driver_outputs))
      × (t'.requests ≡ t.requests)
unfolding take_driver_output_context
take-bindings token t = elim (Option-cases (find token t.driver_outputs)) [
  | inl e ↦ rw (e, take_driver_output_context) (λ j. ground arith, refl)
  | inr (c, e) ↦
      rw (e, take_driver_output_context)
        (
          λ j. ground (
            arith,
            resolve-driver_outputs c (record t { driver_outputs = erase token t.driver_outputs }),
            find-erase token j t.driver_outputs,
          ),
          (resolve-driver_outputs c (record t { driver_outputs = erase token t.driver_outputs })).1,
        )
]

pub take-unbound :
    (token : ℕ) (t : InFlightRequestTracker)
    → find token t.driver_outputs ≡ none
    → take_driver_output_context token t ≡ (none, t)
unfolding take_driver_output_context
take-unbound token t e = rw (e, take_driver_output_context)

-- A token is good for one completion: whatever the first attempt gave, a second resolves nothing
-- and changes nothing.
pub take-take :
    (token : ℕ) (t : InFlightRequestTracker)
    → let t' = (take_driver_output_context token t).1 in
      take_driver_output_context token t' ≡ (none, t')
take-take token t =
    take-unbound token (take_driver_output_context token t).1
      (ground (arith, (take-bindings token t).0 token, ==_self token))

bind-ok :
    (token : ℕ) (c : DriverOutputContext) (t : InFlightRequestTracker)
    → token ≢ 0
    → find token t.driver_outputs ≡ none
    → bind_driver_output token c t
      ≡ (true, record t { driver_outputs = emplace token c t.driver_outputs })
unfolding bind_driver_output contains
bind-ok token c t nz e = ground arith

-- `bind_driver_output` accepts a token exactly when it is not zero and not bound yet.
pub bind_iff :
    (token : ℕ) (c : DriverOutputContext) (t : InFlightRequestTracker)
    → ((bind_driver_output token c t).0 ≡ true → (token ≢ 0) × (find token t.driver_outputs ≡ none))
      × (token ≢ 0 → find token t.driver_outputs ≡ none → (bind_driver_output token c t).0 ≡ true)
unfolding bind_driver_output contains
bind_iff token c t = (λ h. ground arith, λ nz e. ground arith)

resolve-output :
    (c : DriverOutputContext) (target : OutputBufferTarget) (t : InFlightRequestTracker)
    → is_neg c.output_index ≡ false
    → output_target c.frame_number c.output_index t ≡ some target
    → resolve_context c t ≡ (
      some (record {
        frame_number = c.frame_number;
        output_index = c.output_index;
        target = target;
        streaming_output = none;
      }),
      t,
    )
unfolding resolve_context
resolve-output c target t sign known = ground arith

output_target-rebind :
    (n : ℕ) (i : ℤ) (m : Map DriverOutputContext) (t : InFlightRequestTracker)
    → output_target n i (record t { driver_outputs = m }) ≡ output_target n i t
unfolding output_target
output_target-rebind n i m t = refl

pub take-bound :
    (token : ℕ) (c : DriverOutputContext) (target : OutputBufferTarget) (t : InFlightRequestTracker)
    → find token t.driver_outputs ≡ some c
    → is_neg c.output_index ≡ false
    → output_target c.frame_number c.output_index t ≡ some target
    → take_driver_output_context token t ≡ (
      some (record {
        frame_number = c.frame_number;
        output_index = c.output_index;
        target = target;
        streaming_output = none;
      }),
      record t { driver_outputs = erase token t.driver_outputs },
    )
unfolding take_driver_output_context
take-bound token c target t bound sign known =
    let rest : Map DriverOutputContext = erase token t.driver_outputs in
    rw (bound, take_driver_output_context)
      (resolve-output c target (record t { driver_outputs = rest }) sign
        (rw (output_target-rebind c.frame_number c.output_index rest t) known))

-- A request output that is bound to a token resolves from it: for a token that is not zero and
-- not bound yet, and an output of a request in flight, taking the token after binding it gives
-- the output's frame, index and buffer; the binding is then gone and the rows are as before.
pub take-bind :
    (token : ℕ) (c : DriverOutputContext) (target : OutputBufferTarget) (t : InFlightRequestTracker)
    → token ≢ 0
    → find token t.driver_outputs ≡ none
    → is_neg c.output_index ≡ false
    → output_target c.frame_number c.output_index t ≡ some target
    → let t' = (bind_driver_output token c t).1 in
      let (r, t'') = take_driver_output_context token t' in
      (r
        ≡ some (record {
          frame_number = c.frame_number;
          output_index = c.output_index;
          target = target;
          streaming_output = none;
        }))
      × (find token t''.driver_outputs ≡ none)
      × (t''.requests ≡ t.requests)
take-bind token c target t nz free sign known =
    let bindings : Map DriverOutputContext = emplace token c t.driver_outputs in
    let bound : find token bindings ≡ some c =
      ground (arith, find-emplace token token c t.driver_outputs free, ==_self token) in
    let resolved =
      take-bound token c target (record t { driver_outputs = bindings }) bound sign
        (rw (output_target-rebind c.frame_number c.output_index bindings t) known) in
    rw (bind-ok token c t nz free, resolved)
      (refl, ground (arith, find-erase token token bindings, ==_self token), refl)

register-ok :
    (o : InFlightStreamingOutput) (t : InFlightRequestTracker)
    → find o.frame_number t.streaming_outputs ≡ none
    → register_streaming_output o t
      ≡ (true, record t { streaming_outputs = emplace o.frame_number o t.streaming_outputs })
unfolding register_streaming_output contains
register-ok o t e = ground arith

take-bound_streaming :
    (token : ℕ) (c : DriverOutputContext) (o : InFlightStreamingOutput) (t : InFlightRequestTracker)
    → find token t.driver_outputs ≡ some c
    → is_neg c.output_index ≡ true
    → find c.frame_number t.streaming_outputs ≡ some o
    → take_driver_output_context token t ≡ (
      some (record {
        frame_number = c.frame_number;
        output_index = c.output_index;
        target = o.target;
        streaming_output = some o;
      }),
      record t {
        driver_outputs = erase token t.driver_outputs;
        streaming_outputs = erase c.frame_number t.streaming_outputs;
      },
    )
unfolding take_driver_output_context resolve_context take_streaming_output
take-bound_streaming token c o t e sign known =
    rw (e, take_driver_output_context) (ground (arith, sign, known))

erase-emplace {ℓ} :
    {V : Type ℓ} (k j : ℕ) (v : V) (m : Map V)
    → find k m ≡ none
    → find j (erase k (emplace k v m)) ≡ find j m
erase-emplace k j v m e =
    ground (arith, find-erase k j (emplace k v m), find-emplace k j v m e, ==_iff k j)

-- A stream buffer's life in the tracker, for a frame with no stream buffer and a token that is not
-- zero and not bound: the buffer is registered, the token bound to its frame with a negative
-- index, and the token taken. Both calls accept; the token resolves to exactly that buffer; and then
-- every table answers every lookup as it did before, so that neither the token nor any other still
-- resolves to the buffer.
pub take-bind_streaming :
    (token : ℕ) (index : ℤ) (o : InFlightStreamingOutput) (t : InFlightRequestTracker)
    → token ≢ 0
    → is_neg index ≡ true
    → find token t.driver_outputs ≡ none
    → find o.frame_number t.streaming_outputs ≡ none
    → let (registered, t1) = register_streaming_output o t in
      let (bound, t2) =
        bind_driver_output token
          (record { frame_number = o.frame_number; output_index = index })
          t1 in
      let (r, t3) = take_driver_output_context token t2 in
      (registered ≡ true)
      × (bound ≡ true)
      × (r
          ≡ some (record {
            frame_number = o.frame_number;
            output_index = index;
            target = o.target;
            streaming_output = some o;
          }))
      × ((j : ℕ) → find j t3.driver_outputs ≡ find j t.driver_outputs)
      × ((j : ℕ) → find j t3.streaming_outputs ≡ find j t.streaming_outputs)
      × (t3.requests ≡ t.requests)
take-bind_streaming token index o t nz sign free fresh =
    let c : DriverOutputContext = record { frame_number = o.frame_number; output_index = index } in
    let buffers = emplace o.frame_number o t.streaming_outputs in
    let bindings = emplace token c t.driver_outputs in
    let t1 : InFlightRequestTracker = record t { streaming_outputs = buffers } in
    let t2 : InFlightRequestTracker = record t1 { driver_outputs = bindings } in
    let bound : find token bindings ≡ some c =
      ground (arith, find-emplace token token c t.driver_outputs free, ==_self token) in
    let known : find o.frame_number buffers ≡ some o = ground (
      arith,
      find-emplace o.frame_number o.frame_number o t.streaming_outputs fresh,
      ==_self o.frame_number,
    ) in
    rw
      (
        register-ok o t fresh,
        bind-ok token c t1 nz free,
        take-bound_streaming token c o t2 bound sign known,
      )
      (
        refl,
        refl,
        refl,
        λ j. erase-emplace token j c t.driver_outputs free,
        λ j. erase-emplace o.frame_number j o t.streaming_outputs fresh,
        refl,
      )

find-erase_if_frame :
    (n j : ℕ) (m : Map DriverOutputContext) (c : DriverOutputContext)
    → find j (erase_if (λ c. c.frame_number == n) m) ≡ some c
    → (c.frame_number == n) ≡ false
unfolding find erase_if
find-erase_if_frame n j [] c h = cc
find-erase_if_frame n j ((k, d) ∷ m) c h = ground (arith, find-erase_if_frame n j m c)

-- After `clear_driver_outputs_for_frame` no token is bound to that frame any more.
pub clear-unbound :
    (n j : ℕ) (t : InFlightRequestTracker) (c : DriverOutputContext)
    → find j (clear_driver_outputs_for_frame n t).driver_outputs ≡ some c
    → c.frame_number ≢ n
unfolding clear_driver_outputs_for_frame
clear-unbound n j t c h = ground (arith, find-erase_if_frame n j t.driver_outputs c h)

-- A token's frame, seen from its binding.
abbrev pub is_bound_to : ℕ → Option DriverOutputContext → Bool
is_bound_to n none = false
is_bound_to n (some c) = c.frame_number == n

find-clear :
    (n j : ℕ) (m : Map DriverOutputContext)
    → Distinct m
    → find j (erase_if (λ c. c.frame_number == n) m)
      ≡ (if is_bound_to n (find j m) then none else find j m)
unfolding find erase_if
find-clear n j [] d = refl
find-clear n j ((k, c) ∷ m) d = ground (arith, find-clear n j m d.1, find-count j m, ==_iff k j)

erase-clear :
    (n k : ℕ) (m : Map DriverOutputContext)
    → erase k (erase_if (λ c. c.frame_number == n) m)
      ≡ erase_if (λ c. c.frame_number == n) (erase k m)
unfolding erase erase_if
erase-clear n k [] = refl
erase-clear n k ((j, c) ∷ m) = ground (arith, erase-clear n k m)

resolve-rebind :
    (c : DriverOutputContext) (m : Map DriverOutputContext) (t : InFlightRequestTracker)
    → resolve_context c (record t { driver_outputs = m })
      ≡ ((resolve_context c t).0, record (resolve_context c t).1 { driver_outputs = m })
unfolding resolve_context take_streaming_output output_target
resolve-rebind c m t = ground arith

-- `clear_driver_outputs_for_frame` forgets the tokens of that frame and no others: where no token is
-- bound twice, a token of the frame resolves nothing afterwards, and a token of another frame, or of
-- none, resolves to what it did before, with the same effect on the tables.
pub take-clear :
    (n token : ℕ) (t : InFlightRequestTracker)
    → Distinct t.driver_outputs
    → let t' = clear_driver_outputs_for_frame n t in
      let (r, taken) = take_driver_output_context token t in
      take_driver_output_context token t' ≡ (
        if is_bound_to n (find token t.driver_outputs)
        then (none, t')
        else (r, clear_driver_outputs_for_frame n taken))
unfolding take_driver_output_context clear_driver_outputs_for_frame
take-clear n token t d =
    let rest = erase_if (λ c. c.frame_number == n) t.driver_outputs in
    let looked = find-clear n token t.driver_outputs d in
    elim (Option-cases (find token t.driver_outputs)) [
      | inl e ↦ ground (arith, looked, e)
      | inr (c, e) ↦ ground (
        arith,
        looked,
        e,
        erase-clear n token t.driver_outputs,
        resolve-rebind c (erase token t.driver_outputs) t,
        resolve-rebind c (erase token rest) t,
      )
    ]
