-- ===== src/Mock/Tokens.antt =====
-- The mock driver's queue: tokens are fresh, completions come out in the order of submission, and a
-- session that drains the driver comes to an end.
use minicam_hal.Common.{
  ℕ, zero, suc, ℤ, ◌+◌, ◌^◌, ◌≡◌, ◌≤◌, ◌<◌, refl, some, List, [], ◌∷◌, ◌++◌, inl, inr, arith, map,
  ap, subst, ◌∙◌, inc64, length, Option-cases, Bool-cases,
}
use mathlib.Core.List.{append-nil, append_assoc}
use minicam_hal.Interface.{OutputBufferTarget}
use minicam_hal.Driver.{DriverCompletion, StreamBufferLease}
use minicam_hal.Driver.Calls.{
  Call, configures, starts, stops, closes, submits, previews, dequeues, returns, needs,
}
use minicam_hal.Mock.{
  System, MockDriverAdapter, push_completion, submit_capture, push_each, start_continuous_stream,
  dequeue_completion, return_stream_buffer, stop_streaming, close, configure_stream,
  start_streaming, open_pipe, buffers_or_fallback,
}

-- The tokens grow strictly, from `lo` on and below `hi`.
abbrev pub Chain : ℕ → List DriverCompletion → ℕ → Type 0
Chain lo [] hi = lo ≤ hi
Chain lo (c ∷ cs) hi = (lo ≤ c.token) × Chain (suc c.token) cs hi

-- The tokens in the queue are distinct, in the order of their submission, and none is zero or yet to
-- be given out.
abbrev pub IsValid : MockDriverAdapter → Type 0
IsValid d = Chain 1 d.completions d.next_token

Chain-append :
    (lo hi : ℕ) (cs : List DriverCompletion) (c : DriverCompletion)
    → Chain lo cs hi
    → c.token ≡ hi
    → Chain lo (cs ++ (c ∷ [])) (hi + 1)
Chain-append lo hi [] c h e = omega arith
Chain-append lo hi (d ∷ cs) c h e = (h.0, Chain-append (suc d.token) hi cs c h.1 e)

Chain-mono :
    (lo hi hi' : ℕ) (cs : List DriverCompletion) → hi ≤ hi' → Chain lo cs hi → Chain lo cs hi'
Chain-mono lo hi hi' [] k h = omega arith
Chain-mono lo hi hi' (c ∷ cs) k h = (h.0, Chain-mono (suc c.token) hi hi' cs k h.1)

Chain-lower :
    (lo lo' hi : ℕ) (cs : List DriverCompletion) → lo' ≤ lo → Chain lo cs hi → Chain lo' cs hi
Chain-lower lo lo' hi [] k h = omega arith
Chain-lower lo lo' hi (c ∷ cs) k h = (omega arith, h.1)

inc64-eq : (n : ℕ) → n + 1 < 2 ^ 64 → inc64 n ≡ n + 1
unfolding inc64
inc64-eq n h = omega arith

-- `n` consecutive numbers from `k` on.
abbrev pub upto : ℕ → ℕ → List ℕ
upto k zero = []
upto k (suc n) = k ∷ upto (k + 1) n

abbrev pub tokens_of : List DriverCompletion → List ℕ
tokens_of = map (λ c. c.token)

tokens_of-append :
    (cs : List DriverCompletion) (c : DriverCompletion)
    → tokens_of (cs ++ (c ∷ [])) ≡ tokens_of cs ++ (c.token ∷ [])
tokens_of-append [] c = refl
tokens_of-append (x ∷ cs) c = ap (λ l. x.token ∷ l) (tokens_of-append cs c)

module _ (sys : System) where
  push-IsValid :
      (o : OutputBufferTarget) (d : MockDriverAdapter)
      → d.next_token + 1 < 2 ^ 64
      → IsValid d
      → IsValid (push_completion sys o d).1
        × ((push_completion sys o d).1.next_token ≡ d.next_token + 1)
  unfolding push_completion
  push-IsValid o d room v =
      let grown = λ (c : DriverCompletion) (e : c.token ≡ d.next_token).
        Chain-append 1 d.next_token d.completions c v e in
      rw (inc64-eq d.next_token room) (elim (Bool-cases (sys.write_fails d.next_token)) [
        | inl e ↦ rw e (grown _ refl, refl)
        | inr e ↦ rw e (grown _ refl, refl)
      ])

  submit-IsValid :
      (o : OutputBufferTarget) (d : MockDriverAdapter)
      → d.next_token + 1 < 2 ^ 64
      → IsValid d
      → IsValid (submit_capture sys o d).1
  unfolding submit_capture
  submit-IsValid o d room v =
      ground (arith, push-IsValid o (record d { submit_count = inc64 d.submit_count }) room v)

  push_each-IsValid :
      (os : List OutputBufferTarget) (d : MockDriverAdapter)
      → d.next_token + length os < 2 ^ 64
      → IsValid d
      → IsValid (push_each sys os d).1
  unfolding push_each
  push_each-IsValid [] d room v = v
  push_each-IsValid (o ∷ os) d room v =
      let pushed = push-IsValid o d (omega (arith, room)) v in
      let rest =
        push_each-IsValid os (push_completion sys o d).1 (omega (arith, room, pushed.1)) pushed.0 in
      ground (arith, pushed.0, rest)

  push_lem :
      (o : OutputBufferTarget) (d : MockDriverAdapter)
      → d.next_token + 1 < 2 ^ 64
      → ((push_completion sys o d).1.next_token ≡ d.next_token + 1)
        × (tokens_of (push_completion sys o d).1.completions
            ≡ tokens_of d.completions ++ (d.next_token ∷ []))
  unfolding push_completion
  push_lem o d room =
      rw (inc64-eq d.next_token room) (elim (Bool-cases (sys.write_fails d.next_token)) [
        | inl e ↦ rw e (refl, tokens_of-append d.completions _)
        | inr e ↦ rw e (refl, tokens_of-append d.completions _)
      ])

  -- A preview that starts gives its buffers consecutive tokens, and queues their completions behind
  -- those that are there, in the same order; while the token counter has room for them.
  pub push_each-tokens :
      (os : List OutputBufferTarget) (d : MockDriverAdapter) (tokens : List ℕ)
      → d.next_token + length os < 2 ^ 64
      → (push_each sys os d).0 ≡ some tokens
      → (tokens ≡ upto d.next_token (length os))
        × (tokens_of (push_each sys os d).1.completions ≡ tokens_of d.completions ++ tokens)
  unfolding push_each
  push_each-tokens [] d tokens room e = (cc, ground (arith, append-nil (tokens_of d.completions)))
  push_each-tokens (o ∷ os) d tokens room e = elim (Bool-cases (push_completion sys o d).0) [
    | inl sent ↦ elim (Option-cases (push_each sys os (push_completion sys o d).1).0) [
      | inl f ↦ ground arith
      | inr (rest, f) ↦
          let pushed = push_lem o d (omega (arith, room)) in
          let ih =
            push_each-tokens os (push_completion sys o d).1 rest (omega (arith, room, pushed.0))
              f in
          let shape : tokens ≡ d.next_token ∷ rest = ground arith in
          rw (sent, push_each, shape)
            (
              ap (λ l. d.next_token ∷ l) (ih.0 ∙ ap (λ k. upto k (length os)) pushed.0),
              ih.1
                  ∙ ap (λ l. l ++ rest) pushed.1
                  ∙ append_assoc (tokens_of d.completions) (d.next_token ∷ []) rest,
            )
    ]
    | inr bad ↦ ground arith
  ]

unfoldable pub step : System → Call → MockDriverAdapter → MockDriverAdapter
step sys configures d = (configure_stream sys d).1
step sys starts d = (start_streaming sys d).1
step sys stops d = stop_streaming d
step sys closes d = close d
step sys (submits o) d = (submit_capture sys o d).1
step sys (previews stream os) d = (start_continuous_stream sys stream os d).1
step sys (dequeues fd) d = (dequeue_completion fd d).1
step sys (returns lease) d = (return_stream_buffer lease d).1

Chain-le : (lo hi : ℕ) (cs : List DriverCompletion) → Chain lo cs hi → lo ≤ hi
Chain-le lo hi [] h = h
Chain-le lo hi (c ∷ cs) h = omega (arith, Chain-le (suc c.token) hi cs h.1, h.0)

dequeue-IsValid : (fd : ℤ) (d : MockDriverAdapter) → IsValid d → IsValid (dequeue_completion fd d).1
unfolding dequeue_completion
dequeue-IsValid fd d v = popped d.completions refl
  where
    popped : (cs : List DriverCompletion) → d.completions ≡ cs → IsValid (dequeue_completion fd d).1
    popped [] e = ground (arith, e, v)
    popped (c ∷ cs) e =
        let chain : Chain 1 (c ∷ cs) d.next_token = subst (λ l. Chain 1 l d.next_token) e v in
        let shorter = Chain-lower (suc c.token) 1 d.next_token cs (omega arith) chain.1 in
        ground (arith, e, v, shorter)

return-IsValid :
    (lease : StreamBufferLease) (d : MockDriverAdapter)
    → d.next_token + 1 < 2 ^ 64
    → IsValid d
    → IsValid (return_stream_buffer lease d).1
unfolding return_stream_buffer
return-IsValid lease d room v = ground (
  arith,
  inc64-eq d.next_token room,
  Chain-mono 1 d.next_token (d.next_token + 1) d.completions (omega arith) v,
)

-- Every call of the driver keeps the tokens of its queue strictly increasing, from 1 on and below the
-- next one; while the token counter has room for the tokens that the call takes.
pub step-IsValid :
    (sys : System) (c : Call) (d : MockDriverAdapter)
    → d.next_token + needs c < 2 ^ 64
    → IsValid d
    → IsValid (step sys c d)
unfolding step configure_stream open_pipe start_streaming stop_streaming close
    start_continuous_stream
step-IsValid sys configures d room v = ground (arith, v)
step-IsValid sys starts d room v = ground (arith, v)
step-IsValid sys stops d room v = v
step-IsValid sys closes d room v = Chain-le 1 d.next_token d.completions v
step-IsValid sys (submits o) d room v = submit-IsValid sys o d room v
step-IsValid sys (previews stream os) d room v =
    let kept = push_each-IsValid sys (buffers_or_fallback stream os) d (buffers_room os room) v in
    ground (arith, kept, v)
  where
    buffers_room :
        (os : List OutputBufferTarget)
        → d.next_token + (length os + 1) < 2 ^ 64
        → d.next_token + length (buffers_or_fallback stream os) < 2 ^ 64
    buffers_room [] h = omega (arith, h)
    buffers_room (o ∷ os) h = omega (arith, h)
step-IsValid sys (dequeues fd) d room v = dequeue-IsValid fd d v
step-IsValid sys (returns lease) d room v = return-IsValid lease d room v
