-- ===== src/Dma/Leases.antt =====
-- Leases: what a lease of the pool gives back, and when it gives nothing.
use minicam_hal.Common.{
  ℕ, ◌+◌, ◌≡◌, ◌≢◌, ◌<◌, refl, Bool, true, false, Option, none, some, List, [], ◌∷◌, ◌++◌, inl, inr,
  arith, ◌==◌, ==_iff, ==_self, inc64, Bool-cases,
}
use minicam_hal.Dma.{
  Heap, DmaBuf, DmaBufPool, no_lease, set_acquired, is_acquired, acquire, release, reset_lease,
  close, available, initialize,
}
use minicam_hal.Common.{All, ◌∙◌}
use minicam_hal.Dma.Books.{IsValid, idle, idle-owned}
use minicam_hal.Dma.Pool.{Call, initializes, acquires, closes, resets, call, generation-each}

inc64_moves : (n : ℕ) → (n == inc64 n) ≡ false
unfolding inc64
inc64_moves n = ground arith

stale : (b : Option ℕ) (g : ℕ) (p : DmaBufPool) → (g == p.generation) ≡ false → release b g p ≡ p
unfolding release
stale none g p e = refl
stale (some a) g p e = rw e refl

initialize-generation :
    (heap : Heap) (size n : ℕ) (map : Bool) (p : DmaBufPool)
    → size ≢ 0
    → n ≢ 0
    → (initialize heap size n map p).1.generation ≡ inc64 p.generation
unfolding initialize
initialize-generation heap size n map p nonzero some_wanted = ground (
  arith,
  generation-each heap n 0 size map (record p {
    generation = inc64 p.generation;
    buffers = [];
    free_buffers = [];
    buffer_size = size;
  }),
)

-- Leases are taken and reset; the pool is neither initialized nor closed.
abbrev pub is_lease_call : Call → Bool
is_lease_call acquires = true
is_lease_call (resets l) = true
is_lease_call _ = false

unfoldable pub run : Heap → List Call → DmaBufPool → DmaBufPool
run heap [] p = p
run heap (c ∷ cs) p = run heap cs (call heap c p)

generation-release :
    (b : Option ℕ) (g : ℕ) (p : DmaBufPool) → (release b g p).generation ≡ p.generation
unfolding release
generation-release none g p = refl
generation-release (some a) g p = ground arith

generation-acquire : (p : DmaBufPool) → (acquire p).1.generation ≡ p.generation
unfolding acquire
generation-acquire p = ground arith

generation-run :
    (heap : Heap) (cs : List Call) (p : DmaBufPool)
    → All (λ c. is_lease_call c ≡ true) cs
    → (run heap cs p).generation ≡ p.generation
unfolding run call reset_lease
generation-run heap [] p h = refl
generation-run heap (acquires ∷ cs) p h =
    generation-run heap cs (acquire p).1 h.1 ∙ generation-acquire p
generation-run heap (resets l ∷ cs) p h =
    generation-run heap cs (release l.buffer l.generation p) h.1
    ∙ generation-release l.buffer l.generation p
generation-run heap (closes ∷ cs) p h = cc
generation-run heap (initializes size n map ∷ cs) p h = cc

-- A lease that outlives its pool's buffers releases nothing: once the pool is closed, or initialized
-- anew with a size and a count that are not zero, and whatever leases are taken and reset since, of
-- buffers at whatever addresses, the release of a lease of the generation before leaves the pool as it
-- is.
pub stale-release :
    (heap : Heap) (size n : ℕ) (map : Bool) (b : Option ℕ) (cs : List Call) (p : DmaBufPool)
    → size ≢ 0
    → n ≢ 0
    → All (λ c. is_lease_call c ≡ true) cs
    → let closed = run heap cs (close p) in
      let renewed = run heap cs (initialize heap size n map p).1 in
      (release b p.generation closed ≡ closed) × (release b p.generation renewed ≡ renewed)
unfolding close
stale-release heap size n map b cs p nonzero some_wanted only_leases = (
  stale b p.generation (run heap cs (close p))
      (rw (generation-run heap cs (close p) only_leases) (inc64_moves p.generation)),
  stale b p.generation (run heap cs (initialize heap size n map p).1) (
      rw
        (
          generation-run heap cs (initialize heap size n map p).1 only_leases,
          initialize-generation heap size n map p nonzero some_wanted,
        )
        (inc64_moves p.generation)),
)

-- Two leases taken one after the other from a pool whose books are in order are of different
-- buffers.
pub acquire-acquire :
    (p : DmaBufPool) (a b : ℕ)
    → IsValid p
    → (acquire p).0.buffer ≡ some a
    → (acquire (acquire p).1).0.buffer ≡ some b
    → a ≢ b
unfolding acquire
acquire-acquire p a b v e f = go p.free_buffers refl
  where
    go : (free : List ℕ) → p.free_buffers ≡ free → a ≢ b
    go [] k = ground arith
    go (x ∷ []) k = ground arith
    go (x ∷ y ∷ rest) k =
        ground (arith, v.free_exact a, v.distinct a, idle-owned a p.buffers, ==_iff a a, ==_iff b a)

is_acquired-take :
    (a : ℕ) (bs : List DmaBuf) → 0 < idle a bs → is_acquired a (set_acquired a true bs) ≡ true
unfolding is_acquired set_acquired
is_acquired-take a [] h = ground arith
is_acquired-take a (b ∷ bs) h = elim (Bool-cases (b.address == a)) [
  | inl e ↦ ground arith
  | inr e ↦ ground (arith, is_acquired-take a bs)
]

is_acquired-return : (a : ℕ) (bs : List DmaBuf) → is_acquired a (set_acquired a false bs) ≡ false
unfolding is_acquired set_acquired
is_acquired-return a [] = refl
is_acquired-return a (b ∷ bs) = ground (arith, is_acquired-return a bs)

release_held :
    (a : ℕ) (p : DmaBufPool)
    → is_acquired a p.buffers ≡ true
    → release (some a) p.generation p ≡ record p {
      buffers = set_acquired a false p.buffers;
      free_buffers = p.free_buffers ++ (a ∷ []);
    }
unfolding release
release_held a p e = rw (==_self p.generation, e) refl

release_idle :
    (a g : ℕ) (p : DmaBufPool) → is_acquired a p.buffers ≡ false → release (some a) g p ≡ p
unfolding release
release_idle a g p e = ground arith

-- A lease that is taken and reset goes to the end of the free list, and resetting it again, or
-- releasing its buffer again, does nothing more. The pool's books are in order and it has a
-- buffer free.
pub acquire-reset :
    (p : DmaBufPool) (a : ℕ) (rest : List ℕ)
    → IsValid p
    → p.free_buffers ≡ a ∷ rest
    → let (lease, taken) = acquire p in
      let (empty, returned) = reset_lease lease taken in
      (available taken + 1 ≡ available p)
      × (returned.free_buffers ≡ rest ++ (a ∷ []))
      × (release lease.buffer lease.generation returned ≡ returned)
      × (reset_lease empty returned ≡ (no_lease, returned))
unfolding acquire reset_lease available release
acquire-reset p a rest v e =
    let bs = p.buffers in
    let there : 0 < idle a bs = ground (arith, e, v.free_exact a, ==_self a) in
    let taken : DmaBufPool = record p { free_buffers = rest; buffers = set_acquired a true bs } in
    let returned : DmaBufPool = record taken {
      buffers = set_acquired a false (set_acquired a true bs);
      free_buffers = rest ++ (a ∷ []);
    } in
    let first : release (some a) p.generation taken ≡ returned =
      release_held a taken (is_acquired-take a bs there) in
    let second : release (some a) p.generation returned ≡ returned =
      release_idle a p.generation returned (is_acquired-return a (set_acquired a true bs)) in
    rw (e, acquire) (rw first (omega arith, refl, second, refl))
