-- ===== src/Dma/Books.antt =====
-- hal/dma_buf_allocator.cpp: the books of a pool: its buffers, its free list and what is in use.
use minicam_hal.Common.{
  ℕ, ◌+◌, ◌≡◌, ◌≤◌, ◌<◌, refl, Bool, true, false, not, ◌&&◌, Option, none, some, List, [], ◌∷◌, inl,
  inr, arith, if◌then◌else◌, ◌==◌, ==_iff, ==_self, length, length-append, count, count-append,
  Bool-cases,
}
use minicam_hal.Dma.{DmaBuf, DmaBufPool, set_acquired, is_acquired, acquire, release}

-- How many buffers stand at an address, and how many of those are free, or acquired.
abbrev pub owned : ℕ → List DmaBuf → ℕ
owned a [] = 0
owned a (b ∷ bs) = (if b.address == a then 1 else 0) + owned a bs

abbrev pub idle : ℕ → List DmaBuf → ℕ
idle a [] = 0
idle a (b ∷ bs) = (if b.address == a && not b.acquired then 1 else 0) + idle a bs

abbrev pub in_use : List DmaBuf → ℕ
in_use [] = 0
in_use (b ∷ bs) = (if b.acquired then 1 else 0) + in_use bs

-- No two buffers at one address; the free list holds each buffer that is not acquired, once, and
-- nothing else; and every buffer is free or in use.
pub record IsValid (p : DmaBufPool) : Type 0 where
  pub distinct : (a : ℕ) → owned a p.buffers ≤ 1
  pub free_exact : (a : ℕ) → count a p.free_buffers ≡ idle a p.buffers
  pub conserved : length p.free_buffers + in_use p.buffers ≡ length p.buffers

owned-set : (a j : ℕ) (v : Bool) (bs : List DmaBuf) → owned j (set_acquired a v bs) ≡ owned j bs
unfolding set_acquired
owned-set a j v [] = refl
owned-set a j v (b ∷ bs) = ground (arith, owned-set a j v bs)

length-set : (a : ℕ) (v : Bool) (bs : List DmaBuf) → length (set_acquired a v bs) ≡ length bs
unfolding set_acquired
length-set a v [] = refl
length-set a v (b ∷ bs) = omega (arith, length-set a v bs)

idle-take :
    (a j : ℕ) (bs : List DmaBuf)
    → idle j (set_acquired a true bs) ≡ (if a == j then 0 else idle j bs)
unfolding set_acquired
idle-take a j [] = ground arith
idle-take a j (b ∷ bs) = ground (arith, idle-take a j bs)

idle-return :
    (a j : ℕ) (bs : List DmaBuf)
    → idle j (set_acquired a false bs) ≡ (if a == j then owned j bs else idle j bs)
unfolding set_acquired
idle-return a j [] = ground arith
idle-return a j (b ∷ bs) = ground (arith, idle-return a j bs)

in_use-take : (a : ℕ) (bs : List DmaBuf) → in_use (set_acquired a true bs) ≡ in_use bs + idle a bs
unfolding set_acquired
in_use-take a [] = refl
in_use-take a (b ∷ bs) = ground (arith, in_use-take a bs)

in_use-return :
    (a : ℕ) (bs : List DmaBuf)
    → in_use (set_acquired a false bs) + owned a bs ≡ in_use bs + idle a bs
unfolding set_acquired
in_use-return a [] = refl
in_use-return a (b ∷ bs) = ground (arith, in_use-return a bs)

pub idle-owned : (a : ℕ) (bs : List DmaBuf) → idle a bs ≤ owned a bs
idle-owned a [] = omega arith
idle-owned a (b ∷ bs) = ground (arith, idle-owned a bs)

-- An acquired buffer is owned and, at an address of its own, not free.
acquired-owned : (a : ℕ) (bs : List DmaBuf) → is_acquired a bs ≡ true → idle a bs < owned a bs
unfolding is_acquired
acquired-owned a [] h = cc
acquired-owned a (b ∷ bs) h = elim (Bool-cases (is_acquired a bs)) [
  | inl e ↦ ground (arith, acquired-owned a bs)
  | inr e ↦ ground (arith, idle-owned a bs)
]

pub empty-IsValid : (p : DmaBufPool) → p.buffers ≡ [] → p.free_buffers ≡ [] → IsValid p
empty-IsValid p e f = record {
  distinct = λ a. rw e (omega arith);
  free_exact = λ a. rw (e, f) refl;
  conserved = rw (e, f) refl;
}

pub acquire-IsValid : (p : DmaBufPool) → IsValid p → IsValid (acquire p).1
unfolding acquire
acquire-IsValid p v = go p.free_buffers refl
  where
    go : (free : List ℕ) → p.free_buffers ≡ free → IsValid (acquire p).1
    go [] e =
        rw (e, acquire)
          (record { distinct = v.distinct; free_exact = v.free_exact; conserved = v.conserved })
    go (a ∷ rest) e =
        let bs = p.buffers in
        let sum : length rest + 1 + in_use bs ≡ length bs = ground (arith, v.conserved) in
        let at : (j : ℕ) → (if a == j then 1 else 0) + count j rest ≡ idle j bs =
          λ j. ground (arith, v.free_exact j) in
        let own = at a in
        rw (e, acquire)
          (record {
            distinct = λ j. ground (arith, v.distinct j, owned-set a j true bs);
            free_exact = λ j.
                ground (arith, at j, idle-take a j bs, v.distinct j, idle-owned j bs, ==_iff a j);
            conserved = ground (
              arith,
              sum,
              own,
              in_use-take a bs,
              length-set a true bs,
              v.distinct a,
              idle-owned a bs,
              ==_self a,
            );
          })

pub release-IsValid : (b : Option ℕ) (g : ℕ) (p : DmaBufPool) → IsValid p → IsValid (release b g p)
unfolding release
release-IsValid none g p v = v
release-IsValid (some a) g p v = elim (Bool-cases (g == p.generation)) [
  | inr e ↦ rw e v
  | inl e ↦ elim (Bool-cases (is_acquired a p.buffers)) [
    | inr f ↦ rw (e, f) v
    | inl f ↦
        let bs = p.buffers in
        let free = p.free_buffers in
        let held = acquired-owned a bs f in
        rw (e, f)
          (record {
            distinct = λ j. ground (arith, v.distinct j, owned-set a j false bs);
            free_exact = λ j. ground (
              arith,
              v.free_exact j,
              count-append j free (a ∷ []),
              idle-return a j bs,
              held,
              v.distinct a,
              ==_iff a j,
            );
            conserved = ground (
              arith,
              v.conserved,
              length-append free (a ∷ []),
              in_use-return a bs,
              held,
              v.distinct a,
              length-set a false bs,
            );
          })
  ]
]

pub rw_IsValid :
    (p p' : DmaBufPool)
    → p'.buffers ≡ p.buffers
    → p'.free_buffers ≡ p.free_buffers
    → IsValid p
    → IsValid p'
rw_IsValid p p' e f v = record {
  distinct = rw e v.distinct;
  free_exact = rw (e, f) v.free_exact;
  conserved = rw (e, f) v.conserved;
}
