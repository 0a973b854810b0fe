-- ===== src/Dma/Pool.antt =====
-- The pool's books: a buffer is free or acquired, never both, and none is lost.
use minicam_hal.Common.{
  ℕ, zero, suc, ◌+◌, ◌≡◌, ◌≤◌, refl, ◌∙◌, Bool, false, some, List, [], ◌∷◌, ◌++◌, inl, inr, arith,
  if◌then◌else◌, ◌==◌, ==_iff, length-append, count-append, Bool-cases, Option-cases,
}
use minicam_hal.Dma.{
  Heap, DmaBuf, DmaBufPool, DmaBufLease, acquire, reset_lease, close, ensure_open_locked,
  allocate_locked, allocate_each, initialize,
}
use minicam_hal.Dma.Books.{
  IsValid, acquire-IsValid, empty-IsValid, idle, in_use, owned, release-IsValid, rw_IsValid,
}

-- The calls that change a pool, those of its leases included.
pub data Call : Type 0 where
  initializes : ℕ → ℕ → Bool → Call
  acquires closes : Call
  resets : DmaBufLease → Call

unfoldable pub call : Heap → Call → DmaBufPool → DmaBufPool
call heap (initializes size n map) p = (initialize heap size n map p).1
call heap acquires p = (acquire p).1
call heap closes p = close p
call heap (resets l) p = (reset_lease l p).1

module _ (heap : Heap) where
  allocate-buffers :
      (i size : ℕ) (map : Bool) (p : DmaBufPool)
      → let p' = (allocate_locked heap i size map p).1 in
        (p'.buffers ≡ p.buffers)
        × (p'.free_buffers ≡ p.free_buffers)
        × (p'.generation ≡ p.generation)
  unfolding allocate_locked ensure_open_locked
  allocate-buffers i size map p = ground arith

  pub generation-each :
      (n i size : ℕ) (map : Bool) (p : DmaBufPool)
      → (allocate_each heap n i size map p).1.generation ≡ p.generation
  unfolding allocate_each
  generation-each zero i size map p = refl
  generation-each (suc n) i size map p = elim (Option-cases (allocate_locked heap i size map p).0) [
    | inl e ↦ rw (e, allocate_each) (allocate-buffers i size map p).2
    | inr (b, e) ↦
        rw (e, allocate_each)
          (generation-each n (i + 1) size map _ ∙ (allocate-buffers i size map p).2)
  ]

-- The loop of `initialize` adds buffers at fresh addresses: none of those that are there has the
-- address of a number from `i` on.
module _ (heap : Heap) (fresh : (i j : ℕ) → heap.address i ≡ heap.address j → i ≡ j) where
  owned-append :
      (j : ℕ) (bs : List DmaBuf) (b : DmaBuf)
      → owned j (bs ++ (b ∷ [])) ≡ owned j bs + (if b.address == j then 1 else 0)
  owned-append j [] b = omega arith
  owned-append j (c ∷ bs) b = omega (arith, owned-append j bs b)

  idle-append :
      (j : ℕ) (bs : List DmaBuf) (b : DmaBuf)
      → b.acquired ≡ false
      → idle j (bs ++ (b ∷ [])) ≡ idle j bs + (if b.address == j then 1 else 0)
  idle-append j [] b h = ground arith
  idle-append j (c ∷ bs) b h = omega (arith, idle-append j bs b h)

  in_use-append :
      (bs : List DmaBuf) (b : DmaBuf) → b.acquired ≡ false → in_use (bs ++ (b ∷ [])) ≡ in_use bs
  in_use-append [] b h = ground arith
  in_use-append (c ∷ bs) b h = omega (arith, in_use-append bs b h)

  -- Every pool that is valid stays so with a buffer added at an address of its own.
  add-IsValid :
      (p : DmaBufPool) (b : DmaBuf)
      → IsValid p
      → b.acquired ≡ false
      → owned b.address p.buffers ≡ 0
      → IsValid (record p {
        buffers = p.buffers ++ (b ∷ []);
        free_buffers = p.free_buffers ++ (b.address ∷ []);
      })
  add-IsValid p b v h none_there = record {
    distinct = λ j.
        ground (arith, v.distinct j, owned-append j p.buffers b, none_there, ==_iff b.address j);
    free_exact = λ j. ground (
      arith,
      v.free_exact j,
      count-append j p.free_buffers (b.address ∷ []),
      idle-append j p.buffers b h,
    );
    conserved = ground (
      arith,
      v.conserved,
      length-append p.free_buffers (b.address ∷ []),
      length-append p.buffers (b ∷ []),
      in_use-append p.buffers b h,
    );
  }

  allocate-fresh :
      (i size : ℕ) (map : Bool) (p : DmaBufPool) (b : DmaBuf)
      → (allocate_locked heap i size map p).0 ≡ some b
      → (b.address ≡ heap.address i) × (b.acquired ≡ false)
  unfolding allocate_locked ensure_open_locked
  allocate-fresh i size map p b e = ground arith

  allocate_each-IsValid :
      (n i size : ℕ) (map : Bool) (p : DmaBufPool)
      → IsValid p
      → ((k : ℕ) → i ≤ k → owned (heap.address k) p.buffers ≡ 0)
      → IsValid (allocate_each heap n i size map p).1
  unfolding allocate_each
  allocate_each-IsValid zero i size map p v above = v
  allocate_each-IsValid (suc n) i size map p v above =
      let p' = (allocate_locked heap i size map p).1 in
      let same = allocate-buffers heap i size map p in
      elim (Option-cases (allocate_locked heap i size map p).0) [
        | inl e ↦ rw (e, allocate_each) (empty-IsValid _ refl refl)
        | inr (b, e) ↦
            let made = allocate-fresh i size map p b e in
            let valid : IsValid p' = rw_IsValid p p' same.0 same.1 v in
            let none_there : owned b.address p'.buffers ≡ 0 =
              rw (same.0, made.0) (above i (omega arith)) in
            let p'' : DmaBufPool = record p' {
              buffers = p'.buffers ++ (b ∷ []);
              free_buffers = p'.free_buffers ++ (b.address ∷ []);
            } in
            rw (e, allocate_each)
              (allocate_each-IsValid n (i + 1) size map p''
                (add-IsValid p' b valid made.1 none_there)
                (λ k more.
                  rw (owned-append (heap.address k) p'.buffers b, same.0)
                    (ground (
                      arith,
                      above k (omega (arith, more)),
                      made.0,
                      ==_iff b.address (heap.address k),
                      fresh i k,
                      more,
                    ))))
      ]

  initialize-IsValid :
      (size n : ℕ) (map : Bool) (p : DmaBufPool)
      → IsValid p
      → IsValid (initialize heap size n map p).1
  unfolding initialize
  initialize-IsValid size n map p v = elim (Bool-cases (size == 0)) [
    | inl e ↦ rw e (rw_IsValid p _ refl refl v)
    | inr e ↦ elim (Bool-cases (n == 0)) [
      | inl f ↦ rw (e, f) (rw_IsValid p _ refl refl v)
      | inr f ↦
          rw (e, f) (allocate_each-IsValid n 0 size map _ (empty-IsValid _ refl refl) (λ k _. refl))
    ]
  ]

  -- Every call keeps the books of the pool: no two buffers at one address; the free list holds each
  -- buffer that is not acquired once, and nothing else; free and acquired buffers add up to the
  -- capacity. The heap puts the objects of one `initialize` at distinct addresses.
  pub call-IsValid : (c : Call) (p : DmaBufPool) → IsValid p → IsValid (call heap c p)
  unfolding call reset_lease close
  call-IsValid (initializes size n map) p v = initialize-IsValid size n map p v
  call-IsValid acquires p v = acquire-IsValid p v
  call-IsValid (resets l) p v = release-IsValid l.buffer l.generation p v
  call-IsValid closes p v = empty-IsValid _ refl refl
