-- ===== src/Dma/Tests.antt =====
-- A pool of two buffers, and its leases.
use minicam_hal.Common.{ℕ, ◌+◌, ◌≡◌, ◌≢◌, refl, true, [], ◌∷◌, some, pos, arith}
use minicam_hal.Dma.{
  Heap, DmaBufPool, new_pool, no_lease, acquire, release, reset_lease, close, available, initialize,
  allocate_each, allocate_locked, ensure_open_locked,
}
use minicam_hal.Dma.Books.{IsValid}
use minicam_hal.Dma.Pool.{acquires, initializes, call, call-IsValid}
use minicam_hal.Dma.Leases.{run, stale-release, acquire-acquire, acquire-reset}

abbrev heap : Heap
heap = record {
  open_fd = some (pos 3);
  allocate = λ i. some (pos (10 + i));
  map_succeeds = λ i. true;
  address = λ i. 100 + i;
  strerror = "";
}

abbrev pool : DmaBufPool
pool = (initialize heap 96 2 true new_pool).1

new_pool-IsValid : IsValid new_pool
new_pool-IsValid = record { distinct = λ a. omega arith; free_exact = λ a. refl; conserved = refl }

call-IsValid_example : IsValid (call heap (initializes 96 2 true) new_pool)
call-IsValid_example =
    call-IsValid heap (λ i j e. omega (arith, e)) (initializes 96 2 true) new_pool new_pool-IsValid

pool-IsValid : IsValid pool
unfolding call
pool-IsValid = call-IsValid_proof
  where
    call-IsValid_proof : IsValid (call heap (initializes 96 2 true) new_pool)
    call-IsValid_proof =
        call-IsValid heap (λ i j e. omega (arith, e)) (initializes 96 2 true) new_pool
          new_pool-IsValid

-- The buffer at address 100 is taken anew.
stale-release_example :
    let closed = run heap (acquires ∷ []) (close pool) in
    let renewed = run heap (acquires ∷ []) (initialize heap 64 1 true pool).1 in
    (release (some 100) pool.generation closed ≡ closed)
    × (release (some 100) pool.generation renewed ≡ renewed)
stale-release_example =
    stale-release heap 64 1 true (some 100) (acquires ∷ []) pool (ground arith) (ground arith)
      (refl, tt)

acquire-acquire_example : ◌≢◌ {A = ℕ} 100 101
unfolding acquire initialize allocate_each allocate_locked ensure_open_locked
acquire-acquire_example = acquire-acquire pool 100 101 pool-IsValid refl refl

acquire-reset_example :
    let (lease, taken) = acquire pool in
    let (empty, returned) = reset_lease lease taken in
    (available taken + 1 ≡ available pool)
    × (returned.free_buffers ≡ 101 ∷ 100 ∷ [])
    × (release lease.buffer lease.generation returned ≡ returned)
    × (reset_lease empty returned ≡ (no_lease, returned))
unfolding initialize allocate_each allocate_locked ensure_open_locked
acquire-reset_example = acquire-reset pool 100 (101 ∷ []) pool-IsValid refl
