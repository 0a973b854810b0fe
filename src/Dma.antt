-- ===== src/Dma.antt =====
-- hal/dma_buf_allocator.h and .cpp: the pool of DMA buffers and its leases. A `DmaBuf` object stands
-- at an address. What the DMA heap answers is a parameter; the memory itself is the kernel's.
pub mod Books
pub mod Pool
pub mod Leases
mod Tests
use Prim.Native.String.{◌++◌ as append}
use minicam_hal.Common.{
  ℕ, zero, suc, ◌+◌, ℤ, Bool, true, false, not, ◌&&◌, ◌||◌, Option, none, some, List, [], ◌∷◌, ◌++◌,
  String, if◌then◌else◌, minus_one, is_neg, ◌==◌, inc64, length,
}

-- For the allocation number `i`: the heap's fd, if it opens; the fd of the buffer, if the `ioctl`
-- succeeds; does the mapping succeed; and the address of the object that will own it.
pub record Heap : Type 0 where
  pub open_fd : Option ℤ
  pub allocate : ℕ → Option ℤ
  pub map_succeeds : ℕ → Bool
  pub address : ℕ → ℕ
  pub strerror : String

pub record DmaBuf : Type 0 where
  pub address : ℕ
  pub fd : ℤ
  pub size : ℕ
  pub mapped : Bool
  pub acquired : Bool

pub record DmaBufPool : Type 0 where
  pub heap_fd : ℤ
  pub last_error : String
  pub buffer_size : ℕ
  pub generation : ℕ
  pub buffers : List DmaBuf
  pub free_buffers : List ℕ

-- `none` is the null buffer. Every lease is of the one pool.
pub record DmaBufLease : Type 0 where
  pub buffer : Option ℕ
  pub generation : ℕ

abbrev pub new_pool : DmaBufPool
new_pool = record {
  heap_fd = minus_one;
  last_error = "";
  buffer_size = 0;
  generation = 0;
  buffers = [];
  free_buffers = [];
}

abbrev pub no_lease : DmaBufLease
no_lease = record { buffer = none; generation = 0 }

abbrev set_error : String → DmaBufPool → DmaBufPool
set_error e p = record p { last_error = e }

-- Writes `acquired_` through a pointer to the object at the address.
unfoldable pub set_acquired : ℕ → Bool → List DmaBuf → List DmaBuf
set_acquired a v [] = []
set_acquired a v (b ∷ bs) =
    (if b.address == a then record b { acquired = v } else b) ∷ set_acquired a v bs

-- Is the object at the address one of the pool's, and acquired?
unfoldable pub is_acquired : ℕ → List DmaBuf → Bool
is_acquired a [] = false
is_acquired a (b ∷ bs) = b.address == a && b.acquired || is_acquired a bs

unfoldable pub acquire : DmaBufPool → DmaBufLease × DmaBufPool
acquire p = elim p.free_buffers [
  | [] ↦ (no_lease, set_error "no free dma-buf available" p)
  | a ∷ rest ↦ (
    record { buffer = some a; generation = p.generation },
    record p { free_buffers = rest; buffers = set_acquired a true p.buffers },
  )
]

unfoldable pub release : Option ℕ → ℕ → DmaBufPool → DmaBufPool
release none generation p = p
release (some a) generation p =
    if generation == p.generation
    then (if is_acquired a p.buffers
        then record p {
          buffers = set_acquired a false p.buffers;
          free_buffers = p.free_buffers ++ (a ∷ []);
        }
        else p)
    else p

-- `DmaBufLease::reset`, and the destructor.
unfoldable pub reset_lease : DmaBufLease → DmaBufPool → DmaBufLease × DmaBufPool
reset_lease l p = (no_lease, release l.buffer l.generation p)

unfoldable pub close : DmaBufPool → DmaBufPool
close p = record p {
  generation = inc64 p.generation;
  free_buffers = [];
  buffers = [];
  buffer_size = 0;
  heap_fd = if is_neg p.heap_fd then p.heap_fd else minus_one;
}

unfoldable pub available : DmaBufPool → ℕ
available p = length p.free_buffers

unfoldable pub capacity : DmaBufPool → ℕ
capacity p = length p.buffers

module _ (heap : Heap) where
  unfoldable pub ensure_open_locked : DmaBufPool → Bool × DmaBufPool
  ensure_open_locked p =
      if is_neg p.heap_fd
      then elim heap.open_fd [
        | none ↦ (
          false,
          set_error (append "open dma heap failed: " heap.strerror)
              (record p { heap_fd = minus_one }),
        )
        | some fd ↦ (true, record p { heap_fd = fd })
      ]
      else (true, p)

  unfoldable pub allocate_locked : ℕ → ℕ → Bool → DmaBufPool → Option DmaBuf × DmaBufPool
  allocate_locked i size map p =
      let (opened, p') = ensure_open_locked p in
      if opened
      then elim (heap.allocate i) [
        | none ↦ (none, set_error (append "DMA_HEAP_IOCTL_ALLOC failed: " heap.strerror) p')
        | some fd ↦
            if map && not (heap.map_succeeds i)
            then (none, set_error (append "mmap dma-buf failed: " heap.strerror) p')
            else (
              some (record {
                address = heap.address i;
                fd = fd;
                size = size;
                mapped = map;
                acquired = false;
              }),
              p',
            )
      ]
      else (none, p')

  -- The loop of `initialize`, `n` allocations from number `i` on.
  unfoldable pub allocate_each : ℕ → ℕ → ℕ → Bool → DmaBufPool → Bool × DmaBufPool
  allocate_each zero i size map p = (true, p)
  allocate_each (suc n) i size map p =
      let (allocated, p') = allocate_locked i size map p in
      elim allocated [
        | none ↦ (false, record p' { buffers = []; free_buffers = [] })
        | some b ↦ allocate_each n (i + 1) size map (record p' {
          buffers = p'.buffers ++ (b ∷ []);
          free_buffers = p'.free_buffers ++ (b.address ∷ []);
        })
      ]

  unfoldable pub initialize : ℕ → ℕ → Bool → DmaBufPool → Bool × DmaBufPool
  initialize size n map p =
      if size == 0
      then (false, set_error "dma-buf allocation size must be non-zero" p)
      else if n == 0
      then (false, set_error "dma-buf pool buffer count must be non-zero" p)
      else allocate_each n 0 size map (record p {
        generation = inc64 p.generation;
        buffers = [];
        free_buffers = [];
        buffer_size = size;
      })
