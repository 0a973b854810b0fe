-- ===== src/App/Buffers.antt =====
-- app/buffer_tracker.h and .cpp: the leased buffers of the program by their ids. A lease is a value of
-- `L`, which the tracker owns; `none` is the empty pointer.
use minicam_hal.Common.{ℕ, ℤ, Bool, true, false, Option, none, some, [], ◌∷◌}
use minicam_hal.Runtime.Table.{Table, lookup, remove}

pub record TrackedBufferMetadata : Type 0 where
  pub buffer_id : ℤ
  pub buffer_fd : ℤ
  pub buffer_size : ℕ

pub record TrackedBuffer (L : Type 0) : Type 0 where
  pub metadata : TrackedBufferMetadata
  pub lease : L

-- What the tracker asks a leased buffer.
pub record DmaBufView (L : Type 0) : Type 0 where
  pub fd : L → ℤ
  pub size : L → ℕ

abbrev pub BufferTracker : Type 0 → Type 0
BufferTracker L = Table (TrackedBuffer L)

module _ {L : Type 0} where
  -- A lease that is not entered is given back, by the tracked buffer that holds it.
  unfoldable pub register_buffer :
      DmaBufView L → ℤ → Option L → BufferTracker L → Bool × BufferTracker L
  register_buffer view buffer_id none t = (false, t)
  register_buffer view buffer_id (some lease) t =
      let tracked : TrackedBuffer L = record {
        metadata = record {
          buffer_id = buffer_id;
          buffer_fd = view.fd lease;
          buffer_size = view.size lease;
        };
        lease = lease;
      } in
      elim (lookup buffer_id t) [ none ↦ (true, (buffer_id, tracked) ∷ t) | some old ↦ (false, t) ]

  unfoldable pub resolve_metadata : ℤ → BufferTracker L → Option TrackedBufferMetadata
  resolve_metadata buffer_id t = elim (lookup buffer_id t) [
    | none ↦ none
    | some b ↦ some b.metadata
  ]

  unfoldable pub take_metadata : ℤ → BufferTracker L → Option (TrackedBuffer L) × BufferTracker L
  take_metadata buffer_id t = elim (lookup buffer_id t) [
    | none ↦ (none, t)
    | some b ↦ (some b, remove buffer_id t)
  ]

  unfoldable pub resolve : ℤ → BufferTracker L → Option L
  resolve buffer_id t = elim (lookup buffer_id t) [ none ↦ none | some b ↦ some b.lease ]

  unfoldable pub release : ℤ → BufferTracker L → BufferTracker L
  unfolding take_metadata
  release buffer_id t = (take_metadata buffer_id t).1

  unfoldable pub release_all : BufferTracker L → BufferTracker L
  release_all t = []
