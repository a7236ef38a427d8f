-- ===== src/Reader.antt =====
-- The stream that decryptStreamFrom of lib/tdf3/src/tdf.ts returns, over the chunks of the payload and the bounded
-- scheduler. `outcome i` is what decrypting the i-th segment ends with. A chunk that has been consumed is
-- replaced: the batch that it was scheduled with goes on holding the old one.
pub mod Held
pub mod Bounded
mod Tests
use web_sdk.Base.{
  ℕ, zero, suc, ◌+◌, ◌<◌, ◌≡◌, Bool, true, false, List, [], ◌∷◌, ◌++◌, Option, none, some, Result,
  ok, err, Error, ltb, if◌then◌else◌, length, take, drop, set, get_elem?,
}
use web_sdk.Scheduler
use web_sdk.Scheduler.{
  Config, Scheduler, Batch, initial, fill_window, mark_consumed, batch_failed, batch_settled,
}
use web_sdk.Segments.{Chunk, Mailbox, pending, filled, rejected, settle_chunk, reject_chunks}

pub record Reader : Type 0 where
  pub scheduler : Scheduler
  pub chunks : List Chunk
  pub next_chunk_index : ℕ
  pub progress : ℕ
  pub enqueued : List (List ℕ)
  pub closed : Bool

-- What a call of `pull` comes to.
pub data Pulled : Type 0 where
  awaits : Pulled
  throws : Error → Pulled
  continues : Reader → Pulled

-- The reader when the chunk that it awaited has been decrypted.
unfoldable pub consume : Config → Chunk → List ℕ → Reader → Reader
unfolding mark_consumed
consume cfg chunk plain_chunk r = record {
  scheduler = mark_consumed cfg 1 r.scheduler;
  chunks = set r.chunks r.next_chunk_index (record chunk { decrypted_chunk = pending });
  next_chunk_index = r.next_chunk_index + 1;
  progress = r.progress + chunk.encrypted_segment_size;
  enqueued = r.enqueued ++ plain_chunk ∷ [];
  closed = r.closed;
}

unfoldable pub await_chunk : Config → Chunk → Mailbox → Reader → Pulled
unfolding consume
await_chunk cfg chunk pending r = awaits
await_chunk cfg chunk (rejected e) r = throws e
await_chunk cfg chunk (filled plain_chunk) r = continues (consume cfg chunk plain_chunk r)

-- Past the last chunk the stream is closed.
unfoldable pub pull_at : Config → Option Chunk → Reader → Pulled
unfolding await_chunk
pull_at cfg none r = continues (record r { closed = true })
pull_at cfg (some chunk) r = await_chunk cfg chunk chunk.decrypted_chunk r

unfoldable pub pull : Config → Reader → Pulled
unfolding pull_at
pull cfg r = pull_at cfg (get_elem? r.chunks r.next_chunk_index) r

-- The first call of `fillWindow`, and the chunks as they were laid out.
unfoldable pub open_reader : Config → List Chunk → Reader
unfolding fill_window
open_reader cfg chunks = record {
  scheduler = fill_window cfg initial;
  chunks = chunks;
  next_chunk_index = 0;
  progress = 0;
  enqueued = [];
  closed = false;
}

abbrev pub update_at : ℕ → (Chunk → Chunk) → List Chunk → List Chunk
update_at i f [] = []
update_at zero f (c ∷ chunks) = f c ∷ chunks
update_at (suc i) f (c ∷ chunks) = c ∷ update_at i f chunks

-- The mailbox of a chunk is settled; that of a chunk that was replaced is no longer among the chunks.
unfoldable pub settle_at : ℕ → Result (List ℕ) → Reader → Reader
unfolding settle_chunk
settle_at i outcome r = record r {
  chunks =
      if ltb i r.next_chunk_index then r.chunks else update_at i (settle_chunk outcome) r.chunks;
}

-- `onError` rejects all chunks from the first of the batch on.
unfoldable pub fail_from : Batch → Error → Reader → Reader
unfolding batch_failed reject_chunks
fail_from (start_index, end_index) e r = record r {
  scheduler = batch_failed (start_index, end_index) r.scheduler;
  chunks = take start_index r.chunks ++ reject_chunks (drop start_index r.chunks) e;
}

module _ (cfg : Config) (outcome : ℕ → Result (List ℕ)) where
  -- What can happen to a reader: a call of `pull` goes on, a segment that was scheduled is decrypted, and a batch
  -- fails or ends.
  pub data Step : Reader → Reader → Type 0 where
    pulls : {r s : Reader} → r.closed ≡ false → pull cfg r ≡ continues s → Step r s
    settles :
        {r : Reader} (i : ℕ)
        → i < r.scheduler.scheduled_segments
        → Step r (settle_at i (outcome i) r)
    fails : {r : Reader} (batch : Batch) (e : Error) → Step r (fail_from batch e r)
    ends :
        {r : Reader}
        → 0 < r.scheduler.in_flight_batches
        → Step r (record r { scheduler = batch_settled cfg r.scheduler })

  pub data Reach (chunks : List Chunk) : Reader → Type 0 where
    here : Reach chunks (open_reader cfg chunks)
    next : {r s : Reader} → Reach chunks r → Step r s → Reach chunks s
