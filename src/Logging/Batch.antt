-- ===== src/Logging/Batch.antt =====
-- internal/logging/exporter.go: the bounded queue of a remote exporter and the goroutine that drains
-- it. One select of the goroutine, one Write and one Close are the steps; they come in any order.
-- What `send` was given is kept in the order of the calls.
pub mod Runs
pub mod Kept
pub mod Closing
mod Examples
use haribon.Prelude.{
  ℕ, suc, Bool, true, false, ◌&&◌, List, [], ◌∷◌, ◌++◌, length, ltb, leb, ℤ, pos, inc_int64,
  if◌then◌else◌,
}

abbrev pub default_queue_depth : ℕ
default_queue_depth = 4096

abbrev pub default_max_batch : ℕ
default_max_batch = 256

-- Where the goroutine stands: in its loop, in the loop that empties the queue, or returned.
pub data Phase : Type 0 where
  running draining returned : Phase

-- type batch struct, with the `buf` of run
pub record Batch (A : Type 0) : Type 0 where
  pub queue : List A
  pub buf : List A
  pub sent : List (List A)
  pub dropped : ℤ
  pub depth : ℕ
  pub max_batch : ℕ
  pub closed : Bool
  pub phase : Phase

module _ {A : Type 0} where
  -- func newBatch
  unfoldable pub new_batch : Batch A
  new_batch = record {
    queue = [];
    buf = [];
    sent = [];
    dropped = pos 0;
    depth = default_queue_depth;
    max_batch = default_max_batch;
    closed = false;
    phase = running;
  }

  -- func (b *batch) Write
  unfoldable pub write : A → Batch A → Batch A
  write entry b =
      if ltb (length b.queue) b.depth
      then record b { queue = b.queue ++ (entry ∷ []) }
      else record b { dropped = inc_int64 b.dropped }

  -- flush, with the buffer as an argument
  unfoldable pub flush_buf : List A → Batch A → Batch A
  flush_buf [] b = b
  flush_buf (x ∷ xs) b = record b { sent = b.sent ++ ((x ∷ xs) ∷ []); buf = [] }

  unfoldable pub flush : Batch A → Batch A
  unfolding flush_buf
  flush b = flush_buf b.buf b

  -- the case of a received entry, with what the queue holds after it
  unfoldable pub receive : A → List A → Batch A → Batch A
  unfolding flush
  receive entry rest b =
      let b' : Batch A = record b { queue = rest; buf = b.buf ++ (entry ∷ []) } in
      if leb b.max_batch (length b'.buf) then flush b' else b'

  -- the default case of the loop that empties the queue
  unfoldable pub finish : Batch A → Batch A
  unfolding flush
  finish b = record (flush b) { phase = returned }

  -- close(b.done)
  unfoldable pub close : Batch A → Batch A
  close b = record b { closed = true }

  -- the case of b.done
  unfoldable pub notice : Batch A → Batch A
  notice b = record b { phase = draining }

  -- The loop that empties the queue, when nothing is written meanwhile.
  unfoldable pub drain : List A → Batch A → Batch A
  unfolding receive finish
  drain [] b = finish b
  drain (entry ∷ rest) b = drain rest (receive entry rest b)
