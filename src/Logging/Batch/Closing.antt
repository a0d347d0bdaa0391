-- ===== src/Logging/Batch/Closing.antt =====
-- Close, and what comes after it.
use haribon.Prelude.{
  ◌<◌, ◌≡◌, ◌≢◌, refl, sym, ◌∙◌, List, [], ◌∷◌, ◌++◌, length, Bool-cases, inl, inr, ltb, leb,
  lt→ltb,
}
use mathlib.Core.List.{append-nil}
use haribon.Logging.Batch.{
  running, draining, returned, Batch, write, flush, flush_buf, receive, finish, close, notice,
  drain,
}
use haribon.Logging.Batch.Runs.{
  Step, wrote, took, ticked, closing, noticed, finished, Run, start, next,
}
use haribon.Logging.Batch.Kept.{joined, handed, Same, quiet-Same}

module _ {A : Type 0} where
  flush_buf-buf : (xs : List A) (b : Batch A) → b.buf ≡ xs → (flush_buf xs b).buf ≡ []
  unfolding flush_buf
  flush_buf-buf [] b e = e
  flush_buf-buf (x ∷ xs) b e = refl

  flush_buf-phase :
      (xs : List A) (b : Batch A)
      → ((flush_buf xs b).phase ≡ b.phase) × ((flush_buf xs b).queue ≡ b.queue)
  unfolding flush_buf
  flush_buf-phase [] b = (refl, refl)
  flush_buf-phase (x ∷ xs) b = (refl, refl)

  receive-phase :
      (entry : A) (rest : List A) (b : Batch A)
      → ((receive entry rest b).phase ≡ b.phase) × ((receive entry rest b).queue ≡ rest)
  unfolding receive flush
  receive-phase entry rest b =
      elim (Bool-cases (leb b.max_batch (length (b.buf ++ (entry ∷ []))))) [
        | inl whole ↦ rw whole (flush_buf-phase (b.buf ++ (entry ∷ [])) _)
        | inr room ↦ rw room (refl, refl)
      ]

  pub record IsEmptied (b c : Batch A) : Type 0 where
    pub has_returned : c.phase ≡ returned
    pub nothing_queued : c.queue ≡ []
    pub nothing_buffered : c.buf ≡ []
    pub all_sent : joined c.sent ≡ handed b
    pub none_dropped : c.dropped ≡ b.dropped

  handed_empty : (c : Batch A) → c.queue ≡ [] → c.buf ≡ [] → handed c ≡ joined c.sent
  handed_empty c q e = rw (q, e) (append-nil (joined c.sent))

  drain-IsEmptied :
      (xs : List A) (b c : Batch A)
      → c.queue ≡ xs
      → c.phase ≡ draining
      → Same c b
      → IsEmptied b (drain xs c)
  unfolding drain
  drain-IsEmptied [] b c q p (same, count) =
      let end : Same (finish c) c = quiet-Same (finished p q) in
      let buf : (finish c).buf ≡ [] = unfold finish flush in flush_buf-buf c.buf c refl in
      let queue : (finish c).queue ≡ [] =
        unfold finish flush in ((flush_buf-phase c.buf c).1 ∙ q) in
      record {
        has_returned = unfold finish in refl;
        nothing_queued = queue;
        nothing_buffered = buf;
        all_sent = sym (handed_empty (finish c) queue buf) ∙ end.0 ∙ same;
        none_dropped = end.1 ∙ count;
      }
  drain-IsEmptied (x ∷ xs) b c q p (same, count) =
      let on : c.phase ≢ returned = λ r. cc in
      let (moved, kept) = quiet-Same (took x xs on q) in
      drain-IsEmptied xs b (receive x xs c) (receive-phase x xs c).1 ((receive-phase x xs c).0 ∙ p)
        (moved ∙ same, kept ∙ count)

  drain-Run :
      (xs : List A) (b c : Batch A)
      → c.queue ≡ xs
      → c.phase ≡ draining
      → Run b [] c
      → Run b [] (drain xs c)
  unfolding drain
  drain-Run [] b c q p r = next r (finished p q) refl
  drain-Run (x ∷ xs) b c q p r =
      let on : c.phase ≢ returned = λ e. cc in
      drain-Run xs b (receive x xs c) (receive-phase x xs c).1 ((receive-phase x xs c).0 ∙ p)
        (next r (took x xs on q) refl)

  -- Close ends: while nothing more is written, the goroutine of a running exporter notices it, takes
  -- one entry after the other from the queue and returns; then the queue and the buffer are empty,
  -- everything that waited has been sent behind what was sent before, in order, and nothing more is
  -- counted as dropped.
  pub close-IsEmptied :
      (b : Batch A)
      → b.phase ≡ running
      → Run b [] (drain b.queue (notice (close b))) × IsEmptied b (drain b.queue (notice (close b)))
  unfolding close notice
  close-IsEmptied b p = (
    drain-Run b.queue b (notice (close b)) refl refl
        (next (next start closing refl) (noticed p refl) refl),
    drain-IsEmptied b.queue b (notice (close b)) refl refl (refl, refl),
  )

  write-sent :
      (entry : A) (b : Batch A)
      → ((write entry b).sent ≡ b.sent) × ((write entry b).phase ≡ b.phase)
  unfolding write
  write-sent entry b = elim (Bool-cases (ltb (length b.queue) b.depth)) [
    | inl room ↦ rw room (refl, refl)
    | inr full ↦ rw full (refl, refl)
  ]

  returned-Step :
      {b c : Batch A} {ws : List A}
      → Step b ws c
      → b.phase ≡ returned
      → (c.sent ≡ b.sent) × (c.phase ≡ returned)
  unfolding close
  returned-Step {b} (wrote entry) p = ((write-sent entry b).0, (write-sent entry b).1 ∙ p)
  returned-Step (took entry rest on q) p = absurd (on p)
  returned-Step (ticked on) p = cc
  returned-Step closing p = (refl, p)
  returned-Step (noticed on shut) p = cc
  returned-Step (finished on q) p = cc

  returned-Run :
      {b c : Batch A} {ws : List A}
      → Run b ws c
      → b.phase ≡ returned
      → (c.sent ≡ b.sent) × (c.phase ≡ returned)
  returned-Run start p = (refl, p)
  returned-Run (next r s e) p =
      let (same, there) = returned-Run r p in
      let (same', there') = returned-Step s there in (same' ∙ same, there')

  -- An entry that is written after the goroutine has returned, while the queue has room, is not
  -- counted as dropped, and nothing is sent any more, whatever happens next.
  pub late_write_is_lost :
      (b c : Batch A) (entry : A) (ws : List A)
      → b.phase ≡ returned
      → length b.queue < b.depth
      → Run (write entry b) ws c
      → ((write entry b).dropped ≡ b.dropped) × (c.sent ≡ b.sent)
  late_write_is_lost b c entry ws p room r = (
    unfold write in (rw (lt→ltb (length b.queue) b.depth room) refl),
    (returned-Run r ((write-sent entry b).1 ∙ p)).0 ∙ (write-sent entry b).0,
  )
