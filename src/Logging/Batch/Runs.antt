-- ===== src/Logging/Batch/Runs.antt =====
-- Everything that can happen to a batch, and its bounds.
use haribon.Prelude.{
  ℕ, suc, ◌<◌, ◌≤◌, ◌≡◌, ◌≢◌, refl, ap, Bool, true, List, [], ◌∷◌, ◌++◌, length, length-append,
  arith, Bool-cases, inl, inr, ltb, leb,
}
use haribon.Logging.Batch.{
  Phase, running, draining, returned, Batch, new_batch, write, flush, flush_buf, receive, finish,
  close, notice,
}

module _ {A : Type 0} where
  -- One step; `ws` is what it writes.
  pub data Step (b : Batch A) : List A → Batch A → Type 0 where
    wrote : (entry : A) → Step b (entry ∷ []) (write entry b)
    took :
        (entry : A) (rest : List A)
        → b.phase ≢ returned
        → b.queue ≡ entry ∷ rest
        → Step b [] (receive entry rest b)
    ticked : b.phase ≡ running → Step b [] (flush b)
    closing : Step b [] (close b)
    noticed : b.phase ≡ running → b.closed ≡ true → Step b [] (notice b)
    finished : b.phase ≡ draining → b.queue ≡ [] → Step b [] (finish b)

  -- Any number of steps, and all that they write, in order.
  pub data Run (b : Batch A) : List A → Batch A → Type 0 where
    start : Run b [] b
    next :
        {c d : Batch A} {ws vs us : List A} → Run b ws c → Step c vs d → us ≡ ws ++ vs → Run b us d

  -- A list of batches, none of which is empty or larger than `m`.
  abbrev pub Sized : ℕ → List (List A) → Type 0
  Sized m [] = Unit {0}
  Sized m (x ∷ xs) = (0 < length x) × (length x ≤ m) × Sized m xs

  Sized-append :
      (m : ℕ) (xs : List (List A)) (x : List A)
      → Sized m xs
      → 0 < length x
      → length x ≤ m
      → Sized m (xs ++ (x ∷ []))
  Sized-append m [] x h pos le = (pos, le, tt)
  Sized-append m (y ∷ xs) x h pos le = (h.0, h.1, Sized-append m xs x h.2 pos le)

  pub record IsBounded (d m : ℕ) (b : Batch A) : Type 0 where
    pub depth_is : b.depth ≡ d
    pub max_is : b.max_batch ≡ m
    pub queue_fits : length b.queue ≤ d
    pub buf_fits : length b.buf < m
    pub sent_fits : Sized m b.sent

  flush_buf-IsBounded :
      (d m : ℕ) (xs : List A) (b : Batch A)
      → b.buf ≡ xs
      → b.depth ≡ d
      → b.max_batch ≡ m
      → 0 < m
      → length b.queue ≤ d
      → length xs ≤ m
      → Sized m b.sent
      → IsBounded d m (flush_buf xs b)
  unfolding flush_buf
  flush_buf-IsBounded d m [] b e ed em p q n s = record {
    depth_is = ed;
    max_is = em;
    queue_fits = q;
    buf_fits = rw e p;
    sent_fits = s;
  }
  flush_buf-IsBounded d m (x ∷ xs) b e ed em p q n s = record {
    depth_is = ed;
    max_is = em;
    queue_fits = q;
    buf_fits = p;
    sent_fits = Sized-append m b.sent (x ∷ xs) s (omega arith) n;
  }

  flush-IsBounded : (d m : ℕ) (b : Batch A) → IsBounded d m b → IsBounded d m (flush b)
  unfolding flush
  flush-IsBounded d m b h =
      flush_buf-IsBounded d m b.buf b refl h.depth_is h.max_is (omega arith) h.queue_fits
        (omega arith) h.sent_fits

  write-IsBounded :
      (d m : ℕ) (entry : A) (b : Batch A) → IsBounded d m b → IsBounded d m (write entry b)
  unfolding write
  write-IsBounded d m entry b h = elim (Bool-cases (ltb (length b.queue) b.depth)) [
    | inl room ↦ rw room (record {
      depth_is = h.depth_is;
      max_is = h.max_is;
      queue_fits = ground (arith, h.depth_is, length-append b.queue (entry ∷ []));
      buf_fits = h.buf_fits;
      sent_fits = h.sent_fits;
    })
    | inr full ↦ rw full (record {
      depth_is = h.depth_is;
      max_is = h.max_is;
      queue_fits = h.queue_fits;
      buf_fits = h.buf_fits;
      sent_fits = h.sent_fits;
    })
  ]

  receive-IsBounded :
      (d m : ℕ) (entry : A) (rest : List A) (b : Batch A)
      → b.queue ≡ entry ∷ rest
      → IsBounded d m b
      → IsBounded d m (receive entry rest b)
  unfolding receive
  receive-IsBounded d m entry rest b e h =
      let grown = length-append b.buf (entry ∷ []) in
      let left : suc (length rest) ≤ d = rw (← (ap length e)) h.queue_fits in
      elim (Bool-cases (leb b.max_batch (length (b.buf ++ (entry ∷ []))))) [
        | inl whole ↦ rw whole (
            flush_buf-IsBounded d m (b.buf ++ (entry ∷ []))
              (record b { queue = rest; buf = b.buf ++ (entry ∷ []) }) refl h.depth_is h.max_is
              (omega arith) (omega arith) (omega (arith, grown)) h.sent_fits)
        | inr room ↦ rw room (record {
          depth_is = h.depth_is;
          max_is = h.max_is;
          queue_fits = omega arith;
          buf_fits = ground (arith, h.max_is);
          sent_fits = h.sent_fits;
        })
      ]

  kept-IsBounded :
      (d m : ℕ) (b : Batch A) (shut : Bool) (p : Phase)
      → IsBounded d m b
      → IsBounded d m (record b { closed = shut; phase = p })
  kept-IsBounded d m b shut p h = record {
    depth_is = h.depth_is;
    max_is = h.max_is;
    queue_fits = h.queue_fits;
    buf_fits = h.buf_fits;
    sent_fits = h.sent_fits;
  }

  Step-IsBounded :
      (d m : ℕ) {b c : Batch A} {ws : List A} → Step b ws c → IsBounded d m b → IsBounded d m c
  unfolding finish close notice
  Step-IsBounded d m {b} (wrote entry) h = write-IsBounded d m entry b h
  Step-IsBounded d m {b} (took entry rest on e) h = receive-IsBounded d m entry rest b e h
  Step-IsBounded d m {b} (ticked on) h = flush-IsBounded d m b h
  Step-IsBounded d m {b} closing h = kept-IsBounded d m b true b.phase h
  Step-IsBounded d m {b} (noticed on shut) h = kept-IsBounded d m b b.closed draining h
  Step-IsBounded d m {b} (finished on e) h =
      kept-IsBounded d m (flush b) (flush b).closed returned (flush-IsBounded d m b h)

  -- Whatever happens to a new exporter, its queue never holds more than 4096 entries, its buffer
  -- fewer than 256, and no call of send gets an empty batch or one of more than 256 entries.
  pub Run-IsBounded : {b : Batch A} {ws : List A} → Run new_batch ws b → IsBounded 4096 256 b
  unfolding new_batch
  Run-IsBounded start = record {
    depth_is = refl;
    max_is = refl;
    queue_fits = omega arith;
    buf_fits = omega arith;
    sent_fits = tt;
  }
  Run-IsBounded (next r s e) = Step-IsBounded 4096 256 s (Run-IsBounded r)
