-- ===== src/Logging/Batch/Kept.antt =====
-- No entry is lost uncounted, sent twice or sent out of order while the exporter lives.
use haribon.Prelude.{
  ℕ, suc, ◌<◌, ◌≤◌, ◌≡◌, refl, sym, ap, subst, ◌∙◌, List, [], ◌∷◌, ◌++◌, length, length-append,
  arith, Bool-cases, inl, inr, ltb, leb, pos, inc_int64, max_int64,
}
use mathlib.Core.List.{append_assoc, append-nil}
use haribon.Logging.Batch.{
  Batch, new_batch, write, flush, flush_buf, receive, finish, close, notice,
}
use haribon.Logging.Batch.Runs.{
  Step, wrote, took, ticked, closing, noticed, finished, Run, start, next,
}

module _ {A : Type 0} where
  -- The entries of all batches, in order.
  abbrev pub joined : List (List A) → List A
  joined [] = []
  joined (x ∷ xs) = x ++ joined xs

  joined-append : (xs : List (List A)) (x : List A) → joined (xs ++ (x ∷ [])) ≡ joined xs ++ x
  joined-append [] x = append-nil x
  joined-append (y ∷ xs) x = rw (joined-append xs x) (sym (append_assoc y (joined xs) x))

  -- What has been sent, then what waits in the buffer, then what waits in the queue.
  abbrev pub handed : Batch A → List A
  handed b = joined b.sent ++ (b.buf ++ b.queue)

  -- `ks` is what is left of `ws` when `n` of its entries are dropped.
  pub data Kept : List A → ℕ → List A → Type 0 where
    none_written : Kept [] 0 []
    keep :
        {ks ks' ws ws' : List A} {n : ℕ} (x : A)
        → Kept ks n ws
        → ks' ≡ ks ++ (x ∷ [])
        → ws' ≡ ws ++ (x ∷ [])
        → Kept ks' n ws'
    drop :
        {ks ws ws' : List A} {n : ℕ} (x : A)
        → Kept ks n ws
        → ws' ≡ ws ++ (x ∷ [])
        → Kept ks (suc n) ws'

  Kept-le : {ks ws : List A} {n : ℕ} → Kept ks n ws → n ≤ length ws
  Kept-le none_written = omega arith
  Kept-le (keep {ws} x k ea ew) = rw ew (omega (arith, Kept-le k, length-append ws (x ∷ [])))
  Kept-le (drop {ws} x k ew) = rw ew (omega (arith, Kept-le k, length-append ws (x ∷ [])))

  flush_buf-handed :
      (xs : List A) (b : Batch A)
      → b.buf ≡ xs
      → (handed (flush_buf xs b) ≡ handed b) × ((flush_buf xs b).dropped ≡ b.dropped)
  unfolding flush_buf
  flush_buf-handed [] b e = (refl, refl)
  flush_buf-handed (x ∷ xs) b e = (
    rw e (rw (joined-append b.sent (x ∷ xs)) (append_assoc (joined b.sent) (x ∷ xs) b.queue)),
    refl,
  )

  -- A state with the same entries and the same count of dropped ones.
  abbrev pub Same : Batch A → Batch A → Type 0
  Same c b = (handed c ≡ handed b) × (c.dropped ≡ b.dropped)

  receive-Same :
      (entry : A) (rest : List A) (b : Batch A)
      → b.queue ≡ entry ∷ rest
      → Same (receive entry rest b) b
  unfolding receive flush
  receive-Same entry rest b e =
      let grown : List A = b.buf ++ (entry ∷ []) in
      let b' : Batch A = record b { queue = rest; buf = grown } in
      let moved : handed b' ≡ handed b =
        rw e (ap (λ l. joined b.sent ++ l) (append_assoc b.buf (entry ∷ []) rest)) in
      elim (Bool-cases (leb b.max_batch (length grown))) [
        | inl whole ↦
            let (same, count) = flush_buf-handed grown b' refl in rw whole (same ∙ moved, count)
        | inr room ↦ rw room (moved, refl)
      ]

  pub quiet-Same : {b c : Batch A} → Step b [] c → Same c b
  unfolding close notice finish flush
  quiet-Same {b} (took entry rest on e) = receive-Same entry rest b e
  quiet-Same {b} (ticked on) = flush_buf-handed b.buf b refl
  quiet-Same closing = (refl, refl)
  quiet-Same (noticed on shut) = (refl, refl)
  quiet-Same {b} (finished on e) = flush_buf-handed b.buf b refl

  -- What the counter and the entries of a state say of what was written.
  abbrev pub Accounted : List A → Batch A → Type 0
  Accounted ws b = (n : ℕ) × Kept (handed b) n ws × (b.dropped ≡ pos n)

  write-Accounted :
      (entry : A) (b : Batch A) (ws us : List A)
      → us ≡ ws ++ (entry ∷ [])
      → length us ≤ max_int64
      → Accounted ws b
      → Accounted us (write entry b)
  unfolding write inc_int64
  write-Accounted entry b ws us e small (n, k, count) =
      let most : n < max_int64 =
        omega (arith, Kept-le k, ap length e, length-append ws (entry ∷ [])) in
      elim (Bool-cases (ltb (length b.queue) b.depth)) [
        | inl room ↦ rw room (
          n,
          keep entry k
              (ap (λ l. joined b.sent ++ l) (sym (append_assoc b.buf b.queue (entry ∷ [])))
                ∙ sym (append_assoc (joined b.sent) (b.buf ++ b.queue) (entry ∷ [])))
              e,
          count,
        )
        | inr full ↦ rw full (suc n, drop entry k e, rw count (ground arith))
      ]

  quiet-Accounted :
      (b c : Batch A) (ws us : List A)
      → Step b [] c
      → us ≡ ws ++ []
      → Accounted ws b
      → Accounted us c
  quiet-Accounted b c ws us st e (n, k, count) =
      let (same, kept) = quiet-Same st in
      (
        n,
        subst (λ l. Kept l n us) (sym same)
            (subst (λ l. Kept (handed b) n l) (sym (e ∙ append-nil ws)) k),
        kept ∙ count,
      )

  Step-Accounted :
      {b c : Batch A} {vs : List A} (ws us : List A)
      → Step b vs c
      → us ≡ ws ++ vs
      → length us ≤ max_int64
      → Accounted ws b
      → Accounted us c
  Step-Accounted {b} ws us (wrote entry) e small h = write-Accounted entry b ws us e small h
  Step-Accounted ws us (took entry rest on q) e small h =
      quiet-Accounted _ _ ws us (took entry rest on q) e h
  Step-Accounted ws us (ticked on) e small h = quiet-Accounted _ _ ws us (ticked on) e h
  Step-Accounted ws us closing e small h = quiet-Accounted _ _ ws us closing e h
  Step-Accounted ws us (noticed on shut) e small h = quiet-Accounted _ _ ws us (noticed on shut) e h
  Step-Accounted ws us (finished on q) e small h = quiet-Accounted _ _ ws us (finished on q) e h

  -- Whatever happens to a new exporter, the entries of the batches that it has sent, then those in
  -- its buffer, then those in its queue are the entries written, in order and each once, less as many
  -- as its counter of dropped entries says.
  pub Run-Accounted :
      {b : Batch A} {ws : List A} → Run new_batch ws b → length ws ≤ max_int64 → Accounted ws b
  unfolding new_batch
  Run-Accounted start small = (0, none_written, refl)
  Run-Accounted (next {ws} {vs} {us} r s e) small =
      Step-Accounted ws us s e small
        (Run-Accounted r (omega (arith, ap length e, length-append ws vs)))
