-- ===== src/Logging/Batch/Examples.antt =====
-- The exporter's theorems at concrete runs.
use haribon.Prelude.{ℕ, ◌≡◌, refl, [], ◌∷◌, pos, false, arith}
use haribon.Logging.Batch.{Batch, running, returned, new_batch, write, close, notice, drain}
use haribon.Logging.Batch.Runs.{Run, start, next, wrote, closing}
use haribon.Logging.Batch.Kept.{Accounted, Run-Accounted}
use haribon.Logging.Batch.Closing.{IsEmptied, close-IsEmptied, late_write_is_lost}

-- Two entries written to a new exporter that is closed meanwhile.
abbrev closed_early : Batch ℕ
closed_early = write 8 (close (write 7 new_batch))

closed_early_run : Run (new_batch {A = ℕ}) (7 ∷ 8 ∷ []) closed_early
closed_early_run = next (next (next start (wrote 7) refl) closing refl) (wrote 8) refl

Run-Accounted_example : Accounted (7 ∷ 8 ∷ []) closed_early
Run-Accounted_example = Run-Accounted closed_early_run (omega arith)

abbrev busy : Batch ℕ
busy = record {
  queue = 3 ∷ 4 ∷ 5 ∷ [];
  buf = 2 ∷ [];
  sent = (0 ∷ 1 ∷ []) ∷ [];
  dropped = pos 0;
  depth = 4;
  max_batch = 2;
  closed = false;
  phase = running;
}

all_flushed :
    (drain busy.queue (notice (close busy))).sent ≡ (0 ∷ 1 ∷ []) ∷ (2 ∷ 3 ∷ []) ∷ (4 ∷ 5 ∷ []) ∷ []
unfolding drain close notice
all_flushed = refl

close-IsEmptied_example :
    Run busy [] (drain busy.queue (notice (close busy)))
    × IsEmptied busy (drain busy.queue (notice (close busy)))
close-IsEmptied_example = close-IsEmptied busy refl

abbrev over : Batch ℕ
over = record busy { queue = []; phase = returned }

late_write_is_lost_example :
    ((write 9 over).dropped ≡ over.dropped) × ((write 9 over).sent ≡ over.sent)
late_write_is_lost_example = late_write_is_lost over (write 9 over) 9 [] refl (omega arith) start
