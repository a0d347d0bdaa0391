-- ===== src/Logging/Exporters/Examples.antt =====
-- The theorems on the remote exporters at two entries.
use haribon.Prelude.{ℕ, ◌≡◌, refl, Option, some, List, [], ◌∷◌, ◌++◌, true, ℤ, pos, arith}
use haribon.Prelude.Lines.{lines_from, lacks-Without}
use haribon.Logging.Batch.{Batch, new_batch, write, running}
use haribon.Logging.Batch.Runs.{Run, start, next, wrote}
use haribon.Logging.Batch.Kept.{Kept}
use haribon.Logging.Exporters.Bulk.{bulk_lines}
use haribon.Logging.Exporters.Requests.{ElasticsearchExporter, bulk}
use haribon.Logging.Exporters.Shipped.{closed_down, written, body_of, bulk_ships}
use haribon.Logging.Exporters.{bytes, LogEntry, forward_body, format_text}
use haribon.Logging.Exporters.Forward.{AllFit, messages, forward_body-Reads}
use haribon.Logging.Msgpack.RoundTrip.{Reads}

abbrev entry : LogEntry
entry = record {
  time = bytes "t1";
  method = bytes "GET";
  path = bytes "/";
  backend = bytes "b";
  status = pos 200;
  duration_ms = pos 12;
  retries = pos 1;
  level = bytes "info";
}

abbrev entries : List LogEntry
entries = entry ∷ record entry { retries = pos 0; status = pos 404 } ∷ []

abbrev unix_time : LogEntry → ℤ
unix_time e = pos 1700000000

abbrev marshal : LogEntry → Option (List ℕ)
marshal e = some (bytes "{}")

entries-AllFit : AllFit unix_time entries
entries-AllFit = omega arith

forward_body-Reads_example :
    Reads
      (messages unix_time (bytes "haribon") entries)
      (forward_body unix_time (bytes "haribon") entries)
      []
forward_body-Reads_example =
    forward_body-Reads unix_time (bytes "haribon") entries (omega arith) entries-AllFit

text_line :
    format_text (λ t. t) (λ t. t) (λ n. bytes "7") entry
    ≡ bytes "t1 info  GET / -> b 7 7ms retries=7"
unfolding format_text
text_line = refl

abbrev index_action : List ℕ → List ℕ
index_action index = bytes "{" ++ (index ++ bytes "}")

abbrev elastic : ElasticsearchExporter
elastic = record { batch = new_batch; url = bytes "http://e"; index = bytes "h" }

abbrev two_written : Batch LogEntry
two_written = write (record entry { status = pos 404 }) (write entry new_batch)

two_written-Run : Run new_batch (entry ∷ record entry { status = pos 404 } ∷ []) two_written
two_written-Run =
    next (next start (wrote entry) refl) (wrote (record entry { status = pos 404 })) refl

two_are_running : two_written.phase ≡ running
unfolding write new_batch
two_are_running = refl

bulk_ships_example :
    (n : ℕ) × (ks : List LogEntry) × Kept ks n (entry ∷ record entry { status = pos 404 } ∷ [])
    × ((closed_down two_written).dropped ≡ pos n)
    × (lines_from [] (
          written
            (λ es. body_of (bulk (λ u. true) marshal index_action elastic es))
            (closed_down two_written).sent)
        ≡ bulk_lines marshal (bytes "{h}") ks)
bulk_ships_example =
    bulk_ships (λ u. true) marshal index_action elastic two_written-Run two_are_running
      (omega arith) refl (lacks-Without b'\n' (bytes "{h}") refl)
      (λ x. lacks-Without b'\n' (bytes "{}") refl)
