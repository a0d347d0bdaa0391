-- ===== src/Logging/Exporters/Shipped.antt =====
-- From Write to the network: what the bodies of an exporter's requests hold when it has been closed.
use haribon.Prelude.{
  ℕ, ◌≡◌, refl, sym, ap, ap₂, ◌∙◌, Option-cases, inl, inr, ◌≤◌, Bool, true, Option, none, some,
  List, [], ◌∷◌, ◌++◌, length, pos, max_int64, ℤ,
}
use mathlib.Core.List.{append_assoc}
use haribon.Prelude.Lines.{OneLine, lines_from}
use haribon.Logging.Batch.{Batch, new_batch, close, notice, drain, running}
use haribon.Logging.Batch.Runs.{Run}
use haribon.Logging.Batch.Kept.{Kept, joined, handed, Run-Accounted}
use haribon.Logging.Batch.Closing.{close-IsEmptied}
use haribon.Logging.Msgpack.Defs.{pack_forward_message}
use haribon.Logging.Exporters.{LogEntry, bytes, record_fields, bulk_body, forward_body}
use haribon.Logging.Exporters.Bulk.{OneLineDoc, OneLineEach, bulk_lines, lines-bulk_body}
use haribon.Logging.Exporters.Requests.{
  ElasticsearchExporter, FluentbitExporter, Request, new_request, bulk_buffer, bulk, forward_buffer,
  forward,
}

-- An exporter's batch after Close, when its goroutine has returned.
abbrev pub closed_down : Batch LogEntry → Batch LogEntry
closed_down b = drain b.queue (notice (close b))

-- What the calls for the batches write, one after the other.
abbrev pub written : (List LogEntry → List ℕ) → List (List LogEntry) → List ℕ
written send [] = []
written send (es ∷ batches) = send es ++ written send batches

abbrev pub body_of : Option Request → List ℕ
body_of none = []
body_of (some request) = request.body

abbrev pub bytes_of : Option (List ℕ) → List ℕ
bytes_of none = []
bytes_of (some sent) = sent

bulk_body-append :
    (marshal : LogEntry → Option (List ℕ)) (action : List ℕ) (xs ys : List LogEntry)
    → bulk_body marshal action (xs ++ ys)
      ≡ bulk_body marshal action xs ++ bulk_body marshal action ys
unfolding bulk_body
bulk_body-append marshal action [] ys = refl
bulk_body-append marshal action (x ∷ xs) ys = elim (Option-cases (marshal x)) [
  | inl missing ↦ rw (missing, bulk_body) (bulk_body-append marshal action xs ys)
  | inr (doc, found) ↦
      let more : List ℕ = bulk_body marshal action xs in
      rw (found, bulk_body)
        (ap (λ l. action ++ (b'\n' ∷ (doc ++ (b'\n' ∷ l)))) (bulk_body-append marshal action xs ys)
          ∙ ap (λ l. action ++ (b'\n' ∷ l)) (sym (append_assoc doc (b'\n' ∷ more) _))
          ∙ sym (append_assoc action (b'\n' ∷ (doc ++ (b'\n' ∷ more))) _))
]

forward_body-append :
    (unix_time : LogEntry → ℤ) (tag : List ℕ) (xs ys : List LogEntry)
    → forward_body unix_time tag (xs ++ ys)
      ≡ forward_body unix_time tag xs ++ forward_body unix_time tag ys
unfolding forward_body
forward_body-append unix_time tag [] ys = refl
forward_body-append unix_time tag (x ∷ xs) ys =
    ap (λ l. pack_forward_message tag (unix_time x) (record_fields x) ++ l)
      (forward_body-append unix_time tag xs ys)
    ∙ sym (append_assoc (pack_forward_message tag (unix_time x) (record_fields x)) _ _)

module _ (body : List LogEntry → List ℕ) (nothing : body [] ≡ [])
    (body-append : (xs ys : List LogEntry) → body (xs ++ ys) ≡ body xs ++ body ys)
    (send : List LogEntry → List ℕ) (sends : (es : List LogEntry) → send es ≡ body es) where
  written-joined : (batches : List (List LogEntry)) → written send batches ≡ body (joined batches)
  written-joined [] = sym nothing
  written-joined (es ∷ batches) =
      ap₂ (λ x y. x ++ y) (sends es) (written-joined batches)
      ∙ sym (body-append es (joined batches))

  -- Closing writes the body of what was kept.
  written-closed_down :
      (b : Batch LogEntry) → b.phase ≡ running → written send (closed_down b).sent ≡ body (handed b)
  written-closed_down b p =
      written-joined (closed_down b).sent ∙ ap body (close-IsEmptied b p).1.all_sent

body_of-bulk_buffer :
    (takes : List ℕ → Bool) (e : ElasticsearchExporter) (buf : List ℕ)
    → takes (e.url ++ bytes "/_bulk") ≡ true
    → body_of (bulk_buffer takes e buf) ≡ buf
unfolding bulk_buffer new_request
body_of-bulk_buffer takes e [] h = refl
body_of-bulk_buffer takes e (c ∷ cs) h = rw h refl

bytes_of-forward_buffer : (buf : List ℕ) → bytes_of (forward_buffer buf) ≡ buf
unfolding forward_buffer
bytes_of-forward_buffer [] = refl
bytes_of-forward_buffer (c ∷ cs) = refl

each_OneLine :
    (marshal : LogEntry → Option (List ℕ)) (es : List LogEntry)
    → ((x : LogEntry) → OneLineDoc (marshal x))
    → OneLineEach marshal es
each_OneLine marshal [] h = tt
each_OneLine marshal (e ∷ es) h = (h e, each_OneLine marshal es h)

-- Whatever happens to a new Elasticsearch exporter while its goroutine is in its loop, after Close the bodies of its requests
-- hold, line by line, the action and the document of the entries written, in order and each once,
-- less those that json.Marshal refuses and as many as the counter of dropped entries says, if the
-- URL is taken and neither the action nor a document has a newline in it.
pub bulk_ships :
    (takes : List ℕ → Bool) (marshal : LogEntry → Option (List ℕ)) (action : List ℕ → List ℕ)
    (e : ElasticsearchExporter) {b : Batch LogEntry} {ws : List LogEntry}
    → Run new_batch ws b
    → b.phase ≡ running
    → length ws ≤ max_int64
    → takes (e.url ++ bytes "/_bulk") ≡ true
    → OneLine (action e.index)
    → ((x : LogEntry) → OneLineDoc (marshal x))
    → (n : ℕ) × (ks : List LogEntry) × Kept ks n ws
      × ((closed_down b).dropped ≡ pos n)
      × (lines_from []
            (written (λ es. body_of (bulk takes marshal action e es)) (closed_down b).sent)
          ≡ bulk_lines marshal (action e.index) ks)
unfolding bulk bulk_body
bulk_ships takes marshal action e {b} r p small taken one docs =
    let (n, kept, count) = Run-Accounted r small in
    let body = bulk_body marshal (action e.index) in
    (
      n,
      handed b,
      kept,
      (close-IsEmptied b p).1.none_dropped ∙ count,
      ap (lines_from []) (
            written-closed_down body refl (bulk_body-append marshal (action e.index)) _
              (λ es. body_of-bulk_buffer takes e (body es) taken) b p)
          ∙ lines-bulk_body marshal (action e.index) (handed b) one
              (each_OneLine marshal (handed b) docs),
    )

-- Whatever happens to a new Fluent Bit exporter while its goroutine is in its loop, after Close its connections have carried one after
-- the other exactly the messages of the entries written, in order and each once, less as many as the
-- counter of dropped entries says, if every dial succeeds.
pub forward_ships :
    (unix_time : LogEntry → ℤ) (e : FluentbitExporter) {b : Batch LogEntry} {ws : List LogEntry}
    → Run new_batch ws b
    → b.phase ≡ running
    → length ws ≤ max_int64
    → (n : ℕ) × (ks : List LogEntry) × Kept ks n ws
      × ((closed_down b).dropped ≡ pos n)
      × (written (λ es. bytes_of (forward true unix_time e es)) (closed_down b).sent
          ≡ forward_body unix_time e.tag ks)
unfolding forward forward_body
forward_ships unix_time e {b} r p small =
    let (n, kept, count) = Run-Accounted r small in
    let body = forward_body unix_time e.tag in
    (
      n,
      handed b,
      kept,
      (close-IsEmptied b p).1.none_dropped ∙ count,
      written-closed_down body refl (forward_body-append unix_time e.tag) _
          (λ es. bytes_of-forward_buffer (body es)) b p,
    )
