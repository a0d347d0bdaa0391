-- ===== src/Logging/Exporters/Requests.antt =====
-- internal/logging/exporter.go: the remote exporters, and what one call of their `send` function gives
-- to the network. The answers of the network are thrown away by the source.
use haribon.Prelude.{
  ℕ, Bool, true, false, Option, none, some, List, [], ◌∷◌, ◌++◌, String, ◌==◌, if◌then◌else◌, ℤ,
  pos, add_int64,
}
use haribon.Prelude.Dict.{Dict, put}
use haribon.Logging.Batch.{Batch, new_batch, close}
use haribon.Logging.Exporters.{
  LogEntry, Exporter, file, remote, bytes, or_default, forward_body, bulk_body, loki_values,
  exporter_dropped,
}

-- strings.TrimRight with one character
unfoldable pub trim_right : ℕ → List ℕ → List ℕ
trim_right d [] = []
trim_right d (c ∷ cs) = elim (trim_right d cs) [
  | [] ↦ if c == d then [] else c ∷ []
  | x ∷ xs ↦ c ∷ x ∷ xs
]

-- type LokiExporter struct; the client has a fixed timeout
pub record LokiExporter : Type 0 where
  pub batch : Batch LogEntry
  pub url : List ℕ
  pub labels : Dict String

-- for k, v := range labels { lbl[k] = v }
unfoldable pub put_labels : Dict String → Dict String → Dict String
put_labels [] lbl = lbl
put_labels ((k, v) ∷ labels) lbl = put_labels labels (put lbl k v)

-- func NewLokiExporter
unfoldable pub new_loki_exporter : List ℕ → Dict String → LokiExporter
unfolding trim_right put_labels
new_loki_exporter url labels = record {
  batch = new_batch;
  url = trim_right b'/' (or_default url (bytes "http://localhost:3100"));
  labels = put_labels labels (("job", "haribon") ∷ []);
}

-- type ElasticsearchExporter struct
pub record ElasticsearchExporter : Type 0 where
  pub batch : Batch LogEntry
  pub url : List ℕ
  pub index : List ℕ

-- func NewElasticsearchExporter
unfoldable pub new_elasticsearch_exporter : List ℕ → List ℕ → ElasticsearchExporter
unfolding trim_right
new_elasticsearch_exporter url index = record {
  batch = new_batch;
  url = trim_right b'/' (or_default url (bytes "http://localhost:9200"));
  index = or_default index (bytes "haribon");
}

-- type FluentbitExporter struct
pub record FluentbitExporter : Type 0 where
  pub batch : Batch LogEntry
  pub addr : List ℕ
  pub tag : List ℕ

-- func NewFluentbitExporter
unfoldable pub new_fluentbit_exporter : List ℕ → FluentbitExporter
new_fluentbit_exporter addr = record {
  batch = new_batch;
  addr = or_default addr (bytes "localhost:24224");
  tag = bytes "haribon";
}

-- What client.Do is given.
pub record Request : Type 0 where
  pub url : List ℕ
  pub content_type : List ℕ
  pub body : List ℕ

-- http.NewRequest, which takes the URL or refuses it, and the content type
unfoldable pub new_request : (List ℕ → Bool) → List ℕ → List ℕ → List ℕ → Option Request
new_request takes url content_type body =
    if takes url
    then some (record { url = url; content_type = content_type; body = body })
    else none

-- push, with the values that its loop has collected; `marshal_streams` is json.Marshal of the stream
unfoldable pub push_values :
    (List ℕ → Bool)
    → (Dict String → List (List ℕ × List ℕ) → Option (List ℕ))
    → LokiExporter
    → List (List ℕ × List ℕ)
    → Option Request
unfolding new_request
push_values takes marshal_streams e [] = none
push_values takes marshal_streams e (v ∷ vs) = elim (marshal_streams e.labels (v ∷ vs)) [
  | none ↦ none
  | some body ↦
      new_request takes (e.url ++ bytes "/loki/api/v1/push") (bytes "application/json") body
]

-- func (e *LokiExporter) push
unfoldable pub push :
    (List ℕ → Bool)
    → (LogEntry → Option (List ℕ))
    → (LogEntry → List ℕ)
    → (Dict String → List (List ℕ × List ℕ) → Option (List ℕ))
    → LokiExporter
    → List LogEntry
    → Option Request
unfolding push_values loki_values
push takes marshal nanos marshal_streams e entries =
    push_values takes marshal_streams e (loki_values marshal nanos entries)

-- bulk, with the buffer that its loop has filled
unfoldable pub bulk_buffer : (List ℕ → Bool) → ElasticsearchExporter → List ℕ → Option Request
unfolding new_request
bulk_buffer takes e [] = none
bulk_buffer takes e (c ∷ cs) =
    new_request takes (e.url ++ bytes "/_bulk") (bytes "application/x-ndjson") (c ∷ cs)

-- func (e *ElasticsearchExporter) bulk; `action` is json.Marshal of the action line for an index
unfoldable pub bulk :
    (List ℕ → Bool)
    → (LogEntry → Option (List ℕ))
    → (List ℕ → List ℕ)
    → ElasticsearchExporter
    → List LogEntry
    → Option Request
unfolding bulk_buffer bulk_body
bulk takes marshal action e entries =
    bulk_buffer takes e (bulk_body marshal (action e.index) entries)

-- forward, after the dial, with the buffer that its loop has filled
unfoldable pub forward_buffer : List ℕ → Option (List ℕ)
forward_buffer [] = none
forward_buffer (c ∷ cs) = some (c ∷ cs)

-- func (e *FluentbitExporter) forward: what it writes to its connection, if the dial succeeds
unfoldable pub forward : Bool → (LogEntry → ℤ) → FluentbitExporter → List LogEntry → Option (List ℕ)
unfolding forward_buffer forward_body
forward dialed unix_time e entries = elim dialed [
  | true ↦ forward_buffer (forward_body unix_time e.tag entries)
  | false ↦ none
]

-- func NewMulti
unfoldable pub new_multi : List (Option Exporter) → List Exporter
new_multi [] = []
new_multi (none ∷ es) = new_multi es
new_multi (some e ∷ es) = e ∷ new_multi es

-- e.Close()
unfoldable pub close_exporter : Exporter → Exporter
unfolding close
close_exporter (file opened written) = file false written
close_exporter (remote name b) = remote name (close b)

-- func (m *Multi) Close
unfoldable pub multi_close : List Exporter → List Exporter
unfolding close_exporter
multi_close [] = []
multi_close (e ∷ es) = close_exporter e ∷ multi_close es

-- the loop of Dropped, with the total so far
unfoldable pub sum_dropped : ℤ → List Exporter → ℤ
unfolding exporter_dropped add_int64
sum_dropped total [] = total
sum_dropped total (e ∷ es) = sum_dropped (add_int64 total (exporter_dropped e)) es

-- func (m *Multi) Dropped
unfoldable pub multi_dropped : List Exporter → ℤ
unfolding sum_dropped
multi_dropped es = sum_dropped (pos 0) es
