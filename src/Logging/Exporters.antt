-- ===== src/Logging/Exporters.antt =====
-- internal/logging/exporter.go: the entries and what the remote exporters make of a batch of them.
-- Texts are lists of bytes. The parameters stand for the libraries: `unix_time` for time.Parse and
-- Unix, with the time of the call where the entry's time does not parse; `marshal` for json.Marshal;
-- `show` for the decimal digits of fmt; `upper` for strings.ToUpper; `utc` for the time's other layout.
pub mod Forward
pub mod Bulk
pub mod Requests
pub mod Shipped
mod Examples
use Prim.Native.Char.{code}
use Prim.Native.String.{String}
use haribon.Prelude.{
  ℕ, zero, suc, ◌-◌, Bool, true, false, Option, none, some, List, [], ◌∷◌, ◌++◌, length, replicate,
  str_eq, ℤ, pos, ltb_ℤ, if◌then◌else◌, map, ◌==◌,
}
use haribon.Logging.Msgpack.Defs.{Value, Fields, pack_forward_message}
use haribon.Logging.Batch.{Batch, write, close, new_batch}

-- The bytes of an ASCII text.
abbrev pub bytes : String → List ℕ
bytes String.[] = []
bytes (String.◌∷◌ c s) = code c ∷ bytes s

-- type LogEntry struct
pub record LogEntry : Type 0 where
  pub time : List ℕ
  pub method : List ℕ
  pub path : List ℕ
  pub backend : List ℕ
  pub status : ℤ
  pub duration_ms : ℤ
  pub retries : ℤ
  pub level : List ℕ

-- func (e LogEntry) Record
unfoldable pub record_fields : LogEntry → Fields
record_fields e = Fields.field (bytes "time") (Value.string e.time) (
    Fields.field (bytes "method") (Value.string e.method) (
      Fields.field (bytes "path") (Value.string e.path) (
        Fields.field (bytes "backend") (Value.string e.backend) (
          Fields.field (bytes "status") (Value.int e.status) (
            Fields.field (bytes "duration_ms") (Value.int e.duration_ms) (
              Fields.field (bytes "level") (Value.string e.level) (
                if ltb_ℤ (pos 0) e.retries
                then Fields.field (bytes "retries") (Value.int e.retries) Fields.end
                else Fields.end)))))))

-- or_default v d is v, or d where v is the empty text
abbrev pub or_default : List ℕ → List ℕ → List ℕ
or_default [] d = d
or_default (c ∷ cs) d = c ∷ cs

-- fmt's %-5s
abbrev pub pad : ℕ → List ℕ → List ℕ
pad width s = s ++ replicate (width - length s) b' '

-- func FormatText
unfoldable pub format_text :
    (List ℕ → List ℕ) → (List ℕ → List ℕ) → (ℤ → List ℕ) → LogEntry → List ℕ
format_text utc upper show e =
    utc e.time
    ++ (bytes " "
        ++ (pad 5 (upper e.level)
            ++ (bytes " "
                ++ (e.method
                    ++ (bytes " "
                        ++ (e.path
                            ++ (bytes " -> "
                                ++ (or_default e.backend (bytes "-")
                                    ++ (bytes " "
                                        ++ (show e.status
                                            ++ (bytes " "
                                                ++ (show e.duration_ms
                                                    ++ (bytes "ms"
                                                        ++ (if ltb_ℤ (pos 0) e.retries
                                                            then bytes " retries=" ++ show e.retries
                                                            else []))))))))))))))

-- the loop of forward: what it writes to the connection
unfoldable pub forward_body : (LogEntry → ℤ) → List ℕ → List LogEntry → List ℕ
unfolding pack_forward_message record_fields
forward_body unix_time tag [] = []
forward_body unix_time tag (e ∷ es) =
    pack_forward_message tag (unix_time e) (record_fields e) ++ forward_body unix_time tag es

-- the loop of bulk: an action line and a document line for each entry that json.Marshal takes
unfoldable pub bulk_body : (LogEntry → Option (List ℕ)) → List ℕ → List LogEntry → List ℕ
bulk_body marshal action [] = []
bulk_body marshal action (e ∷ es) = elim (marshal e) [
  | none ↦ bulk_body marshal action es
  | some doc ↦ action ++ (b'\n' ∷ (doc ++ (b'\n' ∷ bulk_body marshal action es)))
]

-- the loop of push: the time in nanoseconds and the line of each entry that json.Marshal takes
unfoldable pub loki_values :
    (LogEntry → Option (List ℕ)) → (LogEntry → List ℕ) → List LogEntry → List (List ℕ × List ℕ)
loki_values marshal nanos [] = []
loki_values marshal nanos (e ∷ es) = elim (marshal e) [
  | none ↦ loki_values marshal nanos es
  | some line ↦ (nanos e, line) ∷ loki_values marshal nanos es
]

-- An exporter in a Multi: the file with what has been written to it, or a remote sink with its batch.
pub data Exporter : Type 0 where
  file : Bool → List (List ℕ) → Exporter
  remote : List ℕ → Batch LogEntry → Exporter

-- e.Write(entry); `line` is the text of the entry in the exporter's format, and none where
-- json.Marshal fails
unfoldable pub write_entry : (LogEntry → Option (List ℕ)) → LogEntry → Exporter → Exporter
unfolding write
write_entry line entry (file false written) = file false written
write_entry line entry (file true written) = elim (line entry) [
  | none ↦ file true written
  | some l ↦ file true (written ++ (l ∷ []))
]
write_entry line entry (remote name b) = remote name (write entry b)

-- func (m *Multi) Write
unfoldable pub multi_write : (LogEntry → Option (List ℕ)) → LogEntry → List Exporter → List Exporter
unfolding write_entry
multi_write line entry [] = []
multi_write line entry (x ∷ xs) = write_entry line entry x ∷ multi_write line entry xs

-- e.Name()
unfoldable pub exporter_name : Exporter → List ℕ
exporter_name (file opened written) = bytes "file"
exporter_name (remote name b) = name

-- func (m *Multi) Name, with strings.Join
unfoldable pub multi_name : List Exporter → List ℕ
unfolding exporter_name
multi_name [] = []
multi_name (x ∷ []) = exporter_name x
multi_name (x ∷ y ∷ xs) = exporter_name x ++ (bytes "+" ++ multi_name (y ∷ xs))

-- e.Dropped()
unfoldable pub exporter_dropped : Exporter → ℤ
exporter_dropped (file opened written) = pos 0
exporter_dropped (remote name b) = b.dropped
