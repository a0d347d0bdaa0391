-- ===== src/Logging/Exporters/Forward.antt =====
-- What Fluent Bit reads from the connection of one batch.
use haribon.Prelude.{
  ◌≡◌, subst, if◌then◌else◌, ℕ, ◌^◌, ◌<◌, refl, List, [], ◌∷◌, ◌++◌, length, arith, ℤ, pos, ltb_ℤ,
  Bool-cases, inl, inr,
}
use haribon.Logging.Msgpack.Defs.{
  Value, count_fields, sorted, sort_fields, insert_field, bytes_le, pack_forward_message,
}
use haribon.Logging.Msgpack.Tokens.{Token, array_of, map_of, text, number, tokens}
use haribon.Logging.Msgpack.Words.{IsInt64}
use haribon.Logging.Msgpack.Fits.{Fits}
use haribon.Logging.Msgpack.RoundTrip.{Reads, nothing, Reads-append, pack_forward_message-Reads}
use haribon.Logging.Exporters.{LogEntry, bytes, record_fields, forward_body}

-- The texts are shorter than 2^32 bytes, and the numbers are an int64's.
pub record EntryFits (e : LogEntry) : Type 0 where
  pub time_fits : length e.time < 2 ^ 32
  pub method_fits : length e.method < 2 ^ 32
  pub path_fits : length e.path < 2 ^ 32
  pub backend_fits : length e.backend < 2 ^ 32
  pub level_fits : length e.level < 2 ^ 32
  pub status_fits : IsInt64 e.status
  pub duration_fits : IsInt64 e.duration_ms
  pub retries_fits : IsInt64 e.retries

record_fields-Fits : (e : LogEntry) → EntryFits e → Fits (Value.map (record_fields e))
unfolding Fits record_fields count_fields
record_fields-Fits e h = elim (Bool-cases (ltb_ℤ (pos 0) e.retries)) [
  | inl retried ↦ rw retried (
    omega arith,
    (
      omega arith,
      h.time_fits,
      (
        omega arith,
        h.method_fits,
        (
          omega arith,
          h.path_fits,
          (
            omega arith,
            h.backend_fits,
            (
              omega arith,
              h.status_fits,
              (
                omega arith,
                h.duration_fits,
                (omega arith, h.level_fits, (omega arith, h.retries_fits, tt)),
              ),
            ),
          ),
        ),
      ),
    ),
  )
  | inr never ↦ rw never (
    omega arith,
    (
      omega arith,
      h.time_fits,
      (
        omega arith,
        h.method_fits,
        (
          omega arith,
          h.path_fits,
          (
            omega arith,
            h.backend_fits,
            (
              omega arith,
              h.status_fits,
              (omega arith, h.duration_fits, (omega arith, h.level_fits, tt)),
            ),
          ),
        ),
      ),
    ),
  )
]

-- All entries fit, and so do their times.
abbrev pub AllFit : (LogEntry → ℤ) → List LogEntry → Type 0
AllFit unix_time [] = Unit {0}
AllFit unix_time (e ∷ es) = EntryFits e × IsInt64 (unix_time e) × AllFit unix_time es

-- The record of an entry: its keys in the order of their bytes, each before its value, and no retries
-- unless there were some.
abbrev pub record_tokens : LogEntry → List Token
record_tokens e =
    map_of (if ltb_ℤ (pos 0) e.retries then 8 else 7)
    ∷ text (bytes "backend")
    ∷ text e.backend
    ∷ text (bytes "duration_ms")
    ∷ number e.duration_ms
    ∷ text (bytes "level")
    ∷ text e.level
    ∷ text (bytes "method")
    ∷ text e.method
    ∷ text (bytes "path")
    ∷ text e.path
    ∷ ((if ltb_ℤ (pos 0) e.retries then text (bytes "retries") ∷ number e.retries ∷ [] else [])
        ++ (text (bytes "status") ∷ number e.status ∷ text (bytes "time") ∷ text e.time ∷ []))

-- One message [tag, time, record] for each entry, in order.
abbrev pub messages : (LogEntry → ℤ) → List ℕ → List LogEntry → List Token
messages unix_time tag [] = []
messages unix_time tag (e ∷ es) =
    (array_of 3 ∷ text tag ∷ number (unix_time e) ∷ record_tokens e) ++ messages unix_time tag es

tokens-record_fields :
    (e : LogEntry) → tokens (sorted (Value.map (record_fields e))) ≡ record_tokens e
unfolding tokens sorted sort_fields insert_field bytes_le record_fields count_fields
tokens-record_fields e = elim (Bool-cases (ltb_ℤ (pos 0) e.retries)) [
  | inl retried ↦ rw retried refl
  | inr never ↦ rw never refl
]

-- What the Fluent Bit exporter writes for a batch is read back as exactly one message [tag, time,
-- record] for each entry of the batch, in order and with nothing left over, if the texts are shorter
-- than 2^32 bytes and the numbers are an int64's. The record has the entry's texts and numbers at
-- their keys, the keys in the order of their bytes, and the retries only if there were some.
pub forward_body-Reads :
    (unix_time : LogEntry → ℤ) (tag : List ℕ) (es : List LogEntry)
    → length tag < 2 ^ 32
    → AllFit unix_time es
    → Reads (messages unix_time tag es) (forward_body unix_time tag es) []
unfolding forward_body
forward_body-Reads unix_time tag [] ht h = nothing refl
forward_body-Reads unix_time tag (e ∷ es) ht (fit, time, more) =
    Reads-append
      (subst
        (λ ts.
          Reads (array_of 3 ∷ text tag ∷ number (unix_time e) ∷ ts)
            (pack_forward_message tag (unix_time e) (record_fields e)
              ++ forward_body unix_time tag es)
            (forward_body unix_time tag es))
        (tokens-record_fields e)
        (pack_forward_message-Reads tag (unix_time e) (record_fields e)
          (forward_body unix_time tag es) ht time (record_fields-Fits e fit)))
      (forward_body-Reads unix_time tag es ht more)
