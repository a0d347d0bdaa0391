-- ===== src/Logging/Msgpack/Examples.antt =====
-- The encoder's theorems at one record: a log line with a nested map.
use haribon.Prelude.{[], ◌∷◌, ◌++◌, ◌≡◌, refl, true, arith, pos, negsuc}
use haribon.Logging.Msgpack.Defs.{Value, Fields, pack_value}
use haribon.Logging.Msgpack.Tokens.{tokens}
use haribon.Logging.Msgpack.RoundTrip.{Reads}
use haribon.Logging.Msgpack.Sorting.{Rearranged, InOrder, pack_value-InOrder}
use haribon.Logging.Msgpack.Fits.{Fits}

-- {"status": 502, "retries": -1, "ok": true}, in the order of its keys: "ok", "retries", "status".
abbrev status_fields : Fields
status_fields = Fields.field (115 ∷ 116 ∷ []) (Value.int (pos 502)) (
    Fields.field (114 ∷ []) (Value.int (negsuc 0))
      (Fields.field (111 ∷ 107 ∷ []) (Value.bool true) Fields.end))

abbrev log_record : Value
log_record = Value.map status_fields

-- The same record, its fields in another order.
abbrev reordered : Value
reordered = Value.map (
    Fields.field (111 ∷ 107 ∷ []) (Value.bool true) (
      Fields.field (115 ∷ 116 ∷ []) (Value.int (pos 502))
        (Fields.field (114 ∷ []) (Value.int (negsuc 0)) Fields.end)))

record-Fits : Fits (log_record)
unfolding Fits
record-Fits =
    (omega arith, (omega arith, omega arith, (omega arith, omega arith, (omega arith, tt, tt))))

same_bytes : pack_value log_record ≡ pack_value reordered
unfolding pack_value
same_bytes = refl

pack_value-InOrder_example :
    (w : Value) × Rearranged log_record w
    × InOrder w
    × Reads (tokens w) (pack_value log_record ++ (1 ∷ [])) (1 ∷ [])
pack_value-InOrder_example = pack_value-InOrder log_record (1 ∷ []) record-Fits
