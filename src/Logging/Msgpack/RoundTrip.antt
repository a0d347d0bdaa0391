-- ===== src/Logging/Msgpack/RoundTrip.antt =====
-- Whole values: the bytes of a value are exactly the bytes of its tokens.
use haribon.Prelude.{
  ℕ, ◌^◌, ◌<◌, ◌≡◌, refl, sym, ap, ap₂, subst, ◌∙◌, Option, none, some, true, false, List, [], ◌∷◌,
  ◌++◌, length, arith, ℤ,
}
use mathlib.Core.List.{append_assoc}
use haribon.Logging.Msgpack.Defs.{
  Value, Items, Fields, count_items, count_fields, pack_sorted, pack_items, pack_fields, pack_value,
  pack_string, pack_int, pack_map_header, pack_array_header, sorted, pack_forward_message,
}
use haribon.Logging.Msgpack.Tokens.{
  Token, number, text, array_of, map_of, count_fields-fields_of, count_items-items_of, read_token,
  tokens, tokens_items, tokens_fields,
}
use haribon.Logging.Msgpack.Fits.{Fits, ItemsFit, FieldsFit, sorted-Fits}
use haribon.Logging.Msgpack.Words.{
  IsInt64, read-pack_uint, read-pack_int, read-pack_float64, read-pack_array_header,
  read-pack_map_header, read-pack_string,
}

-- The stream `bs` starts with the bytes of `ts`, and `rest` is what follows.
pub data Reads : List Token → List ℕ → List ℕ → Type 0 where
  nothing : {bs rest : List ℕ} → bs ≡ rest → Reads [] bs rest
  token :
      {t : Token} {ts : List Token} {bs more rest : List ℕ}
      → read_token bs ≡ some (t, more)
      → Reads ts more rest
      → Reads (t ∷ ts) bs rest

pub Reads-append :
    {ts us : List Token} {bs more rest : List ℕ}
    → Reads ts bs more
    → Reads us more rest
    → Reads (ts ++ us) bs rest
Reads-append {us} {rest = rest} (nothing e) s = subst (λ l. Reads us l rest) (sym e) s
Reads-append (token e r) s = token e (Reads-append r s)

one : {t : Token} {bs rest : List ℕ} → read_token bs ≡ some (t, rest) → Reads (t ∷ []) bs rest
one e = token e (nothing refl)

mutual
  unfolding pack_sorted tokens Fits read_token

  Reads-value : (v : Value) (rest : List ℕ) → Fits v → Reads (tokens v) (pack_sorted v ++ rest) rest
  Reads-value Value.nil rest h = one refl
  Reads-value Value.unsupported rest h = one refl
  Reads-value (Value.bool true) rest h = one refl
  Reads-value (Value.bool false) rest h = one refl
  Reads-value (Value.string s) rest h = one (read-pack_string s rest h)
  Reads-value (Value.int z) rest h = one (read-pack_int z rest h)
  Reads-value (Value.uint n) rest h = one (read-pack_uint n rest h)
  Reads-value (Value.float bits) rest h = one (read-pack_float64 bits rest h)
  Reads-value (Value.map fs) rest h =
      let read : Reads (map_of (count_fields fs) ∷ tokens_fields fs)
          (pack_sorted (Value.map fs) ++ rest) rest =
        token
          (ap read_token (append_assoc (pack_map_header (count_fields fs)) (pack_fields fs) rest)
            ∙ read-pack_map_header (count_fields fs) (pack_fields fs ++ rest) h.0)
          (Reads-fields fs rest h.1) in
      subst (λ n. Reads (map_of n ∷ tokens_fields fs) (pack_sorted (Value.map fs) ++ rest) rest)
        (count_fields-fields_of fs) read
  Reads-value (Value.array vs) rest h =
      let read : Reads (array_of (count_items vs) ∷ tokens_items vs)
          (pack_sorted (Value.array vs) ++ rest) rest =
        token
          (ap read_token (append_assoc (pack_array_header (count_items vs)) (pack_items vs) rest)
            ∙ read-pack_array_header (count_items vs) (pack_items vs ++ rest) h.0)
          (Reads-items vs rest h.1) in
      subst (λ n. Reads (array_of n ∷ tokens_items vs) (pack_sorted (Value.array vs) ++ rest) rest)
        (count_items-items_of vs) read

  Reads-items :
      (vs : Items) (rest : List ℕ)
      → ItemsFit vs
      → Reads (tokens_items vs) (pack_items vs ++ rest) rest
  Reads-items Items.done rest h = nothing refl
  Reads-items (Items.item v vs) rest h =
      Reads-append
        (subst (λ l. Reads (tokens v) l (pack_items vs ++ rest))
          (sym (append_assoc (pack_sorted v) (pack_items vs) rest))
          (Reads-value v (pack_items vs ++ rest) h.0))
        (Reads-items vs rest h.1)

  Reads-fields :
      (fs : Fields) (rest : List ℕ)
      → FieldsFit fs
      → Reads (tokens_fields fs) (pack_fields fs ++ rest) rest
  Reads-fields Fields.end rest h = nothing refl
  Reads-fields (Fields.field k v fs) rest h =
      token
        (ap read_token (append_assoc (pack_string k) (pack_sorted v ++ pack_fields fs) rest)
          ∙ read-pack_string k ((pack_sorted v ++ pack_fields fs) ++ rest) h.0)
        (Reads-append
          (subst (λ l. Reads (tokens v) l (pack_fields fs ++ rest))
            (sym (append_assoc (pack_sorted v) (pack_fields fs) rest))
            (Reads-value v (pack_fields fs ++ rest) h.1))
          (Reads-fields fs rest h.2))

read_pair :
    {t t' : Token} {bs bs' : List ℕ}
    → ◌≡◌ {A = Option (Token × List ℕ)} (some (t, bs)) (some (t', bs'))
    → (t ≡ t') × (bs ≡ bs')
read_pair {t} {bs} e = (
  ap (λ o. elim o [ none ↦ t | some r ↦ r.0 ]) e,
  ap (λ o. elim o [ none ↦ bs | some r ↦ r.1 ]) e,
)

Reads-unique :
    {ts us : List Token} {bs rest : List ℕ}
    → rest ≡ []
    → Reads ts bs rest
    → Reads us bs rest
    → ts ≡ us
unfolding read_token
Reads-unique e (nothing p) (nothing q) = refl
Reads-unique e (nothing p) (token q r) = cc (ap read_token (p ∙ e), q)
Reads-unique e (token q r) (nothing p) = cc (ap read_token (p ∙ e), q)
Reads-unique {rest} e (token {ts} p r) (token {ts = us} q s) =
    let same = read_pair (sym p ∙ q) in
    ap₂ (λ x xs. x ∷ xs) same.0 (Reads-unique e r (subst (λ bs. Reads us bs rest) (sym same.1) s))

-- The bytes of a value are read back, whatever follows them, as exactly the tokens of the value with
-- the fields of its maps in sorted order.
pub pack_value-Reads :
    (v : Value) (rest : List ℕ) → Fits v → Reads (tokens (sorted v)) (pack_value v ++ rest) rest
unfolding pack_value
pack_value-Reads v rest h = Reads-value (sorted v) rest (sorted-Fits v h)

-- Values that are encoded to the same bytes have the same tokens: the encoding confuses no two
-- numbers, texts, floats or structures.
pub pack_value-injective :
    (v w : Value)
    → Fits v
    → Fits w
    → pack_value v ≡ pack_value w
    → tokens (sorted v) ≡ tokens (sorted w)
pack_value-injective v w hv hw e =
    Reads-unique refl (pack_value-Reads v [] hv)
      (subst (λ bs. Reads (tokens (sorted w)) (bs ++ []) []) (sym e) (pack_value-Reads w [] hw))

-- The tokens of the message [tag, time, record].
abbrev pub message_tokens : List ℕ → ℤ → Fields → List Token
message_tokens tag unix_time fs =
    array_of 3 ∷ text tag ∷ number unix_time ∷ tokens (sorted (Value.map fs))

pub pack_forward_message-Reads :
    (tag : List ℕ) (unix_time : ℤ) (record_fields : Fields) (rest : List ℕ)
    → length tag < 2 ^ 32
    → IsInt64 unix_time
    → Fits (Value.map record_fields)
    → Reads
        (message_tokens tag unix_time record_fields)
        (pack_forward_message tag unix_time record_fields ++ rest)
        rest
unfolding pack_forward_message
pack_forward_message-Reads tag unix_time record_fields rest ht hu hr =
    let body : List ℕ = pack_value (Value.map record_fields) in
    let tail : List ℕ = pack_string tag ++ (pack_int unix_time ++ body) in
    subst (λ bs. Reads (message_tokens tag unix_time record_fields) bs rest)
      (sym (
        append_assoc (pack_array_header 3) tail rest
        ∙ ap (λ l. pack_array_header 3 ++ l)
            (append_assoc (pack_string tag) (pack_int unix_time ++ body) rest
              ∙ ap (λ l. pack_string tag ++ l) (append_assoc (pack_int unix_time) body rest))))
      (token
        (read-pack_array_header 3 (pack_string tag ++ (pack_int unix_time ++ (body ++ rest)))
          (omega arith))
        (token (read-pack_string tag (pack_int unix_time ++ (body ++ rest)) ht) (
          token (read-pack_int unix_time (body ++ rest) hu)
            (pack_value-Reads (Value.map record_fields) rest hr))))
