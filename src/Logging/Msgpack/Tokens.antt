-- ===== src/Logging/Msgpack/Tokens.antt =====
-- An independent description of the MessagePack format: a reader of one token of the stream, and
-- the tokens that a value stands for.
use haribon.Prelude.{
  ◌≡◌, refl, ap, ℕ, zero, suc, ◌+◌, ◌-◌, ◌*◌, ◌^◌, Bool, true, false, Option, none, some, List, [],
  ◌∷◌, ◌++◌, ltb, leb, ◌==◌, ℤ, pos, negsuc, if◌then◌else◌,
}
use haribon.Logging.Msgpack.Defs.{Value, Items, Fields, count_items, count_fields}

pub data Token : Type 0 where
  null : Token
  truth : Bool → Token
  number : ℤ → Token
  double : ℕ → Token
  text : List ℕ → Token
  array_of : ℕ → Token
  map_of : ℕ → Token

abbrev pub Read : Type 0 → Type 0
Read A = List ℕ → Option (A × List ℕ)

abbrev pub and_then :
    {A B : Type 0} → Option (A × List ℕ) → (A → List ℕ → Option (B × List ℕ)) → Option (B × List ℕ)
and_then none f = none
and_then (some (a, rest)) f = f a rest

unfoldable pub read_bytes : ℕ → Read (List ℕ)
read_bytes zero bs = some ([], bs)
read_bytes (suc n) [] = none
read_bytes (suc n) (b ∷ bs) =
    let more = read_bytes n bs in elim more [ none ↦ none | some (s, rest) ↦ some (b ∷ s, rest) ]

unfoldable pub read_uint8 : Read ℕ
read_uint8 (a ∷ bs) = some (a, bs)
read_uint8 bs = none

unfoldable pub read_uint16 : Read ℕ
read_uint16 (a ∷ b ∷ bs) = some (a * 2 ^ 8 + b, bs)
read_uint16 bs = none

unfoldable pub read_uint32 : Read ℕ
read_uint32 (a ∷ b ∷ c ∷ d ∷ bs) = some (a * 2 ^ 24 + b * 2 ^ 16 + c * 2 ^ 8 + d, bs)
read_uint32 bs = none

unfoldable pub read_uint64 : Read ℕ
unfolding read_uint32
read_uint64 bs =
    and_then (read_uint32 bs)
      (λ high rest. and_then (read_uint32 rest) (λ low rest'. some (high * 2 ^ 32 + low, rest')))

-- A number of w bits in two-complement form.
abbrev pub signed : ℕ → ℕ → ℤ
signed modulus v = if ltb (v + v) modulus then pos v else negsuc (modulus - 1 - v)

abbrev pub mapped : {A B : Type 0} → (A → B) → Option (A × List ℕ) → Option (B × List ℕ)
mapped f none = none
mapped f (some (a, rest)) = some (f a, rest)

-- The forms whose first byte says only what follows.
unfoldable pub read_wide : ℕ → Read Token
unfolding read_uint8 read_uint16 read_uint32 read_uint64 read_bytes
read_wide m bs =
    if m == 0xc0
    then some (null, bs)
    else if m == 0xc2
    then some (truth false, bs)
    else if m == 0xc3
    then some (truth true, bs)
    else if m == 0xcb
    then mapped double (read_uint64 bs)
    else if m == 0xcc
    then mapped (λ v. number (pos v)) (read_uint8 bs)
    else if m == 0xcd
    then mapped (λ v. number (pos v)) (read_uint16 bs)
    else if m == 0xce
    then mapped (λ v. number (pos v)) (read_uint32 bs)
    else if m == 0xcf
    then mapped (λ v. number (pos v)) (read_uint64 bs)
    else if m == 0xd0
    then mapped (λ v. number (signed (2 ^ 8) v)) (read_uint8 bs)
    else if m == 0xd1
    then mapped (λ v. number (signed (2 ^ 16) v)) (read_uint16 bs)
    else if m == 0xd2
    then mapped (λ v. number (signed (2 ^ 32) v)) (read_uint32 bs)
    else if m == 0xd3
    then mapped (λ v. number (signed (2 ^ 64) v)) (read_uint64 bs)
    else if m == 0xd9
    then and_then (read_uint8 bs) (λ n rest. mapped text (read_bytes n rest))
    else if m == 0xda
    then and_then (read_uint16 bs) (λ n rest. mapped text (read_bytes n rest))
    else if m == 0xdb
    then and_then (read_uint32 bs) (λ n rest. mapped text (read_bytes n rest))
    else if m == 0xdc
    then mapped array_of (read_uint16 bs)
    else if m == 0xdd
    then mapped array_of (read_uint32 bs)
    else if m == 0xde
    then mapped map_of (read_uint16 bs)
    else if m == 0xdf
    then mapped map_of (read_uint32 bs)
    else none

unfoldable pub read_token : Read Token
unfolding read_wide
read_token [] = none
read_token (m ∷ bs) =
    if ltb m 0x80
    then some (number (pos m), bs)
    else if ltb m 0x90
    then some (map_of (m - 0x80), bs)
    else if ltb m 0xa0
    then some (array_of (m - 0x90), bs)
    else if ltb m 0xc0
    then mapped text (read_bytes (m - 0xa0) bs)
    else if leb 0xe0 m
    then some (number (negsuc (2 ^ 8 - 1 - m)), bs)
    else read_wide m bs

-- As many tokens as there are, if the stream is exactly theirs.
unfoldable pub read_tokens : ℕ → List ℕ → Option (List Token)
unfolding read_token
read_tokens zero [] = some []
read_tokens zero (b ∷ bs) = none
read_tokens (suc n) bs = elim (read_token bs) [
  | none ↦ none
  | some (t, rest) ↦ elim (read_tokens n rest) [ none ↦ none | some ts ↦ some (t ∷ ts) ]
]

abbrev pub items_of : Items → ℕ
items_of Items.done = 0
items_of (Items.item v vs) = suc (items_of vs)

abbrev pub fields_of : Fields → ℕ
fields_of Fields.end = 0
fields_of (Fields.field k v fs) = suc (fields_of fs)

pub count_items-items_of : (vs : Items) → count_items vs ≡ items_of vs
unfolding count_items
count_items-items_of Items.done = refl
count_items-items_of (Items.item v vs) = ap suc (count_items-items_of vs)

pub count_fields-fields_of : (fs : Fields) → count_fields fs ≡ fields_of fs
unfolding count_fields
count_fields-fields_of Fields.end = refl
count_fields-fields_of (Fields.field k v fs) = ap suc (count_fields-fields_of fs)

-- The tokens of a value, in order: a container's size, and then its members; a value of an
-- unsupported type is nil.
unfoldable mutual
  unfolding count_items count_fields

  pub tokens : Value → List Token
  tokens Value.nil = null ∷ []
  tokens Value.unsupported = null ∷ []
  tokens (Value.bool b) = truth b ∷ []
  tokens (Value.string s) = text s ∷ []
  tokens (Value.int z) = number z ∷ []
  tokens (Value.uint n) = number (pos n) ∷ []
  tokens (Value.float bits) = double bits ∷ []
  tokens (Value.map fs) = map_of (fields_of fs) ∷ tokens_fields fs
  tokens (Value.array vs) = array_of (items_of vs) ∷ tokens_items vs

  pub tokens_items : Items → List Token
  tokens_items Items.done = []
  tokens_items (Items.item v vs) = tokens v ++ tokens_items vs

  pub tokens_fields : Fields → List Token
  tokens_fields Fields.end = []
  tokens_fields (Fields.field k v fs) = text k ∷ (tokens v ++ tokens_fields fs)
