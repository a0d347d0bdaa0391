-- ===== src/Logging/Msgpack/Sorting.antt =====
-- The order in which packMap writes the fields of a map, described without the sorting.
use haribon.Prelude.{
  ◌<◌, ◌≡◌, ◌⊎◌, ℕ, inl, inr, true, false, List, [], ◌∷◌, ◌++◌, arith, Bool-cases,
}
use haribon.Logging.Msgpack.Defs.{
  Value, Items, Fields, pack_value, bytes_le, insert_field, sort_fields, sorted, sorted_items,
  sorted_fields,
}
use haribon.Logging.Msgpack.Tokens.{tokens}
use haribon.Logging.Msgpack.Fits.{Fits}
use haribon.Logging.Msgpack.RoundTrip.{Reads, pack_value-Reads}

-- The order of texts by their bytes, in which a text comes after its beginnings.
abbrev pub NotAfter : List ℕ → List ℕ → Type 0
NotAfter [] ys = Unit {0}
NotAfter (x ∷ xs) [] = ⊥
NotAfter (x ∷ xs) (y ∷ ys) = (x < y) ⊎ ((x ≡ y) × NotAfter xs ys)

le-NotAfter : (xs ys : List ℕ) → bytes_le xs ys ≡ true → NotAfter xs ys
unfolding bytes_le
le-NotAfter [] ys h = tt
le-NotAfter (x ∷ xs) [] h = absurd cc
le-NotAfter (x ∷ xs) (y ∷ ys) h = elim (Bool-cases (bytes_le xs ys)) [
  | inl rest ↦ ground (arith, le-NotAfter xs ys rest)
  | inr rest ↦ inl (ground arith)
]

gt-NotAfter : (xs ys : List ℕ) → bytes_le xs ys ≡ false → NotAfter ys xs
unfolding bytes_le
gt-NotAfter [] ys h = absurd cc
gt-NotAfter (x ∷ xs) [] h = tt
gt-NotAfter (x ∷ xs) (y ∷ ys) h = elim (Bool-cases (bytes_le xs ys)) [
  | inl rest ↦ inl (ground arith)
  | inr rest ↦ ground (arith, gt-NotAfter xs ys rest)
]

-- The keys of a map in order.
abbrev pub StartsAfter : List ℕ → Fields → Type 0
StartsAfter k Fields.end = Unit {0}
StartsAfter k (Fields.field j v fs) = NotAfter k j

abbrev pub Ascending : Fields → Type 0
Ascending Fields.end = Unit {0}
Ascending (Fields.field k v fs) = StartsAfter k fs × Ascending fs

-- Every map in the value has its keys in order.
unfoldable mutual
  pub InOrder : Value → Type 0
  InOrder (Value.map fs) = Ascending fs × FieldsInOrder fs
  InOrder (Value.array vs) = ItemsInOrder vs
  InOrder v = Unit {0}

  pub ItemsInOrder : Items → Type 0
  ItemsInOrder Items.done = Unit {0}
  ItemsInOrder (Items.item v vs) = InOrder v × ItemsInOrder vs

  pub FieldsInOrder : Fields → Type 0
  FieldsInOrder Fields.end = Unit {0}
  FieldsInOrder (Fields.field k v fs) = InOrder v × FieldsInOrder fs

-- The second value is the first, but for the order of the fields in its maps.
mutual
  pub data Rearranged : Value → Value → Type 0 where
    same : {v : Value} → Rearranged v v
    in_array :
        {vs ws : Items} → ItemsRearranged vs ws → Rearranged (Value.array vs) (Value.array ws)
    in_map : {fs gs : Fields} → FieldsRearranged fs gs → Rearranged (Value.map fs) (Value.map gs)

  pub data ItemsRearranged : Items → Items → Type 0 where
    no_items : ItemsRearranged Items.done Items.done
    items :
        {v w : Value} {vs ws : Items}
        → Rearranged v w
        → ItemsRearranged vs ws
        → ItemsRearranged (Items.item v vs) (Items.item w ws)

  pub data FieldsRearranged : Fields → Fields → Type 0 where
    no_fields : FieldsRearranged Fields.end Fields.end
    fields :
        {k : List ℕ} {v w : Value} {fs gs : Fields}
        → Rearranged v w
        → FieldsRearranged fs gs
        → FieldsRearranged (Fields.field k v fs) (Fields.field k w gs)
    swapped :
        {j k : List ℕ} {v w : Value} {fs : Fields}
        → FieldsRearranged
            (Fields.field j v (Fields.field k w fs))
            (Fields.field k w (Fields.field j v fs))
    further :
        {fs gs hs : Fields}
        → FieldsRearranged fs gs
        → FieldsRearranged gs hs
        → FieldsRearranged fs hs

unmoved : (fs : Fields) → FieldsRearranged fs fs
unmoved Fields.end = no_fields
unmoved (Fields.field k v fs) = fields same (unmoved fs)

insert_field-FieldsRearranged :
    (k : List ℕ) (v : Value) (fs : Fields)
    → FieldsRearranged (Fields.field k v fs) (insert_field k v fs)
unfolding insert_field
insert_field-FieldsRearranged k v Fields.end = unmoved (Fields.field k v Fields.end)
insert_field-FieldsRearranged k v (Fields.field j w fs) = elim (Bool-cases (bytes_le k j)) [
  | inl first ↦ rw (first, insert_field) (unmoved (Fields.field k v (Fields.field j w fs)))
  | inr later ↦
      rw (later, insert_field)
        (further swapped (fields same (insert_field-FieldsRearranged k v fs)))
]

sort_fields-FieldsRearranged : (fs : Fields) → FieldsRearranged fs (sort_fields fs)
unfolding sort_fields
sort_fields-FieldsRearranged Fields.end = no_fields
sort_fields-FieldsRearranged (Fields.field k v fs) =
    further (fields same (sort_fields-FieldsRearranged fs))
      (insert_field-FieldsRearranged k v (sort_fields fs))

insert_field-StartsAfter :
    (j k : List ℕ) (v : Value) (fs : Fields)
    → NotAfter j k
    → StartsAfter j fs
    → StartsAfter j (insert_field k v fs)
unfolding insert_field
insert_field-StartsAfter j k v Fields.end h s = h
insert_field-StartsAfter j k v (Fields.field i w fs) h s = elim (Bool-cases (bytes_le k i)) [
  | inl first ↦ rw (first, insert_field) h
  | inr later ↦ rw (later, insert_field) s
]

insert_field-Ascending :
    (k : List ℕ) (v : Value) (fs : Fields) → Ascending fs → Ascending (insert_field k v fs)
unfolding insert_field
insert_field-Ascending k v Fields.end h = (tt, tt)
insert_field-Ascending k v (Fields.field j w fs) h = elim (Bool-cases (bytes_le k j)) [
  | inl first ↦ rw (first, insert_field) (le-NotAfter k j first, h)
  | inr later ↦
      rw (later, insert_field)
        (
          insert_field-StartsAfter j k v fs (gt-NotAfter k j later) h.0,
          insert_field-Ascending k v fs h.1,
        )
]

sort_fields-Ascending : (fs : Fields) → Ascending (sort_fields fs)
unfolding sort_fields
sort_fields-Ascending Fields.end = tt
sort_fields-Ascending (Fields.field k v fs) =
    insert_field-Ascending k v (sort_fields fs) (sort_fields-Ascending fs)

insert_field-FieldsInOrder :
    (k : List ℕ) (v : Value) (fs : Fields)
    → InOrder v
    → FieldsInOrder fs
    → FieldsInOrder (insert_field k v fs)
unfolding insert_field FieldsInOrder
insert_field-FieldsInOrder k v Fields.end hv h = (hv, h)
insert_field-FieldsInOrder k v (Fields.field j w fs) hv h = elim (Bool-cases (bytes_le k j)) [
  | inl first ↦ rw (first, insert_field) (hv, h)
  | inr later ↦ rw (later, insert_field) (h.0, insert_field-FieldsInOrder k v fs hv h.1)
]

sort_fields-FieldsInOrder : (fs : Fields) → FieldsInOrder fs → FieldsInOrder (sort_fields fs)
unfolding sort_fields FieldsInOrder
sort_fields-FieldsInOrder Fields.end h = tt
sort_fields-FieldsInOrder (Fields.field k v fs) h =
    insert_field-FieldsInOrder k v (sort_fields fs) h.0 (sort_fields-FieldsInOrder fs h.1)

mutual
  unfolding sorted InOrder ItemsInOrder FieldsInOrder sorted_items sorted_fields

  pub sorted-InOrder : (v : Value) → InOrder (sorted v)
  sorted-InOrder Value.nil = tt
  sorted-InOrder Value.unsupported = tt
  sorted-InOrder (Value.bool b) = tt
  sorted-InOrder (Value.string s) = tt
  sorted-InOrder (Value.int z) = tt
  sorted-InOrder (Value.uint n) = tt
  sorted-InOrder (Value.float n) = tt
  sorted-InOrder (Value.map fs) = (
    sort_fields-Ascending (sorted_fields fs),
    sort_fields-FieldsInOrder (sorted_fields fs) (sorted_fields-FieldsInOrder fs),
  )
  sorted-InOrder (Value.array vs) = sorted_items-ItemsInOrder vs

  sorted_items-ItemsInOrder : (vs : Items) → ItemsInOrder (sorted_items vs)
  sorted_items-ItemsInOrder Items.done = tt
  sorted_items-ItemsInOrder (Items.item v vs) = (sorted-InOrder v, sorted_items-ItemsInOrder vs)

  sorted_fields-FieldsInOrder : (fs : Fields) → FieldsInOrder (sorted_fields fs)
  sorted_fields-FieldsInOrder Fields.end = tt
  sorted_fields-FieldsInOrder (Fields.field k v fs) =
      (sorted-InOrder v, sorted_fields-FieldsInOrder fs)

mutual
  unfolding sorted sorted_items sorted_fields

  pub sorted-Rearranged : (v : Value) → Rearranged v (sorted v)
  sorted-Rearranged Value.nil = same
  sorted-Rearranged Value.unsupported = same
  sorted-Rearranged (Value.bool b) = same
  sorted-Rearranged (Value.string s) = same
  sorted-Rearranged (Value.int z) = same
  sorted-Rearranged (Value.uint n) = same
  sorted-Rearranged (Value.float n) = same
  sorted-Rearranged (Value.map fs) = in_map (
      further (sorted_fields-FieldsRearranged fs) (sort_fields-FieldsRearranged (sorted_fields fs)))
  sorted-Rearranged (Value.array vs) = in_array (sorted_items-ItemsRearranged vs)

  sorted_items-ItemsRearranged : (vs : Items) → ItemsRearranged vs (sorted_items vs)
  sorted_items-ItemsRearranged Items.done = no_items
  sorted_items-ItemsRearranged (Items.item v vs) =
      items (sorted-Rearranged v) (sorted_items-ItemsRearranged vs)

  sorted_fields-FieldsRearranged : (fs : Fields) → FieldsRearranged fs (sorted_fields fs)
  sorted_fields-FieldsRearranged Fields.end = no_fields
  sorted_fields-FieldsRearranged (Fields.field k v fs) =
      fields (sorted-Rearranged v) (sorted_fields-FieldsRearranged fs)

-- The bytes of a value are read back, whatever follows them, as exactly the tokens of a value that is
-- the given one but for the order of the fields in its maps, and in which the keys of every map are
-- in the order of their bytes; provided its texts, arrays and maps are shorter than 2^32 and its
-- numbers are those of 64 bits.
pub pack_value-InOrder :
    (v : Value) (rest : List ℕ)
    → Fits v
    → (w : Value) × Rearranged v w × InOrder w × Reads (tokens w) (pack_value v ++ rest) rest
pack_value-InOrder v rest h =
    (sorted v, sorted-Rearranged v, sorted-InOrder v, pack_value-Reads v rest h)
