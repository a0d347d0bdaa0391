-- ===== src/Logging/Msgpack/Fits.antt =====
-- The values that the format can hold.
use haribon.Prelude.{
  ℕ, suc, ◌^◌, ◌<◌, ◌≡◌, refl, sym, ap, subst, ◌∙◌, List, length, Bool-cases, inl, inr,
}
use haribon.Logging.Msgpack.Defs.{
  Value, Items, Fields, count_items, count_fields, sorted, sorted_items, sorted_fields, sort_fields,
  insert_field, bytes_le,
}
use haribon.Logging.Msgpack.Words.{IsInt64}

-- What the types of Go and the format's 32-bit sizes bound: texts, containers and integers.
unfoldable mutual
  unfolding count_items count_fields

  pub Fits : Value → Type 0
  Fits Value.nil = Unit {0}
  Fits Value.unsupported = Unit {0}
  Fits (Value.bool b) = Unit {0}
  Fits (Value.string s) = length s < 2 ^ 32
  Fits (Value.int z) = IsInt64 z
  Fits (Value.uint n) = n < 2 ^ 64
  Fits (Value.float bits) = bits < 2 ^ 64
  Fits (Value.map fs) = (count_fields fs < 2 ^ 32) × FieldsFit fs
  Fits (Value.array vs) = (count_items vs < 2 ^ 32) × ItemsFit vs

  pub ItemsFit : Items → Type 0
  ItemsFit Items.done = Unit {0}
  ItemsFit (Items.item v vs) = Fits v × ItemsFit vs

  pub FieldsFit : Fields → Type 0
  FieldsFit Fields.end = Unit {0}
  FieldsFit (Fields.field k v fs) = (length k < 2 ^ 32) × Fits v × FieldsFit fs

-- Sorting the fields of maps keeps what bounds a value.
insert_field-Fits :
    (k : List ℕ) (v : Value) (fs : Fields)
    → length k < 2 ^ 32
    → Fits v
    → FieldsFit fs
    → FieldsFit (insert_field k v fs) × (count_fields (insert_field k v fs) ≡ suc (count_fields fs))
unfolding insert_field count_fields FieldsFit
insert_field-Fits k v Fields.end hk hv h = ((hk, hv, tt), refl)
insert_field-Fits k v (Fields.field j w fs) hk hv h = elim (Bool-cases (bytes_le k j)) [
  | inl le ↦ rw le ((hk, hv, h), refl)
  | inr gt ↦
      let (fit, count) = insert_field-Fits k v fs hk hv h.2 in rw gt ((h.0, h.1, fit), ap suc count)
]

mutual
  unfolding Fits sorted sort_fields count_fields count_items

  pub sorted-Fits : (v : Value) → Fits v → Fits (sorted v)
  sorted-Fits Value.nil h = tt
  sorted-Fits Value.unsupported h = tt
  sorted-Fits (Value.bool b) h = tt
  sorted-Fits (Value.string s) h = h
  sorted-Fits (Value.int z) h = h
  sorted-Fits (Value.uint n) h = h
  sorted-Fits (Value.float bits) h = h
  sorted-Fits (Value.map fs) h =
      let (fit, count) = sorted_fields-Fits fs h.1 in (subst (λ n. n < 2 ^ 32) (sym count) h.0, fit)
  sorted-Fits (Value.array vs) h =
      let (fit, count) = sorted_items-Fits vs h.1 in (subst (λ n. n < 2 ^ 32) (sym count) h.0, fit)

  sorted_items-Fits :
      (vs : Items)
      → ItemsFit vs
      → ItemsFit (sorted_items vs) × (count_items (sorted_items vs) ≡ count_items vs)
  sorted_items-Fits Items.done h = (tt, refl)
  sorted_items-Fits (Items.item v vs) h =
      let (fit, count) = sorted_items-Fits vs h.1 in ((sorted-Fits v h.0, fit), ap suc count)

  sorted_fields-Fits :
      (fs : Fields)
      → FieldsFit fs
      → FieldsFit (sort_fields (sorted_fields fs))
        × (count_fields (sort_fields (sorted_fields fs)) ≡ count_fields fs)
  sorted_fields-Fits Fields.end h = (tt, refl)
  sorted_fields-Fits (Fields.field k v fs) h =
      let (fit, count) = sorted_fields-Fits fs h.2 in
      let (fit', count') =
        insert_field-Fits k (sorted v) (sort_fields (sorted_fields fs)) h.0 (sorted-Fits v h.1)
          fit in
      (fit', count' ∙ ap suc count)
