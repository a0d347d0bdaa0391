-- ===== src/Config/Schema/Conforms.antt =====
-- What a schema says of a document, without the validator.
use haribon.Prelude.{
  ◌≡◌, ◌⊎◌, String, Bool, true, false, ◌||◌, if◌then◌else◌, str_eq, ℤ, Option, none, some, List, [],
  ◌∷◌,
}
use haribon.Config.Schema.{
  Floats, Json, Elems, Props, Scalar, Schema, absent, node, Subs, no_more, sub, get_prop, known,
}

module _ (fl : Floats) where
  abbrev pub one_of : String → List String → Bool
  one_of want [] = false
  one_of want (name ∷ names) = str_eq want name || one_of want names

  abbrev pub type_names : List String
  type_names = "object" ∷ "array" ∷ "string" ∷ "boolean" ∷ "integer" ∷ "number" ∷ "null" ∷ []

  -- The types of JSON Schema that a value has: a number without a fraction is an integer, too.
  abbrev pub types_of : Json fl → List String
  types_of Json.null = "null" ∷ []
  types_of Json.other = []
  types_of (Json.bool b) = "boolean" ∷ []
  types_of (Json.str s) = "string" ∷ []
  types_of (Json.int z) = "integer" ∷ "number" ∷ []
  types_of (Json.float f) = if fl.integral f then "integer" ∷ "number" ∷ [] else "number" ∷ []
  types_of (Json.arr es) = "array" ∷ []
  types_of (Json.obj ps) = "object" ∷ []

  -- A name that is no type of JSON Schema asks for nothing.
  abbrev pub TypeFits : Option String → Json fl → Type 0
  TypeFits none v = Unit {0}
  TypeFits (some want) v = (one_of want (types_of v) ≡ true) ⊎ (one_of want type_names ≡ false)

  -- The value is the scalar; numbers are compared as floating-point numbers.
  abbrev pub Equals : Scalar fl → Json fl → Type 0
  Equals Scalar.null v = v ≡ Json.null
  Equals (Scalar.bool b) v = v ≡ Json.bool b
  Equals (Scalar.str s) v = v ≡ Json.str s
  Equals (Scalar.number f) v =
      ((z : ℤ) × (v ≡ Json.int z) × (fl.eq_f f (fl.of_int z) ≡ true))
      ⊎ ((g : fl.F) × (v ≡ Json.float g) × (fl.eq_f f g ≡ true))

  abbrev pub AnyEquals : List (Scalar fl) → Json fl → Type 0
  AnyEquals [] v = ⊥
  AnyEquals (e ∷ es) v = Equals e v ⊎ AnyEquals es v

  abbrev pub EnumFits : Option (List (Scalar fl)) → Json fl → Type 0
  EnumFits none v = Unit {0}
  EnumFits (some es) v = AnyEquals es v

  -- Zero counts as unset, and is never too small.
  abbrev pub AtLeast : Option fl.F → fl.F → Type 0
  AtLeast none n = Unit {0}
  AtLeast (some lo) n = (fl.eq_f n fl.zero_f ≡ true) ⊎ (fl.lt_f n lo ≡ false)

  abbrev pub AtMost : Option fl.F → fl.F → Type 0
  AtMost none n = Unit {0}
  AtMost (some hi) n = fl.lt_f hi n ≡ false

  abbrev pub InRange : Option fl.F → Option fl.F → Json fl → Type 0
  InRange lo hi (Json.int z) = AtLeast lo (fl.of_int z) × AtMost hi (fl.of_int z)
  InRange lo hi (Json.float f) = AtLeast lo f × AtMost hi f
  InRange lo hi v = Unit {0}

  -- Every required name has a value.
  abbrev pub HasAll : List String → Props fl → Type 0
  HasAll [] ps = Unit {0}
  HasAll (name ∷ names) ps = ((v : Json fl) × (get_prop fl ps name ≡ some v)) × HasAll names ps

  -- Where the object is closed, each of its keys is a property of the schema.
  abbrev pub IsClosed : Bool → Subs fl → Props fl → Type 0
  IsClosed false subs ps = Unit {0}
  IsClosed true subs ps =
      (k : String) (v : Json fl) → get_prop fl ps k ≡ some v → known fl subs k ≡ true

  abbrev pub OfObject : (Props fl → Type 0) → Json fl → Type 0
  OfObject P (Json.obj ps) = P ps
  OfObject P v = Unit {0}

  abbrev pub OfItems : (Json fl → Type 0) → Elems fl → Type 0
  OfItems P Elems.nil = Unit {0}
  OfItems P (Elems.elem v vs) = P v × OfItems P vs

  abbrev pub OfArray : (Json fl → Type 0) → Json fl → Type 0
  OfArray P (Json.arr es) = OfItems P es
  OfArray P v = Unit {0}

  -- The document is as the schema says.
  unfoldable mutual
    unfolding get_prop

    pub Conforms : Schema fl → Json fl → Type 0
    Conforms absent v = Unit {0}
    Conforms (node type_ enum minimum maximum required props closed items) v =
        TypeFits type_ v
        × (EnumFits enum v
            × (InRange minimum maximum v
                × (OfObject
                      (λ ps. HasAll required ps × (SubsConform props ps × IsClosed closed props ps))
                      v
                    × OfArray (Conforms items) v)))

    pub SubsConform : Subs fl → Props fl → Type 0
    SubsConform no_more ps = Unit {0}
    SubsConform (sub k s rest) ps =
        ((v : Json fl) → get_prop fl ps k ≡ some v → Conforms s v) × SubsConform rest ps
