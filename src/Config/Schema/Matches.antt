-- ===== src/Config/Schema/Matches.antt =====
-- typeMatches and enumContains say what the schema's description says.
use haribon.Prelude.{
  ◌≡◌, ◌↔◌, refl, sym, subst, String, true, false, not, ◌||◌, some, List, [], ◌∷◌, str_eq, eq_iff,
  arith, Bool-cases, inl, inr,
}
use haribon.Config.Schema.{
  Floats, Json, Scalar, numeric, type_matches, is_object, is_array, is_string, is_boolean,
  is_integer, is_number, is_null, scalar_matches, enum_contains,
}
use haribon.Config.Schema.Conforms.{one_of, type_names, types_of, TypeFits, Equals, AnyEquals}

module _ (fl : Floats) where
  -- The name is none of the seven.
  abbrev Unnamed : String → Type 0
  Unnamed w =
      (str_eq w "object" ≡ false)
      × (str_eq w "array" ≡ false)
      × (str_eq w "string" ≡ false)
      × (str_eq w "boolean" ≡ false)
      × (str_eq w "integer" ≡ false)
      × (str_eq w "number" ≡ false)
      × (str_eq w "null" ≡ false)

  by_name :
      (P : String → Type 0) (w : String)
      → P "object"
      → P "array"
      → P "string"
      → P "boolean"
      → P "integer"
      → P "number"
      → P "null"
      → ((w : String) → Unnamed w → P w)
      → P w
  by_name P w h0 h1 h2 h3 h4 h5 h6 other = elim (Bool-cases (str_eq w "object")) [
    | inl e ↦ subst P (sym ((eq_iff w "object").0 e)) h0
    | inr n0 ↦ elim (Bool-cases (str_eq w "array")) [
      | inl e ↦ subst P (sym ((eq_iff w "array").0 e)) h1
      | inr n1 ↦ elim (Bool-cases (str_eq w "string")) [
        | inl e ↦ subst P (sym ((eq_iff w "string").0 e)) h2
        | inr n2 ↦ elim (Bool-cases (str_eq w "boolean")) [
          | inl e ↦ subst P (sym ((eq_iff w "boolean").0 e)) h3
          | inr n3 ↦ elim (Bool-cases (str_eq w "integer")) [
            | inl e ↦ subst P (sym ((eq_iff w "integer").0 e)) h4
            | inr n4 ↦ elim (Bool-cases (str_eq w "number")) [
              | inl e ↦ subst P (sym ((eq_iff w "number").0 e)) h5
              | inr n5 ↦ elim (Bool-cases (str_eq w "null")) [
                | inl e ↦ subst P (sym ((eq_iff w "null").0 e)) h6
                | inr n6 ↦ other w (n0, n1, n2, n3, n4, n5, n6)
              ]
            ]
          ]
        ]
      ]
    ]
  ]

  abbrev Fits : Json fl → String → Type 0
  Fits v w =
      type_matches fl w v ≡ (not (one_of fl w (type_names fl)) || one_of fl w (types_of fl v))

  other-Fits : (v : Json fl) (w : String) → Unnamed w → Fits v w
  unfolding type_matches
  other-Fits v w (n0, n1, n2, n3, n4, n5, n6) = rw (n0, n1, n2, n3, n4, n5, n6) refl

  float-Fits : (f : fl.F) (w : String) → Fits (Json.float f) w
  unfolding type_matches is_object is_array is_string is_boolean is_integer is_number is_null
      numeric
  float-Fits f w = elim (Bool-cases (fl.integral f)) [
    | inl whole ↦
        by_name (Fits (Json.float f)) w (rw whole refl) (rw whole refl) (rw whole refl)
          (rw whole refl) (rw whole refl) (rw whole refl) (rw whole refl)
          (other-Fits (Json.float f))
    | inr part ↦
        by_name (Fits (Json.float f)) w (rw part refl) (rw part refl) (rw part refl) (rw part refl)
          (rw part refl) (rw part refl) (rw part refl) (other-Fits (Json.float f))
  ]

  type_matches-one_of : (w : String) (v : Json fl) → Fits v w
  unfolding type_matches is_object is_array is_string is_boolean is_integer is_number is_null
      numeric
  type_matches-one_of w Json.null =
      by_name (Fits Json.null) w refl refl refl refl refl refl refl (other-Fits Json.null)
  type_matches-one_of w Json.other =
      by_name (Fits Json.other) w refl refl refl refl refl refl refl (other-Fits Json.other)
  type_matches-one_of w (Json.bool b) =
      by_name (Fits (Json.bool b)) w refl refl refl refl refl refl refl (other-Fits (Json.bool b))
  type_matches-one_of w (Json.str s) =
      by_name (Fits (Json.str s)) w refl refl refl refl refl refl refl (other-Fits (Json.str s))
  type_matches-one_of w (Json.int z) =
      by_name (Fits (Json.int z)) w refl refl refl refl refl refl refl (other-Fits (Json.int z))
  type_matches-one_of w (Json.float f) = float-Fits f w
  type_matches-one_of w (Json.arr es) =
      by_name (Fits (Json.arr es)) w refl refl refl refl refl refl refl (other-Fits (Json.arr es))
  type_matches-one_of w (Json.obj ps) =
      by_name (Fits (Json.obj ps)) w refl refl refl refl refl refl refl (other-Fits (Json.obj ps))

  pub type_matches-TypeFits :
      (want : String) (v : Json fl) → (type_matches fl want v ≡ true) ↔ TypeFits fl (some want) v
  type_matches-TypeFits want v =
      let is = type_matches-one_of want v in
      (
        λ e. elim (Bool-cases (one_of fl want (type_names fl))) [
          | inl named ↦ inl (ground (arith, is, e, named))
          | inr unnamed ↦ inr unnamed
        ],
        λ h. elim h [
          | inl fits ↦ ground (arith, is, fits)
          | inr unnamed ↦ ground (arith, is, unnamed)
        ],
      )

  scalar_matches-Equals :
      (e : Scalar fl) (v : Json fl) → (scalar_matches fl e v ≡ true) ↔ Equals fl e v
  unfolding scalar_matches numeric is_null
  scalar_matches-Equals Scalar.null Json.null = ground arith
  scalar_matches-Equals Scalar.null Json.other = ground arith
  scalar_matches-Equals Scalar.null (Json.bool b) = ground arith
  scalar_matches-Equals Scalar.null (Json.str s) = ground arith
  scalar_matches-Equals Scalar.null (Json.int z) = ground arith
  scalar_matches-Equals Scalar.null (Json.float f) = ground arith
  scalar_matches-Equals Scalar.null (Json.arr es) = ground arith
  scalar_matches-Equals Scalar.null (Json.obj ps) = ground arith
  scalar_matches-Equals (Scalar.bool c) Json.null = ground arith
  scalar_matches-Equals (Scalar.bool c) Json.other = ground arith
  scalar_matches-Equals (Scalar.bool c) (Json.bool b) = ground arith
  scalar_matches-Equals (Scalar.bool c) (Json.str s) = ground arith
  scalar_matches-Equals (Scalar.bool c) (Json.int z) = ground arith
  scalar_matches-Equals (Scalar.bool c) (Json.float f) = ground arith
  scalar_matches-Equals (Scalar.bool c) (Json.arr es) = ground arith
  scalar_matches-Equals (Scalar.bool c) (Json.obj ps) = ground arith
  scalar_matches-Equals (Scalar.str t) Json.null = ground arith
  scalar_matches-Equals (Scalar.str t) Json.other = ground arith
  scalar_matches-Equals (Scalar.str t) (Json.bool b) = ground arith
  scalar_matches-Equals (Scalar.str t) (Json.str s) = ground (arith, eq_iff t s)
  scalar_matches-Equals (Scalar.str t) (Json.int z) = ground arith
  scalar_matches-Equals (Scalar.str t) (Json.float f) = ground arith
  scalar_matches-Equals (Scalar.str t) (Json.arr es) = ground arith
  scalar_matches-Equals (Scalar.str t) (Json.obj ps) = ground arith
  scalar_matches-Equals (Scalar.number g) Json.null = ground arith
  scalar_matches-Equals (Scalar.number g) Json.other = ground arith
  scalar_matches-Equals (Scalar.number g) (Json.bool b) = ground arith
  scalar_matches-Equals (Scalar.number g) (Json.str s) = ground arith
  scalar_matches-Equals (Scalar.number g) (Json.int z) = (
    λ e. inl (z, refl, e),
    λ h. elim h [
      | inl (y, same, fits) ↦ ground (arith, same, fits)
      | inr (y, same, fits) ↦ absurd cc
    ],
  )
  scalar_matches-Equals (Scalar.number g) (Json.float f) = (
    λ e. inr (f, refl, e),
    λ h. elim h [
      | inl (y, same, fits) ↦ absurd cc
      | inr (y, same, fits) ↦ ground (arith, same, fits)
    ],
  )
  scalar_matches-Equals (Scalar.number g) (Json.arr es) = ground arith
  scalar_matches-Equals (Scalar.number g) (Json.obj ps) = ground arith

  pub enum_contains-AnyEquals :
      (es : List (Scalar fl)) (v : Json fl) → (enum_contains fl es v ≡ true) ↔ AnyEquals fl es v
  unfolding enum_contains
  enum_contains-AnyEquals [] v = (λ e. absurd cc, λ h. absurd h)
  enum_contains-AnyEquals (e ∷ es) v =
      ground (arith, scalar_matches-Equals e v, enum_contains-AnyEquals es v)
