-- ===== src/Config/Schema/Decides.antt =====
-- The validator decides what the schema says.
use haribon.Prelude.{
  ℕ, suc, ◌≡◌, ◌↔◌, refl, sym, subst, ◌∙◌, String, Bool, true, false, not, Option, none, some, List,
  [], ◌∷◌, ◌++◌, str_eq, eq_iff, eq_refl, arith, Bool-cases, inl, inr, false≢true, some-injective,
  if◌then◌else◌,
}
use haribon.Config.Schema.{
  Floats, Json, Elems, Props, Scalar, Schema, absent, node, Subs, no_more, sub, get_prop, numeric,
  type_matches, enum_contains, Problem, below_problems, above_problems, range_problems,
  required_problems, known, unknown, item_problems, item_path, join_path, extra_problems,
  validate_node, check_subs,
}
use haribon.Config.Schema.Conforms.{
  TypeFits, EnumFits, AtLeast, AtMost, InRange, HasAll, IsClosed, OfObject, OfItems, OfArray,
  Conforms, SubsConform,
}
use haribon.Config.Schema.Matches.{type_matches-TypeFits, enum_contains-AnyEquals}

module _ (fl : Floats) where
  -- A list of problems is empty exactly if `P` holds.
  abbrev Decides : List (Problem fl) → Type 0 → Type 0
  Decides xs P = (xs ≡ []) ↔ P

  both :
      (xs ys : List (Problem fl)) {P Q : Type 0}
      → Decides xs P
      → Decides ys Q
      → Decides (xs ++ ys) (P × Q)
  both [] ys h k = (λ e. (h.0 refl, k.0 e), λ pq. k.1 pq.1)
  both (x ∷ xs) ys h k = (λ e. absurd cc, λ pq. absurd (cc (h.1 pq.0)))

  below-Decides :
      (path : String) (n : fl.F) (lo : Option fl.F)
      → Decides (below_problems fl path n lo) (AtLeast fl lo n)
  unfolding below_problems
  below-Decides path n none = (λ e. tt, λ h. refl)
  below-Decides path n (some l) = ground arith

  above-Decides :
      (path : String) (n : fl.F) (hi : Option fl.F)
      → Decides (above_problems fl path n hi) (AtMost fl hi n)
  unfolding above_problems
  above-Decides path n none = (λ e. tt, λ h. refl)
  above-Decides path n (some u) = ground arith

  range-Decides :
      (path : String) (lo hi : Option fl.F) (v : Json fl)
      → Decides (range_problems fl path (numeric fl v) lo hi) (InRange fl lo hi v)
  unfolding range_problems numeric
  range-Decides path lo hi (Json.int z) =
      both _ _ (below-Decides path (fl.of_int z) lo) (above-Decides path (fl.of_int z) hi)
  range-Decides path lo hi (Json.float f) =
      both _ _ (below-Decides path f lo) (above-Decides path f hi)
  range-Decides path lo hi Json.null = (λ e. tt, λ h. refl)
  range-Decides path lo hi Json.other = (λ e. tt, λ h. refl)
  range-Decides path lo hi (Json.bool b) = (λ e. tt, λ h. refl)
  range-Decides path lo hi (Json.str s) = (λ e. tt, λ h. refl)
  range-Decides path lo hi (Json.arr es) = (λ e. tt, λ h. refl)
  range-Decides path lo hi (Json.obj ps) = (λ e. tt, λ h. refl)

  present-Decides :
      (path name : String) (o : Option (Json fl))
      → Decides
          (elim o [ none ↦ Problem.missing_key path name ∷ [] | some v ↦ [] ])
          ((v : Json fl) × (o ≡ some v))
  present-Decides path name none = (λ e. absurd cc, λ h. absurd cc)
  present-Decides path name (some v) = (λ e. (v, refl), λ h. refl)

  required-Decides :
      (path : String) (names : List String) (ps : Props fl)
      → Decides (required_problems fl path names ps) (HasAll fl names ps)
  unfolding required_problems
  required-Decides path [] ps = (λ e. tt, λ h. refl)
  required-Decides path (name ∷ names) ps =
      both _ _ (present-Decides _ name (get_prop fl ps name)) (required-Decides path names ps)

  unknown-IsClosed :
      (subs : Subs fl) (ps : Props fl) → (unknown fl subs ps ≡ []) ↔ IsClosed fl true subs ps
  unfolding unknown get_prop
  unknown-IsClosed subs Props.end = (λ e k v h. absurd cc, λ h. refl)
  unknown-IsClosed subs (Props.prop k v ps) = elim (Bool-cases (known fl subs k)) [
    | inl listed ↦ (
      λ e k' v' h. elim (Bool-cases (str_eq k k')) [
        | inl same ↦ subst (λ x. known fl subs x ≡ true) ((eq_iff k k').0 same) listed
        | inr other ↦ (unknown-IsClosed subs ps).0 (rw listed at e) k' v' (rw other at h)
      ],
      λ c. rw listed (
          (unknown-IsClosed subs ps).1 (λ k' v' h. elim (Bool-cases (str_eq k k')) [
            | inl same ↦ subst (λ x. known fl subs x ≡ true) ((eq_iff k k').0 same) listed
            | inr other ↦ c k' v' (rw other h)
          ])),
    )
    | inr unlisted ↦ (
      λ e. absurd (ground (arith, rw unlisted at e)),
      λ c. absurd (false≢true (sym unlisted ∙ c k v (rw (eq_refl k) refl))),
    )
  ]

  -- A check that comes first and ends the others.
  guarded :
      (b : Bool) (p : Problem fl) (rest : List (Problem fl)) {T P : Type 0}
      → (b ≡ true) ↔ T
      → Decides rest P
      → Decides (if not b then p ∷ [] else rest) (T × P)
  guarded true p rest h k = (λ e. (h.0 refl, k.0 e), λ tp. k.1 tp.1)
  guarded false p rest h k = (λ e. absurd cc, λ tp. absurd (false≢true (h.1 tp.0)))

  type_fits :
      (t : Option String) (v : Json fl)
      → ((elim t [ none ↦ true | some want ↦ type_matches fl want v ]) ≡ true) ↔ TypeFits fl t v
  type_fits none v = (λ e. tt, λ h. refl)
  type_fits (some want) v = type_matches-TypeFits fl want v

  enum_fits :
      (o : Option (List (Scalar fl))) (v : Json fl)
      → ((elim o [ none ↦ true | some es ↦ enum_contains fl es v ]) ≡ true) ↔ EnumFits fl o v
  enum_fits none v = (λ e. tt, λ h. refl)
  enum_fits (some es) v = enum_contains-AnyEquals fl es v

  object-Decides :
      (check : Props fl → List (Problem fl)) (P : Props fl → Type 0) (v : Json fl)
      → ((ps : Props fl) → Decides (check ps) (P ps))
      → Decides (elim v [ Json.obj ps ↦ check ps | _ ↦ [] ]) (OfObject fl P v)
  object-Decides check P (Json.obj ps) h = h ps
  object-Decides check P Json.null h = (λ e. tt, λ c. refl)
  object-Decides check P Json.other h = (λ e. tt, λ c. refl)
  object-Decides check P (Json.bool b) h = (λ e. tt, λ c. refl)
  object-Decides check P (Json.str s) h = (λ e. tt, λ c. refl)
  object-Decides check P (Json.int z) h = (λ e. tt, λ c. refl)
  object-Decides check P (Json.float f) h = (λ e. tt, λ c. refl)
  object-Decides check P (Json.arr es) h = (λ e. tt, λ c. refl)

  items-Decides :
      (check : ℕ → Json fl → List (Problem fl)) (P : Json fl → Type 0) (i : ℕ) (es : Elems fl)
      → ((j : ℕ) (v : Json fl) → Decides (check j v) (P v))
      → Decides (item_problems fl check i es) (OfItems fl P es)
  unfolding item_problems
  items-Decides check P i Elems.nil h = (λ e. tt, λ c. refl)
  items-Decides check P i (Elems.elem v vs) h =
      both _ _ (h i v) (items-Decides check P (suc i) vs h)

  array-Decides :
      (check : ℕ → Json fl → List (Problem fl)) (P : Json fl → Type 0) (v : Json fl)
      → ((j : ℕ) (w : Json fl) → Decides (check j w) (P w))
      → Decides (elim v [ Json.arr es ↦ item_problems fl check 0 es | _ ↦ [] ]) (OfArray fl P v)
  array-Decides check P (Json.arr es) h = items-Decides check P 0 es h
  array-Decides check P Json.null h = (λ e. tt, λ c. refl)
  array-Decides check P Json.other h = (λ e. tt, λ c. refl)
  array-Decides check P (Json.bool b) h = (λ e. tt, λ c. refl)
  array-Decides check P (Json.str s) h = (λ e. tt, λ c. refl)
  array-Decides check P (Json.int z) h = (λ e. tt, λ c. refl)
  array-Decides check P (Json.float f) h = (λ e. tt, λ c. refl)
  array-Decides check P (Json.obj ps) h = (λ e. tt, λ c. refl)

  child-Decides :
      (check : Json fl → List (Problem fl)) (P : Json fl → Type 0) (o : Option (Json fl))
      → ((v : Json fl) → Decides (check v) (P v))
      → Decides (elim o [ none ↦ [] | some c ↦ check c ]) ((v : Json fl) → o ≡ some v → P v)
  child-Decides check P none h = (λ e v s. absurd cc, λ c. refl)
  child-Decides check P (some w) h =
      (λ e v s. subst P (some-injective w v s) ((h w).0 e), λ c. (h w).1 (c w refl))

  module _ (itoa : ℕ → String) (sort : List String → List String) where
    nothing_extra :
        (path : String) (keys : List String)
        → (extra_problems fl itoa sort path true keys ≡ []) ↔ (keys ≡ [])
    unfolding extra_problems
    nothing_extra path [] = (λ e. refl, λ e. refl)
    nothing_extra path (k ∷ ks) = (λ e. absurd cc, λ e. absurd cc)

    extra-Decides :
        (path : String) (closed : Bool) (subs : Subs fl) (ps : Props fl)
        → Decides
            (extra_problems fl itoa sort path closed (unknown fl subs ps))
            (IsClosed fl closed subs ps)
    unfolding extra_problems
    extra-Decides path false subs ps = (λ e. tt, λ c. refl)
    extra-Decides path true subs ps =
        let none_extra = nothing_extra path (unknown fl subs ps) in
        let closed = unknown-IsClosed subs ps in
        (λ e. closed.0 (none_extra.0 e), λ c. none_extra.1 (closed.1 c))

    mutual
      unfolding validate_node Conforms check_subs SubsConform

      node-Decides :
          (s : Schema fl) (path : String) (v : Json fl)
          → (validate_node fl itoa sort s path v ≡ []) ↔ Conforms fl s v
      node-Decides absent path v = (λ e. tt, λ c. refl)
      node-Decides (node t en lo hi required props closed items) path v =
          guarded _ _ _ (type_fits t v) (
            guarded _ _ _ (enum_fits en v) (
              both _ _ (range-Decides path lo hi v) (
                both _ _
                  (object-Decides _ _ v (λ ps. both _ _ (required-Decides path required ps) (
                    both _ _ (check_subs-SubsConform props path ps)
                      (extra-Decides path closed props ps))))
                  (array-Decides _ (Conforms fl items) v
                    (λ i e. node-Decides items (item_path fl itoa sort path i) e)))))

      check_subs-SubsConform :
          (subs : Subs fl) (path : String) (ps : Props fl)
          → Decides (check_subs fl itoa sort subs path ps) (SubsConform fl subs ps)
      check_subs-SubsConform no_more path ps = (λ e. tt, λ c. refl)
      check_subs-SubsConform (sub k s rest) path ps =
          both _ _
            (child-Decides _ _ (get_prop fl ps k) (λ v. node-Decides s (join_path fl path k) v))
            (check_subs-SubsConform rest path ps)

    -- The validator finds no problem in a document exactly if the document conforms to the schema:
    -- the type and the enum name what the value is, numbers are in range, with zero never too small
    -- and a whole number taken as its floating-point number, required keys are there, the properties and the items conform, and a closed object has no other keys.
    pub validate_node-Conforms :
        (s : Schema fl) (path : String) (v : Json fl)
        → (validate_node fl itoa sort s path v ≡ []) ↔ Conforms fl s v
    validate_node-Conforms s path v = node-Decides s path v
