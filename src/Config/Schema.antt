-- ===== src/Config/Schema.antt =====
-- internal/config/schema.go: the validator of documents against a JSON schema. A document is the tree
-- that normalizeYAML makes. The record Floats stands for float64, with the conversion of an int, and
-- `itoa`, `sort` and `exists` for fmt's %d, sort.Strings and os.Stat. The texts of the messages are
-- left out: a problem is a value, with the place that its message starts with. An enum that lists
-- arrays or objects, two of which Go's == does not compare, is left out.
pub mod Keywords
pub mod Normalize
pub mod Conforms
pub mod Decides
pub mod Matches
mod Examples
use Prim.Native.String.{◌++◌ as join}
use haribon.Prelude.{
  ℕ, suc, String, Bool, true, false, not, ◌&&◌, ◌||◌, Option, none, some, List, [], ◌∷◌, ◌++◌,
  str_eq, ℤ, contains, if◌then◌else◌,
}

pub record Floats : Type 1 where
  pub F : Type 0
  pub of_int : ℤ → F
  pub zero_f : F
  pub eq_f : F → F → Bool
  pub lt_f : F → F → Bool
  pub integral : F → Bool

module _ (fl : Floats) where
  mutual
    pub data Json : Type 0 where
      null other : Json
      bool : Bool → Json
      str : String → Json
      int : ℤ → Json
      float : fl.F → Json
      arr : Elems → Json
      obj : Props → Json

    pub data Elems : Type 0 where
      nil : Elems
      elem : Json → Elems → Elems

    -- a map[string]interface{}
    pub data Props : Type 0 where
      end : Props
      prop : String → Json → Props → Props

  -- The scalars of an enum, which json.Unmarshal makes.
  pub data Scalar : Type 0 where
    null : Scalar
    bool : Bool → Scalar
    str : String → Scalar
    number : fl.F → Scalar

  mutual
    -- What validateNode looks up in a schema node; `absent` is the nil map. The required names are
    -- those of the list, where an entry that is no text counts as the empty name.
    pub data Schema : Type 0 where
      absent : Schema
      node :
          (type_ : Option String) (enum : Option (List Scalar)) (minimum maximum : Option fl.F)
          → (required : List String) (props : Subs) (closed : Bool) (items : Schema) → Schema

    pub data Subs : Type 0 where
      no_more : Subs
      sub : String → Schema → Subs → Subs

  -- obj[name]
  unfoldable pub get_prop : Props → String → Option Json
  get_prop end name = none
  get_prop (prop k v ps) name = if str_eq k name then some v else get_prop ps name

  -- func numeric
  unfoldable pub numeric : Json → Option fl.F
  numeric (int z) = some (fl.of_int z)
  numeric (float f) = some f
  numeric null = none
  numeric other = none
  numeric (bool b) = none
  numeric (str s) = none
  numeric (arr es) = none
  numeric (obj ps) = none

  -- the cases of typeMatches
  unfoldable pub is_object : Json → Bool
  is_object (obj ps) = true
  is_object v = false

  unfoldable pub is_array : Json → Bool
  is_array (arr es) = true
  is_array v = false

  unfoldable pub is_string : Json → Bool
  is_string (str s) = true
  is_string v = false

  unfoldable pub is_boolean : Json → Bool
  is_boolean (bool b) = true
  is_boolean v = false

  unfoldable pub is_integer : Json → Bool
  is_integer (int z) = true
  is_integer (float f) = fl.integral f
  is_integer v = false

  unfoldable pub is_number : Json → Bool
  unfolding numeric
  is_number v = elim (numeric v) [ none ↦ false | some f ↦ true ]

  unfoldable pub is_null : Json → Bool
  is_null null = true
  is_null v = false

  -- func typeMatches
  unfoldable pub type_matches : String → Json → Bool
  unfolding is_object is_array is_string is_boolean is_integer is_number is_null
  type_matches want v =
      if str_eq want "object"
      then is_object v
      else if str_eq want "array"
      then is_array v
      else if str_eq want "string"
      then is_string v
      else if str_eq want "boolean"
      then is_boolean v
      else if str_eq want "integer"
      then is_integer v
      else if str_eq want "number"
      then is_number v
      else if str_eq want "null"
      then is_null v
      else true

  -- func jsonTypeName
  unfoldable pub json_type_name : Json → String
  json_type_name null = "null"
  json_type_name (bool b) = "boolean"
  json_type_name (str s) = "string"
  json_type_name (int z) = "integer"
  json_type_name (float f) = "number"
  json_type_name (arr es) = "array"
  json_type_name (obj ps) = "object"
  json_type_name other = "other"

  -- e == v, or the numbers compared
  unfoldable pub scalar_matches : Scalar → Json → Bool
  unfolding numeric
  scalar_matches (number f) v = elim (numeric v) [ none ↦ false | some g ↦ fl.eq_f f g ]
  scalar_matches null v = is_null v
  scalar_matches (bool b) (bool c) = if b then c else not c
  scalar_matches (str s) (str t) = str_eq s t
  scalar_matches (bool b) v = false
  scalar_matches (str s) v = false

  -- func enumContains
  unfoldable pub enum_contains : List Scalar → Json → Bool
  unfolding scalar_matches
  enum_contains [] v = false
  enum_contains (e ∷ es) v = scalar_matches e v || enum_contains es v

  pub data Problem : Type 0 where
    wrong_type : (place want got : String) → Problem
    not_in_enum : (place : String) → Json → List Scalar → Problem
    below above : (place : String) → (n bound : fl.F) → Problem
    missing_key : (place name : String) → Problem
    unknown_keys : (place : String) → List String → Problem

  -- `where`
  abbrev pub place_of : String → String
  place_of path = if str_eq path "" then "(root)" else path

  -- func joinPath
  unfoldable pub join_path : String → String → String
  join_path parent key = if str_eq parent "" then key else join parent (join "." key)

  -- the check of the minimum
  unfoldable pub below_problems : String → fl.F → Option fl.F → List Problem
  below_problems path n none = []
  below_problems path n (some lo) =
      if not (fl.eq_f n fl.zero_f) && fl.lt_f n lo then below (place_of path) n lo ∷ [] else []

  -- the check of the maximum
  unfoldable pub above_problems : String → fl.F → Option fl.F → List Problem
  above_problems path n none = []
  above_problems path n (some hi) = if fl.lt_f hi n then above (place_of path) n hi ∷ [] else []

  unfoldable pub range_problems : String → Option fl.F → Option fl.F → Option fl.F → List Problem
  unfolding below_problems above_problems
  range_problems path none minimum maximum = []
  range_problems path (some n) minimum maximum =
      below_problems path n minimum ++ above_problems path n maximum

  unfoldable pub required_problems : String → List String → Props → List Problem
  unfolding get_prop
  required_problems path [] ps = []
  required_problems path (name ∷ names) ps =
      (elim (get_prop ps name) [ none ↦ missing_key (place_of path) name ∷ [] | some v ↦ [] ])
      ++ required_problems path names ps

  unfoldable pub known : Subs → String → Bool
  known no_more key = false
  known (sub k s rest) key = str_eq k key || known rest key

  -- the keys that are collected as unknown
  unfoldable pub unknown : Subs → Props → List String
  unfolding known
  unknown subs end = []
  unknown subs (prop k v ps) = let rest = unknown subs ps in if known subs k then rest else k ∷ rest

  -- the elements with their places, from i on
  unfoldable pub item_problems : (ℕ → Json → List Problem) → ℕ → Elems → List Problem
  item_problems check i nil = []
  item_problems check i (elem v vs) = check i v ++ item_problems check (suc i) vs

  module _ (itoa : ℕ → String) (sort : List String → List String) where
    -- the check of additionalProperties
    unfoldable pub extra_problems : String → Bool → List String → List Problem
    extra_problems path false keys = []
    extra_problems path true [] = []
    extra_problems path true (k ∷ ks) = unknown_keys (place_of path) (sort (k ∷ ks)) ∷ []

    -- fmt.Sprintf("%s[%d]", path, i)
    abbrev pub item_path : String → ℕ → String
    item_path path i = join path (join "[" (join (itoa i) "]"))

    unfoldable mutual
      unfolding type_matches json_type_name enum_contains range_problems numeric required_problems
          unknown extra_problems item_problems join_path get_prop

      -- func validateNode
      pub validate_node : Schema → String → Json → List Problem
      validate_node absent path v = []
      validate_node (node type_ enum minimum maximum required props closed items) path v =
          let type_fits : Bool = elim type_ [ none ↦ true | some want ↦ type_matches want v ] in
          let enum_fits : Bool = elim enum [ none ↦ true | some es ↦ enum_contains es v ] in
          if not type_fits
          then wrong_type (place_of path) (elim type_ [ none ↦ "" | some want ↦ want ])
              (json_type_name v)
            ∷ []
          else if not enum_fits
          then not_in_enum (place_of path) v (elim enum [ none ↦ [] | some es ↦ es ]) ∷ []
          else range_problems path (numeric v) minimum maximum
            ++ ((elim v [
              | obj ps ↦
                  required_problems path required ps
                  ++ (check_subs props path ps ++ extra_problems path closed (unknown props ps))
              | _ ↦ []
            ])
                ++ (elim v [
                  | arr es ↦ item_problems (λ i e. validate_node items (item_path path i) e) 0 es
                  | _ ↦ []
                ]))

      -- the loop over the properties
      pub check_subs : Subs → String → Props → List Problem
      check_subs no_more path ps = []
      check_subs (sub key s rest) path ps =
          (elim (get_prop ps key) [
            | none ↦ []
            | some child ↦ validate_node s (join_path path key) child
          ])
          ++ check_subs rest path ps
