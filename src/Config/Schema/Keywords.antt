-- ===== src/Config/Schema/Keywords.antt =====
-- internal/config/schema.go: the keywords of a schema document, and the entry point of the check.
use haribon.Prelude.{
  ℕ, ◌≡◌, refl, String, Bool, true, false, not, Option, none, some, List, [], ◌∷◌, str_eq, contains,
  arith, eq_iff, if◌then◌else◌,
}
use haribon.Config.Schema.{
  Floats, Json, Elems, Props, Scalar, Schema, absent, node, Subs, no_more, sub, get_prop, numeric,
  Problem, validate_node,
}

abbrev pub schema_paths : List String
schema_paths =
    "schema/haribon-config.schema.json" ∷ "../schema/haribon-config.schema.json"
    ∷ "../../schema/haribon-config.schema.json" ∷ "/etc/haribon/haribon-config.schema.json" ∷ []

-- the loop over SchemaPaths
unfoldable pub first_existing : (String → Bool) → List String → String
first_existing exists [] = ""
first_existing exists (p ∷ ps) = let rest = first_existing exists ps in if exists p then p else rest

-- func FindSchema
unfoldable pub find_schema : (String → Bool) → String → String
unfolding first_existing
find_schema exists explicit =
    if not (str_eq explicit "")
    then (if exists explicit then explicit else "")
    else first_existing exists schema_paths

module _ (fl : Floats) where
  -- schema["type"].(string)
  abbrev pub text_in : Option (Json fl) → Option String
  text_in (some (Json.str s)) = some s
  text_in o = none

  abbrev pub number_in : Option (Json fl) → Option fl.F
  number_in none = none
  number_in (some v) = numeric fl v

  -- `extra, ok := schema["additionalProperties"].(bool); ok && !extra`
  abbrev pub closes : Option (Json fl) → Bool
  closes (some (Json.bool false)) = true
  closes o = false

  unfoldable pub enum_entries : Elems fl → List (Scalar fl)
  enum_entries Elems.nil = []
  enum_entries (Elems.elem Json.null es) = Scalar.null ∷ enum_entries es
  enum_entries (Elems.elem (Json.bool b) es) = Scalar.bool b ∷ enum_entries es
  enum_entries (Elems.elem (Json.str s) es) = Scalar.str s ∷ enum_entries es
  enum_entries (Elems.elem (Json.float f) es) = Scalar.number f ∷ enum_entries es
  enum_entries (Elems.elem v es) = enum_entries es

  abbrev pub enum_in : Option (Json fl) → Option (List (Scalar fl))
  enum_in (some (Json.arr es)) = some (enum_entries es)
  enum_in o = none

  -- name, _ := r.(string)
  unfoldable pub required_names : Elems fl → List String
  required_names Elems.nil = []
  required_names (Elems.elem (Json.str s) es) = s ∷ required_names es
  required_names (Elems.elem v es) = "" ∷ required_names es

  abbrev pub required_in : Option (Json fl) → List String
  required_in (some (Json.arr es)) = required_names es
  required_in o = []

  -- The schema node that validateNode reads in a document.
  unfoldable mutual
    unfolding get_prop numeric enum_entries required_names

    pub decode : Json fl → Schema fl
    decode (Json.obj ps) =
        node (text_in (get_prop fl ps "type")) (enum_in (get_prop fl ps "enum"))
          (number_in (get_prop fl ps "minimum")) (number_in (get_prop fl ps "maximum"))
          (required_in (get_prop fl ps "required")) (find_subs ps)
          (closes (get_prop fl ps "additionalProperties")) (find_items ps)
    decode v = absent

    -- schema["properties"].(map[string]interface{})
    pub find_subs : Props fl → Subs fl
    find_subs Props.end = no_more
    find_subs (Props.prop k v ps) =
        let mine = subs_of v in
        let rest = find_subs ps in if str_eq k "properties" then mine else rest

    pub subs_of : Json fl → Subs fl
    subs_of (Json.obj subs) = decode_subs subs
    subs_of v = no_more

    pub decode_subs : Props fl → Subs fl
    decode_subs Props.end = no_more
    decode_subs (Props.prop k v ps) = sub k (decode v) (decode_subs ps)

    -- schema["items"].(map[string]interface{})
    pub find_items : Props fl → Schema fl
    find_items Props.end = absent
    find_items (Props.prop k v ps) =
        let mine = decode v in let rest = find_items ps in if str_eq k "items" then mine else rest

  -- What reading and parsing a file comes to.
  pub data Source : Type 0 where
    unreadable malformed : Source
    parsed : Json fl → Source

  pub data Verdict : Type 0 where
    schema_unreadable schema_malformed config_unreadable config_malformed : Verdict
    problems : List (Problem fl) → Verdict

  -- json.Unmarshal into a map
  abbrev pub is_map : Json fl → Bool
  is_map (Json.obj ps) = true
  is_map Json.null = true
  is_map v = false

  module _ (itoa : ℕ → String) (sort : List String → List String) where
    -- func ValidateAgainstSchema; no problems is the result nil
    unfoldable pub validate_against_schema : Source → Source → Verdict
    unfolding validate_node decode
    validate_against_schema unreadable config = schema_unreadable
    validate_against_schema malformed config = schema_malformed
    validate_against_schema (parsed schema) config =
        if not (is_map schema) then schema_malformed else elim config [
          | unreadable ↦ config_unreadable
          | malformed ↦ config_malformed
          | parsed doc ↦ problems (validate_node fl itoa sort (decode schema) "" doc)
        ]

    -- The keywords that the validator knows.
    abbrev pub keywords : List String
    keywords =
        "type" ∷ "enum" ∷ "minimum" ∷ "maximum" ∷ "required" ∷ "properties" ∷ "additionalProperties"
        ∷ "items" ∷ []

    flip : (a b : String) → str_eq a b ≡ false → str_eq b a ≡ false
    flip a b h = ground (arith, eq_iff a b, eq_iff b a)

    -- A keyword that the validator does not know is ignored, not reported: with it or without it a
    -- schema object says the same of every document.
    pub unknown_keyword_is_ignored :
        (k : String) (v : Json fl) (ps : Props fl) (path : String) (doc : Json fl)
        → contains keywords k ≡ false
        → validate_node fl itoa sort (decode (Json.obj (Props.prop k v ps))) path doc
          ≡ validate_node fl itoa sort (decode (Json.obj ps)) path doc
    unfolding decode get_prop
    unknown_keyword_is_ignored k v ps path doc h =
        rw
          (
            flip "type" k (ground arith),
            flip "enum" k (ground arith),
            flip "minimum" k (ground arith),
            flip "maximum" k (ground arith),
            flip "required" k (ground arith),
            flip "properties" k (ground arith),
            flip "additionalProperties" k (ground arith),
            flip "items" k (ground arith),
          )
          refl
