-- ===== src/Config/Schema/Normalize.antt =====
-- internal/config/schema.go, normalizeYAML: from the tree that yaml.v2 makes to the one that
-- encoding/json makes. `sprint` stands for fmt.Sprint of a key; a map is walked in the order of its list.
use haribon.Prelude.{◌≡◌, refl, ap, ◌∙◌, String, Option, some, str_eq, eq_iff, if◌then◌else◌, arith}
use haribon.Config.Schema.{Floats, Json, Elems, Props, get_prop}

module _ (fl : Floats) where
  mutual
    -- A document of yaml.v2: a leaf, a map with keys of any kind, a map with text keys, or a list.
    pub data Yaml : Type 0 where
      leaf : Json fl → Yaml
      any_map : Pairs → Yaml
      text_map : TextPairs → Yaml
      list : ValueList → Yaml

    -- a map[interface{}]interface{}, its keys leaves
    pub data Pairs : Type 0 where
      no_pairs : Pairs
      pair : Json fl → Yaml → Pairs → Pairs

    pub data TextPairs : Type 0 where
      no_fields : TextPairs
      field : String → Yaml → TextPairs → TextPairs

    pub data ValueList : Type 0 where
      no_items : ValueList
      item : Yaml → ValueList → ValueList

  -- m[k] = v
  unfoldable pub put_prop : Props fl → String → Json fl → Props fl
  put_prop Props.end k v = Props.prop k v Props.end
  put_prop (Props.prop j w ps) k v =
      let rest = put_prop ps k v in if str_eq j k then Props.prop j v ps else Props.prop j w rest

  module _ (sprint : Json fl → String) where
    unfoldable mutual
      -- func normalizeYAML; the loops fill the map `m`
      pub normalize_yaml : Yaml → Json fl
      normalize_yaml (leaf v) = v
      normalize_yaml (any_map ps) = Json.obj (normalize_pairs ps Props.end)
      normalize_yaml (text_map fs) = Json.obj (normalize_fields fs Props.end)
      normalize_yaml (list vs) = Json.arr (normalize_items vs)

      pub normalize_pairs : Pairs → Props fl → Props fl
      normalize_pairs no_pairs m = m
      normalize_pairs (pair k v ps) m =
          normalize_pairs ps (put_prop m (sprint k) (normalize_yaml v))

      pub normalize_fields : TextPairs → Props fl → Props fl
      normalize_fields no_fields m = m
      normalize_fields (field k v fs) m = normalize_fields fs (put_prop m k (normalize_yaml v))

      pub normalize_items : ValueList → Elems fl
      normalize_items no_items = Elems.nil
      normalize_items (item v vs) = Elems.elem (normalize_yaml v) (normalize_items vs)

    get_prop-put_prop :
        (m : Props fl) (k j : String) (v : Json fl)
        → get_prop fl (put_prop m k v) j ≡ (if str_eq k j then some v else get_prop fl m j)
    unfolding get_prop put_prop
    get_prop-put_prop Props.end k j v = refl
    get_prop-put_prop (Props.prop i w ps) k j v =
        ground (arith, get_prop-put_prop ps k j v, eq_iff i k, eq_iff i j, eq_iff k j)

    -- What the last pair of a map whose key reads `name` holds.
    abbrev pub last_of : String → Pairs → Option (Json fl) → Option (Json fl)
    last_of name no_pairs before = before
    last_of name (pair k v ps) before =
        last_of name ps (if str_eq (sprint k) name then some (normalize_yaml v) else before)

    -- Keys of different kinds that print alike become one: a map is normalised to the one in which each
    -- name stands for the last of the pairs whose key prints as this name.
    pub get_prop-normalize_pairs :
        (ps : Pairs) (m : Props fl) (name : String)
        → get_prop fl (normalize_pairs ps m) name ≡ last_of name ps (get_prop fl m name)
    unfolding normalize_pairs
    get_prop-normalize_pairs no_pairs m name = refl
    get_prop-normalize_pairs (pair k v ps) m name =
        get_prop-normalize_pairs ps (put_prop m (sprint k) (normalize_yaml v)) name
        ∙ ap (last_of name ps) (get_prop-put_prop m (sprint k) name (normalize_yaml v))
