-- ===== src/Config/Load.antt =====
-- internal/config/config.go: expandEnv and Load. Texts are lists of characters. `lookup_env` stands
-- for os.LookupEnv, and `unmarshal` for yaml.Unmarshal into a Config, with none for an error.
pub mod Expand
use haribon.Prelude.{
  ℕ, suc, zero, Bool, true, false, ◌&&◌, ◌||◌, Option, none, some, List, [], ◌∷◌, ◌++◌, length,
  ◌==◌, leb, if◌then◌else◌,
}
use haribon.Prelude.Lines.{chars}
use haribon.Config.{Config}

-- the classes [A-Za-z_] and [A-Za-z0-9_] of envRef
unfoldable pub starts_name : ℕ → Bool
starts_name c = (leb b'A' c && leb c b'Z') || ((leb b'a' c && leb c b'z') || (c == b'_'))

unfoldable pub in_name : ℕ → Bool
unfolding starts_name
in_name c = starts_name c || (leb b'0' c && leb c b'9')

-- The characters of a name at the beginning of a text, and what follows them.
unfoldable pub name_at : List ℕ → List ℕ × List ℕ
unfolding in_name
name_at [] = ([], [])
name_at (c ∷ cs) = let rest = name_at cs in if in_name c then (c ∷ rest.0, rest.1) else ([], c ∷ cs)

-- The name of the reference whose name begins here, if its brace is closed.
unfoldable pub closed_name : List ℕ → Option (List ℕ)
unfolding starts_name name_at
closed_name [] = none
closed_name (c ∷ cs) = elim (starts_name c) [
  | false ↦ none
  | true ↦ elim (name_at cs).1 [
    | [] ↦ none
    | d ∷ ds ↦ if d == b'}' then some (c ∷ (name_at cs).0) else none
  ]
]

-- The name of the reference that begins here: a match of envRef at this place. The name is as long as
-- it can be, since the brace after it is no character of a name.
unfoldable pub reference_at : List ℕ → Option (List ℕ)
unfolding closed_name
reference_at [] = none
reference_at (c ∷ []) = none
reference_at (c ∷ d ∷ cs) = if (c == b'$') && (d == b'{') then closed_name cs else none

-- "${NAME}"
abbrev pub reference : List ℕ → List ℕ
reference name = b'$' ∷ b'{' ∷ (name ++ (b'}' ∷ []))

-- the function that ReplaceAllFunc calls for each match
unfoldable pub replacement : (List ℕ → Option (List ℕ)) → List ℕ → List ℕ
replacement lookup_env name = elim (lookup_env name) [ some v ↦ v | none ↦ reference name ]

-- ReplaceAllFunc: the matches from the left, none inside another; `skip` is what is left of the match
-- that has been replaced.
unfoldable pub replace_all : (List ℕ → Option (List ℕ)) → ℕ → List ℕ → List ℕ
unfolding reference_at replacement
replace_all lookup_env skip [] = []
replace_all lookup_env (suc skip) (c ∷ cs) = replace_all lookup_env skip cs
replace_all lookup_env zero (c ∷ cs) = elim (reference_at (c ∷ cs)) [
  | none ↦ c ∷ replace_all lookup_env 0 cs
  | some name ↦ replacement lookup_env name ++ replace_all lookup_env (suc (suc (length name))) cs
]

-- func expandEnv
unfoldable pub expand_env : (List ℕ → Option (List ℕ)) → List ℕ → List ℕ
unfolding replace_all
expand_env lookup_env text = replace_all lookup_env 0 text

-- func Load, with the contents of the file: none where it cannot be read
unfoldable pub load_config :
    (List ℕ → Option (List ℕ)) → (List ℕ → Option Config) → Option (List ℕ) → Option Config
unfolding expand_env
load_config lookup_env unmarshal none = none
load_config lookup_env unmarshal (some text) = unmarshal (expand_env lookup_env text)
