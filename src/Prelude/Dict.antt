-- ===== src/Prelude/Dict.antt =====
-- Go's `map[string]V` as an association list. The order of the entries stands for the order in
-- which one `range` loop meets them; Go leaves that order open, and the theorems about such loops
-- speak of lookups only.
use mathlib.Core.Path.{◌≡◌, refl}
use mathlib.Core.Logic.{inl, inr}
use mathlib.Core.Option.{Option, none, some}
use mathlib.Core.List.{List, [], ◌∷◌}
use native.Mathlib.Omega.{arith}
use Prim.Native.String.{String}
use text.Mathlib.Text.{◌==◌ as str_eq}
use text.Mathlib.TextEquality.{eq_iff}
use haribon.Prelude.Tests.{if◌then◌else◌, Bool-cases}

abbrev pub Dict {ℓ} : Type ℓ → Type ℓ
Dict V = List (String × V)

module _ {ℓ} {V : Type ℓ} where
  -- v, ok := m[k]
  unfoldable pub get : Dict V → String → Option V
  get [] k = none
  get ((j, v) ∷ m) k = if str_eq j k then some v else get m k

  -- m[k] = v
  unfoldable pub put : Dict V → String → V → Dict V
  put [] k v = (k, v) ∷ []
  put ((j, w) ∷ m) k v = if str_eq j k then (j, v) ∷ m else (j, w) ∷ put m k v

  -- delete(m, k)
  unfoldable pub remove : Dict V → String → Dict V
  remove [] k = []
  remove ((j, v) ∷ m) k = let rest = remove m k in if str_eq j k then rest else (j, v) ∷ rest

  pub keys : Dict V → List String
  keys [] = []
  keys ((j, v) ∷ m) = j ∷ keys m

  -- A Go map holds a key once.
  abbrev pub IsMap : Dict V → Type ℓ
  IsMap [] = Unit
  IsMap ((j, v) ∷ m) = (get m j ≡ none) × IsMap m

  pub get-put :
      (m : Dict V) (k : String) (v : V) (j : String)
      → get (put m k v) j ≡ (if str_eq k j then some v else get m j)
  unfolding get put
  get-put [] k v j = refl
  get-put ((i, w) ∷ m) k v j = ground (arith, get-put m k v j, eq_iff i k, eq_iff i j, eq_iff k j)

  pub get-remove :
      (m : Dict V) (k j : String) → get (remove m k) j ≡ (if str_eq k j then none else get m j)
  unfolding get remove
  get-remove [] k j = ground arith
  get-remove ((i, w) ∷ m) k j = ground (arith, get-remove m k j, eq_iff i k, eq_iff i j, eq_iff k j)

  pub put-IsMap : (m : Dict V) (k : String) (v : V) → IsMap m → IsMap (put m k v)
  unfolding get put
  put-IsMap [] k v h = (refl, tt)
  put-IsMap ((i, w) ∷ m) k v h = elim (Bool-cases (str_eq i k)) [
    | inl same ↦ rw same h
    | inr other ↦
        rw other (ground (arith, get-put m k v i, eq_iff i k, eq_iff k i, h.0), put-IsMap m k v h.1)
  ]

  pub remove-IsMap : (m : Dict V) (k : String) → IsMap m → IsMap (remove m k)
  unfolding get remove
  remove-IsMap [] k h = tt
  remove-IsMap ((i, w) ∷ m) k h = elim (Bool-cases (str_eq i k)) [
    | inl same ↦ rw same (remove-IsMap m k h.1)
    | inr other ↦
        rw other
          (ground (arith, get-remove m k i, eq_iff i k, eq_iff k i, h.0), remove-IsMap m k h.1)
  ]

pub ruleset dict_laws = (get-put, get-remove)
