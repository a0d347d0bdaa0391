-- ===== src/Prelude/Lists.antt =====
-- Lists measured and indexed by native numbers, under the library's names.
use Prim.Native.Nat.{ℕ, zero, suc, ◌+◌, ◌-◌, ◌<◌, ◌≤◌}
use mathlib.Core.Path.{◌≡◌, refl, ap}
use mathlib.Core.Bool.{Bool, false, ◌||◌}
use mathlib.Core.List.{List, [], ◌∷◌, ◌++◌}
use mathlib.Core.Option.{Option, none, some}
use native.Mathlib.Omega.{arith}
use Prim.Native.String.{String}
use text.Mathlib.Text.{◌==◌ as str_eq}

module _ {ℓ} {A : Type ℓ} where
  abbrev pub length : List A → ℕ
  length [] = 0
  length (x ∷ xs) = suc (length xs)

  abbrev pub get_elem? : List A → ℕ → Option A
  get_elem? [] i = none
  get_elem? (x ∷ xs) zero = some x
  get_elem? (x ∷ xs) (suc i) = get_elem? xs i

  abbrev pub replicate : ℕ → A → List A
  replicate zero a = []
  replicate (suc n) a = a ∷ replicate n a

  pub length-append : (xs ys : List A) → length (xs ++ ys) ≡ length xs + length ys
  length-append [] ys = omega arith
  length-append (x ∷ xs) ys = omega (arith, length-append xs ys)

  pub length-replicate : (n : ℕ) (a : A) → length (replicate n a) ≡ n
  length-replicate zero a = refl
  length-replicate (suc n) a = ap suc (length-replicate n a)

  pub get_elem?-lt : (xs : List A) (i : ℕ) → i < length xs → (a : A) × (get_elem? xs i ≡ some a)
  get_elem?-lt [] i h = elim h [ ]
  get_elem?-lt (x ∷ xs) zero h = (x, refl)
  get_elem?-lt (x ∷ xs) (suc i) h = get_elem?-lt xs i (omega arith)

module _ {ℓ} {A : Type ℓ} where
  abbrev pub take : ℕ → List A → List A
  take zero xs = []
  take (suc n) [] = []
  take (suc n) (x ∷ xs) = x ∷ take n xs

  abbrev pub drop : ℕ → List A → List A
  drop zero xs = xs
  drop (suc n) [] = []
  drop (suc n) (x ∷ xs) = drop n xs

  -- The list from place k on, and then its beginning.
  abbrev pub rotate : ℕ → List A → List A
  rotate k xs = drop k xs ++ take k xs

  pub drop-get_elem? :
      (k : ℕ) (xs : List A) {a : A} → get_elem? xs k ≡ some a → drop k xs ≡ a ∷ drop (suc k) xs
  drop-get_elem? k [] h = cc
  drop-get_elem? zero (x ∷ xs) h = cc
  drop-get_elem? (suc k) (x ∷ xs) h = drop-get_elem? k xs h

  pub take-length : (k : ℕ) (xs : List A) → length xs ≤ k → take k xs ≡ xs
  take-length zero [] h = refl
  take-length zero (x ∷ xs) h = absurd (omega arith)
  take-length (suc k) [] h = refl
  take-length (suc k) (x ∷ xs) h = ap (λ ys. x ∷ ys) (take-length k xs (omega arith))

  pub length-drop : (k : ℕ) (xs : List A) → length (drop k xs) ≡ length xs - k
  length-drop zero xs = omega arith
  length-drop (suc k) [] = omega arith
  length-drop (suc k) (x ∷ xs) = omega (arith, length-drop k xs)

-- Membership of a text in a list of texts, as the program tests it through a Go map.
abbrev pub contains : List String → String → Bool
contains [] s = false
contains (x ∷ xs) s = str_eq x s || contains xs s
