-- ===== src/Config/Load/Expand.antt =====
-- What expandEnv makes of a text with references.
use haribon.Prelude.{
  ℕ, suc, ◌≡◌, refl, ap, ◌∙◌, true, false, Option, none, some, List, [], ◌∷◌, ◌++◌, length,
  length-append, false≢true, ◌==◌, arith,
}
use mathlib.Core.List.{append_assoc}
use haribon.Prelude.Lines.{Without}
use haribon.Config.Load.{
  starts_name, in_name, name_at, closed_name, reference_at, reference, replacement, replace_all,
  expand_env,
}

-- A name that envRef matches.
abbrev pub InName : List ℕ → Type 0
InName [] = Unit {0}
InName (c ∷ cs) = (in_name c ≡ true) × InName cs

abbrev pub IsName : List ℕ → Type 0
IsName [] = false ≡ true
IsName (c ∷ cs) = (starts_name c ≡ true) × InName cs

-- A piece of a text: some characters, or a reference.
pub data Piece : Type 0 where
  literal : List ℕ → Piece
  variable : List ℕ → Piece

-- No literal has a dollar sign in it, and every name is one.
abbrev pub AllMarked : List Piece → Type 0
AllMarked [] = Unit {0}
AllMarked (literal s ∷ ps) = Without b'$' s × AllMarked ps
AllMarked (variable name ∷ ps) = IsName name × AllMarked ps

abbrev pub text_of : List Piece → List ℕ
text_of [] = []
text_of (literal s ∷ ps) = s ++ text_of ps
text_of (variable name ∷ ps) = reference name ++ text_of ps

-- Each reference to a variable that is set, replaced by the value.
abbrev pub substituted : (List ℕ → Option (List ℕ)) → List Piece → List ℕ
substituted lookup_env [] = []
substituted lookup_env (literal s ∷ ps) = s ++ substituted lookup_env ps
substituted lookup_env (variable name ∷ ps) =
    elim (lookup_env name) [ some v ↦ v | none ↦ reference name ] ++ substituted lookup_env ps

name_at-append :
    (name rest : List ℕ) → InName name → name_at (name ++ (b'}' ∷ rest)) ≡ (name, b'}' ∷ rest)
unfolding name_at in_name starts_name
name_at-append [] rest h = refl
name_at-append (c ∷ name) rest h = rw (name_at-append name rest h.1) (rw h.0 refl)

closed_name-append :
    (c : ℕ) (name rest : List ℕ)
    → IsName (c ∷ name)
    → closed_name (c ∷ (name ++ (b'}' ∷ rest))) ≡ some (c ∷ name)
unfolding closed_name
closed_name-append c name rest h =
    rw (h.0, closed_name)
      (rw (name_at-append name rest h.1) (ap (λ r. some (c ∷ r.0)) (name_at-append name rest h.1)))

reference_at-append :
    (name rest : List ℕ) → IsName name → reference_at (reference name ++ rest) ≡ some name
unfolding reference_at
reference_at-append [] rest h = elim (false≢true h) [ ]
reference_at-append (c ∷ name) rest h =
    ap (λ t. reference_at (b'$' ∷ b'{' ∷ c ∷ t)) (append_assoc name (b'}' ∷ []) rest)
    ∙ closed_name-append c name rest h

module _ (lookup_env : List ℕ → Option (List ℕ)) where
  replace_all-skip :
      (s rest : List ℕ)
      → replace_all lookup_env (length s) (s ++ rest) ≡ replace_all lookup_env 0 rest
  unfolding replace_all
  replace_all-skip [] rest = refl
  replace_all-skip (c ∷ s) rest = replace_all-skip s rest

  reference_at-none : (c : ℕ) (cs : List ℕ) → (c == b'$') ≡ false → reference_at (c ∷ cs) ≡ none
  unfolding reference_at
  reference_at-none c [] h = refl
  reference_at-none c (d ∷ cs) h = rw h refl

  replace_all-literal :
      (s rest : List ℕ)
      → Without b'$' s
      → replace_all lookup_env 0 (s ++ rest) ≡ s ++ replace_all lookup_env 0 rest
  unfolding replace_all
  replace_all-literal [] rest h = refl
  replace_all-literal (c ∷ s) rest h =
      rw (reference_at-none c (s ++ rest) h.0, replace_all)
        (ap (λ t. c ∷ t) (replace_all-literal s rest h.1))

  skip-reference :
      (name rest : List ℕ)
      → replace_all lookup_env (suc (suc (length name))) (b'{' ∷ ((name ++ (b'}' ∷ [])) ++ rest))
        ≡ replace_all lookup_env 0 rest
  unfolding replace_all
  skip-reference name rest =
      ap (λ n. replace_all lookup_env n ((name ++ (b'}' ∷ [])) ++ rest))
        (omega (arith, length-append name (b'}' ∷ [])))
      ∙ replace_all-skip (name ++ (b'}' ∷ [])) rest

  replace_all-reference :
      (name rest : List ℕ)
      → IsName name
      → replace_all lookup_env 0 (reference name ++ rest)
        ≡ replacement lookup_env name ++ replace_all lookup_env 0 rest
  unfolding replace_all
  replace_all-reference name rest h =
      rw (reference_at-append name rest h, replace_all)
        (ap (λ t. replacement lookup_env name ++ t) (skip-reference name rest))

  -- A text of literals without a dollar sign and of references to variables is expanded piece by
  -- piece: each reference to a variable that is set gives way to the value, which is not read again
  -- for references; one that is not set stays as it is written, and so does all else.
  pub expand_env-text_of :
      (ps : List Piece)
      → AllMarked ps
      → expand_env lookup_env (text_of ps) ≡ substituted lookup_env ps
  unfolding expand_env replace_all replacement
  expand_env-text_of [] h = refl
  expand_env-text_of (literal s ∷ ps) h =
      replace_all-literal s (text_of ps) h.0 ∙ ap (λ t. s ++ t) (expand_env-text_of ps h.1)
  expand_env-text_of (variable name ∷ ps) h =
      replace_all-reference name (text_of ps) h.0
      ∙ ap (λ t. replacement lookup_env name ++ t) (expand_env-text_of ps h.1)
