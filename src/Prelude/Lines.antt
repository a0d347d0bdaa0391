-- ===== src/Prelude/Lines.antt =====
-- Texts as lists of numbers, and the lines that they consist of.
use Prim.Native.Char.{code}
use Prim.Native.Nat.{ℕ}
use Prim.Native.String.{String}
use mathlib.Core.Path.{◌≡◌, sym, ap, ◌∙◌}
use mathlib.Core.Bool.{Bool, true, false, not, ◌&&◌}
use native.Mathlib.Omega.{arith}
use mathlib.Core.List.{List, [], ◌∷◌, ◌++◌, append_assoc, append-nil}
use haribon.Prelude.Tests.{◌==◌}

-- The characters of a text, by their numbers.
abbrev pub chars : String → List ℕ
chars String.[] = []
chars (String.◌∷◌ c s) = code c ∷ chars s

-- The lines of a text, each ended by a newline; `line` is the part of the line read so far.
unfoldable pub lines_from : List ℕ → List ℕ → List (List ℕ)
lines_from line [] = []
lines_from line (c ∷ cs) = elim (c == b'\n') [
  | true ↦ line ∷ lines_from [] cs
  | false ↦ lines_from (line ++ (c ∷ [])) cs
]

-- A text in which a character does not occur.
abbrev pub Without : ℕ → List ℕ → Type 0
Without d [] = Unit {0}
Without d (c ∷ cs) = ((c == d) ≡ false) × Without d cs

abbrev pub OneLine : List ℕ → Type 0
OneLine = Without b'\n'

abbrev pub lacks : ℕ → List ℕ → Bool
lacks d [] = true
lacks d (c ∷ cs) = not (c == d) && lacks d cs

pub lacks-Without : (d : ℕ) (s : List ℕ) → lacks d s ≡ true → Without d s
lacks-Without d [] h = tt
lacks-Without d (c ∷ s) h = (ground (arith, h), lacks-Without d s (ground (arith, h)))

pub append-Without : (d : ℕ) (s t : List ℕ) → Without d s → Without d t → Without d (s ++ t)
append-Without d [] t hs ht = ht
append-Without d (c ∷ s) t hs ht = (hs.0, append-Without d s t hs.1 ht)

pub lines_from-line :
    (line l rest : List ℕ)
    → OneLine l
    → lines_from line (l ++ (b'\n' ∷ rest)) ≡ (line ++ l) ∷ lines_from [] rest
unfolding lines_from
lines_from-line line [] rest h = ap (λ l. l ∷ lines_from [] rest) (sym (append-nil line))
lines_from-line line (c ∷ l) rest h =
    rw (h.0, lines_from)
      (lines_from-line (line ++ (c ∷ [])) l rest h.1
        ∙ ap (λ x. x ∷ lines_from [] rest) (append_assoc line (c ∷ []) l))
