-- ===== src/Metrics/Render.antt =====
-- internal/metrics/metrics.go, Render: the text of the registry. `show` is fmt's %d. The maps are
-- walked in the order of their lists.
use haribon.Prelude.{
  ℕ, ◌≡◌, refl, sym, ap, subst, ◌∙◌, String, true, false, Option, none, some, List, [], ◌∷◌, ◌++◌,
  ◌==◌, ℤ, arith,
}
use mathlib.Core.List.{append_assoc, append-nil}
use haribon.Prelude.Dict.{Dict}
use haribon.Prelude.Lines.{
  chars, lines_from, Without, OneLine, lacks-Without, append-Without, lines_from-line,
}
use haribon.Metrics.{Metrics}

-- the loop over one of the two maps
unfoldable pub render_kind : (ℤ → List ℕ) → List ℕ → Dict ℤ → List ℕ
render_kind show kind [] = []
render_kind show kind ((name, v) ∷ m) =
    (chars "# TYPE " ++ (chars name ++ (chars " " ++ kind)))
    ++ (b'\n' ∷ ((chars name ++ (chars " " ++ show v)) ++ (b'\n' ∷ render_kind show kind m)))

-- func (r *Registry) Render
unfoldable pub render : (ℤ → List ℕ) → Metrics → List ℕ
unfolding render_kind
render show r =
    render_kind show (chars "counter") r.counters ++ render_kind show (chars "gauge") r.gauges

-- The text before the last space of a line, and the text after it.
unfoldable pub split_last : List ℕ → Option (List ℕ × List ℕ)
split_last [] = none
split_last (c ∷ cs) = elim (split_last cs) [
  | some (before, after) ↦ some (c ∷ before, after)
  | none ↦ elim (c == b' ') [ true ↦ some ([], cs) | false ↦ none ]
]

-- The rest of a line that begins with the given text.
unfoldable pub strip_start : List ℕ → List ℕ → Option (List ℕ)
strip_start [] cs = some cs
strip_start (p ∷ ps) [] = none
strip_start (p ∷ ps) (c ∷ cs) =
    let rest = strip_start ps cs in elim (p == c) [ true ↦ rest | false ↦ none ]

-- The name and the kind of a type line, and the name and the value of the line after it.
abbrev pub Sample : Type 0
Sample = (List ℕ × List ℕ) × (List ℕ × List ℕ)

unfoldable pub read_samples : List (List ℕ) → Option (List Sample)
unfolding split_last strip_start
read_samples [] = some []
read_samples (t ∷ []) = none
read_samples (t ∷ s ∷ rest) = elim (split_last t) [
  | none ↦ none
  | some (typed, kind) ↦ elim (strip_start (chars "# TYPE ") typed) [
    | none ↦ none
    | some declared ↦ elim (split_last s) [
      | none ↦ none
      | some (name, value) ↦ elim (read_samples rest) [
        | none ↦ none
        | some more ↦ some (((declared, kind), (name, value)) ∷ more)
      ]
    ]
  ]
]

abbrev pub samples : (ℤ → List ℕ) → List ℕ → Dict ℤ → List Sample
samples show kind [] = []
samples show kind ((name, v) ∷ m) = ((chars name, kind), (chars name, show v)) ∷ samples show kind m

-- The names of a map are lines.
abbrev pub NamesOnLines : Dict ℤ → Type 0
NamesOnLines [] = Unit {0}
NamesOnLines ((name, v) ∷ m) = OneLine (chars name) × NamesOnLines m

-- What fmt writes for a number has no newline and no space in it.
abbrev pub IsWord : List ℕ → Type 0
IsWord s = OneLine s × Without b' ' s

split_last-none : (s : List ℕ) → Without b' ' s → split_last s ≡ none
unfolding split_last
split_last-none [] h = refl
split_last-none (c ∷ s) h = rw (split_last-none s h.1, h.0) refl

split_last-append : (n s : List ℕ) → Without b' ' s → split_last (n ++ (b' ' ∷ s)) ≡ some (n, s)
unfolding split_last
split_last-append [] s h = rw (split_last-none s h) refl
split_last-append (c ∷ n) s h = rw (split_last-append n s h) refl

strip_start-append : (ps cs : List ℕ) → strip_start ps (ps ++ cs) ≡ some cs
unfolding strip_start
strip_start-append [] cs = refl
strip_start-append (p ∷ ps) cs = rw (eq_self p, strip_start) (strip_start-append ps cs)
  where
    eq_self : (n : ℕ) → (n == n) ≡ true
    eq_self n = ground arith

-- The reading of a type line and a value line from that of their parts.
read-pair :
    (t s : List ℕ) (rest : List (List ℕ)) (typed kind declared name value : List ℕ)
    (more : List Sample)
    → split_last t ≡ some (typed, kind)
    → strip_start (chars "# TYPE ") typed ≡ some declared
    → split_last s ≡ some (name, value)
    → read_samples rest ≡ some more
    → read_samples (t ∷ s ∷ rest) ≡ some (((declared, kind), (name, value)) ∷ more)
unfolding read_samples
read-pair t s rest typed kind declared name value more split strip last h =
    rw (split, read_samples) (rw strip (rw last (rw h refl)))

hash : OneLine (chars "# TYPE ")
hash = lacks-Without b'\n' (chars "# TYPE ") refl

counter-IsWord : IsWord (chars "counter")
counter-IsWord =
    (lacks-Without b'\n' (chars "counter") refl, lacks-Without b' ' (chars "counter") refl)

gauge-IsWord : IsWord (chars "gauge")
gauge-IsWord = (lacks-Without b'\n' (chars "gauge") refl, lacks-Without b' ' (chars "gauge") refl)

module _ (show : ℤ → List ℕ) (word : (v : ℤ) → IsWord (show v)) (kind : List ℕ)
    (kind_word : IsWord kind) where
  -- The type line and the value line of one metric.
  entry_lines : String → ℤ → List (List ℕ) → List (List ℕ)
  entry_lines name v rest =
      (chars "# TYPE " ++ (chars name ++ (b' ' ∷ kind))) ∷ (chars name ++ (b' ' ∷ show v)) ∷ rest

  lines-render_kind :
      (name : String) (v : ℤ) (m : Dict ℤ) (tail : List ℕ)
      → OneLine (chars name)
      → lines_from [] (render_kind show kind ((name, v) ∷ m) ++ tail)
        ≡ entry_lines name v (lines_from [] (render_kind show kind m ++ tail))
  unfolding entry_lines render_kind
  lines-render_kind name v m tail h =
      let typed : List ℕ = chars "# TYPE " ++ (chars name ++ (b' ' ∷ kind)) in
      let sample : List ℕ = chars name ++ (b' ' ∷ show v) in
      let rest : List ℕ = render_kind show kind m in
      ap (lines_from []) (append_assoc typed (b'\n' ∷ (sample ++ (b'\n' ∷ rest))) tail)
      ∙ lines_from-line [] typed ((sample ++ (b'\n' ∷ rest)) ++ tail) (
          append-Without b'\n' (chars "# TYPE ") _ hash
            (append-Without b'\n' (chars name) (b' ' ∷ kind) h (refl, kind_word.0)))
      ∙ ap (λ ls. typed ∷ ls)
          (ap (lines_from []) (append_assoc sample (b'\n' ∷ rest) tail)
            ∙ lines_from-line [] sample (rest ++ tail)
                (append-Without b'\n' (chars name) (b' ' ∷ show v) h (refl, (word v).0)))

  read-entry_lines :
      (name : String) (v : ℤ) (rest : List (List ℕ)) (more : List Sample)
      → read_samples rest ≡ some more
      → read_samples (entry_lines name v rest)
        ≡ some (((chars name, kind), (chars name, show v)) ∷ more)
  unfolding read_samples entry_lines
  read-entry_lines name v rest more h =
      read-pair (chars "# TYPE " ++ (chars name ++ (b' ' ∷ kind))) (chars name ++ (b' ' ∷ show v))
        rest (chars "# TYPE " ++ chars name) kind (chars name) (chars name) (show v) more
        typed_split (strip_start-append (chars "# TYPE ") (chars name))
        (split_last-append (chars name) (show v) (word v).1) h
    where
      typed_split :
          split_last (chars "# TYPE " ++ (chars name ++ (b' ' ∷ kind)))
          ≡ some (chars "# TYPE " ++ chars name, kind)
      typed_split =
          ap split_last (sym (append_assoc (chars "# TYPE ") (chars name) (b' ' ∷ kind)))
          ∙ split_last-append (chars "# TYPE " ++ chars name) kind kind_word.1

  read-render_kind :
      (m : Dict ℤ) (tail : List ℕ) (more : List Sample)
      → NamesOnLines m
      → read_samples (lines_from [] tail) ≡ some more
      → read_samples (lines_from [] (render_kind show kind m ++ tail))
        ≡ some (samples show kind m ++ more)
  unfolding render_kind
  read-render_kind [] tail more h e = e
  read-render_kind ((name, v) ∷ m) tail more h e =
      ap read_samples (lines-render_kind name v m tail h.0)
      ∙ read-entry_lines name v _ _ (read-render_kind m tail more h.1 e)

-- A scrape is read back, line by line, as every counter and then every gauge, each with the whole of
-- its name, labels included, on the line of its type and again before its value, whatever other
-- characters the names have, if no name has a newline in it and the numbers are written without
-- newlines and spaces.
pub read-render :
    (show : ℤ → List ℕ) (r : Metrics)
    → ((v : ℤ) → IsWord (show v))
    → NamesOnLines r.counters
    → NamesOnLines r.gauges
    → read_samples (lines_from [] (render show r))
      ≡ some (samples show (chars "counter") r.counters ++ samples show (chars "gauge") r.gauges)
unfolding render read_samples lines_from
read-render show r word hc hg =
    read-render_kind show word (chars "counter") counter-IsWord r.counters
      (render_kind show (chars "gauge") r.gauges) (samples show (chars "gauge") r.gauges) hc
      (subst (λ t. read_samples (lines_from [] t) ≡ some (samples show (chars "gauge") r.gauges))
        (append-nil (render_kind show (chars "gauge") r.gauges))
        (subst
          (λ ss.
            read_samples (lines_from [] (render_kind show (chars "gauge") r.gauges ++ []))
            ≡ some ss)
          (append-nil (samples show (chars "gauge") r.gauges))
          (read-render_kind show word (chars "gauge") gauge-IsWord r.gauges [] [] hg refl)))
