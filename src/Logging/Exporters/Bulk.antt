-- ===== src/Logging/Exporters/Bulk.antt =====
-- What Elasticsearch reads from the body of one batch.
use haribon.Prelude.{ℕ, ◌≡◌, refl, ap, ◌∙◌, Option, none, some, List, [], ◌∷◌, ◌++◌}
use haribon.Prelude.Lines.{OneLine, lines_from, lines_from-line}
use haribon.Logging.Exporters.{LogEntry, bulk_body}

abbrev pub OneLineDoc : Option (List ℕ) → Type 0
OneLineDoc none = Unit {0}
OneLineDoc (some doc) = OneLine doc

-- No document has a newline in it.
abbrev pub OneLineEach : (LogEntry → Option (List ℕ)) → List LogEntry → Type 0
OneLineEach marshal [] = Unit {0}
OneLineEach marshal (e ∷ es) = OneLineDoc (marshal e) × OneLineEach marshal es

-- The action and the document of each entry that has one.
abbrev pub bulk_lines : (LogEntry → Option (List ℕ)) → List ℕ → List LogEntry → List (List ℕ)
bulk_lines marshal action [] = []
bulk_lines marshal action (e ∷ es) = elim (marshal e) [
  | none ↦ bulk_lines marshal action es
  | some doc ↦ action ∷ doc ∷ bulk_lines marshal action es
]

-- The body of a batch is, line by line, the action and the document of each entry that json.Marshal
-- takes, in order, if neither the action nor a document has a newline in it.
pub lines-bulk_body :
    (marshal : LogEntry → Option (List ℕ)) (action : List ℕ) (es : List LogEntry)
    → OneLine action
    → OneLineEach marshal es
    → lines_from [] (bulk_body marshal action es) ≡ bulk_lines marshal action es
unfolding bulk_body lines_from
lines-bulk_body marshal action [] ha h = refl
lines-bulk_body marshal action (e ∷ es) ha (h, hs) =
    go (marshal e) refl h (lines-bulk_body marshal action es ha hs)
  where
    go :
        (o : Option (List ℕ))
        → marshal e ≡ o
        → OneLineDoc o
        → lines_from [] (bulk_body marshal action es) ≡ bulk_lines marshal action es
        → lines_from [] (bulk_body marshal action (e ∷ es)) ≡ bulk_lines marshal action (e ∷ es)
    go none eq one ih = rw (eq, bulk_body, bulk_lines) ih
    go (some doc) eq one ih =
        let body : List ℕ = bulk_body marshal action es in
        rw (eq, bulk_body, bulk_lines)
          (lines_from-line [] action (doc ++ (b'\n' ∷ body)) ha
            ∙ ap (λ ls. action ∷ ls) (lines_from-line [] doc body one ∙ ap (λ ls. doc ∷ ls) ih))
