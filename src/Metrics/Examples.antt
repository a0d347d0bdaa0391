-- ===== src/Metrics/Examples.antt =====
-- One scrape, with numbers written in unary.
use haribon.Prelude.{ℕ, zero, suc, ◌≡◌, refl, List, [], ◌∷◌, ◌++◌, some, ℤ, pos, negsuc}
use haribon.Prelude.Lines.{chars, lines_from, lacks-Without}
use haribon.Metrics.{Metrics}
use haribon.Metrics.Render.{IsWord, samples, read_samples, render, read-render}

abbrev tally : ℕ → List ℕ
tally zero = []
tally (suc n) = b'1' ∷ tally n

abbrev unary : ℤ → List ℕ
unary (pos n) = b'0' ∷ tally n
unary (negsuc n) = b'-' ∷ tally n

tally-IsWord : (n : ℕ) → IsWord (tally n)
tally-IsWord zero = (tt, tt)
tally-IsWord (suc n) = ((refl, (tally-IsWord n).0), (refl, (tally-IsWord n).1))

unary-IsWord : (v : ℤ) → IsWord (unary v)
unary-IsWord (pos n) = ((refl, (tally-IsWord n).0), (refl, (tally-IsWord n).1))
unary-IsWord (negsuc n) = ((refl, (tally-IsWord n).0), (refl, (tally-IsWord n).1))

abbrev scraped : Metrics
scraped = record { counters = ("a b", pos 2) ∷ []; gauges = ("g", pos 1) ∷ ("h", negsuc 0) ∷ [] }

read-render_example :
    read_samples (lines_from [] (render unary scraped))
    ≡ some (
        samples unary (chars "counter") (("a b", pos 2) ∷ [])
        ++ samples unary (chars "gauge") (("g", pos 1) ∷ ("h", negsuc 0) ∷ []))
read-render_example =
    read-render unary scraped unary-IsWord (lacks-Without b'\n' (chars "a b") refl, tt)
      (lacks-Without b'\n' (chars "g") refl, (lacks-Without b'\n' (chars "h") refl, tt))
