-- ===== src/Balancer/WeightedRoundRobin/Slots.antt =====
-- What the constructor of weighted round-robin builds: the share of each backend, and the error.
use haribon.Prelude.{
  ℕ, zero, suc, ◌+◌, ◌≡◌, refl, sym, ap, ap₂, ◌∙◌, String, List, [], ◌∷◌, ◌++◌, replicate, str_eq,
  ℤ, pos, negsuc, if◌then◌else◌, arith,
}
use mathlib.Core.List.{append-nil, append_assoc}
use haribon.Balancer.Types.{BackendEntry, err_invalid_weight, Result, ok, err}
use haribon.Balancer.WeightedRoundRobin.{WeightedRr, slots_of, expand, new_weighted_round_robin}

-- How often a URL stands in a list.
unfoldable pub count : String → List String → ℕ
count u [] = 0
count u (x ∷ xs) = (if str_eq x u then 1 else 0) + count u xs

-- The weight that counts: 1 where none is set.
abbrev pub effective : ℤ → ℕ
effective (pos zero) = 1
effective (pos (suc w)) = suc w
effective (negsuc w) = 0

-- The weights of the entries of one URL, added up.
unfoldable pub total_weight : String → List BackendEntry → ℕ
total_weight u [] = 0
total_weight u (b ∷ bs) = (if str_eq b.url u then effective b.weight else 0) + total_weight u bs

-- Every backend's slots, in the order of the entries.
unfoldable pub all_slots : List BackendEntry → List String
all_slots [] = []
all_slots (b ∷ bs) = elim b.weight [
  | negsuc w ↦ all_slots bs
  | pos w ↦ slots_of b.url w ++ all_slots bs
]

-- The error for the first entry with a negative weight, or else the given result.
unfoldable pub first_negative : List BackendEntry → Result (List String) → Result (List String)
first_negative [] r = r
first_negative (b ∷ bs) r = elim b.weight [
  | negsuc w ↦ err (err_invalid_weight b.url)
  | pos w ↦ first_negative bs r
]

expand-eq :
    (slots : List String) (bs : List BackendEntry)
    → expand slots bs ≡ first_negative bs (ok (slots ++ all_slots bs))
unfolding expand all_slots first_negative
expand-eq slots [] = ap ok (sym (append-nil slots))
expand-eq slots (b ∷ bs) = go b.weight refl (λ more. expand-eq more bs)
  where
    go :
        (z : ℤ)
        → b.weight ≡ z
        → ((more : List String) → expand more bs ≡ first_negative bs (ok (more ++ all_slots bs)))
        → expand slots (b ∷ bs) ≡ first_negative (b ∷ bs) (ok (slots ++ all_slots (b ∷ bs)))
    go (negsuc w) e ih = rw (e, expand, first_negative)
    go (pos w) e ih =
        rw (e, expand, first_negative)
          (ih (slots ++ slots_of b.url w)
            ∙ ap (λ l. first_negative bs (ok l))
                (append_assoc slots (slots_of b.url w) (all_slots bs)
                  ∙ ap (λ l. slots ++ l) {y = all_slots (b ∷ bs)} (rw (e, all_slots) refl)))

count-append : (u : String) (xs ys : List String) → count u (xs ++ ys) ≡ count u xs + count u ys
unfolding count
count-append u [] ys = omega arith
count-append u (x ∷ xs) ys = omega (arith, count-append u xs ys)

count-replicate : (u v : String) (n : ℕ) → count u (replicate n v) ≡ (if str_eq v u then n else 0)
unfolding count
count-replicate u v zero = ground arith
count-replicate u v (suc n) = ground (arith, count-replicate u v n)

count-slots_of :
    (u v : String) (w : ℕ) → count u (slots_of v w) ≡ (if str_eq v u then effective (pos w) else 0)
unfolding slots_of count
count-slots_of u v zero = ground arith
count-slots_of u v (suc w) = ground (arith, count-replicate u v w)

count-all_slots : (u : String) (bs : List BackendEntry) → count u (all_slots bs) ≡ total_weight u bs
unfolding all_slots count total_weight
count-all_slots u [] = refl
count-all_slots u (b ∷ bs) = go b.weight refl (count-all_slots u bs)
  where
    go :
        (z : ℤ)
        → b.weight ≡ z
        → count u (all_slots bs) ≡ total_weight u bs
        → count u (all_slots (b ∷ bs)) ≡ total_weight u (b ∷ bs)
    go (negsuc w) e ih = rw (e, all_slots, total_weight) (ground arith)
    go (pos w) e ih =
        rw (e, all_slots, total_weight)
          (count-append u (slots_of b.url w) (all_slots bs) ∙ ap₂ ◌+◌ (count-slots_of u b.url w) ih)

first_negative-ok :
    (bs : List BackendEntry) {slots out : List String}
    → first_negative bs (ok slots) ≡ ok out
    → out ≡ slots
unfolding first_negative
first_negative-ok [] h = cc
first_negative-ok (b ∷ bs) {slots} {out} h =
    ground (arith, first_negative-ok bs {slots = slots} {out = out})

-- In the slots of a weighted balancer each backend stands exactly as often as its entries' weights
-- add up to, where a weight that is not set counts as one.
pub count-new_weighted :
    (u : String) (bs : List BackendEntry) {w : WeightedRr}
    → new_weighted_round_robin bs ≡ ok w
    → count u w.slots ≡ total_weight u bs
unfolding new_weighted_round_robin
count-new_weighted u [] h = cc
count-new_weighted u (b ∷ bs) {w} h =
    let built : first_negative (b ∷ bs) (ok (all_slots (b ∷ bs))) ≡ ok w.slots =
      sym (expand-eq [] (b ∷ bs)) ∙ ground arith in
    ap (count u) (first_negative-ok (b ∷ bs) built) ∙ count-all_slots u (b ∷ bs)
