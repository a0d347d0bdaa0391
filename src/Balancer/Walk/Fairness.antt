-- ===== src/Balancer/Walk/Fairness.antt =====
-- Round-robin while every backend is available: each round of the pool serves each entry once.
use haribon.Prelude.{
  ℕ, zero, suc, ◌+◌, ◌-◌, ◌%◌, ◌^◌, ◌<◌, ◌≤◌, ◌≡◌, refl, ap, ap₂, ◌∙◌, String, Bool, true, List, [],
  ◌∷◌, map, length, rotate, arith, sym,
}
use haribon.Balancer.Types.{Pick, picked, urls}
use haribon.Balancer.Walk.{RoundRobin, round_robin_next}
use haribon.Balancer.Walk.Rotation.{
  orbit, orbit-rotate, orbit-step, unique_url, first_available, round_robin_next-eq,
}

module _ {H : Type 0} (is_available : String → H → Bool × H) where
  -- What `rounds` calls of Next return, one after the other.
  unfoldable pub next_calls : ℕ → RoundRobin → H → List Pick
  next_calls zero r hc = []
  next_calls (suc rounds) r hc =
      let (pick, left) = round_robin_next is_available r hc in
      pick ∷ next_calls rounds left.0 left.1

  first-all :
      (us : List String) (u : String) (rest : List String) (hc : H)
      → ((url : String) (h : H) → (is_available url h).0 ≡ true)
      → us ≡ u ∷ rest
      → (first_available is_available us hc).0 ≡ picked u
  unfolding first_available
  first-all us u rest hc all e = rw (e, first_available) (rw (all u hc))

  -- One call from place c returns the entry at that place.
  next-head :
      (r : RoundRobin) (hc : H) (u : String) (rest : List String)
      → ((url : String) (h : H) → (is_available url h).0 ≡ true)
      → 0 < length r.backends
      → r.counter + length r.backends ≤ 2 ^ 63
      → urls (rotate (r.counter % length r.backends) r.backends) ≡ u ∷ rest
      → (round_robin_next is_available r hc).0 ≡ picked u
  next-head r hc u rest all pos h e =
      ap (λ t. t.0) (round_robin_next-eq is_available r hc pos h) ∙ first-all _ u rest hc all e

  next_calls-orbit :
      (rounds : ℕ) (r : RoundRobin) (hc : H)
      → ((url : String) (h : H) → (is_available url h).0 ≡ true)
      → 0 < length r.backends
      → r.counter + rounds + length r.backends ≤ 2 ^ 63
      → next_calls rounds r hc ≡ map picked (orbit r.backends r.counter rounds)
  unfolding next_calls orbit
  next_calls-orbit zero r hc all pos h = refl
  next_calls-orbit (suc rounds) r hc all pos h =
      let (b, at, now) = orbit-step r.backends r.counter _ rounds refl pos in
      let (b', at', now') = orbit-step r.backends r.counter _ (length r.backends - 1) refl pos in
      let around : urls (rotate (r.counter % length r.backends) r.backends)
          ≡ b'.url ∷ orbit r.backends (suc r.counter) (length r.backends - 1) =
        sym (orbit-rotate r.backends r.counter pos)
        ∙ ap (orbit r.backends r.counter) {y = suc (length r.backends - 1)} (omega arith)
        ∙ now' in
      let head = next-head r hc b'.url _ all pos (omega arith) around in
      let left = ap (λ t. t.1.0) (round_robin_next-eq is_available r hc pos (omega arith)) in
      let hc' : H = (round_robin_next is_available r hc).1.1 in
      let moved : RoundRobin = record r { counter = r.counter + 1 } in
      ap₂ (λ p ps. p ∷ ps) (head ∙ ap picked (unique_url _ b' b at' at))
        (ap (λ x. next_calls rounds x hc') left
          ∙ next_calls-orbit rounds moved hc' all pos (omega arith)
          ∙ ap (λ k. map picked (orbit r.backends k rounds)) {y = suc r.counter} (omega arith))
      ∙ sym (ap (map picked) now)

  -- While every backend is available, and the counter is below 2^63 by twice the pool's size at least,
  -- as many calls as the pool has entries return the entries of the pool, each once and in order,
  -- beginning at the counter's place.
  pub next_calls-fair :
      (r : RoundRobin) (hc : H)
      → ((url : String) (h : H) → (is_available url h).0 ≡ true)
      → 0 < length r.backends
      → r.counter + length r.backends + length r.backends ≤ 2 ^ 63
      → next_calls (length r.backends) r hc
        ≡ map picked (urls (rotate (r.counter % length r.backends) r.backends))
  next_calls-fair r hc all pos h =
      next_calls-orbit (length r.backends) r hc all pos h
      ∙ ap (map picked) (orbit-rotate r.backends r.counter pos)
