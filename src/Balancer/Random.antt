-- ===== src/Balancer/Random.antt =====
-- internal/balancer/balancer.go: the random strategy. `intn` stands for `rand.Intn` of math/rand,
-- whose result lies below its argument.
use haribon.Prelude.{
  ℕ, ◌<◌, ◌≡◌, refl, String, Bool, true, none, some, List, [], ◌∷◌, length, get_elem?, get_elem?-lt,
  contains, if◌then◌else◌, arith, eq_iff, suc, zero,
}
use haribon.Balancer.Types.{BackendEntry, Pick, picked, err_no_healthy_backend, panic}

-- type random struct
pub record RandomPool : Type 0 where
  pub backends : List BackendEntry

-- the end of Next, below the loop
unfoldable pub draw : (ℕ → ℕ) → List String → Pick
draw intn [] = err_no_healthy_backend
draw intn (u ∷ us) = elim (get_elem? (u ∷ us) (intn (length (u ∷ us)))) [
  | none ↦ panic
  | some v ↦ picked v
]

module _ {H : Type 0} (is_available : String → H → Bool × H) where
  -- the loop of Next
  unfoldable pub collect : List BackendEntry → H → List String × H
  collect [] hc = ([], hc)
  collect (b ∷ bs) hc =
      let rest = collect bs (is_available b.url hc).1 in
      (if (is_available b.url hc).0 then b.url ∷ rest.0 else rest.0, rest.1)

  -- func (r *random) Next
  unfoldable pub random_next : (ℕ → ℕ) → RandomPool → H → Pick × H
  unfolding collect draw
  random_next intn r hc = let (healthy, hc') = collect r.backends hc in (draw intn healthy, hc')

contains-get_elem? :
    (us : List String) (i : ℕ) {v : String} → get_elem? us i ≡ some v → contains us v ≡ true
contains-get_elem? [] i e = cc
contains-get_elem? (u ∷ us) zero {v} e = ground (arith, eq_iff u v)
contains-get_elem? (u ∷ us) (suc i) {v} e =
    ground (arith, contains-get_elem? us i {v = v} e, eq_iff u v)

-- What the draw from the available backends is.
abbrev pub DrawOutcome : List String → Pick → Type 0
DrawOutcome [] pick = pick ≡ err_no_healthy_backend
DrawOutcome (u ∷ us) pick = (v : String) × (pick ≡ picked v) × (contains (u ∷ us) v ≡ true)

draw-DrawOutcome :
    (intn : ℕ → ℕ) (us : List String)
    → ((n : ℕ) → 0 < n → intn n < n)
    → DrawOutcome us (draw intn us)
unfolding draw
draw-DrawOutcome intn [] law = refl
draw-DrawOutcome intn (u ∷ us) law =
    let inside = law (length (u ∷ us)) (omega arith) in
    let (v, at) = get_elem?-lt (u ∷ us) (intn (length (u ∷ us))) inside in
    (v, rw (at, draw), contains-get_elem? (u ∷ us) _ {v = v} at)

module _ {H : Type 0} (is_available : String → H → Bool × H) (intn : ℕ → ℕ) where
  -- Random asks every backend and leaves the health checker as these questions leave it; it reports
  -- ErrNoHealthyBackend if none is available, and otherwise returns one of the available ones. It
  -- does not panic.
  pub random_next-DrawOutcome :
      (r : RandomPool) (hc : H)
      → ((n : ℕ) → 0 < n → intn n < n)
      → DrawOutcome (collect is_available r.backends hc).0 (random_next is_available intn r hc).0
        × ((random_next is_available intn r hc).1 ≡ (collect is_available r.backends hc).1)
  unfolding random_next
  random_next-DrawOutcome r hc law = (draw-DrawOutcome intn _ law, refl)
