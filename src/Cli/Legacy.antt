-- ===== src/Cli/Legacy.antt =====
-- The older helpers and the balancer that replaced them.
use haribon.Prelude.{
  ℕ, zero, suc, ◌+◌, ◌≡◌, refl, ap, ◌∙◌, String, Bool, Option, none, some, List, [], ◌∷◌, length,
  get_elem?, Option-cases, Bool-cases, inl, inr,
}
use haribon.Prelude.Dict.{Dict}
use haribon.Balancer.Types.{BackendEntry, ticket, add_uint64, slot_index, urls}
use haribon.Balancer.Walk.{backend_at, walk, round_robin_next}
use haribon.Engine.{is_healthy}
use haribon.Cli.{pool_at, pool_walk, get_next_backend}

-- isHealthy as a health checker.
abbrev pub map_checker : String → Dict Bool → Bool × Dict Bool
map_checker url health = (is_healthy url health, health)

length-urls : (bs : List BackendEntry) → length (urls bs) ≡ length bs
unfolding urls
length-urls [] = refl
length-urls (b ∷ bs) = ap suc (length-urls bs)

abbrev url_of : Option BackendEntry → Option String
url_of none = none
url_of (some b) = some b.url

get_elem?-urls : (bs : List BackendEntry) (i : ℕ) → get_elem? (urls bs) i ≡ url_of (get_elem? bs i)
unfolding urls
get_elem?-urls [] i = refl
get_elem?-urls (b ∷ bs) zero = refl
get_elem?-urls (b ∷ bs) (suc i) = get_elem?-urls bs i

pool_at-urls :
    (bs : List BackendEntry) (start i : ℕ)
    → pool_at (urls bs) start i ≡ url_of (backend_at bs start i)
unfolding pool_at backend_at
pool_at-urls bs start i = elim (Option-cases (slot_index start i (length bs))) [
  | inl e ↦ rw (pool_at, length-urls bs, backend_at, e) refl
  | inr (k, e) ↦ rw (pool_at, length-urls bs, backend_at, e) (get_elem?-urls bs k)
]

pool_walk-walk :
    (health : Dict Bool) (bs : List BackendEntry) (start rounds i : ℕ)
    → pool_walk health (urls bs) start rounds i ≡ (walk map_checker bs start rounds i health).0
unfolding pool_walk walk
pool_walk-walk health bs start zero i = refl
pool_walk-walk health bs start (suc rounds) i = elim (Option-cases (backend_at bs start i)) [
  | inl e ↦
      (let same : pool_at (urls bs) start i ≡ none = pool_at-urls bs start i ∙ ap url_of e in
        rw (same, pool_walk, e, walk) refl)
  | inr (b, e) ↦
      (let same : pool_at (urls bs) start i ≡ some b.url = pool_at-urls bs start i ∙ ap url_of e in
        elim (Bool-cases (is_healthy b.url health)) [
          | inl up ↦ rw (same, pool_walk, e, walk, up) refl
          | inr down ↦
              rw (same, pool_walk, e, walk, down) (pool_walk-walk health bs start rounds (i + 1))
        ])
]

-- The older getNextBackend picks what the round-robin strategy picks from the same pool, counter and
-- health map, with every error and panic, and leaves the same counter.
pub get_next_backend-eq :
    (health : Dict Bool) (b : BackendEntry) (bs : List BackendEntry) (counter : ℕ)
    → get_next_backend
        (record { pool = urls (b ∷ bs); current_server = counter; backend_health = health })
      ≡ (
        (round_robin_next map_checker (record { backends = b ∷ bs; counter = counter }) health).0,
        record {
          pool = urls (b ∷ bs);
          current_server =
              (round_robin_next map_checker
                (record { backends = b ∷ bs; counter = counter })
                health).1.0.counter;
          backend_health = health;
        },
      )
unfolding get_next_backend round_robin_next urls
get_next_backend-eq health b bs counter =
    ap
      (λ pick. (
        pick,
        record {
          pool = urls (b ∷ bs);
          current_server = add_uint64 counter;
          backend_health = health;
        },
      ))
      (rw (length-urls (b ∷ bs))
        (pool_walk-walk health (b ∷ bs) (ticket counter) (length (b ∷ bs)) 0))
