-- ===== src/Balancer/Chosen.antt =====
-- internal/balancer/balancer.go: which backends the strategies can pick. The checker may change with
-- every question; `P` is what is known of its states, and is kept by every question.
use haribon.Prelude.{
  subst, sym, ◌∙◌, some-injective, ℕ, zero, suc, ◌+◌, ◌%◌, ◌^◌, ◌==◌, ◌≡◌, ◌≢◌, refl, String, Bool,
  true, false, ◌||◌, ◌⊎◌, Option, none, some, List, [], ◌∷◌, length, get_elem?, str_eq, eq_iff,
  contains, ℤ, pos, negsuc, ltb_ℤ, Bool-cases, Option-cases, inl, inr, arith, if◌then◌else◌,
  get_elem?,
}
use mathlib.Core.Option.{none-ne-some}
use haribon.Prelude.Dict.{Dict, get}
use haribon.Balancer.Types.{
  BackendEntry, Pick, picked, err_no_healthy_backend, panic, ticket, slot_index, urls,
}
use haribon.Balancer.Walk.{IpHash, backend_at, walk, round_robin_next, ip_hash_next, next_for_ip}
use haribon.Balancer.WeightedRoundRobin.{slot_at, weighted_walk, weighted_next}
use haribon.Balancer.LeastConnections.{
  LeastConn, Search, best, crashed, consider, count_pick, search_least, least_next,
}
use haribon.Balancer.Random.{draw, collect, random_next}
use haribon.Balancer.Factory.{
  Balancer, round_robin, weighted, least_conn, random, ip_hash, balancer_next, balancer_next_for_ip,
}

-- The call does not come to `u`.
abbrev pub Avoids : String → Pick → Type 0
Avoids u (picked v) = v ≢ u
Avoids u err_no_healthy_backend = Unit {0}
Avoids u panic = Unit {0}

-- No URL of the list is `u`.
abbrev Without : String → List String → Type 0
Without u [] = Unit {0}
Without u (v ∷ vs) = (v ≢ u) × Without u vs

get_elem?-ne :
    (u : String) (vs : List String) (i : ℕ) {v : String}
    → Without u vs
    → get_elem? vs i ≡ some v
    → v ≢ u
get_elem?-ne u [] i h e = cc
get_elem?-ne u (v ∷ vs) zero h e = λ same. h.0 (cc)
get_elem?-ne u (x ∷ vs) (suc i) {v} h e = get_elem?-ne u vs i {v = v} h.1 e

draw-Avoids :
    (u : String) (intn : ℕ → ℕ) (vs : List String) → Without u vs → Avoids u (draw intn vs)
unfolding draw
draw-Avoids u intn [] h = tt
draw-Avoids u intn (v ∷ vs) h =
    let i : ℕ = intn (length (v ∷ vs)) in
    elim (Option-cases (get_elem? (v ∷ vs) i)) [
      | inl e ↦ rw (e, draw) tt
      | inr (w, e) ↦ rw (e, draw) (get_elem?-ne u (v ∷ vs) i {v = w} h e)
    ]

-- Each URL of the list has a property.
abbrev pub Each : (String → Type 0) → List String → Type 0
Each C [] = Unit {0}
Each C (v ∷ vs) = C v × Each C vs

missing : {A B : Type 0} {o : Option A} {a : A} → o ≡ none → o ≡ some a → B
missing e f = absurd (none-ne-some _ (sym e ∙ f))

Each-get_elem? :
    (C : String → Type 0) (vs : List String) (i : ℕ) {v : String}
    → Each C vs
    → get_elem? vs i ≡ some v
    → C v
Each-get_elem? C [] i h e = cc
Each-get_elem? C (x ∷ vs) zero h e = subst C (some-injective _ _ e) h.0
Each-get_elem? C (x ∷ vs) (suc i) {v} h e = Each-get_elem? C vs i {v = v} h.1 e

Each-backend :
    (C : String → Type 0) (bs : List BackendEntry) (i : ℕ) {b : BackendEntry}
    → Each C (urls bs)
    → get_elem? bs i ≡ some b
    → C b.url
unfolding urls
Each-backend C [] i h e = cc
Each-backend C (x ∷ bs) zero h e = subst (λ b. C b.url) (some-injective _ _ e) h.0
Each-backend C (x ∷ bs) (suc i) {b} h e = Each-backend C bs i {b = b} h.1 e

backend_at-Each :
    (C : String → Type 0) (bs : List BackendEntry) (start i : ℕ) {b : BackendEntry}
    → Each C (urls bs)
    → backend_at bs start i ≡ some b
    → C b.url
unfolding backend_at
backend_at-Each C bs start i {b} h e = go (slot_index start i (length bs)) refl
  where
    go : (o : Option ℕ) → slot_index start i (length bs) ≡ o → C b.url
    go none eq = missing (rw (eq, backend_at) refl) e
    go (some k) eq = Each-backend C bs k {b = b} h (sym (rw (eq, backend_at) refl) ∙ e)

slot_at-Each :
    (C : String → Type 0) (slots : List String) (start i : ℕ) {v : String}
    → Each C slots
    → slot_at slots start i ≡ some v
    → C v
unfolding slot_at
slot_at-Each C slots start i {v} h e = go (slot_index start i (length slots)) refl
  where
    go : (o : Option ℕ) → slot_index start i (length slots) ≡ o → C v
    go none eq = missing (rw (eq, slot_at) refl) e
    go (some k) eq = Each-get_elem? C slots k {v = v} h (sym (rw (eq, slot_at) refl) ∙ e)

-- The URLs that a balancer chooses from.
unfoldable pub candidates : Balancer → List String
unfolding urls
candidates (round_robin r) = urls r.backends
candidates (weighted w) = w.slots
candidates (least_conn lc) = urls lc.backends
candidates (random r) = urls r.backends
candidates (ip_hash i) = urls i.backends

-- A search that has not found `u`.
abbrev Elsewhere : String → Search → Type 0
Elsewhere u (best v c) = (v ≡ "") ⊎ (v ≢ u)
Elsewhere u crashed = Unit {0}

consider-Elsewhere :
    (u : String) (conns : Dict ℤ) (url v : String) (c : ℤ)
    → url ≢ u
    → Elsewhere u (best v c)
    → Elsewhere u (consider conns url v c)
unfolding consider
consider-Elsewhere u conns url v c ne h = elim (Option-cases (get conns url)) [
  | inl e ↦ rw (e, consider) tt
  | inr (n, e) ↦ elim (Bool-cases (ltb_ℤ c (pos 0) || ltb_ℤ n c)) [
    | inl better ↦ rw (e, consider) (rw (better, Elsewhere) (inr ne))
    | inr worse ↦ rw (e, consider) (rw (worse, Elsewhere) h)
  ]
]

count_pick-Avoids :
    (u : String) (lc : LeastConn) (s : Search) → Elsewhere u s → Avoids u (count_pick lc s).0
unfolding count_pick
count_pick-Avoids u lc crashed h = tt
count_pick-Avoids u lc (best v c) h = elim (Bool-cases (str_eq v "")) [
  | inl empty ↦ rw (empty, count_pick) tt
  | inr full ↦ go (get lc.conns v) refl full h
]
  where
    go :
        (o : Option ℤ)
        → get lc.conns v ≡ o
        → str_eq v "" ≡ false
        → Elsewhere u (best v c)
        → Avoids u (count_pick lc (best v c)).0
    go none e full x = rw (full, e, count_pick) tt
    go (some n) e full (inl empty) = absurd (ground (arith, eq_iff v ""))
    go (some n) e full (inr ne) = rw (full, e, count_pick) ne

-- `C` is what is known of the URLs of the pool: of these, none that the checker lets pass is `u`.
module _ {H : Type 0} (is_available : String → H → Bool × H) (P : H → Type 0) (u : String)
    (C : String → Type 0) (keeps : (v : String) (hc : H) → P hc → P (is_available v hc).1)
    (accepted-ne : (v : String) (hc : H) → C v → P hc → (is_available v hc).0 ≡ true → v ≢ u) where
  walk-Avoids :
      (bs : List BackendEntry) (start rounds i : ℕ) (hc : H)
      → Each C (urls bs)
      → P hc
      → Avoids u (walk is_available bs start rounds i hc).0
        × P (walk is_available bs start rounds i hc).1
  unfolding walk
  walk-Avoids bs start zero i hc all p = (tt, p)
  walk-Avoids bs start (suc rounds) i hc all p = elim (Option-cases (backend_at bs start i)) [
    | inl e ↦ rw (e, walk) (tt, p)
    | inr (b, e) ↦ elim (Bool-cases (is_available b.url hc).0) [
      | inl free ↦
          rw (e, walk)
            (rw (free, Avoids)
              (accepted-ne b.url hc (backend_at-Each C bs start i all e) p free, keeps b.url hc p))
      | inr refused ↦
          rw (e, walk)
            (rw (refused, Avoids)
              (walk-Avoids bs start rounds (i + 1) (is_available b.url hc).1 all
                (keeps b.url hc p)))
    ]
  ]

  weighted_walk-Avoids :
      (slots : List String) (start rounds i : ℕ) (seen : List String) (hc : H)
      → Each C slots
      → P hc
      → Avoids u (weighted_walk is_available slots start rounds i seen hc).0
        × P (weighted_walk is_available slots start rounds i seen hc).1
  unfolding weighted_walk
  weighted_walk-Avoids slots start zero i seen hc all p = (tt, p)
  weighted_walk-Avoids slots start (suc rounds) i seen hc all p =
      elim (Option-cases (slot_at slots start i)) [
        | inl e ↦ rw (e, weighted_walk) (tt, p)
        | inr (v, e) ↦ elim (Bool-cases (contains seen v)) [
          | inl again ↦
              rw (e, weighted_walk)
                (rw (again, Avoids) (weighted_walk-Avoids slots start rounds (i + 1) seen hc all p))
          | inr new ↦ elim (Bool-cases (is_available v hc).0) [
            | inl free ↦
                rw (e, weighted_walk)
                  (rw (new, free, Avoids)
                    (accepted-ne v hc (slot_at-Each C slots start i all e) p free, keeps v hc p))
            | inr refused ↦
                rw (e, weighted_walk)
                  (rw (new, refused, Avoids)
                    (weighted_walk-Avoids slots start rounds (i + 1) (v ∷ seen)
                      (is_available v hc).1 all (keeps v hc p)))
          ]
        ]
      ]

  search_least-Elsewhere :
      (conns : Dict ℤ) (bs : List BackendEntry) (s : Search) (hc : H)
      → Each C (urls bs)
      → P hc
      → Elsewhere u s
      → Elsewhere u (search_least is_available conns bs s hc).0
        × P (search_least is_available conns bs s hc).1
  unfolding search_least urls
  search_least-Elsewhere conns [] crashed hc all p h = (tt, p)
  search_least-Elsewhere conns (b ∷ bs) crashed hc all p h = (tt, p)
  search_least-Elsewhere conns [] (best v c) hc all p h = (h, p)
  search_least-Elsewhere conns (b ∷ bs) (best v c) hc all p h =
      search_least-Elsewhere conns bs
        (if (is_available b.url hc).0 then consider conns b.url v c else best v c)
        (is_available b.url hc).1 all.1 (keeps b.url hc p)
        (elim (Bool-cases (is_available b.url hc).0) [
          | inl free ↦
              rw (free, Elsewhere)
                (consider-Elsewhere u conns b.url v c (accepted-ne b.url hc all.0 p free) h)
          | inr refused ↦ rw (refused, Elsewhere) h
        ])

  collect-Without :
      (bs : List BackendEntry) (hc : H)
      → Each C (urls bs)
      → P hc
      → Without u (collect is_available bs hc).0 × P (collect is_available bs hc).1
  unfolding collect urls
  collect-Without [] hc all p = (tt, p)
  collect-Without (b ∷ bs) hc all p =
      let (rest, last) = collect-Without bs (is_available b.url hc).1 all.1 (keeps b.url hc p) in
      elim (Bool-cases (is_available b.url hc).0) [
        | inl free ↦ (rw (free, Without) (accepted-ne b.url hc all.0 p free, rest), last)
        | inr refused ↦ (rw (refused, Without) rest, last)
      ]

  module _ (intn : ℕ → ℕ) (sum32 : String → ℕ) where
    pub pick-Avoids :
        (bal : Balancer) (hc : H)
        → Each C (candidates bal)
        → P hc
        → Avoids u (balancer_next is_available intn sum32 bal hc).0
          × P (balancer_next is_available intn sum32 bal hc).1.1
    unfolding balancer_next candidates round_robin_next weighted_next least_next random_next
        ip_hash_next
    pick-Avoids (round_robin r) hc all p =
        walk-Avoids r.backends (ticket r.counter) (length r.backends) 0 hc all p
    pick-Avoids (weighted w) hc all p =
        weighted_walk-Avoids w.slots (ticket w.counter) (length w.slots) 0 [] hc all p
    pick-Avoids (least_conn lc) hc all p =
        let (found, last) =
          search_least-Elsewhere lc.conns lc.backends (best "" (negsuc 0)) hc all p (inl refl) in
        (count_pick-Avoids u lc _ found, last)
    pick-Avoids (random r) hc all p =
        let (found, last) = collect-Without r.backends hc all p in
        (draw-Avoids u intn _ found, last)
    pick-Avoids (ip_hash i) hc all p =
        walk-Avoids i.backends (ticket i.counter) (length i.backends) 0 hc all p

    next_for_ip-Avoids :
        (i : IpHash) (client_ip : String) (hc : H)
        → Each C (urls i.backends)
        → P hc
        → Avoids u (next_for_ip is_available sum32 i client_ip hc).0
          × P (next_for_ip is_available sum32 i client_ip hc).1
    unfolding next_for_ip
    next_for_ip-Avoids i client_ip hc all p = elim (Bool-cases (length i.backends % 2 ^ 32 == 0)) [
      | inl zero_size ↦ rw (zero_size, Avoids) (tt, p)
      | inr some_size ↦
          rw (some_size, Avoids)
            (walk-Avoids i.backends (sum32 client_ip % (length i.backends % 2 ^ 32))
              (length i.backends) 0 hc all p)
    ]

    pub pick_for_ip-Avoids :
        (bal : Balancer) (client_ip : String) (hc : H)
        → Each C (candidates bal)
        → P hc
        → Avoids u (balancer_next_for_ip is_available intn sum32 bal client_ip hc).0
          × P (balancer_next_for_ip is_available intn sum32 bal client_ip hc).1.1
    unfolding balancer_next_for_ip candidates
    pick_for_ip-Avoids (ip_hash i) client_ip hc all p = next_for_ip-Avoids i client_ip hc all p
    pick_for_ip-Avoids (round_robin r) client_ip hc all p = pick-Avoids (round_robin r) hc all p
    pick_for_ip-Avoids (weighted w) client_ip hc all p = pick-Avoids (weighted w) hc all p
    pick_for_ip-Avoids (least_conn lc) client_ip hc all p = pick-Avoids (least_conn lc) hc all p
    pick_for_ip-Avoids (random r) client_ip hc all p = pick-Avoids (random r) hc all p
