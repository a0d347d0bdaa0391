-- ===== src/Balancer/Walk/Rotation.antt =====
-- The walk visits the pool from the start on and then around, and takes the first available backend.
use haribon.Prelude.{
  ℕ, zero, suc, ◌+◌, ◌-◌, ◌%◌, ◌^◌, ◌<◌, ◌≤◌, ◌≡◌, refl, ap, ap₂, ◌∙◌, String, Bool, true, false,
  Option, none, some, List, [], ◌∷◌, ◌++◌, length, get_elem?, get_elem?-lt, take, drop, rotate,
  drop-get_elem?, take-length, length-drop, ltb, ◌==◌, arith, Bool-cases, inl, inr, subst, sym, ◌≢◌,
}
use native.Mathlib.Nat.{mod-lt, mod-eq_of_lt}
use haribon.Balancer.Types.{
  BackendEntry, Pick, picked, err_no_healthy_backend, panic, add_uint64, ticket, slot_index, urls,
}
use haribon.Balancer.Walk.{RoundRobin, IpHash, backend_at, walk, round_robin_next, next_for_ip}

-- The specification: ask in order, and take the first that answers yes.
module _ {H : Type 0} (is_available : String → H → Bool × H) where
  unfoldable pub first_available : List String → H → Pick × H
  first_available [] hc = (err_no_healthy_backend, hc)
  first_available (u ∷ us) hc = elim (is_available u hc).0 [
    | true ↦ (picked u, (is_available u hc).1)
    | false ↦ first_available us (is_available u hc).1
  ]

-- The URLs that the walk meets from place k on.
unfoldable pub orbit : List BackendEntry → ℕ → ℕ → List String
orbit bs k zero = []
orbit bs k (suc r) = elim (get_elem? bs (k % length bs)) [
  | none ↦ []
  | some b ↦ b.url ∷ orbit bs (suc k) r
]

pub backend_at-small :
    (bs : List BackendEntry) (start i : ℕ)
    → start + i < 2 ^ 63
    → backend_at bs start i ≡ get_elem? bs ((start + i) % length bs)
unfolding backend_at slot_index
backend_at-small bs start i h =
    let whole : (start + i) % 2 ^ 64 ≡ start + i = omega arith in
    let small : ltb ((start + i) % 2 ^ 64) (2 ^ 63) ≡ true = ground arith in ground arith

next_place : (c n s r : ℕ) → c % n ≡ s → s + suc (suc r) ≤ n → suc c % n ≡ suc s
next_place c n s r e h = grind arith

take-suc-drop :
    (bs : List BackendEntry) (s r : ℕ) {b : BackendEntry}
    → get_elem? bs s ≡ some b
    → urls (take (suc r) (drop s bs)) ≡ b.url ∷ urls (take r (drop (suc s) bs))
unfolding urls
take-suc-drop bs s r e = rw (drop-get_elem? s bs e)

pub orbit-step :
    (bs : List BackendEntry) (c s r : ℕ)
    → c % length bs ≡ s
    → 0 < length bs
    → (b : BackendEntry) × (get_elem? bs s ≡ some b)
      × (orbit bs c (suc r) ≡ b.url ∷ orbit bs (suc c) r)
unfolding orbit
orbit-step bs c s r e h =
    let (b, at) = get_elem?-lt bs s (subst (λ k. k < length bs) e (mod-lt c h)) in
    (b, at, rw (e, orbit) (rw at))

orbit-take :
    (bs : List BackendEntry) (c s r : ℕ)
    → c % length bs ≡ s
    → s + r ≤ length bs
    → orbit bs c r ≡ urls (take r (drop s bs))
unfolding orbit urls
orbit-take bs c s zero e h = refl
orbit-take bs c s (suc zero) e h =
    let (b, at, now) = orbit-step bs c s 0 e (omega arith) in
    now ∙ sym (take-suc-drop bs s 0 {b = b} at)
orbit-take bs c s (suc (suc r)) e h =
    let (b, at, now) = orbit-step bs c s (suc r) e (omega arith) in
    now
    ∙ ap (λ us. b.url ∷ us)
        (orbit-take bs (suc c) (suc s) (suc r) (next_place c (length bs) s r e h) (omega arith))
    ∙ sym (take-suc-drop bs s (suc r) {b = b} at)

pub unique_url :
    (o : Option BackendEntry) (a b : BackendEntry) → o ≡ some a → o ≡ some b → a.url ≡ b.url
unique_url o a b p q = cc

orbit-append :
    (bs : List BackendEntry) (c r q : ℕ)
    → 0 < length bs
    → orbit bs c (r + q) ≡ orbit bs c r ++ orbit bs (c + r) q
unfolding orbit
orbit-append bs c zero q h = ap₂ (orbit bs) (omega arith) (omega arith)
orbit-append bs c (suc r) q h =
    let (b, at, now) = orbit-step bs c (c % length bs) (r + q) refl h in
    let (b', at', now') = orbit-step bs c (c % length bs) r refl h in
    ap (λ k. orbit bs c k) {y = suc (r + q)} (omega arith)
    ∙ now
    ∙ ap₂ (λ u us. u ∷ us) (unique_url _ b b' at at') (orbit-append bs (suc c) r q h)
    ∙ ap₂ (λ us k. us ++ orbit bs k q) (sym now') (omega arith)

urls-append : (xs ys : List BackendEntry) → urls (xs ++ ys) ≡ urls xs ++ urls ys
unfolding urls
urls-append [] ys = refl
urls-append (x ∷ xs) ys = ap (λ us. x.url ∷ us) (urls-append xs ys)

wrapped : (c n s : ℕ) → c % n ≡ s → 0 < n → (c + (n - s)) % n ≡ 0
wrapped c n s e h = grind arith

-- Once around from place c is the pool rotated.
pub orbit-rotate :
    (bs : List BackendEntry) (c : ℕ)
    → 0 < length bs
    → orbit bs c (length bs) ≡ urls (rotate (c % length bs) bs)
orbit-rotate bs c h =
    let n : ℕ = length bs in
    let s : ℕ = c % length bs in
    let inside : s < n = mod-lt c h in
    ap (orbit bs c) (omega arith)
    ∙ orbit-append bs c (n - s) s h
    ∙ ap₂ (λ us vs. us ++ vs)
        (orbit-take bs c s (n - s) refl (omega arith)
          ∙ ap urls (take-length (n - s) (drop s bs) (omega (arith, length-drop s bs))))
        (orbit-take bs (c + (n - s)) 0 s (wrapped c n s refl h) (omega arith))
    ∙ sym (urls-append (drop s bs) (take s bs))

negative_slot : (c n : ℕ) → 2 ^ 63 ≤ c → c < 2 ^ 64 → (2 ^ 64 - c) % n ≢ 0 → slot_index c 0 n ≡ none
unfolding slot_index
negative_slot c n high top uneven =
    let whole : (c + 0) % 2 ^ 64 ≡ c = omega arith in rw (whole, slot_index) (ground arith)

negative_index :
    (bs : List BackendEntry) (c : ℕ)
    → 2 ^ 63 ≤ c
    → c < 2 ^ 64
    → (2 ^ 64 - c) % length bs ≢ 0
    → backend_at bs c 0 ≡ none
unfolding backend_at
negative_index bs c high top uneven = rw (negative_slot c (length bs) high top uneven, backend_at)

module _ {H : Type 0} (is_available : String → H → Bool × H) where
  pub walk-first_available :
      (bs : List BackendEntry) (start rounds i : ℕ) (hc : H)
      → start + i + rounds ≤ 2 ^ 63
      → 0 < length bs
      → walk is_available bs start rounds i hc
        ≡ first_available is_available (orbit bs (start + i) rounds) hc
  unfolding walk first_available orbit
  walk-first_available bs start zero i hc h pos = refl
  walk-first_available bs start (suc rounds) i hc h pos =
      let (b, at, now) = orbit-step bs (start + i) _ rounds refl pos in
      let met : backend_at bs start i ≡ some b = backend_at-small bs start i (omega arith) ∙ at in
      rw (now, met, walk)
        (elim (Bool-cases (is_available b.url hc).0) [
          | inl yes' ↦ rw (yes', first_available) refl
          | inr no' ↦
              rw (no', first_available)
                (walk-first_available bs start rounds (i + 1) (is_available b.url hc).1
                    (omega arith) pos
                  ∙ ap
                      (λ k.
                        first_available is_available (orbit bs k rounds) (is_available b.url hc).1)
                      (omega arith))
        ])

  counted : (c n : ℕ) → c + n ≤ 2 ^ 63 → 0 < n → (ticket c ≡ c) × (add_uint64 c ≡ c + 1)
  counted c n h pos = (omega arith, omega arith)

  -- Below the sign bit, round-robin asks the pool in order from the counter's place on and then
  -- around, takes the first backend that is available, reports that there is none only when all
  -- have refused, never panics, and moves its counter by one.
  pub round_robin_next-eq :
      (r : RoundRobin) (hc : H)
      → 0 < length r.backends
      → r.counter + length r.backends ≤ 2 ^ 63
      → round_robin_next is_available r hc ≡ (
        (first_available is_available
            (urls (rotate (r.counter % length r.backends) r.backends))
            hc).0,
        (
          record r { counter = r.counter + 1 },
          (first_available is_available
              (urls (rotate (r.counter % length r.backends) r.backends))
              hc).1,
        ),
      )
  unfolding round_robin_next
  round_robin_next-eq r hc pos h =
      let n : ℕ = length r.backends in
      let (same, next) = counted r.counter n h pos in
      let around : walk is_available r.backends (ticket r.counter) n 0 hc
          ≡ first_available is_available (urls (rotate (r.counter % n) r.backends)) hc =
        ap (λ k. walk is_available r.backends k n 0 hc) same
        ∙ walk-first_available r.backends r.counter n 0 hc (omega arith) pos
        ∙ ap (λ k. first_available is_available (orbit r.backends k n) hc) {y = r.counter}
            (omega arith)
        ∙ ap (λ us. first_available is_available us hc) (orbit-rotate r.backends r.counter pos) in
      ap₂ (λ t k. (t.0, (record r { counter = k }, t.1))) around next

  -- The ip-hash strategy asks the pool in order from the place that the client's hash gives and
  -- then around: the same client meets the same backend as long as that one is available, and the
  -- next available one otherwise.
  pub next_for_ip-eq :
      (sum32 : String → ℕ) (r : IpHash) (client_ip : String) (hc : H)
      → 0 < length r.backends
      → length r.backends < 2 ^ 32
      → next_for_ip is_available sum32 r client_ip hc
        ≡ first_available is_available
            (urls (rotate (sum32 client_ip % length r.backends) r.backends))
            hc
  unfolding next_for_ip
  next_for_ip-eq sum32 r client_ip hc pos small =
      let n : ℕ = length r.backends in
      let start : ℕ = sum32 client_ip % n in
      let inside : start < n = mod-lt (sum32 client_ip) pos in
      let width : n % 2 ^ 32 ≡ n = mod-eq_of_lt small in
      let some_left : (n == 0) ≡ false = ground arith in
      rw (width, some_left)
        (walk-first_available r.backends start n 0 hc (omega arith) pos
          ∙ ap (λ k. first_available is_available (orbit r.backends k n) hc) {y = start}
              (omega arith)
          ∙ ap (λ us. first_available is_available us hc)
              (orbit-rotate r.backends start pos
                ∙ ap (λ k. urls (rotate k r.backends)) (mod-eq_of_lt inside)))

  walk-panic :
      (bs : List BackendEntry) (start rounds : ℕ) (hc : H)
      → 0 < rounds
      → backend_at bs start 0 ≡ none
      → (walk is_available bs start rounds 0 hc).0 ≡ panic
  unfolding walk
  walk-panic bs start zero hc pos e = absurd (omega arith)
  walk-panic bs start (suc rounds) hc pos e = rw (e, walk)

  -- From 2^63 tickets on the counter reads as a negative number: unless its distance to 2^64 is a
  -- multiple of the pool's size, the first index is negative, and Next panics.
  pub round_robin_next-panics :
      (r : RoundRobin) (hc : H)
      → 0 < length r.backends
      → 2 ^ 63 ≤ r.counter
      → r.counter < 2 ^ 64
      → (2 ^ 64 - r.counter) % length r.backends ≢ 0
      → (round_robin_next is_available r hc).0 ≡ panic
  unfolding round_robin_next
  round_robin_next-panics r hc pos high top uneven =
      let same : ticket r.counter ≡ r.counter = omega arith in
      walk-panic r.backends (ticket r.counter) (length r.backends) hc pos
        (rw same (negative_index r.backends r.counter high top uneven))
