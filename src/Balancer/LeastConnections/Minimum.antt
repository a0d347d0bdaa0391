-- ===== src/Balancer/LeastConnections/Minimum.antt =====
-- Least-connections asks every backend, and picks one with the fewest connections of those that are
-- available.
use haribon.Prelude.{
  ℕ, ◌≤◌, ◌≡◌, refl, ap, ◌∙◌, String, Bool, true, false, ◌||◌, some, List, [], ◌∷◌, str_eq, ℤ, pos,
  negsuc, inc_int64, if◌then◌else◌, arith, eq_iff, contains, Bool-cases, inl, inr, ltb, ltb_ℤ,
}
use haribon.Prelude.Dict.{Dict, get, put}
use haribon.Balancer.Types.{BackendEntry, Pick, picked, err_no_healthy_backend}
use haribon.Balancer.LeastConnections.{
  LeastConn, Search, best, crashed, consider, search_least, count_pick, least_next,
}

-- The available backends, in order, after every backend has been asked.
module _ {H : Type 0} (is_available : String → H → Bool × H) where
  unfoldable pub ask_all : List BackendEntry → H → List String × H
  ask_all [] hc = ([], hc)
  ask_all (b ∷ bs) hc =
      let rest = ask_all bs (is_available b.url hc).1 in
      (if (is_available b.url hc).0 then b.url ∷ rest.0 else rest.0, rest.1)

-- Every backend has a counter, and none is negative.
abbrev pub HasCounts : Dict ℤ → List BackendEntry → Type 0
HasCounts conns [] = Unit {0}
HasCounts conns (b ∷ bs) = ((n : ℕ) × (get conns b.url ≡ some (pos n))) × HasCounts conns bs

-- The choice among the available ones, with no health check in it.
choose : Dict ℤ → List String → Search → Search
choose conns [] s = s
choose conns (u ∷ us) crashed = crashed
choose conns (u ∷ us) (best b c) = choose conns us (consider conns u b c)

-- `n` connections are no more than any of the listed backends has.
abbrev pub NoMoreThan : Dict ℤ → ℕ → List String → Type 0
NoMoreThan conns n [] = Unit {0}
NoMoreThan conns n (u ∷ us) =
    ((m : ℕ) × (get conns u ≡ some (pos m)) × (n ≤ m)) × NoMoreThan conns n us

abbrev KnownUrls : Dict ℤ → List String → Type 0
KnownUrls conns [] = Unit {0}
KnownUrls conns (u ∷ us) = ((n : ℕ) × (get conns u ≡ some (pos n))) × KnownUrls conns us

-- What the choice from `b` with `n` connections ends in.
abbrev Chosen : Dict ℤ → String → ℕ → List String → Search → Type 0
Chosen conns b n us s =
    (u : String) × (m : ℕ) × (s ≡ best u (pos m))
    × (get conns u ≡ some (pos m))
    × (m ≤ n)
    × (((str_eq b u || contains us u) ≡ true))
    × NoMoreThan conns m us

consider-known :
    (conns : Dict ℤ) (u b : String) (c : ℤ) (k : ℕ)
    → get conns u ≡ some (pos k)
    → consider conns u b c
      ≡ (if ltb_ℤ c (pos 0) || ltb_ℤ (pos k) c then best u (pos k) else best b c)
unfolding consider
consider-known conns u b c k e = rw (e, consider)

choose-Chosen :
    (conns : Dict ℤ) (us : List String) (b : String) (n : ℕ)
    → KnownUrls conns us
    → get conns b ≡ some (pos n)
    → Chosen conns b n us (choose conns us (best b (pos n)))
unfolding choose
choose-Chosen conns [] b n known at = (b, n, refl, at, omega arith, ground (arith, eq_iff b b), tt)
choose-Chosen conns (u ∷ us) b n known at =
    let (k, found) = known.0 in
    elim (Bool-cases (ltb k n)) [
      | inl less ↦
          let (v, m, e, g, le, mem, min) = choose-Chosen conns us u k known.1 found in
          (
            v,
            m,
            ap (choose conns us) (consider-known conns u b (pos n) k found ∙ ground arith) ∙ e,
            g,
            ground arith,
            ground arith,
            ((k, found, le), min),
          )
      | inr more ↦
          let (v, m, e, g, le, mem, min) = choose-Chosen conns us b n known.1 at in
          (
            v,
            m,
            ap (choose conns us) (consider-known conns u b (pos n) k found ∙ ground arith) ∙ e,
            g,
            le,
            ground arith,
            ((k, found, ground arith), min),
          )
    ]

-- What Next comes to, given the available backends: ErrNoHealthyBackend and no change if there is
-- none; otherwise one of them with the fewest connections, whose counter goes up by one.
abbrev pub LeastOutcome : LeastConn → List String → Pick → LeastConn → Type 0
LeastOutcome lc [] pick lc' = (pick ≡ err_no_healthy_backend) × (lc' ≡ lc)
LeastOutcome lc (u ∷ us) pick lc' =
    (v : String) × (m : ℕ) × (pick ≡ picked v)
    × (get lc.conns v ≡ some (pos m))
    × (contains (u ∷ us) v ≡ true)
    × NoMoreThan lc.conns m (u ∷ us)
    × (lc' ≡ record lc { conns = put lc.conns v (inc_int64 (pos m)) })

abbrev pub NoEmpty : List BackendEntry → Type 0
NoEmpty [] = Unit {0}
NoEmpty (b ∷ bs) = (str_eq b.url "" ≡ false) × NoEmpty bs

abbrev FullUrls : List String → Type 0
FullUrls [] = Unit {0}
FullUrls (u ∷ us) = (str_eq u "" ≡ false) × FullUrls us

full_member :
    (us : List String) (v : String) → FullUrls us → contains us v ≡ true → str_eq v "" ≡ false
full_member [] v f h = cc
full_member (u ∷ us) v f h = ground (arith, eq_iff u v, full_member us v f.1)

module _ {H : Type 0} (is_available : String → H → Bool × H) where
  known-ask_all :
      (conns : Dict ℤ) (bs : List BackendEntry) (hc : H)
      → HasCounts conns bs
      → KnownUrls conns (ask_all is_available bs hc).0
  unfolding ask_all
  known-ask_all conns [] hc h = tt
  known-ask_all conns (b ∷ bs) hc h =
      let rest = known-ask_all conns bs (is_available b.url hc).1 h.1 in
      elim (Bool-cases (is_available b.url hc).0) [
        | inl ready ↦ rw ready (h.0, rest)
        | inr away ↦ rw away rest
      ]

  full-ask_all :
      (bs : List BackendEntry) (hc : H) → NoEmpty bs → FullUrls (ask_all is_available bs hc).0
  unfolding ask_all
  full-ask_all [] hc h = tt
  full-ask_all (b ∷ bs) hc h =
      let rest = full-ask_all bs (is_available b.url hc).1 h.1 in
      elim (Bool-cases (is_available b.url hc).0) [
        | inl ready ↦ rw ready (h.0, rest)
        | inr away ↦ rw away rest
      ]

  -- One available backend, with what the loop makes of it.
  search_least-ready :
      (conns : Dict ℤ) (b : BackendEntry) (bs : List BackendEntry) (u v : String) (c d : ℤ) (hc : H)
      → (is_available b.url hc).0 ≡ true
      → consider conns b.url u c ≡ best v d
      → search_least is_available conns bs (best v d) (is_available b.url hc).1 ≡ (
        choose conns (ask_all is_available bs (is_available b.url hc).1).0 (best v d),
        (ask_all is_available bs (is_available b.url hc).1).1,
      )
      → search_least is_available conns (b ∷ bs) (best u c) hc ≡ (
        choose conns (ask_all is_available (b ∷ bs) hc).0 (best u c),
        (ask_all is_available (b ∷ bs) hc).1,
      )
  unfolding search_least ask_all choose
  search_least-ready conns b bs u v c d hc ready e ih =
      rw (ready, e, search_least, ask_all) (rw (e, choose) ih)

  search_least-eq :
      (conns : Dict ℤ) (bs : List BackendEntry) (u : String) (c : ℤ) (hc : H)
      → HasCounts conns bs
      → search_least is_available conns bs (best u c) hc
        ≡ (choose conns (ask_all is_available bs hc).0 (best u c), (ask_all is_available bs hc).1)
  unfolding search_least ask_all choose
  search_least-eq conns [] u c hc h = refl
  search_least-eq conns (b ∷ bs) u c hc h =
      let (k, found) = h.0 in
      let seen = consider-known conns b.url u c k found in
      elim (Bool-cases (is_available b.url hc).0) [
        | inl ready ↦ elim (Bool-cases (ltb_ℤ c (pos 0) || ltb_ℤ (pos k) c)) [
          | inl better ↦
              search_least-ready conns b bs u b.url c (pos k) hc ready (seen ∙ rw better refl)
                (search_least-eq conns bs b.url (pos k) (is_available b.url hc).1 h.1)
          | inr worse ↦
              search_least-ready conns b bs u u c c hc ready (seen ∙ rw worse refl)
                (search_least-eq conns bs u c (is_available b.url hc).1 h.1)
        ]
        | inr away ↦
            rw (away, search_least, ask_all)
              (search_least-eq conns bs u c (is_available b.url hc).1 h.1)
      ]

count_pick-LeastOutcome :
    (lc : LeastConn) (us : List String)
    → KnownUrls lc.conns us
    → FullUrls us
    → LeastOutcome lc us
        (count_pick lc (choose lc.conns us (best "" (negsuc 0)))).0
        (count_pick lc (choose lc.conns us (best "" (negsuc 0)))).1
unfolding count_pick choose
count_pick-LeastOutcome lc [] known full = (refl, refl)
count_pick-LeastOutcome lc (u ∷ us) known full =
    let (k, found) = known.0 in
    let (v, m, e, g, le, mem, min) = choose-Chosen lc.conns us u k known.1 found in
    let chosen : choose lc.conns (u ∷ us) (best "" (negsuc 0)) ≡ best v (pos m) =
      ap (choose lc.conns us) (consider-known lc.conns u "" (negsuc 0) k found ∙ ground arith)
      ∙ e in
    let named : str_eq v "" ≡ false = full_member (u ∷ us) v full mem in
    let done : count_pick lc (best v (pos m))
        ≡ (picked v, record lc { conns = put lc.conns v (inc_int64 (pos m)) }) =
      rw (named, g, count_pick) refl in
    let whole = ap (count_pick lc) chosen ∙ done in
    (v, m, ap (λ t. t.0) whole, g, mem, ((k, found, le), min), ap (λ t. t.1) whole)

module _ {H : Type 0} (is_available : String → H → Bool × H) where
  least_next-count_pick :
      (lc : LeastConn) (hc : H) (s : Search) (hc' : H)
      → search_least is_available lc.conns lc.backends (best "" (negsuc 0)) hc ≡ (s, hc')
      → least_next is_available lc hc ≡ ((count_pick lc s).0, ((count_pick lc s).1, hc'))
  unfolding least_next
  least_next-count_pick lc hc s hc' e =
      ap (λ t. ((count_pick lc t.0).0, ((count_pick lc t.0).1, t.1))) e

  -- Least-connections asks every backend of the pool, and leaves the health checker as these
  -- questions leave it. If none is available it reports ErrNoHealthyBackend and changes nothing;
  -- otherwise it picks an available backend whose counter is at most that of every other available
  -- one, and adds one to that counter alone. This holds while every backend has a counter, none is
  -- negative, and no URL is empty.
  pub least_next-LeastOutcome :
      (lc : LeastConn) (hc : H)
      → HasCounts lc.conns lc.backends
      → NoEmpty lc.backends
      → LeastOutcome lc
          (ask_all is_available lc.backends hc).0
          (least_next is_available lc hc).0
          (least_next is_available lc hc).1.0
        × ((least_next is_available lc hc).1.1 ≡ (ask_all is_available lc.backends hc).1)
  least_next-LeastOutcome lc hc known full =
      let us : List String = (ask_all is_available lc.backends hc).0 in
      let whole =
        least_next-count_pick lc hc _ _
          (search_least-eq is_available lc.conns lc.backends "" (negsuc 0) hc known) in
      (
        rw whole (
            count_pick-LeastOutcome lc us (known-ask_all is_available lc.conns lc.backends hc known)
              (full-ask_all is_available lc.backends hc full)),
        ap (λ t. t.1.1) whole,
      )
