-- ===== src/Balancer/Members.antt =====
-- The URLs that a balancer can pick are those of the pool that it was made for, and stay so.
use haribon.Prelude.{
  ℕ, zero, suc, ◌≡◌, ◌≢◌, refl, ap, sym, ◌∙◌, String, Bool, false, ◌||◌, List, [], ◌∷◌, ◌++◌,
  replicate, contains, str_eq, eq_iff, ℤ, pos, negsuc, Bool-cases, Option-cases, inl, inr, arith,
  subst, Option, none, some,
}
use haribon.Prelude.Dict.{Dict, get}
use haribon.Balancer.Types.{BackendEntry, Result, ok, err, urls}
use haribon.Balancer.WeightedRoundRobin.{slots_of, expand, new_weighted_round_robin, weighted_next}
use haribon.Balancer.LeastConnections.{
  LeastConn, search_least, count_pick, Search, best, crashed, least_next, least_done,
  new_least_connections, carry_over_conns,
}
use haribon.Balancer.Walk.{round_robin_next, ip_hash_next}
use haribon.Balancer.Factory.{
  Balancer, round_robin, weighted, least_conn, random, ip_hash, new_balancer, new_round_robin,
  new_random, new_ip_hash, map_result, reported_conns, carry_balancer, balancer_done, balancer_next,
  balancer_next_for_ip,
}
use haribon.Balancer.Chosen.{Each, candidates}

-- The two lists have the same members.
abbrev pub SameMembers : List String → List String → Type 0
SameMembers vs pool = (u : String) → contains vs u ≡ contains pool u

pub Each-other : (u : String) (vs : List String) → contains vs u ≡ false → Each (λ v. v ≢ u) vs
Each-other u [] h = tt
Each-other u (v ∷ vs) h =
    (λ same. absurd (ground (arith, h, eq_iff v u, same)), Each-other u vs (ground (arith, h)))

contains-append :
    (vs ws : List String) (u : String) → contains (vs ++ ws) u ≡ (contains vs u || contains ws u)
contains-append [] ws u = refl
contains-append (v ∷ vs) ws u = ground (arith, contains-append vs ws u)

contains-replicate :
    (url : String) (n : ℕ) (u : String)
    → (str_eq url u || contains (replicate n url) u) ≡ str_eq url u
contains-replicate url zero u = ground arith
contains-replicate url (suc n) u = ground (arith, contains-replicate url n u)

contains-slots_of : (url : String) (w : ℕ) (u : String) → contains (slots_of url w) u ≡ str_eq url u
unfolding slots_of
contains-slots_of url zero u = ground arith
contains-slots_of url (suc w) u = contains-replicate url w u

ok-injective : {A : Type 0} {x y : A} → ok x ≡ ok y → x ≡ y
ok-injective {A} {x} {y} e = ap (λ r. elim r [ ok a ↦ a | err z ↦ x ]) e

expand-contains :
    (slots : List String) (bs : List BackendEntry) (u : String) (out : List String)
    → expand slots bs ≡ ok out
    → contains out u ≡ (contains slots u || contains (urls bs) u)
unfolding expand urls
expand-contains slots [] u out e = ap (λ l. contains l u) (sym (ok-injective e)) ∙ ground arith
expand-contains slots (b ∷ bs) u out e =
    go b.weight refl (λ w. expand-contains (slots ++ slots_of b.url w) bs u out)
  where
    go :
        (z : ℤ)
        → b.weight ≡ z
        → ((w : ℕ)
            → expand (slots ++ slots_of b.url w) bs ≡ ok out
            → contains out u ≡ (contains (slots ++ slots_of b.url w) u || contains (urls bs) u))
        → contains out u ≡ (contains slots u || (str_eq b.url u || contains (urls bs) u))
    go (negsuc w) eq ih = ground (arith, e, eq)
    go (pos w) eq ih =
        let more : expand (slots ++ slots_of b.url w) bs ≡ ok out =
          sym (rw (eq, expand) refl) ∙ e in
        ih w more
        ∙ ground (arith, contains-append slots (slots_of b.url w) u, contains-slots_of b.url w u)

made-SameMembers :
    (pool : List String) (made bal : Balancer)
    → SameMembers (candidates made) pool
    → ok made ≡ ok bal
    → SameMembers (candidates bal) pool
made-SameMembers pool made bal h e = subst (λ x. SameMembers (candidates x) pool) (ok-injective e) h

weighted-SameMembers :
    (b : BackendEntry) (bs : List BackendEntry) (bal : Balancer)
    → map_result weighted (new_weighted_round_robin (b ∷ bs)) ≡ ok bal
    → SameMembers (candidates bal) (urls (b ∷ bs))
unfolding new_weighted_round_robin candidates
weighted-SameMembers b bs bal e = go (expand [] (b ∷ bs)) refl
  where
    go :
        (r : Result (List String))
        → expand [] (b ∷ bs) ≡ r
        → SameMembers (candidates bal) (urls (b ∷ bs))
    go (err x) eq = absurd (ground (arith, e, eq))
    go (ok slots) eq =
        made-SameMembers (urls (b ∷ bs)) (weighted (record { slots = slots; counter = 0 })) bal
          (λ u. expand-contains [] (b ∷ bs) u slots eq) (sym (rw (eq, map_result) refl) ∙ e)

-- A new balancer picks from exactly the pool that it was made for.
pub candidates-new_balancer :
    (strategy : String) (b : BackendEntry) (bs : List BackendEntry) (bal : Balancer)
    → new_balancer strategy (b ∷ bs) ≡ ok bal
    → SameMembers (candidates bal) (urls (b ∷ bs))
unfolding new_balancer candidates new_round_robin new_random new_ip_hash new_least_connections
candidates-new_balancer strategy b bs bal e = elim (Bool-cases (str_eq strategy "round_robin")) [
  | inl is1 ↦ from_pool _ refl (rw (is1, new_balancer) at e)
  | inr not1 ↦ elim (Bool-cases (str_eq strategy "weighted_round_robin")) [
    | inl is2 ↦ weighted-SameMembers b bs bal (rw (not1, is2, new_balancer) at e)
    | inr not2 ↦ elim (Bool-cases (str_eq strategy "least_connections")) [
      | inl is3 ↦ from_pool _ refl (rw (not1, not2, is3, new_balancer) at e)
      | inr not3 ↦ elim (Bool-cases (str_eq strategy "random")) [
        | inl is4 ↦ from_pool _ refl (rw (not1, not2, not3, is4, new_balancer) at e)
        | inr not4 ↦ elim (Bool-cases (str_eq strategy "ip_hash")) [
          | inl is5 ↦ from_pool _ refl (rw (not1, not2, not3, not4, is5, new_balancer) at e)
          | inr not5 ↦ absurd (ground (arith, e, not1, not2, not3, not4, not5))
        ]
      ]
    ]
  ]
]
  where
    from_pool :
        (made : Balancer)
        → candidates made ≡ urls (b ∷ bs)
        → ok made ≡ ok bal
        → SameMembers (candidates bal) (urls (b ∷ bs))
    from_pool made same =
        made-SameMembers (urls (b ∷ bs)) made bal (λ u. ap (λ l. contains l u) same)

carry_over_conns-backends :
    (o : Option (Dict ℤ)) (lc : LeastConn) → (carry_over_conns o lc).backends ≡ lc.backends
unfolding carry_over_conns
carry_over_conns-backends none lc = refl
carry_over_conns-backends (some counts) lc = refl

pub candidates-carry_balancer :
    (old bal : Balancer) → candidates (carry_balancer old bal) ≡ candidates bal
unfolding carry_balancer candidates
candidates-carry_balancer old (least_conn lc) =
    ap urls (carry_over_conns-backends (reported_conns old) lc)
candidates-carry_balancer old (round_robin r) = refl
candidates-carry_balancer old (weighted w) = refl
candidates-carry_balancer old (random r) = refl
candidates-carry_balancer old (ip_hash i) = refl

least_done-backends : (b : String) (lc : LeastConn) → (least_done b lc).backends ≡ lc.backends
unfolding least_done
least_done-backends b lc = elim (Option-cases (get lc.conns b)) [
  | inl missing ↦ rw (missing, least_done) refl
  | inr (n, found) ↦ rw (found, least_done) refl
]

pub candidates-balancer_done :
    (b : String) (bal : Balancer) → candidates (balancer_done b bal) ≡ candidates bal
unfolding balancer_done candidates
candidates-balancer_done b (least_conn lc) = ap urls (least_done-backends b lc)
candidates-balancer_done b (round_robin r) = refl
candidates-balancer_done b (weighted w) = refl
candidates-balancer_done b (random r) = refl
candidates-balancer_done b (ip_hash i) = refl

count_pick-backends : (lc : LeastConn) (s : Search) → (count_pick lc s).1.backends ≡ lc.backends
unfolding count_pick
count_pick-backends lc crashed = refl
count_pick-backends lc (best url c) = elim (Bool-cases (str_eq url "")) [
  | inl empty ↦ rw empty refl
  | inr full ↦ elim (Option-cases (get lc.conns url)) [
    | inl missing ↦ rw (full, missing) refl
    | inr (n, found) ↦ rw (full, found) refl
  ]
]

module _ {H : Type 0} (is_available : String → H → Bool × H) (intn : ℕ → ℕ)
    (sum32 : String → ℕ) where
  pub candidates-balancer_next :
      (bal : Balancer) (hc : H)
      → candidates (balancer_next is_available intn sum32 bal hc).1.0 ≡ candidates bal
  unfolding balancer_next candidates round_robin_next weighted_next least_next ip_hash_next
  candidates-balancer_next (round_robin r) hc = refl
  candidates-balancer_next (weighted w) hc = refl
  candidates-balancer_next (least_conn lc) hc = ap urls (
      count_pick-backends lc
        (search_least is_available lc.conns lc.backends (best "" (negsuc 0)) hc).0)
  candidates-balancer_next (random r) hc = refl
  candidates-balancer_next (ip_hash i) hc = refl

  pub candidates-balancer_next_for_ip :
      (bal : Balancer) (client_ip : String) (hc : H)
      → candidates (balancer_next_for_ip is_available intn sum32 bal client_ip hc).1.0
        ≡ candidates bal
  unfolding balancer_next_for_ip candidates
  candidates-balancer_next_for_ip (ip_hash i) client_ip hc = refl
  candidates-balancer_next_for_ip (round_robin r) client_ip hc =
      candidates-balancer_next (round_robin r) hc
  candidates-balancer_next_for_ip (weighted w) client_ip hc =
      candidates-balancer_next (weighted w) hc
  candidates-balancer_next_for_ip (least_conn lc) client_ip hc =
      candidates-balancer_next (least_conn lc) hc
  candidates-balancer_next_for_ip (random r) client_ip hc = candidates-balancer_next (random r) hc
