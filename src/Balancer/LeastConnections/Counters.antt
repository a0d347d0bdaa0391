-- ===== src/Balancer/LeastConnections/Counters.antt =====
-- The counters of least-connections: a request's end, a reload, and a counter below zero.
use haribon.Prelude.{
  ℕ, ◌≤◌, ◌≡◌, refl, sym, ap, ◌∙◌, String, Bool, true, false, Option, none, some, [], ◌∷◌, str_eq,
  ℤ, pos, negsuc, inc_int64, dec_int64, max_int64, arith, eq_iff, Bool-cases, Option-cases, inl,
  inr,
}
use haribon.Prelude.Dict.{Dict, get, put, get-put, IsMap}
use haribon.Balancer.Types.{BackendEntry, picked}
use haribon.Balancer.LeastConnections.{
  LeastConn, Search, best, crashed, consider, search_least, count_pick, least_next, least_done,
  copy_conns, active_conns, carry_conns, carry_over_conns,
}

-- The range of an int64.
abbrev pub InRange : ℤ → Type 0
InRange (pos n) = n ≤ max_int64
InRange (negsuc n) = n ≤ max_int64

dec-inc_int64 : (x : ℤ) → InRange x → dec_int64 (inc_int64 x) ≡ x
unfolding inc_int64 dec_int64
dec-inc_int64 x h = ground arith

get-done :
    (lc : LeastConn) (u v : String) (x : ℤ)
    → get lc.conns u ≡ some x
    → InRange x
    → get (least_done u (record lc { conns = put lc.conns u (inc_int64 x) })).conns v
      ≡ get lc.conns v
unfolding least_done
get-done lc u v x e h =
    let there : get (put lc.conns u (inc_int64 x)) u ≡ some (inc_int64 x) =
      get-put lc.conns u (inc_int64 x) u ∙ ground (arith, eq_iff u u) in
    rw (there, least_done)
      (get-put (put lc.conns u (inc_int64 x)) u (dec_int64 (inc_int64 x)) v
        ∙ ground (arith, get-put lc.conns u (inc_int64 x) v, dec-inc_int64 x, eq_iff u v))

picked-injective : {u v : String} → picked u ≡ picked v → u ≡ v
picked-injective h = cc

count_pick-put :
    (lc : LeastConn) (s : Search) (u : String)
    → (count_pick lc s).0 ≡ picked u
    → (x : ℤ) × (get lc.conns u ≡ some x)
      × ((count_pick lc s).1 ≡ record lc { conns = put lc.conns u (inc_int64 x) })
unfolding count_pick
count_pick-put lc crashed u e = cc
count_pick-put lc (best url c) u e = elim (Bool-cases (str_eq url "")) [
  | inl empty ↦ cc (rw (empty, count_pick) at e)
  | inr named ↦ elim (Option-cases (get lc.conns url)) [
    | inl missing ↦ cc (rw (named, missing, count_pick) at e)
    | inr found ↦
        let done : count_pick lc (best url c)
            ≡ (picked url, record lc { conns = put lc.conns url (inc_int64 found.0) }) =
          rw (named, found.1, count_pick) refl in
        let same : url ≡ u = picked-injective (sym (ap (λ t. t.0) done) ∙ e) in
        (
          found.0,
          ap (get lc.conns) (sym same) ∙ found.1,
          ap (λ t. t.1) done
              ∙ ap (λ w. record lc { conns = put lc.conns w (inc_int64 found.0) }) same,
        )
  ]
]

module _ {H : Type 0} (is_available : String → H → Bool × H) where
  -- When the request for which Next picked a backend is done, every counter is what it was before
  -- Next, whatever its value.
  pub done-next :
      (lc : LeastConn) (hc : H) (u v : String)
      → (least_next is_available lc hc).0 ≡ picked u
      → ((x : ℤ) → get lc.conns u ≡ some x → InRange x)
      → get (least_done u (least_next is_available lc hc).1.0).conns v ≡ get lc.conns v
  unfolding least_next
  done-next lc hc u v e range =
      let found : Search =
        (search_least is_available lc.conns lc.backends (best "" (negsuc 0)) hc).0 in
      let (x, at, left) = count_pick-put lc found u e in rw left (get-done lc u v x at (range x at))

  -- A counter below zero hides its backend: of two available backends the second is picked,
  -- whatever its own counter says.
  pub negative_count_loses :
      (a b : BackendEntry) (conns : Dict ℤ) (hc : H) (k : ℕ) (c : ℤ)
      → ((url : String) (h : H) → (is_available url h).0 ≡ true)
      → get conns a.url ≡ some (negsuc k)
      → get conns b.url ≡ some c
      → str_eq b.url "" ≡ false
      → (least_next is_available (record { backends = a ∷ b ∷ []; conns = conns }) hc).0
        ≡ picked b.url
  unfolding least_next search_least count_pick consider
  negative_count_loses a b conns hc k c all ea eb full =
      let hb : H = (is_available a.url hc).1 in
      let one : consider conns a.url "" (negsuc 0) ≡ best a.url (negsuc k) =
        rw (ea, consider) refl in
      let two : consider conns b.url a.url (negsuc k) ≡ best b.url c =
        rw (eb, consider) (ground arith) in
      let last : search_least is_available conns (b ∷ []) (best a.url (negsuc k)) hb
          ≡ (best b.url c, (is_available b.url hb).1) =
        rw (all b.url hb, search_least) (rw (two, search_least)) in
      let whole : search_least is_available conns (a ∷ b ∷ []) (best "" (negsuc 0)) hc
          ≡ (best b.url c, (is_available b.url hb).1) =
        rw (all a.url hc, search_least) (rw (one, search_least) last) in
      ap (λ t. (count_pick (record { backends = a ∷ b ∷ []; conns = conns }) t.0).0) whole
      ∙ rw (full, eb, count_pick) refl

get-copy_conns :
    (m out : Dict ℤ) (u : String)
    → IsMap m
    → get (copy_conns m out) u ≡ (elim (get m u) [ none ↦ get out u | some x ↦ some x ])
unfolding copy_conns get
get-copy_conns [] out u h = refl
get-copy_conns ((k, v) ∷ m) out u h =
    get-copy_conns m (put out k v) u h.1 ∙ ground (arith, get-put out k v u, h.0, eq_iff k u)

get-active_conns :
    (lc : LeastConn) (u : String) → IsMap lc.conns → get (active_conns lc) u ≡ get lc.conns u
unfolding active_conns get
get-active_conns lc u h = get-copy_conns lc.conns [] u h ∙ ground arith

abbrev pub carried_count : Option ℤ → Option ℤ → Option ℤ
carried_count old none = none
carried_count none (some n) = some n
carried_count (some m) (some n) = some m

get-carry_conns :
    (counts conns : Dict ℤ) (u : String)
    → get (carry_conns counts conns) u ≡ carried_count (get counts u) (get conns u)
unfolding carry_conns get
get-carry_conns counts [] u = ground arith
get-carry_conns counts ((k, n) ∷ conns) u =
    ground (arith, get-carry_conns counts conns u, eq_iff k u)

-- After a reload the new balancer has, for each of its backends that the old one knew, the old
-- counter, for its other backends its own, and no counter for anything else.
pub get-carry_over_conns :
    (old new : LeastConn) (u : String)
    → IsMap old.conns
    → get (carry_over_conns (some (active_conns old)) new).conns u
      ≡ carried_count (get old.conns u) (get new.conns u)
unfolding carry_over_conns
get-carry_over_conns old new u h =
    get-carry_conns (active_conns old) new.conns u
    ∙ ap (λ o. carried_count o (get new.conns u)) (get-active_conns old u h)
