-- ===== src/Balancer/LeastConnections.antt =====
-- internal/balancer/balancer.go: least-connections, with the per-backend counters of the map
-- `conns`. A counter is an int64; the lock makes each method one step.
pub mod Minimum
pub mod Counters
use haribon.Prelude.{
  ℕ, String, Bool, true, false, ◌||◌, Option, none, some, List, [], ◌∷◌, str_eq, ℤ, pos, negsuc,
  ltb_ℤ, inc_int64, dec_int64, if◌then◌else◌,
}
use haribon.Prelude.Dict.{Dict, get, put}
use haribon.Balancer.Types.{
  BackendEntry, err_no_backends, Result, ok, err, Pick, picked, err_no_healthy_backend, panic,
}

-- type leastConn struct
pub record LeastConn : Type 0 where
  pub backends : List BackendEntry
  pub conns : Dict ℤ

-- the loop of NewLeastConnections
unfoldable pub zero_conns : List BackendEntry → Dict ℤ → Dict ℤ
zero_conns [] m = m
zero_conns (b ∷ bs) m = zero_conns bs (put m b.url (pos 0))

unfoldable pub new_least_connections : List BackendEntry → Result LeastConn
unfolding zero_conns
new_least_connections [] = err err_no_backends
new_least_connections (b ∷ bs) = ok (record { backends = b ∷ bs; conns = zero_conns (b ∷ bs) [] })

-- What the loop of Next carries: `best`, `bestCount`; a nil counter is a panic.
pub data Search : Type 0 where
  best : String → ℤ → Search
  crashed : Search

-- the body of the loop below the health check
unfoldable pub consider : Dict ℤ → String → String → ℤ → Search
consider conns url best_url best_count = elim (get conns url) [
  | none ↦ crashed
  | some c ↦
      if ltb_ℤ best_count (pos 0) || ltb_ℤ c best_count
      then best url c
      else best best_url best_count
]

-- the end of Next, below the loop
unfoldable pub count_pick : LeastConn → Search → Pick × LeastConn
count_pick lc crashed = (panic, lc)
count_pick lc (best url count) =
    if str_eq url "" then (err_no_healthy_backend, lc) else elim (get lc.conns url) [
      | none ↦ (panic, lc)
      | some n ↦ (picked url, record lc { conns = put lc.conns url (inc_int64 n) })
    ]

module _ {H : Type 0} (is_available : String → H → Bool × H) where
  -- the loop of Next
  unfoldable pub search_least : Dict ℤ → List BackendEntry → Search → H → Search × H
  unfolding consider
  search_least conns bs crashed hc = (crashed, hc)
  search_least conns [] (best u c) hc = (best u c, hc)
  search_least conns (b ∷ bs) (best u c) hc =
      search_least conns bs
        (if (is_available b.url hc).0 then consider conns b.url u c else best u c)
        (is_available b.url hc).1

  -- func (lc *leastConn) Next
  unfoldable pub least_next : LeastConn → H → Pick × (LeastConn × H)
  unfolding search_least count_pick
  least_next lc hc =
      let (found, hc') = search_least lc.conns lc.backends (best "" (negsuc 0)) hc in
      ((count_pick lc found).0, ((count_pick lc found).1, hc'))

-- func (lc *leastConn) Done
unfoldable pub least_done : String → LeastConn → LeastConn
least_done backend lc = elim (get lc.conns backend) [
  | none ↦ lc
  | some n ↦ record lc { conns = put lc.conns backend (dec_int64 n) }
]

-- the loop of ActiveConns
unfoldable pub copy_conns : Dict ℤ → Dict ℤ → Dict ℤ
copy_conns [] out = out
copy_conns ((k, v) ∷ conns) out = copy_conns conns (put out k v)

unfoldable pub active_conns : LeastConn → Dict ℤ
unfolding copy_conns
active_conns lc = copy_conns lc.conns []

-- the loop of CarryOverConns, over the new balancer's counters
unfoldable pub carry_conns : Dict ℤ → Dict ℤ → Dict ℤ
carry_conns counts [] = []
carry_conns counts ((url, n) ∷ conns) =
    (url, elim (get counts url) [ none ↦ n | some m ↦ m ]) ∷ carry_conns counts conns

-- lc.CarryOverConns(old); `old` is none where the old balancer reports no counters.
unfoldable pub carry_over_conns : Option (Dict ℤ) → LeastConn → LeastConn
unfolding carry_conns
carry_over_conns none lc = lc
carry_over_conns (some counts) lc = record lc { conns = carry_conns counts lc.conns }
