-- ===== src/Balancer/Factory.antt =====
-- internal/balancer/balancer.go: the factory, and the Balancer interface as one data type with a
-- constructor for each strategy.
use haribon.Prelude.{
  ℕ, ◌≡◌, String, Bool, false, ◌||◌, Option, none, some, List, [], ◌∷◌, str_eq, ℤ, if◌then◌else◌,
  arith,
}
use haribon.Prelude.Dict.{Dict}
use haribon.Balancer.Types.{
  BackendEntry, err_no_backends, err_unknown_strategy, Result, ok, err, Pick, urls,
}
use haribon.Balancer.Walk.{RoundRobin, IpHash, round_robin_next, ip_hash_next, next_for_ip}
use haribon.Balancer.WeightedRoundRobin.{
  WeightedRr, new_weighted_round_robin, weighted_next, weighted_backends,
}
use haribon.Balancer.LeastConnections.{
  LeastConn, new_least_connections, least_next, least_done, active_conns, carry_over_conns,
}
use haribon.Balancer.Random.{RandomPool, random_next}

pub data Balancer : Type 0 where
  round_robin : RoundRobin → Balancer
  weighted : WeightedRr → Balancer
  least_conn : LeastConn → Balancer
  random : RandomPool → Balancer
  ip_hash : IpHash → Balancer

unfoldable pub new_round_robin : List BackendEntry → Result RoundRobin
new_round_robin [] = err err_no_backends
new_round_robin (b ∷ bs) = ok (record { backends = b ∷ bs; counter = 0 })

unfoldable pub new_random : List BackendEntry → Result RandomPool
new_random [] = err err_no_backends
new_random (b ∷ bs) = ok (record { backends = b ∷ bs })

unfoldable pub new_ip_hash : List BackendEntry → Result IpHash
new_ip_hash [] = err err_no_backends
new_ip_hash (b ∷ bs) = ok (record { backends = b ∷ bs; counter = 0 })

abbrev pub map_result {ℓ κ} : {A : Type ℓ} {B : Type κ} → (A → B) → Result A → Result B
map_result f (ok a) = ok (f a)
map_result f (err e) = err e

-- balancer.New(strategy, bs)
unfoldable pub new_balancer : String → List BackendEntry → Result Balancer
unfolding new_round_robin new_random new_ip_hash new_least_connections new_weighted_round_robin
new_balancer strategy bs =
    if str_eq strategy "round_robin"
    then map_result round_robin (new_round_robin bs)
    else if str_eq strategy "weighted_round_robin"
    then map_result weighted (new_weighted_round_robin bs)
    else if str_eq strategy "least_connections"
    then map_result least_conn (new_least_connections bs)
    else if str_eq strategy "random"
    then map_result random (new_random bs)
    else if str_eq strategy "ip_hash"
    then map_result ip_hash (new_ip_hash bs)
    else err err_unknown_strategy

-- bal.Backends()
unfoldable pub balancer_backends : Balancer → List String
unfolding urls weighted_backends
balancer_backends (round_robin r) = urls r.backends
balancer_backends (weighted w) = weighted_backends w
balancer_backends (least_conn lc) = urls lc.backends
balancer_backends (random r) = urls r.backends
balancer_backends (ip_hash i) = urls i.backends

-- bal.Done(backend)
unfoldable pub balancer_done : String → Balancer → Balancer
unfolding least_done
balancer_done backend (least_conn lc) = least_conn (least_done backend lc)
balancer_done backend bal = bal

-- old.(ConnsReporter), and its ActiveConns()
unfoldable pub reported_conns : Balancer → Option (Dict ℤ)
unfolding active_conns
reported_conns (least_conn lc) = some (active_conns lc)
reported_conns bal = none

-- bal.(ConnsCarrier), and its CarryOverConns(old)
unfoldable pub carry_balancer : Balancer → Balancer → Balancer
unfolding reported_conns carry_over_conns
carry_balancer old (least_conn lc) = least_conn (carry_over_conns (reported_conns old) lc)
carry_balancer old bal = bal

module _ {H : Type 0} (is_available : String → H → Bool × H) (intn : ℕ → ℕ)
    (sum32 : String → ℕ) where
  -- bal.Next(hc)
  unfoldable pub balancer_next : Balancer → H → Pick × (Balancer × H)
  unfolding round_robin_next weighted_next least_next random_next ip_hash_next
  balancer_next (round_robin r) hc =
      let (pick, left) = round_robin_next is_available r hc in (pick, (round_robin left.0, left.1))
  balancer_next (weighted w) hc =
      let (pick, left) = weighted_next is_available w hc in (pick, (weighted left.0, left.1))
  balancer_next (least_conn lc) hc =
      let (pick, left) = least_next is_available lc hc in (pick, (least_conn left.0, left.1))
  balancer_next (random r) hc =
      let (pick, hc') = random_next is_available intn r hc in (pick, (random r, hc'))
  balancer_next (ip_hash i) hc =
      let (pick, left) = ip_hash_next is_available i hc in (pick, (ip_hash left.0, left.1))

  -- The call through bal.(IPHash) where the strategy has it, and bal.Next(hc) otherwise.
  unfoldable pub balancer_next_for_ip : Balancer → String → H → Pick × (Balancer × H)
  unfolding balancer_next next_for_ip
  balancer_next_for_ip (ip_hash i) client_ip hc =
      let (pick, hc') = next_for_ip is_available sum32 i client_ip hc in (pick, (ip_hash i, hc'))
  balancer_next_for_ip bal client_ip hc = balancer_next bal hc

-- The five strategy names.
unfoldable pub known_strategy : String → Bool
known_strategy s =
    str_eq s "round_robin"
    || str_eq s "weighted_round_robin"
    || str_eq s "least_connections"
    || str_eq s "random"
    || str_eq s "ip_hash"

-- What a known strategy other than the weighted one makes of a pool.
abbrev pub pool_urls : List BackendEntry → Result (List String)
pool_urls [] = err err_no_backends
pool_urls (b ∷ bs) = ok (urls (b ∷ bs))

-- The factory knows five names. Any name but the weighted one gives ErrUnknownStrategy if it is not
-- among them, whatever the pool, and otherwise ErrNoBackends for an empty pool, and for any other
-- pool a balancer whose Backends() are exactly the URLs of the entries, in order.
pub backends-new_balancer :
    (strategy : String) (bs : List BackendEntry)
    → str_eq strategy "weighted_round_robin" ≡ false
    → map_result balancer_backends (new_balancer strategy bs)
      ≡ (if known_strategy strategy then pool_urls bs else err err_unknown_strategy)
unfolding new_balancer known_strategy balancer_backends
backends-new_balancer strategy [] h = ground arith
backends-new_balancer strategy (b ∷ bs) h = ground arith
