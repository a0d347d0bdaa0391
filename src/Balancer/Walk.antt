-- ===== src/Balancer/Walk.antt =====
-- internal/balancer/balancer.go: the forward walk that round-robin and ip-hash share. The health
-- checker is a parameter: a question may change its state, since the circuit breaker's does.
pub mod Rotation
pub mod Fairness
use haribon.Prelude.{
  ℕ, zero, suc, ◌+◌, ◌%◌, ◌^◌, String, Bool, true, false, Option, none, some, List, [], ◌∷◌, length,
  get_elem?, ◌==◌, if◌then◌else◌,
}
use haribon.Balancer.Types.{
  BackendEntry, Pick, picked, err_no_healthy_backend, panic, add_uint64, ticket, slot_index, urls,
}

-- type roundRobin struct
pub record RoundRobin : Type 0 where
  pub backends : List BackendEntry
  pub counter : ℕ

-- type ipHash struct
pub record IpHash : Type 0 where
  pub backends : List BackendEntry
  pub counter : ℕ

-- r.backends[(int(start)+i)%n]
unfoldable pub backend_at : List BackendEntry → ℕ → ℕ → Option BackendEntry
unfolding slot_index
backend_at bs start i = elim (slot_index start i (length bs)) [
  | none ↦ none
  | some k ↦ get_elem? bs k
]

module _ {H : Type 0} (is_available : String → H → Bool × H) where
  -- the loop of Next and of NextForIP, with `rounds` passes left and its index at `i`
  unfoldable pub walk : List BackendEntry → ℕ → ℕ → ℕ → H → Pick × H
  unfolding backend_at
  walk bs start zero i hc = (err_no_healthy_backend, hc)
  walk bs start (suc rounds) i hc = elim (backend_at bs start i) [
    | none ↦ (panic, hc)
    | some b ↦ elim (is_available b.url hc).0 [
      | true ↦ (picked b.url, (is_available b.url hc).1)
      | false ↦ walk bs start rounds (i + 1) (is_available b.url hc).1
    ]
  ]

  -- func (r *roundRobin) Next
  unfoldable pub round_robin_next : RoundRobin → H → Pick × (RoundRobin × H)
  unfolding walk
  round_robin_next r hc =
      let (pick, hc') = walk r.backends (ticket r.counter) (length r.backends) 0 hc in
      (pick, (record r { counter = add_uint64 r.counter }, hc'))

  -- func (i *ipHash) Next
  unfoldable pub ip_hash_next : IpHash → H → Pick × (IpHash × H)
  unfolding walk
  ip_hash_next r hc =
      let (pick, hc') = walk r.backends (ticket r.counter) (length r.backends) 0 hc in
      (pick, (record r { counter = add_uint64 r.counter }, hc'))

  -- func (i *ipHash) NextForIP; `sum32` is the FNV-1a hash of hash/fnv
  unfoldable pub next_for_ip : (String → ℕ) → IpHash → String → H → Pick × H
  unfolding walk
  next_for_ip sum32 r client_ip hc =
      let n = length r.backends in
      if n % 2 ^ 32 == 0
      then (panic, hc)
      else walk r.backends (sum32 client_ip % (n % 2 ^ 32)) n 0 hc
