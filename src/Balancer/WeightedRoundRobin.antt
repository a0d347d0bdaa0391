-- ===== src/Balancer/WeightedRoundRobin.antt =====
-- internal/balancer/balancer.go: weighted round-robin, over a list of slots in which each backend
-- stands as often as its weight says.
pub mod Slots
use haribon.Prelude.{
  ℕ, zero, suc, ◌+◌, ◌%◌, ◌^◌, String, Bool, true, false, Option, none, some, List, [], ◌∷◌, ◌++◌,
  length, get_elem?, replicate, contains, ltb_ℤ, ℤ, pos, negsuc, if◌then◌else◌,
}
use haribon.Balancer.Types.{
  BackendEntry, BalancerError, err_no_backends, err_invalid_weight, Result, ok, err, Pick, picked,
  err_no_healthy_backend, panic, add_uint64, ticket, slot_index,
}

-- type weightedRR struct
pub record WeightedRr : Type 0 where
  pub slots : List String
  pub counter : ℕ

-- The slots of one backend: `if w == 0 { w = 1 }`, and the inner loop.
unfoldable pub slots_of : String → ℕ → List String
slots_of url zero = url ∷ []
slots_of url (suc w) = url ∷ replicate w url

-- the loop of NewWeightedRoundRobin
unfoldable pub expand : List String → List BackendEntry → Result (List String)
unfolding slots_of
expand slots [] = ok slots
expand slots (b ∷ bs) = elim b.weight [
  | negsuc w ↦ err (err_invalid_weight b.url)
  | pos w ↦ expand (slots ++ slots_of b.url w) bs
]

unfoldable pub new_weighted_round_robin : List BackendEntry → Result WeightedRr
unfolding expand
new_weighted_round_robin [] = err err_no_backends
new_weighted_round_robin (b ∷ bs) = elim (expand [] (b ∷ bs)) [
  | err e ↦ err e
  | ok slots ↦ ok (record { slots = slots; counter = 0 })
]

-- w.slots[(int(start)+i)%n]
unfoldable pub slot_at : List String → ℕ → ℕ → Option String
unfolding slot_index
slot_at slots start i = elim (slot_index start i (length slots)) [
  | none ↦ none
  | some k ↦ get_elem? slots k
]

module _ {H : Type 0} (is_available : String → H → Bool × H) where
  -- the loop of Next; `seen` holds the keys of the map
  unfoldable pub weighted_walk : List String → ℕ → ℕ → ℕ → List String → H → Pick × H
  unfolding slot_at
  weighted_walk slots start zero i seen hc = (err_no_healthy_backend, hc)
  weighted_walk slots start (suc rounds) i seen hc = elim (slot_at slots start i) [
    | none ↦ (panic, hc)
    | some url ↦ elim (contains seen url) [
      | true ↦ weighted_walk slots start rounds (i + 1) seen hc
      | false ↦ elim (is_available url hc).0 [
        | true ↦ (picked url, (is_available url hc).1)
        | false ↦ weighted_walk slots start rounds (i + 1) (url ∷ seen) (is_available url hc).1
      ]
    ]
  ]

  -- func (w *weightedRR) Next
  unfoldable pub weighted_next : WeightedRr → H → Pick × (WeightedRr × H)
  unfolding weighted_walk
  weighted_next w hc =
      let (pick, hc') = weighted_walk w.slots (ticket w.counter) (length w.slots) 0 [] hc in
      (pick, (record w { counter = add_uint64 w.counter }, hc'))

-- the loop of (w *weightedRR) Backends
unfoldable pub distinct : List String → List String → List String
distinct seen [] = []
distinct seen (s ∷ slots) = elim (contains seen s) [
  | true ↦ distinct seen slots
  | false ↦ s ∷ distinct (s ∷ seen) slots
]

unfoldable pub weighted_backends : WeightedRr → List String
unfolding distinct
weighted_backends w = distinct [] w.slots
