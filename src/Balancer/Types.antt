-- ===== src/Balancer/Types.antt =====
-- internal/balancer/balancer.go: the types that the strategies share, and the index arithmetic of
-- their loops.
use haribon.Prelude.{
  ℕ, ◌+◌, ◌-◌, ◌%◌, ◌^◌, String, Option, none, some, List, [], ◌∷◌, ℤ, ltb, ◌==◌, if◌then◌else◌,
}

pub record BackendEntry : Type 0 where
  pub url : String
  pub weight : ℤ

-- The sentinel errors; a negative weight is reported with the backend's URL.
pub data BalancerError : Type 0 where
  err_no_backends err_unknown_strategy : BalancerError
  err_invalid_weight : String → BalancerError

-- What a call of Next comes to: a backend, ErrNoHealthyBackend, or a run-time panic (an index out
-- of range, a division by zero or a nil pointer).
pub data Pick : Type 0 where
  picked : String → Pick
  err_no_healthy_backend : Pick
  panic : Pick

pub data Result {ℓ} (A : Type ℓ) : Type ℓ where
  ok : A → Result A
  err : BalancerError → Result A

-- the loop of Backends in round-robin, least-connections, random and ip-hash
unfoldable pub urls : List BackendEntry → List String
urls [] = []
urls (b ∷ bs) = b.url ∷ urls bs

-- atomic.AddUint64(&counter, 1)
abbrev pub add_uint64 : ℕ → ℕ
add_uint64 counter = (counter + 1) % 2 ^ 64

-- atomic.AddUint64(&counter, 1) - 1
abbrev pub ticket : ℕ → ℕ
ticket counter = (add_uint64 counter + (2 ^ 64 - 1)) % 2 ^ 64

-- (int(start)+i)%n as an index: the sum wraps in 64 bits and is read as a signed number, and a
-- negative remainder is no index.
unfoldable pub slot_index : ℕ → ℕ → ℕ → Option ℕ
slot_index start i n =
    let sum = (start + i) % 2 ^ 64 in
    if ltb sum (2 ^ 63) then some (sum % n) else if (2 ^ 64 - sum) % n == 0 then some 0 else none
