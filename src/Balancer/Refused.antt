-- ===== src/Balancer/Refused.antt =====
-- No strategy picks a backend that the health checker refuses.
use haribon.Prelude.{ℕ, ◌≡◌, ◌≢◌, ap, String, Bool, true, false, List, [], ◌∷◌}
use haribon.Balancer.Factory.{Balancer, balancer_next, balancer_next_for_ip}
use haribon.Balancer.Chosen.{Avoids, Each, candidates, pick-Avoids, pick_for_ip-Avoids}

abbrev Any : String → Type 0
Any v = Unit {0}

Each-Any : (vs : List String) → Each Any vs
Each-Any [] = tt
Each-Any (v ∷ vs) = (tt, Each-Any vs)

module _ {H : Type 0} (is_available : String → H → Bool × H) (P : H → Type 0) (u : String)
    (keeps : (v : String) (hc : H) → P hc → P (is_available v hc).1)
    (refuses : (hc : H) → P hc → (is_available u hc).0 ≡ false) where
  accepted-ne : (v : String) (hc : H) → Any v → P hc → (is_available v hc).0 ≡ true → v ≢ u
  accepted-ne v hc any p yes_v = λ same. cc (refuses hc p, ap (λ w. (is_available w hc).0) same)

  module _ (intn : ℕ → ℕ) (sum32 : String → ℕ) where
    -- If the checker refuses `u` in each state that `P` holds of, and no question leads out of these
    -- states, then no strategy picks `u`, and the checker is left in such a state.
    pub balancer_next-Avoids :
        (bal : Balancer) (hc : H)
        → P hc
        → Avoids u (balancer_next is_available intn sum32 bal hc).0
          × P (balancer_next is_available intn sum32 bal hc).1.1
    balancer_next-Avoids bal hc p =
        pick-Avoids is_available P u Any keeps accepted-ne intn sum32 bal hc
          (Each-Any (candidates bal)) p

    pub balancer_next_for_ip-Avoids :
        (bal : Balancer) (client_ip : String) (hc : H)
        → P hc
        → Avoids u (balancer_next_for_ip is_available intn sum32 bal client_ip hc).0
          × P (balancer_next_for_ip is_available intn sum32 bal client_ip hc).1.1
    balancer_next_for_ip-Avoids bal client_ip hc p =
        pick_for_ip-Avoids is_available P u Any keeps accepted-ne intn sum32 bal client_ip hc
          (Each-Any (candidates bal)) p
