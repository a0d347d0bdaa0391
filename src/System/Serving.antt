-- ===== src/System/Serving.antt =====
-- Requests and reports leave the pool of the current generation alone.
use haribon.Prelude.{ℕ, ◌≡◌, refl, ap, ◌∙◌, contains, inl, inr, String, Option, some, List}
use haribon.Balancer.Types.{BackendEntry}
use haribon.Balancer.Chosen.{candidates}
use haribon.Balancer.Members.{
  candidates-balancer_done, candidates-balancer_next, candidates-balancer_next_for_ip,
}
use haribon.Engine.{Engine, checker_available}
use haribon.Engine.Accepted.{Routed}
use haribon.Engine.Swappable.{
  Swappable, checker_of, leave, swappable_next, swappable_next_for_ip, swappable_done,
  swappable_available, swappable_success, swappable_failure, has_healthy_backend,
}
use haribon.Engine.Demands.{
  Demand, route, readiness, route_ip, question, done, success, failure, meet,
}

-- The generation is still there, lists the same backends and chooses from the same ones.
abbrev SamePool : Option Engine → Option Engine → Type 0
SamePool before after =
    (e : Engine)
    → before ≡ some e
    → (e' : Engine) × (after ≡ some e')
      × (e'.backends ≡ e.backends)
      × (candidates e'.bal ≡ candidates e.bal)

pub Routed-SamePool :
    (pool : List BackendEntry) (before after : Option Engine)
    → SamePool before after
    → Routed pool before
    → Routed pool after
Routed-SamePool pool before after same (inl empty) = inl empty
Routed-SamePool pool before after same (inr (e, cur, (listed, chosen))) =
    let (e', cur', kept, choices) = same e cur in
    inr (e', cur', (kept ∙ listed, λ u. ap (λ l. contains l u) choices ∙ chosen u))

module _ (intn : ℕ → ℕ) (sum32 : String → ℕ) where
  pub meet-SamePool :
      (d : Demand) (s : Swappable) → SamePool s.current (meet intn sum32 d s).1.current
  unfolding meet swappable_next swappable_next_for_ip swappable_done swappable_available
      swappable_success swappable_failure has_healthy_backend leave
  meet-SamePool (route now) s e cur = rw cur (
    _,
    refl,
    refl,
    candidates-balancer_next (checker_available now) intn sum32 e.bal (checker_of s e),
  )
  meet-SamePool (route_ip now ip) s e cur = rw cur (
    _,
    refl,
    refl,
    candidates-balancer_next_for_ip (checker_available now) intn sum32 e.bal ip (checker_of s e),
  )
  meet-SamePool (readiness now) s e cur = rw cur (_, refl, refl, refl)
  meet-SamePool (question now b) s e cur = rw cur (_, refl, refl, refl)
  meet-SamePool (done b) s e cur = rw cur (_, refl, refl, candidates-balancer_done b e.bal)
  meet-SamePool (success b) s e cur = rw cur (_, refl, refl, refl)
  meet-SamePool (failure now b) s e cur = rw cur (_, refl, refl, refl)
