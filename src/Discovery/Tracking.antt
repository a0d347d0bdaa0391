-- ===== src/Discovery/Tracking.antt =====
-- What the pool holds of the answers of discovery.
use haribon.Prelude.{
  ◌≡◌, refl, sym, ap, ap₂, ◌∙◌, String, true, List, [], ◌∷◌, ◌⊎◌, inl, inr, Bool-cases, str_eq,
  eq_iff, arith,
}
use haribon.Balancer.Types.{BackendEntry, Result, ok, err}
use haribon.Balancer.Factory.{Balancer, new_balancer}
use haribon.Config.{Config}
use haribon.Engine.{Runtime, publish, rebuild, merge_entries}
use haribon.Engine.Swappable.{on_discovery, same_list}
use haribon.Discovery.{Lookup, found, failed, watch_loop, deliver, start_discovery, discover_all}

pub same_list-≡ : (xs ys : List String) → same_list xs ys ≡ true → xs ≡ ys
unfolding same_list
same_list-≡ [] [] h = refl
same_list-≡ [] (y ∷ ys) h = cc
same_list-≡ (x ∷ xs) [] h = cc
same_list-≡ (x ∷ xs) (y ∷ ys) h = elim (Bool-cases (str_eq x y)) [
  | inl e ↦ ap₂ (λ a l. a ∷ l) ((eq_iff x y).0 e) (same_list-≡ xs ys (rw e at h))
  | inr e ↦ absurd (ground (arith, e))
]

publish-discovered :
    (cfg : Config) (pool : List BackendEntry) (rt : Runtime)
    → (publish cfg pool rt).discovered ≡ rt.discovered
unfolding publish
publish-discovered cfg [] rt = refl
publish-discovered cfg (b ∷ bs) rt = go (new_balancer cfg.balancer.strategy (b ∷ bs)) refl
  where
    go :
        (r : Result Balancer)
        → new_balancer cfg.balancer.strategy (b ∷ bs) ≡ r
        → (publish cfg (b ∷ bs) rt).discovered ≡ rt.discovered
    go (ok bal) e = rw (e, publish) refl
    go (err f) e = rw (e, publish) refl

pub rebuild-discovered : (cfg : Config) (rt : Runtime) → (rebuild cfg rt).discovered ≡ rt.discovered
unfolding rebuild
rebuild-discovered cfg rt = publish-discovered cfg (merge_entries cfg.backends rt.discovered) rt

on_discovery-discovered :
    (cfg : Config) (us : List String) (rt : Runtime) → (on_discovery cfg us rt).discovered ≡ us
unfolding on_discovery
on_discovery-discovered cfg us rt = elim (Bool-cases (same_list us rt.discovered)) [
  | inl same ↦ rw (same, on_discovery) (sym (same_list-≡ us rt.discovered same))
  | inr new ↦ rw (new, on_discovery) (rebuild-discovered cfg (record rt { discovered = us }))
]

-- The last answer that names a backend, or what there was before.
abbrev pub last_good : List Lookup → List String → List String
last_good [] us = us
last_good (failed e ∷ ticks) us = last_good ticks us
last_good (found [] ∷ ticks) us = last_good ticks us
last_good (found (u ∷ us) ∷ ticks) old = last_good ticks (u ∷ us)

-- What the loop remembers: nothing yet, or what was delivered last.
abbrev Remembers : List String → List String → Type 0
Remembers last us = (last ≡ []) ⊎ (last ≡ us)

deliver-discovered :
    (cfg : Config) (ticks : List Lookup) (last : List String) (rt : Runtime)
    → Remembers last rt.discovered
    → (deliver cfg (watch_loop ticks last) rt).discovered ≡ last_good ticks rt.discovered
unfolding deliver watch_loop
deliver-discovered cfg [] last rt h = refl
deliver-discovered cfg (failed e ∷ ticks) last rt h = deliver-discovered cfg ticks last rt h
deliver-discovered cfg (found [] ∷ ticks) last rt h = deliver-discovered cfg ticks last rt h
deliver-discovered cfg (found (u ∷ us) ∷ ticks) last rt h =
    elim (Bool-cases (same_list (u ∷ us) last)) [
      | inl same ↦
          (let known : last ≡ u ∷ us = sym (same_list-≡ (u ∷ us) last same) in
            let held : rt.discovered ≡ u ∷ us = elim h [
              | inl nothing ↦ absurd cc
              | inr kept ↦ sym kept ∙ known
            ] in
            rw (same, watch_loop)
              (deliver-discovered cfg ticks last rt h ∙ ap (last_good ticks) held))
      | inr new ↦
          (let next = on_discovery cfg (u ∷ us) rt in
            let held = on_discovery-discovered cfg (u ∷ us) rt in
            rw (new, watch_loop)
              (deliver-discovered cfg ticks (u ∷ us) next (inr (sym held))
                ∙ ap (last_good ticks) held))
    ]

start-discovered :
    (first : Lookup) (rt : Runtime)
    → (start_discovery first rt).discovered ≡ last_good (first ∷ []) rt.discovered
unfolding start_discovery
start-discovered (found []) rt = refl
start-discovered (found (u ∷ us)) rt = refl
start-discovered (failed e) rt = refl

append-last_good :
    (first : Lookup) (ticks : List Lookup) (us : List String)
    → last_good ticks (last_good (first ∷ []) us) ≡ last_good (first ∷ ticks) us
append-last_good (found []) ticks us = refl
append-last_good (found (v ∷ vs)) ticks us = refl
append-last_good (failed e) ticks us = refl

-- After the first lookup and any number of polls the runtime holds the last answer that named a
-- backend.
pub discover_all-discovered :
    (cfg : Config) (first : Lookup) (ticks : List Lookup) (rt : Runtime)
    → (discover_all cfg first ticks rt).discovered ≡ last_good (first ∷ ticks) rt.discovered
unfolding discover_all
discover_all-discovered cfg first ticks rt =
    let primed = start_discovery first rt in
    deliver-discovered cfg ticks [] (rebuild cfg primed) (inl refl)
    ∙ ap (last_good ticks) (rebuild-discovered cfg primed ∙ start-discovered first rt)
    ∙ append-last_good first ticks rt.discovered
