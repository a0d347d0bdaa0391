-- ===== src/Cluster/Consistency.antt =====
-- What holds of a node after any events: where its findings come from.
use haribon.Prelude.{
  ℕ, ◌≡◌, refl, ap, ◌∙◌, String, Bool, false, Option, none, some, List, [], ◌∷◌, str_eq, ltb,
  if◌then◌else◌, arith, eq_iff, Bool-cases, inl, inr, ℤ,
}
use haribon.Prelude.Dict.{Dict, get, put, get-put, get-remove}
use haribon.Cluster.Defs.{
  Health, GossipMessage, Node, new_node, set_health, increment_term, is_stale, expire, expire_loop,
  merge_entry, merge_loop, merge_gossip, raise_term, note_config_hash, mark_peer_seen, send_gossip,
  gossip_round, copy_health, local_finding,
}

-- What can happen to a node: a local probe result, a message, a gossip round.
pub data Event : Type 0 where
  probe_result : String → Bool → Event
  receive : ℕ → GossipMessage → Event
  round : ℕ → Event

unfoldable pub step : Node → Event → Node
step n (probe_result backend healthy) = set_health backend healthy n
step n (receive now msg) = merge_gossip now msg n
step n (round now) = (gossip_round now n).0

unfoldable pub run : Node → List Event → Node
run n [] = n
run n (e ∷ es) = run (step n e) es

-- A finding that no peer is on record for is the node's own.
pub record IsConsistent (n : Node) : Type 0 where
  pub local : (b : String) → get n.remote_at b ≡ none → get n.health b ≡ get n.own b

set_health-IsConsistent :
    (backend : String) (healthy : Bool) (n : Node)
    → IsConsistent n
    → IsConsistent (set_health backend healthy n)
unfolding set_health increment_term
set_health-IsConsistent backend healthy n c = record {
  local = λ b e. ground (
    arith,
    get-put n.health backend (local_finding (increment_term n) backend healthy) b,
    get-put n.own backend (local_finding (increment_term n) backend healthy) b,
    get-remove n.remote_at backend b,
    c.local b,
  );
}

merge_entry-IsConsistent :
    (now : ℕ) (sender k : String) (h : Health) (n : Node)
    → IsConsistent n
    → IsConsistent (merge_entry now sender k h n)
unfolding merge_entry
merge_entry-IsConsistent now sender k h n c = record {
  local = λ b e. ground (arith, get-put n.health k h b, get-put n.remote_at k now b, c.local b);
}

merge_loop-IsConsistent :
    (now : ℕ) (sender : String) (m : Dict Health) (n : Node)
    → IsConsistent n
    → IsConsistent (merge_loop now sender m n)
unfolding merge_loop
merge_loop-IsConsistent now sender [] n c = c
merge_loop-IsConsistent now sender ((k, h) ∷ m) n c =
    merge_loop-IsConsistent now sender m _ (merge_entry-IsConsistent now sender k h n c)

-- One backend's finding after its expiry: the node's own, if there is one.
pub get-expire :
    (k b : String) (n : Node)
    → get (expire k n).health b ≡ (if str_eq k b then get n.own b else get n.health b)
unfolding expire
get-expire k b n = go (get n.own k) refl
  where
    go :
        (o : Option Health)
        → get n.own k ≡ o
        → get (expire k n).health b ≡ (if str_eq k b then get n.own b else get n.health b)
    go none e = rw (e, expire) (ground (arith, get-remove n.health k b, eq_iff k b, e))
    go (some h) e = rw (e, expire) (ground (arith, get-put n.health k h b, eq_iff k b, e))

expire-IsConsistent : (k : String) (n : Node) → IsConsistent n → IsConsistent (expire k n)
unfolding expire
expire-IsConsistent k n c = record {
  local =
      λ b e. get-expire k b n ∙ ground (arith, get-remove n.remote_at k b, c.local b, eq_iff k b);
}

expire_loop-IsConsistent :
    (now : ℕ) (m : Dict ℕ) (n : Node) → IsConsistent n → IsConsistent (expire_loop now m n)
unfolding expire_loop
expire_loop-IsConsistent now [] n c = c
expire_loop-IsConsistent now ((k, at) ∷ m) n c = elim (Bool-cases (is_stale now n k)) [
  | inl old ↦
      rw (old, expire_loop)
        (expire_loop-IsConsistent now m (expire k n) (expire-IsConsistent k n c))
  | inr current ↦ rw (current, expire_loop) (expire_loop-IsConsistent now m n c)
]

merge_gossip-IsConsistent :
    (now : ℕ) (msg : GossipMessage) (n : Node)
    → IsConsistent n
    → IsConsistent (merge_gossip now msg n)
unfolding merge_gossip
merge_gossip-IsConsistent now msg n c =
    let heard : Node = note_config_hash msg.config_hash (mark_peer_seen now msg.node_id n) in
    let first : IsConsistent heard = record {
      local = λ b. unfold note_config_hash mark_peer_seen in ground (arith, c.local b);
    } in
    let second : IsConsistent (raise_term msg.term heard) = record {
      local = λ b. unfold raise_term in ground (arith, first.local b);
    } in
    elim (Bool-cases (str_eq msg.node_id n.node_id)) [
      | inl self ↦ rw (self, merge_gossip) c
      | inr other ↦ elim (Bool-cases (ltb msg.term heard.term)) [
        | inl late ↦ rw (other, merge_gossip) (rw late first)
        | inr current ↦
            rw (other, merge_gossip)
              (rw current (merge_loop-IsConsistent now msg.node_id msg.health _ second))
      ]
    ]

step-IsConsistent : (n : Node) (e : Event) → IsConsistent n → IsConsistent (step n e)
unfolding step gossip_round
step-IsConsistent n (probe_result backend healthy) c = set_health-IsConsistent backend healthy n c
step-IsConsistent n (receive now msg) c = merge_gossip-IsConsistent now msg n c
step-IsConsistent n (round now) c = record {
  local = (expire_loop-IsConsistent now n.remote_at n c).local;
}

run-keeps-IsConsistent : (es : List Event) (n : Node) → IsConsistent n → IsConsistent (run n es)
unfolding run
run-keeps-IsConsistent [] n c = c
run-keeps-IsConsistent (e ∷ es) n c = run-keeps-IsConsistent es (step n e) (step-IsConsistent n e c)

new_node-IsConsistent : (id : String) (sec : ℤ) → IsConsistent (new_node id sec)
unfolding new_node get
new_node-IsConsistent id sec = record { local = λ b e. refl }

-- Whatever probe results, messages and gossip rounds a fresh node has seen, a finding that no peer
-- is on record for is the node's own finding, or absent as that one is.
pub run-IsConsistent :
    (node_id : String) (gossip_sec : ℤ) (events : List Event)
    → IsConsistent (run (new_node node_id gossip_sec) events)
run-IsConsistent node_id gossip_sec events =
    run-keeps-IsConsistent events _ (new_node-IsConsistent node_id gossip_sec)

-- No event of the list is a local probe result for `b`.
abbrev pub NotProbed : String → List Event → Type 0
NotProbed b [] = Unit {0}
NotProbed b (probe_result backend healthy ∷ es) = (str_eq backend b ≡ false) × NotProbed b es
NotProbed b (receive now msg ∷ es) = NotProbed b es
NotProbed b (round now ∷ es) = NotProbed b es

own-merge_loop :
    (now : ℕ) (sender : String) (m : Dict Health) (n : Node)
    → (merge_loop now sender m n).own ≡ n.own
unfolding merge_loop merge_entry
own-merge_loop now sender [] n = refl
own-merge_loop now sender ((k, h) ∷ m) n =
    own-merge_loop now sender m (merge_entry now sender k h n) ∙ ground arith

own-merge_gossip : (now : ℕ) (msg : GossipMessage) (n : Node) → (merge_gossip now msg n).own ≡ n.own
unfolding merge_gossip raise_term note_config_hash mark_peer_seen
own-merge_gossip now msg n =
    let heard : Node = note_config_hash msg.config_hash (mark_peer_seen now msg.node_id n) in
    ground (arith, own-merge_loop now msg.node_id msg.health (raise_term msg.term heard))

own-expire_loop : (now : ℕ) (m : Dict ℕ) (n : Node) → (expire_loop now m n).own ≡ n.own
unfolding expire_loop expire
own-expire_loop now [] n = refl
own-expire_loop now ((k, at) ∷ m) n = elim (Bool-cases (is_stale now n k)) [
  | inl old ↦ rw (old, expire_loop) (own-expire_loop now m (expire k n))
  | inr current ↦ rw (current, expire_loop) (own-expire_loop now m n)
]

own-run :
    (b : String) (es : List Event) (n : Node)
    → NotProbed b es
    → get n.own b ≡ none
    → get (run n es).own b ≡ none
unfolding run step gossip_round
own-run b [] n h e = e
own-run b (probe_result k healthy ∷ es) n h e =
    own-run b es (set_health k healthy n) h.1
      (unfold set_health increment_term in get-put n.own k _ b ∙ rw h.0 e)
own-run b (receive now msg ∷ es) n h e =
    own-run b es (merge_gossip now msg n) h (ap (λ m. get m b) (own-merge_gossip now msg n) ∙ e)
own-run b (round now ∷ es) n h e =
    own-run b es (gossip_round now n).0 h
      (ap (λ m. get m b) (own-expire_loop now n.remote_at n) ∙ e)

absent-copy_health :
    (m out : Dict Health) (b : String)
    → get m b ≡ none
    → get out b ≡ none
    → get (copy_health m out) b ≡ none
unfolding copy_health get
absent-copy_health [] out b e f = f
absent-copy_health ((k, v) ∷ m) out b e f = elim (Bool-cases (str_eq k b)) [
  | inl same ↦ cc (rw same at e)
  | inr other ↦
      absent-copy_health m (put out k v) b (rw other at e) (get-put out k v b ∙ rw other f)
]

-- A node gossips first-hand findings only: whatever it has been told by peers, and whatever it
-- still holds, its message says nothing of a backend that it has not probed itself.
pub gossip-first_hand :
    (node_id b : String) (gossip_sec : ℤ) (events : List Event)
    → NotProbed b events
    → get (send_gossip (run (new_node node_id gossip_sec) events)).1.health b ≡ none
unfolding send_gossip
gossip-first_hand node_id b gossip_sec events h =
    absent-copy_health (run (new_node node_id gossip_sec) events).own [] b
      (own-run b events (new_node node_id gossip_sec) h (unfold new_node get in refl))
      (unfold get in refl)
