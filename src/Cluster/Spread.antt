-- ===== src/Cluster/Spread.antt =====
-- How a finding reaches another node, and how it leaves again when its author falls silent.
use haribon.Prelude.{
  ℕ, ◌+◌, ◌-◌, ◌^◌, ◌≤◌, ◌<◌, ◌≡◌, ◌≢◌, ◌⊎◌, refl, ap₂, subst, ◌∙◌, String, Bool, true, false,
  Option, none, some, [], ◌∷◌, str_eq, ltb, if◌then◌else◌, arith, eq_iff, eq_refl, Bool-cases, inl,
  inr,
}
use haribon.Prelude.Dict.{Dict, get, put, get-put, get-remove, IsMap, put-IsMap}
use haribon.Cluster.Defs.{
  Health, GossipMessage, Node, set_health, increment_term, is_stale, expire, expire_loop,
  expire_remote, merge_entry, merge_loop, merge_gossip, raise_term, note_config_hash,
  mark_peer_seen, send_gossip, own_health, copy_health, local_finding, get_health,
}
use haribon.Cluster.Entries.{newer, reasserted, MergedAt, merge_gossip-entry, heard_term}
use haribon.Cluster.Consistency.{get-expire}

get-copy_health :
    (m out : Dict Health) (b : String)
    → IsMap m
    → get (copy_health m out) b ≡ (elim (get m b) [ none ↦ get out b | some h ↦ some h ])
unfolding copy_health get
get-copy_health [] out b h = refl
get-copy_health ((k, v) ∷ m) out b h =
    get-copy_health m (put out k v) b h.1 ∙ ground (arith, get-put out k v b, h.0, eq_iff k b)

copy_health-IsMap : (m out : Dict Health) → IsMap out → IsMap (copy_health m out)
unfolding copy_health
copy_health-IsMap [] out h = h
copy_health-IsMap ((k, v) ∷ m) out h = copy_health-IsMap m (put out k v) (put-IsMap out k v h)

term-merge_loop :
    (now : ℕ) (sender : String) (m : Dict Health) (n : Node)
    → (merge_loop now sender m n).term ≡ n.term
unfolding merge_loop merge_entry
term-merge_loop now sender [] n = refl
term-merge_loop now sender ((k, h) ∷ m) n =
    term-merge_loop now sender m (merge_entry now sender k h n) ∙ ground arith

-- A message that bears the node's own identity changes nothing at all; after any other message,
-- also one that is too old to be merged, the node's term is the larger of its own and the
-- message's.
pub term-merge_gossip :
    (now : ℕ) (msg : GossipMessage) (n : Node)
    → ((msg.node_id ≢ n.node_id) ⊎ (merge_gossip now msg n ≡ n))
      × ((merge_gossip now msg n).term ≡ (
          if str_eq msg.node_id n.node_id
          then n.term
          else if ltb n.term msg.term
          then msg.term
          else n.term))
unfolding merge_gossip raise_term
term-merge_gossip now msg n =
    let heard : Node = note_config_hash msg.config_hash (mark_peer_seen now msg.node_id n) in
    (
      elim (Bool-cases (str_eq msg.node_id n.node_id)) [
        | inl self ↦ inr (rw (self, merge_gossip) refl)
        | inr other ↦ inl (λ e. cc (other, (eq_iff msg.node_id n.node_id).1 e))
      ],
      ground (
        arith,
        heard_term now msg n,
        term-merge_loop now msg.node_id msg.health (raise_term msg.term heard),
      ),
    )

-- What a node sends of a backend right after it has recorded a probe result.
sent-finding :
    (a : Node) (b : String) (healthy : Bool)
    → IsMap a.own
    → a.term + 2 < 2 ^ 64
    → (h : Health) × (get (send_gossip (set_health b healthy a)).1.health b ≡ some h)
      × (h.healthy ≡ healthy)
      × (h.term ≡ a.term + 1)
unfolding send_gossip set_health increment_term local_finding own_health
sent-finding a b healthy m small =
    let h : Health = local_finding (increment_term a) b healthy in
    let at : get (put a.own b h) b ≡ some h = get-put a.own b h b ∙ rw (eq_refl b) refl in
    (
      h,
      get-copy_health (put a.own b h) [] b (put-IsMap a.own b h m) ∙ rw at refl,
      refl,
      omega arith,
    )

get_health-merged :
    (now : ℕ) (b : String) (local : Bool) (n : Node) {h : Health}
    → get n.health b ≡ some h
    → get n.remote_at b ≡ some now
    → get_health now b local n ≡ h.healthy
unfolding get_health is_stale
get_health-merged now b local n e r = rw (e, get_health) (rw (r, is_stale) (ground arith))

sent-term :
    (a : Node) (b : String) (healthy : Bool)
    → a.term + 2 < 2 ^ 64
    → (send_gossip (set_health b healthy a)).1.term ≡ a.term + 2
unfolding send_gossip set_health increment_term
sent-term a b healthy small = omega arith

sent-id :
    (a : Node) (b : String) (healthy : Bool)
    → (send_gossip (set_health b healthy a)).1.node_id ≡ a.node_id
unfolding send_gossip set_health increment_term
sent-id a b healthy = refl

sent-IsMap : (n : Node) → IsMap (send_gossip n).1.health
unfolding send_gossip own_health increment_term
sent-IsMap n = copy_health-IsMap n.own [] tt

newer-wins :
    (h : Health) (t : ℕ) (o : Option Health)
    → h.term ≡ t + 1
    → ((held : Health) → o ≡ some held → held.term ≤ t)
    → (newer (some h) o ≡ some h)
      × ((now : ℕ) (mine : Bool) (at : Option ℕ) → reasserted now mine (some h) o at ≡ some now)
newer-wins h t none e older = (refl, λ now mine at. refl)
newer-wins h t (some held) e older =
    let below : ltb held.term h.term ≡ true = ground (arith, older held refl) in
    (rw below refl, λ now mine at. rw below refl)

-- A probe result that a node gossips at once is what a peer's GetHealth answers for the backend as
-- soon as the message is merged, whatever local result it is asked with, provided the two nodes have
-- different ids, the sender's term is at least two steps from the end of 64 bits, the peer's term is
-- not ahead of the message and what it holds on the backend, if anything, carries a term that the
-- sender had reached.
pub finding_reaches_peer :
    (now : ℕ) (a p : Node) (b : String) (healthy local : Bool)
    → IsMap a.own
    → a.term + 2 < 2 ^ 64
    → str_eq a.node_id p.node_id ≡ false
    → p.term ≤ a.term + 2
    → ((held : Health) → get p.health b ≡ some held → held.term ≤ a.term)
    → get_health now b local (merge_gossip now (send_gossip (set_health b healthy a)).1 p) ≡ healthy
finding_reaches_peer now a p b healthy local m small other current older =
    let msg : GossipMessage = (send_gossip (set_health b healthy a)).1 in
    let (h, sent, says, stamped) = sent-finding a b healthy m small in
    let (wins, stamps) = newer-wins h a.term (get p.health b) stamped older in
    let merged : MergedAt now msg.node_id b (some h) p (merge_gossip now msg p) =
      subst (λ r. MergedAt now msg.node_id b r p (merge_gossip now msg p)) sent
        (merge_gossip-entry now msg p b (rw (sent-id a b healthy) other)
          (omega (arith, sent-term a b healthy small)) (sent-IsMap (set_health b healthy a))) in
    get_health-merged now b local (merge_gossip now msg p) {h = h} (merged.0 ∙ wins)
      (merged.2 ∙ stamps now _ _)
    ∙ says

remote-expire :
    (k b : String) (n : Node)
    → str_eq k b ≡ false
    → get (expire k n).remote_at b ≡ get n.remote_at b
unfolding expire
remote-expire k b n h = get-remove n.remote_at k b ∙ rw h refl

stale-expire :
    (now : ℕ) (k b : String) (n : Node)
    → str_eq k b ≡ false
    → is_stale now (expire k n) b ≡ is_stale now n b
unfolding is_stale
stale-expire now k b n h = rw (remote-expire k b n h, is_stale) (unfold expire in refl)

expire_loop-absent :
    (now : ℕ) (b : String) (m : Dict ℕ) (n : Node)
    → get m b ≡ none
    → get (expire_loop now m n).health b ≡ get n.health b
unfolding expire_loop get
expire_loop-absent now b [] n e = refl
expire_loop-absent now b ((k, at) ∷ m) n e = elim (Bool-cases (str_eq k b)) [
  | inl same ↦ cc (rw same at e)
  | inr other ↦ elim (Bool-cases (is_stale now n k)) [
    | inl old ↦
        rw (old, expire_loop)
          (expire_loop-absent now b m (expire k n) (rw other at e)
            ∙ get-expire k b n
            ∙ rw other refl)
    | inr current ↦ rw (current, expire_loop) (expire_loop-absent now b m n (rw other at e))
  ]
]

own-expire : (k : String) (n : Node) → (expire k n).own ≡ n.own
unfolding expire
own-expire k n = refl

get-expire_loop :
    (now : ℕ) (b : String) (m : Dict ℕ) (n : Node) {seen : ℕ}
    → IsMap m
    → get m b ≡ some seen
    → get (expire_loop now m n).health b
      ≡ (if is_stale now n b then get n.own b else get n.health b)
unfolding expire_loop get
get-expire_loop now b [] n h e = cc
get-expire_loop now b ((k, at) ∷ m) n {seen} h e = elim (Bool-cases (str_eq k b)) [
  | inl same ↦
      let p : k ≡ b = (eq_iff k b).0 same in
      let gone : get m b ≡ none = subst (λ z. get m z ≡ none) p h.0 in
      elim (Bool-cases (is_stale now n k)) [
        | inl old ↦
            rw (old, expire_loop)
              (expire_loop-absent now b m (expire k n) gone
                ∙ get-expire k b n
                ∙ rw same (rw (subst (λ z. is_stale now n z ≡ true) p old) refl))
        | inr current ↦
            rw (current, expire_loop)
              (expire_loop-absent now b m n gone
                ∙ rw (subst (λ z. is_stale now n z ≡ false) p current) refl)
      ]
  | inr other ↦ elim (Bool-cases (is_stale now n k)) [
    | inl old ↦
        rw (old, expire_loop)
          (get-expire_loop now b m (expire k n) {seen = seen} h.1 (rw other at e)
            ∙ rw (stale-expire now k b n other) (
                ap₂ (λ m o. if is_stale now n b then get m b else o) (own-expire k n)
                  (get-expire k b n ∙ rw other refl)))
    | inr current ↦
        rw (current, expire_loop) (get-expire_loop now b m n {seen = seen} h.1 (rw other at e))
  ]
]

-- When the findings of silent peers are dropped, a backend whose finding came from a peer falls
-- back to the node's own finding, or to none, if the peer has been silent for longer than the
-- window, and keeps the peer's finding otherwise.
pub get-expire_remote :
    (now : ℕ) (b : String) (n : Node) {seen : ℕ}
    → IsMap n.remote_at
    → get n.remote_at b ≡ some seen
    → get (expire_remote now n).health b
      ≡ (if ltb n.stale_after (now - seen) then get n.own b else get n.health b)
unfolding expire_remote
get-expire_remote now b n {seen} h e =
    get-expire_loop now b n.remote_at n {seen = seen} h e
    ∙ (unfold is_stale in rw (e, is_stale) refl)
