-- ===== src/Cluster/Entries.antt =====
-- What merging a message does to the finding for one backend.
use haribon.Prelude.{
  ℕ, ◌≤◌, ◌≡◌, refl, sym, ap, ap₂, subst, ◌∙◌, String, Bool, false, Option, none, some, [], ◌∷◌,
  str_eq, ltb, if◌then◌else◌, arith, eq_iff, Bool-cases, inl, inr,
}
use haribon.Prelude.Dict.{Dict, get, get-put, IsMap}
use haribon.Cluster.Defs.{
  Health, GossipMessage, Node, is_from, merge_entry, merge_loop, merge_gossip, raise_term,
  note_config_hash, mark_peer_seen,
}

-- The finding that is held after a report: the report where nothing was known or what was known
-- carries a lower term, and otherwise what was known.
abbrev pub newer : Option Health → Option Health → Option Health
newer none held = held
newer (some h) none = some h
newer (some h) (some existing) = if ltb existing.term h.term then some h else some existing

-- The finding that is held is the sender's: it is recorded as the origin, or it has the empty name and
-- no origin is recorded.
abbrev pub was_sent_by : String → Option String → Bool
was_sent_by sender none = str_eq "" sender
was_sent_by sender (some id) = str_eq id sender

-- Who the held finding comes from after a report: the sender if the report was adopted, and otherwise
-- the one that it came from before.
abbrev pub attributed : String → Option Health → Option Health → Option String → Option String
attributed sender none held from = from
attributed sender (some h) none from = some sender
attributed sender (some h) (some existing) from =
    if ltb existing.term h.term then some sender else from

-- When the held finding was last asserted by a peer: now if the report was adopted, or if the held
-- one is the sender's own.
abbrev pub reasserted : ℕ → Bool → Option Health → Option Health → Option ℕ → Option ℕ
reasserted now mine none held at = at
reasserted now mine (some h) none at = some now
reasserted now mine (some h) (some existing) at =
    if ltb existing.term h.term then some now else if mine then some now else at

-- The three maps at one backend.
record SameAt (n m : Node) (b : String) : Type 0 where
  health : get n.health b ≡ get m.health b
  origin : get n.origin b ≡ get m.origin b
  remote : get n.remote_at b ≡ get m.remote_at b

merge_entry_other :
    (now : ℕ) (sender k b : String) (h : Health) (n : Node)
    → str_eq k b ≡ false
    → SameAt (merge_entry now sender k h n) n b
unfolding merge_entry
merge_entry_other now sender k b h n other = record {
  health = ground (arith, get-put n.health k h b);
  origin = ground (arith, get-put n.origin k sender b);
  remote = ground (arith, get-put n.remote_at k now b);
}

is_from-was_sent_by :
    (sender b : String) (origin : Dict String)
    → is_from sender origin b ≡ was_sent_by sender (get origin b)
unfolding is_from
is_from-was_sent_by sender b origin = go (get origin b) refl
  where
    go :
        (o : Option String)
        → get origin b ≡ o
        → is_from sender origin b ≡ was_sent_by sender (get origin b)
    go none e = rw (e, is_from) refl
    go (some id) e = rw (e, is_from) refl

-- The finding for `b`, where it comes from and its time, after the report `r` from the sender.
abbrev pub MergedAt : ℕ → String → String → Option Health → Node → Node → Type 0
MergedAt now sender b r n n' =
    (get n'.health b ≡ newer r (get n.health b))
    × (get n'.origin b ≡ attributed sender r (get n.health b) (get n.origin b))
    × (get n'.remote_at b
        ≡ reasserted now (was_sent_by sender (get n.origin b)) r (get n.health b)
            (get n.remote_at b))

merge_entry_self :
    (now : ℕ) (sender b : String) (h : Health) (n : Node)
    → MergedAt now sender b (some h) n (merge_entry now sender b h n)
unfolding merge_entry
merge_entry_self now sender b h n = (
  ground (arith, get-put n.health b h b, eq_iff b b),
  ground (arith, get-put n.origin b sender b, eq_iff b b),
  ground (arith, get-put n.remote_at b now b, eq_iff b b, is_from-was_sent_by sender b n.origin),
)

merge_loop-absent :
    (now : ℕ) (sender b : String) (m : Dict Health) (n : Node)
    → get m b ≡ none
    → SameAt (merge_loop now sender m n) n b
unfolding merge_loop get
merge_loop-absent now sender b [] n e = record { health = refl; origin = refl; remote = refl }
merge_loop-absent now sender b ((k, h) ∷ m) n e = elim (Bool-cases (str_eq k b)) [
  | inl same ↦ cc (rw same at e)
  | inr other ↦
      let rest = merge_loop-absent now sender b m (merge_entry now sender k h n) (rw other at e) in
      let first = merge_entry_other now sender k b h n other in
      record {
        health = rest.health ∙ first.health;
        origin = rest.origin ∙ first.origin;
        remote = rest.remote ∙ first.remote;
      }
]

MergedAt-after :
    (now : ℕ) (sender b : String) (r : Option Health) (n m n' : Node)
    → SameAt m n b
    → MergedAt now sender b r m n'
    → MergedAt now sender b r n n'
MergedAt-after now sender b r n m n' same (eh, eo, er) = (
  eh ∙ ap (newer r) same.health,
  eo ∙ ap₂ (λ held from. attributed sender r held from) same.health same.origin,
  er
      ∙ ap₂ (λ from held. reasserted now (was_sent_by sender from) r held (get m.remote_at b))
          same.origin same.health
      ∙ ap (reasserted now (was_sent_by sender (get n.origin b)) r (get n.health b)) same.remote,
)

merge_loop-at :
    (now : ℕ) (sender b : String) (m : Dict Health) (n : Node)
    → IsMap m
    → MergedAt now sender b (get m b) n (merge_loop now sender m n)
unfolding merge_loop get
merge_loop-at now sender b [] n h = (refl, refl, refl)
merge_loop-at now sender b ((k, x) ∷ m) n h = elim (Bool-cases (str_eq k b)) [
  | inl same ↦
      let e : k ≡ b = (eq_iff k b).0 same in
      let rest =
        merge_loop-absent now sender b m (merge_entry now sender k x n)
          (subst (λ z. get m z ≡ none) e h.0) in
      let first : MergedAt now sender b (some x) n (merge_entry now sender k x n) =
        subst (λ z. MergedAt now sender b (some x) n (merge_entry now sender z x n)) (sym e)
          (merge_entry_self now sender b x n) in
      rw same (rest.health ∙ first.0, rest.origin ∙ first.1, rest.remote ∙ first.2)
  | inr other ↦ rw other (
      MergedAt-after now sender b (get m b) n (merge_entry now sender k x n)
        (merge_loop now sender m (merge_entry now sender k x n))
        (merge_entry_other now sender k b x n other)
        (merge_loop-at now sender b m (merge_entry now sender k x n) h.1))
]

-- The bookkeeping before the loop leaves the maps alone.
prepared :
    (now : ℕ) (msg : GossipMessage) (n : Node) (b : String)
    → SameAt
        (raise_term msg.term (note_config_hash msg.config_hash (mark_peer_seen now msg.node_id n)))
        n
        b
unfolding raise_term note_config_hash mark_peer_seen
prepared now msg n b = record {
  health = ground arith;
  origin = ground arith;
  remote = ground arith;
}

pub heard_term :
    (now : ℕ) (msg : GossipMessage) (n : Node)
    → (note_config_hash msg.config_hash (mark_peer_seen now msg.node_id n)).term ≡ n.term
unfolding note_config_hash mark_peer_seen
heard_term now msg n = ground arith

pub merge_gossip-current :
    (now : ℕ) (msg : GossipMessage) (n : Node)
    → str_eq msg.node_id n.node_id ≡ false
    → n.term ≤ msg.term
    → merge_gossip now msg n
      ≡ merge_loop now msg.node_id msg.health (
          raise_term msg.term (note_config_hash msg.config_hash (mark_peer_seen now msg.node_id n)))
unfolding merge_gossip
merge_gossip-current now msg n other current =
    let heard : Node = note_config_hash msg.config_hash (mark_peer_seen now msg.node_id n) in
    let fresh : ltb msg.term heard.term ≡ false = ground (arith, heard_term now msg n) in
    rw (other, merge_gossip) (rw fresh)

-- A message from another node whose term is not behind leaves, for each backend, the newer of the
-- report and of what was held, by the entries' own terms, and the held finding where the message
-- does not mention the backend. The finding is put down to the sender where the report was adopted,
-- and to whom it was put down before otherwise. It counts as asserted now if the report was adopted,
-- or if the sender reports a backend whose held finding is put down to him, and keeps its time
-- otherwise.
pub merge_gossip-entry :
    (now : ℕ) (msg : GossipMessage) (n : Node) (b : String)
    → str_eq msg.node_id n.node_id ≡ false
    → n.term ≤ msg.term
    → IsMap msg.health
    → MergedAt now msg.node_id b (get msg.health b) n (merge_gossip now msg n)
unfolding merge_gossip
merge_gossip-entry now msg n b other current h =
    let ready : Node =
      raise_term msg.term (note_config_hash msg.config_hash (mark_peer_seen now msg.node_id n)) in
    subst (λ n'. MergedAt now msg.node_id b (get msg.health b) n n')
      (sym (merge_gossip-current now msg n other current))
      (MergedAt-after now msg.node_id b (get msg.health b) n ready
        (merge_loop now msg.node_id msg.health ready) (prepared now msg n b)
        (merge_loop-at now msg.node_id b msg.health ready h))
