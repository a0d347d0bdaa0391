-- ===== src/Cluster/Defs.antt =====
-- internal/cluster/cluster.go: a node's state and its operations. Times are readings of the
-- monotonic clock in nanoseconds, with `now` for `time.Now()` at the call; the locks make each
-- operation one step. The sockets, the JSON coding and the log lines are not modelled: a message is
-- handed over as a record.
use haribon.Prelude.{
  ℕ, zero, ◌+◌, ◌-◌, ◌*◌, ◌%◌, ◌^◌, String, Bool, true, false, not, ◌&&◌, none, some, [], ◌∷◌,
  str_eq, ltb, leb, ℤ, pos, negsuc, inc_int64, if◌then◌else◌,
}
use haribon.Prelude.Dict.{Dict, get, put, remove}

-- type Health struct
pub record Health : Type 0 where
  pub healthy : Bool
  pub failures : ℤ
  pub term : ℕ

-- type GossipMessage struct, less the protocol version and the sender's address, which no receiver
-- reads
pub record GossipMessage : Type 0 where
  pub node_id : String
  pub term : ℕ
  pub config_hash : String
  pub health : Dict Health

-- type Node struct, less the addresses, the socket, the locks and the channels
pub record Node : Type 0 where
  pub node_id : String
  pub gossip_sec : ℤ
  pub health : Dict Health
  pub own : Dict Health
  pub origin : Dict String
  pub remote_at : Dict ℕ
  pub stale_after : ℕ
  pub term : ℕ
  pub seen : Dict ℕ
  pub config_hash : String
  pub mismatches : ℤ

abbrev pub second : ℕ
second = 1000000000

-- `if gossipSec <= 0 { gossipSec = 5 }`
unfoldable pub gossip_or_default : ℤ → ℕ
gossip_or_default (pos zero) = 5
gossip_or_default (pos n) = n
gossip_or_default (negsuc n) = 5

-- The product as a 64-bit Duration, and at least 15 seconds; a product that has wrapped to a
-- negative number is below that.
unfoldable pub stale_window : ℕ → ℕ
stale_window gossip_sec =
    let stale = (gossip_sec * 3 * second) % 2 ^ 64 in
    if ltb stale (2 ^ 63) && leb (15 * second) stale then stale else 15 * second

unfoldable pub new_node : String → ℤ → Node
unfolding gossip_or_default stale_window
new_node node_id gossip_sec = record {
  node_id = node_id;
  gossip_sec = pos (gossip_or_default gossip_sec);
  health = [];
  own = [];
  origin = [];
  remote_at = [];
  stale_after = stale_window (gossip_or_default gossip_sec);
  term = 0;
  seen = [];
  config_hash = "";
  mismatches = pos 0;
}

-- func (n *Node) IncrementTerm
unfoldable pub increment_term : Node → Node
increment_term n = record n { term = (n.term + 1) % 2 ^ 64 }

-- n.Health[backend], the zero value where the key is missing
unfoldable pub health_or_zero : Dict Health → String → Health
health_or_zero m backend = elim (get m backend) [
  | none ↦ record { healthy = false; failures = pos 0; term = 0 }
  | some h ↦ h
]

unfoldable pub local_finding : Node → String → Bool → Health
unfolding health_or_zero
local_finding n backend healthy = record {
  healthy = healthy;
  failures = if healthy then pos 0 else inc_int64 (health_or_zero n.health backend).failures;
  term = n.term;
}

-- func (n *Node) SetHealth
unfoldable pub set_health : String → Bool → Node → Node
unfolding increment_term local_finding
set_health backend healthy n =
    let n' = increment_term n in
    let h = local_finding n' backend healthy in
    record n' {
      health = put n'.health backend h;
      own = put n'.own backend h;
      origin = put n'.origin backend "";
      remote_at = remove n'.remote_at backend;
    }

-- func (n *Node) isStale
unfoldable pub is_stale : ℕ → Node → String → Bool
is_stale now n backend = elim (get n.remote_at backend) [
  | none ↦ false
  | some seen ↦ ltb n.stale_after (now - seen)
]

-- func (n *Node) GetHealth
unfoldable pub get_health : ℕ → String → Bool → Node → Bool
unfolding is_stale
get_health now backend local_healthy n = elim (get n.health backend) [
  | none ↦ local_healthy
  | some h ↦ if is_stale now n backend then local_healthy else h.healthy
]

-- the loop of GetMergedHealth
unfoldable pub merged_health_loop : ℕ → Node → Dict Health → Dict Health → Dict Health
unfolding is_stale
merged_health_loop now n [] out = out
merged_health_loop now n ((k, v) ∷ rest) out =
    merged_health_loop now n rest (if is_stale now n k then out else put out k v)

unfoldable pub get_merged_health : ℕ → Node → Dict Health
unfolding merged_health_loop
get_merged_health now n = merged_health_loop now n n.health []

-- the loop of ownHealth
unfoldable pub copy_health : Dict Health → Dict Health → Dict Health
copy_health [] out = out
copy_health ((k, v) ∷ rest) out = copy_health rest (put out k v)

unfoldable pub own_health : Node → Dict Health
unfolding copy_health
own_health n = copy_health n.own []

-- One pass of expireRemote for a stale backend.
unfoldable pub expire : String → Node → Node
expire backend n = record n {
  remote_at = remove n.remote_at backend;
  origin = remove n.origin backend;
  health = elim (get n.own backend) [
    | none ↦ remove n.health backend
    | some h ↦ put n.health backend h
  ];
}

-- the loop of expireRemote, over the entries that remoteAt has at its start
unfoldable pub expire_loop : ℕ → Dict ℕ → Node → Node
unfolding is_stale expire
expire_loop now [] n = n
expire_loop now ((backend, at) ∷ rest) n =
    expire_loop now rest (if is_stale now n backend then expire backend n else n)

unfoldable pub expire_remote : ℕ → Node → Node
unfolding expire_loop
expire_remote now n = expire_loop now n.remote_at n

-- the loop of LivePeerCount
unfoldable pub count_live : ℕ → ℕ → Dict ℕ → ℕ
count_live now stale_after [] = 0
count_live now stale_after ((id, at) ∷ rest) =
    (if leb (now - at) stale_after then 1 else 0) + count_live now stale_after rest

unfoldable pub live_peer_count : ℕ → Node → ℕ
unfolding count_live
live_peer_count now n = count_live now n.stale_after n.seen

-- func (n *Node) markPeerSeen
unfoldable pub mark_peer_seen : ℕ → String → Node → Node
mark_peer_seen now node_id n =
    if str_eq node_id "" then n else record n { seen = put n.seen node_id now }

-- func (n *Node) sendGossip: the state that it leaves, and the message that every peer is sent
unfoldable pub send_gossip : Node → Node × GossipMessage
unfolding increment_term own_health
send_gossip n =
    let n' = increment_term n in
    (
      n',
      record {
        node_id = n'.node_id;
        term = n'.term;
        config_hash = n'.config_hash;
        health = own_health n';
      },
    )

-- one round of gossipLoop
unfoldable pub gossip_round : ℕ → Node → Node × GossipMessage
unfolding expire_remote send_gossip
gossip_round now n = send_gossip (expire_remote now n)

-- The config-drift check of MergeGossip.
unfoldable pub note_config_hash : String → Node → Node
note_config_hash hash n =
    if not (str_eq hash "") && (not (str_eq n.config_hash "") && not (str_eq n.config_hash hash))
    then record n { mismatches = inc_int64 n.mismatches }
    else n

-- `n.Health[backend] = h`, with its origin and time
unfoldable pub adopt : ℕ → String → String → Health → Node → Node
adopt now sender backend h n = record n {
  health = put n.health backend h;
  origin = put n.origin backend sender;
  remote_at = put n.remote_at backend now;
}

-- n.origin[backend] == msg.NodeID; a missing origin reads as ""
unfoldable pub is_from : String → Dict String → String → Bool
is_from sender origin backend = elim (get origin backend) [
  | none ↦ str_eq "" sender
  | some id ↦ str_eq id sender
]

-- the switch in the loop of MergeGossip
unfoldable pub merge_entry : ℕ → String → String → Health → Node → Node
unfolding adopt is_from
merge_entry now sender backend h n =
    if (elim (get n.health backend) [ none ↦ true | some existing ↦ ltb existing.term h.term ])
    then adopt now sender backend h n
    else if is_from sender n.origin backend
    then record n { remote_at = put n.remote_at backend now }
    else n

-- the loop of MergeGossip, over the message's map
unfoldable pub merge_loop : ℕ → String → Dict Health → Node → Node
unfolding merge_entry
merge_loop now sender [] n = n
merge_loop now sender ((backend, h) ∷ rest) n =
    merge_loop now sender rest (merge_entry now sender backend h n)

unfoldable pub raise_term : ℕ → Node → Node
raise_term term n = if ltb n.term term then record n { term = term } else n

-- func (n *Node) MergeGossip
unfoldable pub merge_gossip : ℕ → GossipMessage → Node → Node
unfolding mark_peer_seen note_config_hash raise_term merge_loop
merge_gossip now msg n =
    if str_eq msg.node_id n.node_id
    then n
    else (let heard = note_config_hash msg.config_hash (mark_peer_seen now msg.node_id n) in
        if ltb msg.term heard.term
        then heard
        else merge_loop now msg.node_id msg.health (raise_term msg.term heard))
