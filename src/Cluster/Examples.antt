-- ===== src/Cluster/Examples.antt =====
-- The theorems about the cluster at concrete nodes and messages.
use haribon.Prelude.{◌≡◌, refl, true, false, none, some, List, [], ◌∷◌, pos, arith}
use haribon.Prelude.Dict.{get}
use haribon.Cluster.Defs.{
  Health, GossipMessage, Node, new_node, set_health, merge_gossip, send_gossip, get_health,
}
use haribon.Cluster.Entries.{MergedAt, merge_gossip-entry}
use haribon.Cluster.Consistency.{
  probe_result, receive, round, run, IsConsistent, run-IsConsistent, Event,
}
use haribon.Cluster.Spread.{finding_reaches_peer}
use haribon.Prelude.{
  ℕ, ◌<◌, ◌≤◌, zero, suc, ◌==◌, leb, length, take, replicate, length-replicate, Option,
  if◌then◌else◌,
}
use haribon.Cluster.Transport.{datagram, listen_loop, buffer_size, listen_loop-datagram}

abbrev finding : Health
finding = record { healthy = false; failures = pos 1; term = 7 }

abbrev message : GossipMessage
message = record { node_id = "n2"; term = 8; config_hash = ""; health = ("http://a", finding) ∷ [] }

abbrev told : Node
told = record {
  node_id = "n1";
  gossip_sec = pos 5;
  health = ("http://a", finding) ∷ [];
  own = [];
  origin = ("http://a", "n2") ∷ [];
  remote_at = ("http://a", 10) ∷ [];
  stale_after = 15000000000;
  term = 3;
  seen = [];
  config_hash = "";
  mismatches = pos 0;
}

abbrev sender : Node
sender = record told { node_id = "n2"; health = []; origin = []; remote_at = []; term = 6 }

abbrev events : List Event
events = receive 5 message ∷ probe_result "http://b" true ∷ round 9 ∷ []

merge_gossip-entry_example :
    MergedAt 20 "n2" "http://a" (some finding) told (merge_gossip 20 message told)
unfolding get
merge_gossip-entry_example =
    merge_gossip-entry 20 message told "http://a" refl (omega arith) (refl, tt)

run-IsConsistent_example : IsConsistent (run (new_node "n1" (pos 5)) events)
run-IsConsistent_example = run-IsConsistent "n1" (pos 5) events

finding_reaches_peer_example :
    get_health 20 "http://b" true
      (merge_gossip 20 (send_gossip (set_health "http://b" false sender)).1 told)
    ≡ false
unfolding get
finding_reaches_peer_example =
    finding_reaches_peer 20 sender told "http://b" false true tt (omega arith) refl (omega arith)
      (λ held e. cc)

-- A message of 4097 bytes.
abbrev large : List ℕ
large = replicate 4097 0

abbrev decode : List ℕ → Option GossipMessage
decode bytes = if length bytes == 4097 then some message else none

large_is_read : decode large ≡ some message
large_is_read = ground (arith, length-replicate {A = ℕ} 4097 0)

length-take_some : (k : ℕ) (xs : List ℕ) → k ≤ length xs → length (take k xs) ≡ k
length-take_some zero xs h = refl
length-take_some (suc k) [] h = absurd (omega arith)
length-take_some (suc k) (x ∷ xs) h = omega (arith, length-take_some k xs (omega arith))

no_prefix : (k : ℕ) → k < length large → decode (take k large) ≡ none
no_prefix k h =
    ground (arith, length-take_some k large (omega arith), length-replicate {A = ℕ} 4097 0)

listen_loop-datagram_example : listen_loop decode (datagram 5 large ∷ []) told ≡ (
    if leb (length large) buffer_size
    then listen_loop decode [] (merge_gossip 5 message told)
    else listen_loop decode [] told)
listen_loop-datagram_example =
    listen_loop-datagram decode large message 5 [] told large_is_read no_prefix
