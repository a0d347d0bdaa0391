-- ===== src/Cluster/Transport.antt =====
-- internal/cluster/cluster.go: the loop that reads datagrams, and the resolution of peers. `decode`
-- stands for json.Unmarshal into a GossipMessage, `resolve` for net.ResolveUDPAddr; ReadFrom gives
-- what of a datagram fits into the buffer, and the rest of it is lost.
use haribon.Prelude.{
  ℕ, ◌≡◌, ◌<◌, refl, String, Option, none, some, List, [], ◌∷◌, length, take, leb, arith,
  if◌then◌else◌, Bool-cases, inl, inr, leb→le, take-length, ◌∙◌, ap,
}
use haribon.Cluster.Defs.{Node, GossipMessage, merge_gossip}

abbrev pub buffer_size : ℕ
buffer_size = 4096

-- What ReadFrom comes to: a datagram at a time, the deadline, or another error.
pub data Arrival : Type 0 where
  datagram : ℕ → List ℕ → Arrival
  timed_out closed : Arrival

pub record Peer : Type 0 where
  pub id : String
  pub addr : String

-- shortHash of a text as its bytes
unfoldable pub short_hash : List ℕ → List ℕ
short_hash h = if leb (length h) 12 then h else take 12 h

-- func Discover
unfoldable pub discover_peers : (String → Option String) → List String → Option (List Peer)
discover_peers resolve [] = some []
discover_peers resolve (p ∷ ps) = elim (resolve p) [
  | none ↦ none
  | some addr ↦ elim (discover_peers resolve ps) [
    | none ↦ none
    | some rest ↦ some (record { id = p; addr = addr } ∷ rest)
  ]
]

module _ (decode : List ℕ → Option GossipMessage) where
  -- the body of the loop after ReadFrom
  unfoldable pub read_datagram : ℕ → List ℕ → Node → Node
  unfolding merge_gossip
  read_datagram now bytes n = elim (decode (take buffer_size bytes)) [
    | none ↦ n
    | some msg ↦ merge_gossip now msg n
  ]

  -- func (n *Node) listenLoop
  unfoldable pub listen_loop : List Arrival → Node → Node
  unfolding read_datagram
  listen_loop [] n = n
  listen_loop (timed_out ∷ arrivals) n = listen_loop arrivals n
  listen_loop (closed ∷ arrivals) n = n
  listen_loop (datagram now bytes ∷ arrivals) n = listen_loop arrivals (read_datagram now bytes n)

  -- A datagram with a message of at most 4096 bytes is merged, and one with a message of more bytes
  -- changes nothing, if no proper prefix of the bytes is a message; the loop goes on in both cases.
  pub listen_loop-datagram :
      (bytes : List ℕ) (msg : GossipMessage) (now : ℕ) (arrivals : List Arrival) (n : Node)
      → decode bytes ≡ some msg
      → ((k : ℕ) → k < length bytes → decode (take k bytes) ≡ none)
      → listen_loop (datagram now bytes ∷ arrivals) n ≡ (
          if leb (length bytes) 4096
          then listen_loop arrivals (merge_gossip now msg n)
          else listen_loop arrivals n)
  unfolding listen_loop
  listen_loop-datagram bytes msg now arrivals n whole cut =
      elim (Bool-cases (leb (length bytes) 4096)) [
        | inl fits ↦
            (let all : decode (take buffer_size bytes) ≡ some msg =
                ap decode (take-length buffer_size bytes (leb→le (length bytes) buffer_size fits))
                ∙ whole in
              rw (fits, all, read_datagram) refl)
        | inr over ↦ rw (over, cut buffer_size (ground arith), read_datagram) refl
      ]
