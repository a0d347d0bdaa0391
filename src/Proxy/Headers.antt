-- ===== src/Proxy/Headers.antt =====
-- internal/proxy/handler.go: stripHopByHop. A header map has a list of values for each key. Two
-- parameters stand for the library: `canonical` for the form that net/textproto gives a key, and
-- `names` for what strings.Split at commas and strings.TrimSpace make of a value.
use haribon.Prelude.{
  ◌≡◌, refl, String, Bool, false, ◌||◌, none, some, List, [], ◌∷◌, ◌++◌, str_eq, arith,
  if◌then◌else◌,
}
use haribon.Prelude.Dict.{Dict, get, remove, get-remove}

abbrev pub hop_by_hop_headers : List String
hop_by_hop_headers =
    "Connection" ∷ "Keep-Alive" ∷ "Proxy-Authenticate" ∷ "Proxy-Authorization" ∷ "Proxy-Connection"
    ∷ "Te" ∷ "Trailer" ∷ "Transfer-Encoding" ∷ "Upgrade" ∷ []

module _ (canonical : String → String) (names : String → List String) where
  -- h.Del(name) for each name
  unfoldable pub delete_all : List String → Dict (List String) → Dict (List String)
  delete_all [] h = h
  delete_all (name ∷ rest) h = delete_all rest (remove h (canonical name))

  -- the names in the values of Connection
  unfoldable pub connection_names : List String → List String
  connection_names [] = []
  connection_names (v ∷ vs) = names v ++ connection_names vs

  unfoldable pub strip_hop_by_hop : Dict (List String) → Dict (List String)
  unfolding delete_all connection_names
  strip_hop_by_hop h =
      delete_all hop_by_hop_headers
        (delete_all (elim (get h "Connection") [ none ↦ [] | some vs ↦ connection_names vs ]) h)

  -- The key is the canonical form of one of the names.
  abbrev pub named : List String → String → Bool
  named [] k = false
  named (name ∷ rest) k = str_eq (canonical name) k || named rest k

  get-delete_all :
      (ns : List String) (h : Dict (List String)) (k : String)
      → get (delete_all ns h) k ≡ (if named ns k then none else get h k)
  unfolding delete_all
  get-delete_all [] h k = refl
  get-delete_all (n ∷ ns) h k =
      ground (arith, get-delete_all ns (remove h (canonical n)) k, get-remove h (canonical n) k)

  -- Stripping removes exactly the fields of the fixed list and those that the request's Connection
  -- field names; every other field keeps its values.
  pub get-strip_hop_by_hop :
      (h : Dict (List String)) (k : String)
      → get (strip_hop_by_hop h) k ≡ (
          if named hop_by_hop_headers k
            || named (elim (get h "Connection") [ none ↦ [] | some vs ↦ connection_names vs ]) k
          then none
          else get h k)
  unfolding strip_hop_by_hop
  get-strip_hop_by_hop h k =
      let own : List String = elim (get h "Connection") [
        | none ↦ []
        | some vs ↦ connection_names vs
      ] in
      ground (arith, get-delete_all hop_by_hop_headers (delete_all own h) k, get-delete_all own h k)
