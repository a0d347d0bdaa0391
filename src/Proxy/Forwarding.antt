-- ===== src/Proxy/Forwarding.antt =====
-- internal/proxy/handler.go: the headers of the request that goes to the backend, and of the answer
-- that goes to the client. `canonical`, `names` and `itoa` stand for the library, as in Headers.
use Prim.Native.String.{◌++◌ as join}
use haribon.Prelude.{
  ℕ, ◌≡◌, refl, subst, ◌∙◌, String, Bool, ◌||◌, Option, none, some, List, [], ◌∷◌, ◌++◌, false,
  str_eq, eq_iff, arith, ltb, if◌then◌else◌, Bool-cases, inl, inr,
}
use haribon.Prelude.Dict.{Dict, get, put, remove, get-put, IsMap}
use haribon.Proxy.Headers.{strip_hop_by_hop, connection_names, named, get-strip_hop_by_hop}

-- the loop that copies a header map
unfoldable pub copy_headers : Dict (List String) → Dict (List String) → Dict (List String)
copy_headers [] into = into
copy_headers ((k, v) ∷ h) into = copy_headers h (put into k v)

-- h.Get, for a key in its canonical form
unfoldable pub first_value : Option (List String) → String
first_value none = ""
first_value (some []) = ""
first_value (some (v ∷ vs)) = v

unfoldable pub forwarded_for : String → String → String
forwarded_for prior client_ip =
    if str_eq prior "" then client_ip else join prior (join ", " client_ip)

-- net.SplitHostPort, with none for its error
unfoldable pub client_ip_of : (String → Option String) → String → String
client_ip_of split_host remote_addr = elim (split_host remote_addr) [
  | none ↦ remote_addr
  | some host ↦ host
]

module _ (canonical : String → String) (names : String → List String) where
  -- the headers of a request to a backend
  unfoldable pub request_headers : String → String → Dict (List String) → Dict (List String)
  unfolding copy_headers first_value forwarded_for strip_hop_by_hop
  request_headers client_ip proto h =
      let stripped = strip_hop_by_hop canonical names (copy_headers h []) in
      let prior = first_value (get stripped "X-Forwarded-For") in
      put (put stripped "X-Forwarded-For" (forwarded_for prior client_ip ∷ [])) "X-Forwarded-Proto"
        (proto ∷ [])

  -- the headers of a forwarded answer, before it is written
  unfoldable pub answer_headers : (ℕ → String) → ℕ → Dict (List String) → Dict (List String)
  unfolding copy_headers strip_hop_by_hop
  answer_headers itoa retries h =
      let kept = remove (strip_hop_by_hop canonical names h) "Content-Length" in
      let copied = copy_headers kept [] in
      if ltb 0 retries then put copied "X-Haribon-Retries" (itoa retries ∷ []) else copied

  get-copy_headers :
      (h into : Dict (List String)) (k : String)
      → IsMap h
      → get (copy_headers h into) k ≡ (elim (get h k) [ none ↦ get into k | some v ↦ some v ])
  unfolding copy_headers get
  get-copy_headers [] into k h = refl
  get-copy_headers ((j, v) ∷ m) into k h =
      get-copy_headers m (put into j v) k h.1 ∙ (elim (Bool-cases (str_eq j k)) [
        | inl same ↦
            (let missing : get m k ≡ none = subst (λ l. get m l ≡ none) ((eq_iff j k).0 same) h.0 in
              ground (arith, missing, get-put into j v k))
        | inr other ↦ ground (arith, get-put into j v k)
      ])

  copied : (h : Dict (List String)) (k : String) → IsMap h → get (copy_headers h []) k ≡ get h k
  unfolding get
  copied h k m = get-copy_headers h [] k m ∙ or_none (get h k)
    where
      or_none : (o : Option (List String)) → (elim o [ none ↦ none | some v ↦ some v ]) ≡ o
      or_none none = refl
      or_none (some v) = refl

  -- The fields that belong to one connection.
  abbrev pub per_connection : List String
  per_connection =
      "Connection" ∷ "Keep-Alive" ∷ "Proxy-Authenticate" ∷ "Proxy-Authorization"
      ∷ "Proxy-Connection" ∷ "Te" ∷ "Trailer" ∷ "Transfer-Encoding" ∷ "Upgrade" ∷ []

  -- One of the values of the Connection field names the key.
  abbrev pub names_key : List String → String → Bool
  names_key [] k = false
  names_key (v ∷ vs) k = named canonical names (names v) k || names_key vs k

  -- The keys that belong to one connection, or that the Connection field of a map names.
  abbrev pub stripped_key : Dict (List String) → String → Bool
  stripped_key h k =
      named canonical names per_connection k
      || (elim (get h "Connection") [ none ↦ false | some vs ↦ names_key vs k ])

  -- The value of a field of the client's request after stripping.
  abbrev pub kept_value : Dict (List String) → String → Option (List String)
  kept_value h k = if stripped_key h k then none else get h k

  -- The client's address, after the first value that is there already.
  abbrev pub chained : Option (List String) → String → String
  chained none client_ip = client_ip
  chained (some []) client_ip = client_ip
  chained (some (v ∷ vs)) client_ip =
      if str_eq v "" then client_ip else join v (join ", " client_ip)

  forwarded_for-chained :
      (o : Option (List String)) (client_ip : String)
      → forwarded_for (first_value o) client_ip ≡ chained o client_ip
  unfolding forwarded_for first_value
  forwarded_for-chained none client_ip = refl
  forwarded_for-chained (some []) client_ip = refl
  forwarded_for-chained (some (v ∷ vs)) client_ip = refl

  named-append :
      (ms ns : List String) (k : String)
      → named canonical names (ms ++ ns) k
        ≡ (named canonical names ms k || named canonical names ns k)
  named-append [] ns k = refl
  named-append (m ∷ ms) ns k = ground (arith, named-append ms ns k)

  named-connection_names :
      (vs : List String) (k : String)
      → named canonical names (connection_names canonical names vs) k ≡ names_key vs k
  unfolding connection_names
  named-connection_names [] k = refl
  named-connection_names (v ∷ vs) k =
      named-append (names v) (connection_names canonical names vs) k
      ∙ ground (arith, named-connection_names vs k)

  named-connection :
      (o : Option (List String)) (k : String)
      → named canonical names
          (elim o [ none ↦ [] | some vs ↦ connection_names canonical names vs ])
          k
        ≡ (elim o [ none ↦ false | some vs ↦ names_key vs k ])
  named-connection none k = refl
  named-connection (some vs) k = named-connection_names vs k

  stripped-copied :
      (h : Dict (List String)) (k : String)
      → IsMap h
      → get (strip_hop_by_hop canonical names (copy_headers h [])) k ≡ kept_value h k
  stripped-copied h k m =
      get-strip_hop_by_hop canonical names (copy_headers h []) k
      ∙ rw (copied h "Connection" m, copied h k m, named-connection (get h "Connection") k) refl

  -- A backend is sent the client's fields less those that belong to one connection and those that a
  -- value of Connection names, the protocol, and in X-Forwarded-For one value only: the client's
  -- address, after the first value of the field and a comma if there is such a value and it is not
  -- empty. What further X-Forwarded-For lines of the request said is lost.
  pub get-request_headers :
      (client_ip proto : String) (h : Dict (List String)) (k : String)
      → IsMap h
      → get (request_headers client_ip proto h) k ≡ (
          if str_eq "X-Forwarded-Proto" k
          then some (proto ∷ [])
          else if str_eq "X-Forwarded-For" k
          then some (chained (kept_value h "X-Forwarded-For") client_ip ∷ [])
          else kept_value h k)
  unfolding request_headers
  get-request_headers client_ip proto h k m =
      let stripped = strip_hop_by_hop canonical names (copy_headers h []) in
      let prior = first_value (get stripped "X-Forwarded-For") in
      get-put (put stripped "X-Forwarded-For" (forwarded_for prior client_ip ∷ []))
        "X-Forwarded-Proto" (proto ∷ []) k
      ∙ rw
          (
            get-put stripped "X-Forwarded-For" (forwarded_for prior client_ip ∷ []) k,
            stripped-copied h "X-Forwarded-For" m,
            stripped-copied h k m,
            forwarded_for-chained (kept_value h "X-Forwarded-For") client_ip,
          )
          refl
