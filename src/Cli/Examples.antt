-- ===== src/Cli/Examples.antt =====
-- The older helper at one process: "a" is down, and "b" is picked.
use haribon.Prelude.{◌≡◌, refl, false, List, [], ◌∷◌, pos}
use haribon.Prelude.Dict.{get}
use haribon.Balancer.Types.{BackendEntry, picked, urls}
use haribon.Config.{Config, zero_config}
use haribon.Cli.{get_next_backend, Process}

abbrev a : BackendEntry
a = record { url = "a"; weight = pos 1 }

abbrev others : List BackendEntry
others = record { url = "b"; weight = pos 1 } ∷ []

abbrev process : Process
process = record {
  pool = urls (a ∷ others);
  current_server = 6;
  backend_health = ("a", false) ∷ [];
}

b_is_picked : (get_next_backend process).0 ≡ picked "b"
unfolding get_next_backend urls get
b_is_picked = refl

abbrev one_backend : Config
one_backend = record zero_config { backends = record { host = "http://a"; weight = pos 0 } ∷ [] }
