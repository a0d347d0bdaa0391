-- ===== src/Discovery.antt =====
-- internal/discover/discover.go: the providers of backend addresses and the loop that polls them, with
-- the wiring of cli/engine.go and cli/main.go that primes the pool. What the network and the files
-- answer is an input of each call; `join_host_port`, `itoa` and `sort` stand for net.JoinHostPort,
-- strconv.Itoa and sort.Strings.
pub mod Tracking
pub mod Routing
mod Examples
use haribon.Prelude.{
  ◌≡◌, String, Bool, true, false, not, ◌&&◌, Option, none, some, List, [], ◌∷◌, ◌++◌, map, contains,
  str_eq, ℤ, pos, leb_ℤ, if◌then◌else◌,
}
use Prim.Native.String.{◌++◌ as join}
use haribon.Config.{Config, DiscoveryConfig}
use haribon.Engine.{Runtime, rebuild}
use haribon.Engine.Swappable.{on_discovery, same_list}

pub data DiscoverError : Type 0 where
  lookup_failed not_read not_parsed empty_url : DiscoverError

-- What Discover returns.
pub data Lookup : Type 0 where
  found : List String → Lookup
  failed : DiscoverError → Lookup

-- type DNSProvider struct, type FileProvider struct and type StaticProvider struct
pub data Provider : Type 0 where
  static : (backends : List String) → Provider
  dns : (name : String) (port : ℤ) (interval_sec : ℤ) (backends : List String) → Provider
  file : (path : String) (interval_sec : ℤ) (backends : List String) → Provider

-- What LookupHost answers, and what os.ReadFile and json.Unmarshal make of the file.
pub data Reply : Type 0 where
  unreachable unreadable malformed : Reply
  addresses : List String → Reply
  listed : List String → Reply

-- `if port <= 0 { port = 80 }`
unfoldable pub new_dns_provider : String → ℤ → ℤ → Provider
new_dns_provider name port interval =
    dns name (if leb_ℤ port (pos 0) then pos 80 else port) interval []

-- `if interval <= 0 { interval = 30 * time.Second }`, in seconds
unfoldable pub poll_interval : ℤ → ℤ
poll_interval refresh_sec = if leb_ℤ refresh_sec (pos 0) then pos 30 else refresh_sec

pub data ProviderError : Type 0 where
  dns_name_missing file_path_missing : ProviderError

pub data Creation : Type 0 where
  made : Provider → Creation
  refused : ProviderError → Creation

-- func NewProvider
unfoldable pub new_provider : DiscoveryConfig → Creation
unfolding new_dns_provider poll_interval
new_provider disc =
    if str_eq disc.provider "dns"
    then (if str_eq disc.dns_name ""
        then refused dns_name_missing
        else made (new_dns_provider disc.dns_name disc.dns_port (poll_interval disc.refresh_sec)))
    else if str_eq disc.provider "file"
    then (if str_eq disc.file_path ""
        then refused file_path_missing
        else made (file disc.file_path (poll_interval disc.refresh_sec) []))
    else made (static [])

module _ (join_host_port : String → String → String) (itoa : ℤ → String)
    (sort : List String → List String) where
  -- the loop of the DNS provider's Discover
  unfoldable pub dns_urls : ℤ → List String → List String
  dns_urls port [] = []
  dns_urls port (addr ∷ addrs) =
      join "http://" (join_host_port addr (itoa port)) ∷ dns_urls port addrs

  -- func (p *DNSProvider) Discover
  unfoldable pub dns_discover :
      Reply
      → (name : String) (port : ℤ) (interval_sec : ℤ) (backends : List String) → Lookup × Provider
  unfolding dns_urls
  dns_discover (addresses addrs) name port interval backends =
      let now = sort (dns_urls port addrs) in (found now, dns name port interval now)
  dns_discover reply name port interval backends =
      (failed lookup_failed, dns name port interval backends)

  -- func (p *FileProvider) Discover
  unfoldable pub file_discover :
      Reply → (path : String) (interval_sec : ℤ) (backends : List String) → Lookup × Provider
  file_discover (listed us) path interval backends =
      if contains us ""
      then (failed empty_url, file path interval backends)
      else (found us, file path interval us)
  file_discover malformed path interval backends = (failed not_parsed, file path interval backends)
  file_discover reply path interval backends = (failed not_read, file path interval backends)

  -- Discover of the interface Provider; a static one has its list
  unfoldable pub discover : Reply → Provider → Lookup × Provider
  unfolding dns_discover file_discover
  discover reply (static backends) = (found backends, static backends)
  discover reply (dns name port interval backends) = dns_discover reply name port interval backends
  discover reply (file path interval backends) = file_discover reply path interval backends

-- func (p *StaticProvider) Update
unfoldable pub static_update : List String → Provider → Provider
static_update backends (static old) = static backends
static_update backends (dns name port interval old) = dns name port interval old
static_update backends (file path interval old) = file path interval old

-- func watchLoop: the lists that onChange is called with, for the answers at the ticks
unfoldable pub watch_loop : List Lookup → List String → List (List String)
unfolding same_list
watch_loop [] last = []
watch_loop (failed e ∷ ticks) last = watch_loop ticks last
watch_loop (found [] ∷ ticks) last = watch_loop ticks last
watch_loop (found (u ∷ us) ∷ ticks) last = elim (same_list (u ∷ us) last) [
  | true ↦ watch_loop ticks last
  | false ↦ (u ∷ us) ∷ watch_loop ticks (u ∷ us)
]

-- The calls of OnDiscovery, in their order.
unfoldable pub deliver : Config → List (List String) → Runtime → Runtime
unfolding on_discovery
deliver cfg [] rt = rt
deliver cfg (us ∷ more) rt = deliver cfg more (on_discovery cfg us rt)

-- the first lookup of StartDiscovery
unfoldable pub start_discovery : Lookup → Runtime → Runtime
start_discovery (found []) rt = rt
start_discovery (found (u ∷ us)) rt = record rt { discovered = u ∷ us }
start_discovery (failed e) rt = rt

-- StartDiscovery, the first rebuild of startCommand, and then the ticks
unfoldable pub discover_all : Config → Lookup → List Lookup → Runtime → Runtime
unfolding start_discovery rebuild deliver watch_loop
discover_all cfg first ticks rt =
    deliver cfg (watch_loop ticks []) (rebuild cfg (start_discovery first rt))
