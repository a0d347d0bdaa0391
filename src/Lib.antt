-- ===== src/Lib.antt =====
-- Haribon, an HTTP load balancer. A request comes to the proxy (internal/proxy/handler.go), which asks
-- a balancer (internal/balancer/balancer.go) for a backend; the balancer asks the health checker of
-- the current generation (cli/engine.go) which backends may be used, and that checker agrees only if
-- the local health map, the cluster's view (internal/cluster/cluster.go) and the circuit breaker
-- (internal/health/breaker.go) do. What happened goes to the log exporters (internal/logging), which
-- encode it for Fluent Bit in MessagePack (internal/logging/msgpack.go).
--
-- Health/Breaker models the circuit breakers: the registry is an association list of records, and each
-- operation gives the new registry with its answer. Time is a number that the caller passes.
--   Defs: the operations; Calls: sequences of calls; Transitions, Trial, Threshold, Reload: proofs.
-- Balancer models the strategies; Chosen, Refused and Members say which backends they pick from. `is_available : String -> H -> Bool x H` is the health checker with
-- its own state, since asking may change it; rand.Intn and the FNV hash are parameters.
--   Types: entries and outcomes, a panic among them; Walk: round-robin and ip-hash;
--   WeightedRoundRobin, LeastConnections, Random: the other strategies; Factory: New.
-- Cluster models a node: health table, first-hand findings, terms, peers, gossip and expiry, with the
-- reading of datagrams in Transport.
-- Logging/Msgpack models the encoder; Tokens describes the format independently, as a reader, and
-- Sorting the order of the fields.
-- Health/Scheduler models the loop that probes one backend, its Pool the check and the scheduler that
-- the engine starts; Run, which starts one such loop for each entry of the pool, is not modelled. What
-- comes of a probe's request is an input.
-- Logging/Batch models the queue of a remote exporter (internal/logging/exporter.go) with the steps of
-- its goroutine, in any order; its Runs, Kept and Closing follow what is written, sent and dropped.
-- Logging/Exporters models the entries, the bodies that the exporters send, the file and the fan-out;
-- Requests their constructors and what one call gives to the network, Shipped joins it to the queue.
-- Engine models the checker, the pool that configuration and discovery make together, and rebuild,
-- which publishes a new generation and hands the state of the old one over. Swappable passes calls
-- on to the current generation; Accepted joins rebuild with what Validate accepts; Demands and
-- Readiness follow sequences of calls from the proxy and the probes; Gauges and Seeded are what the
-- engine and cli/main.go write into the registry of metrics.
-- System is the running program (cli/engine.go, cli/main.go): a schedule of the turns of its
-- goroutines, where the configuration watcher and the discovery loop may be interrupted between what
-- they load and their rebuild. Serving, Current, Requests and Overtaken follow such schedules.
-- Config models the types, Validate and, in Defaults, what is filled in (internal/config/config.go);
-- url.Parse, the environment, the YAML decoder and the host name are parameters. Config/Load substitutes
-- the references to variables before the file is decoded. Config/Snapshot is the configuration in
-- force (internal/config/snapshot.go), with the checks that startCommand begins with. Config/Schema is the validator of documents
-- (internal/config/schema.go): Keywords reads a schema, Conforms says what it means, Matches and Decides prove it,
-- Normalize makes the document.
-- Discovery models the providers and their polling (internal/discover/discover.go); Routing joins the
-- answers to the generation that routes.
-- Metrics models the registry of counters and gauges (internal/metrics/metrics.go); Names builds the
-- names with labels and Render the text of a scrape.
-- Cli models the older helpers of cli/main.go, its choice of log sinks, and the endpoints of
-- internal/health/handler.go; Commands the commands with their exit codes, and Log what
-- becomes of a log entry.
-- Proxy models the handler: the attempts of ServeHTTP with the calls that each makes on the balancer
-- and the circuit breaker, and the headers that are stripped. The balancer's picks and the network's
-- answers are inputs there. Observed adds what the handler and its logger (cli/main.go) count,
-- Forwarding the headers of requests and answers, and Outcomes what the handler reports to the circuit
-- breaker over many requests.
-- Integers of Go keep their range: counters of connections are 64-bit signed, with wrap-around;
-- tickets are 64-bit unsigned and read as signed where the source converts them. The terms of
-- the cluster wrap where they are increased; times are natural numbers without a bound. Loops are
-- recursions on the list they range over, or on the number of rounds that the source counts, which
-- is always given in full. The number of retries is a natural number, so that one more attempt than
-- retries does not overflow. The order in which Go ranges over a map is the order of the association list; the theorems on such loops
-- hold for any order, with no key twice.
--
-- Not modelled: locks (each operation holds its lock from start to end; where a goroutine may come
-- between two operations, in the queue of an exporter and in System, the steps interleave), HTTP, TLS
-- and file input and output, the decoding of YAML and JSON, the texts of error messages and log lines,
-- flags, signals and the shutdown of the servers.
pub mod Prelude
pub mod Health
pub mod Balancer
pub mod Cluster
pub mod Logging
pub mod Proxy
pub mod Config
pub mod Engine
pub mod Discovery
pub mod Cli
pub mod System
pub mod Metrics
