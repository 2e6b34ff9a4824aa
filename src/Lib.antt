-- ===== src/Lib.antt =====
-- Interlock is an event-driven extension system for Docker and Swarm. A server (server/) reads the events
-- of the Docker engine and hands them to its extensions (ext/); the load balancer extension (ext/lb/)
-- answers an event by reading the containers, computing the configuration of a proxy (nginx or
-- HAProxy) from their labels, networks and published ports, copying it into the proxy containers and
-- reloading them. Several Interlock nodes may run beside each other: each reloads its share of the proxies.
--
-- The files and the code they model:
--
--   Prelude     names of the libraries, lists over the native numbers, Go's integers.
--   Go          what the code uses of Go: errors and panics (Outcome), strings, maps, path/filepath,
--               sorting, and the actions of text/template.
--   Platform    the containers and networks of the Docker API as the code reads them.
--   Ext         ext/ext.go: the names of the labels.
--   Config      config/config.go and config/utils.go: configuration, defaults, ParseConfig.
--   Labels      ext/lb/utils/*.go: each function that reads labels.
--   Address     ext/lb/utils/network.go, and the search for a backend's address in both generators.
--   Routing     what a container is routed by, in ext/lb/nginx/generate.go.
--   Nginx       ext/lb/nginx/generate.go and config.go; Blocks and Template are template.go, Template.Plus is
--               template_nginxplus.go.
--   Haproxy     ext/lb/haproxy/generate.go and config.go; Template is template.go.
--   Engine      the effects on the Docker engine, the cache and iptables, as an interface.
--   LoadBalancer  ext/lb/lb.go: Events is HandleEvent, Update is the goroutine over lbUpdateChan with
--               ProxyContainers and SaveConfig, Restart is proxyContainersToRestart; Reload is the
--               method of ext/lb/nginx/nginx.go and ext/lb/haproxy/haproxy.go, with
--               ext/lb/haproxy/iptables.go, and Templates the choice of the template, CleanUp
--               the clean-up of networks, which nothing triggers.
--   Server      server/: Swarm is utils.go, the nodes of a Swarm, read from the engine's info; Dispatch the
--               event loop and the recovery of server.go, Extensions its loadExtensions with the
--               constructors of the extensions, Poller its poller.
--   Command     cmd/interlock/: where run takes its configuration from, and what spec prints.
--   Client      client/dockerclient.go: the connection to the Docker engine.
--   NodeId      utils/node_id.go: the ID of the container that the program runs in.
--   Beacon      ext/beacon/: the containers whose statistics are collected, the collection, and the reports to
--               InfluxDB and Prometheus.
--   Tests       concrete runs.
--
-- How code becomes a definition. A function that may fail returns an Outcome: ok, err with its message, or
-- panic, which Go's index and slice expressions lead to. A template is the output of its execution: text,
-- and values with the text before them. A map is the list of its entries in order of insertion, so that a
-- range over a map is one run in one of the orders that Go may choose. The ports of a container have two
-- orders, one for each range over them whose order matters. Strings are lists of characters, and a slice by bytes is a slice by
-- characters, as in the ASCII identifiers that the code slices. An integer of the configuration is only
-- compared with 0, copied and printed; it is an ℤ of no fixed width. The other integers are lengths of
-- lists, and statistics that are copied. The loops are recursion on the list that they range over, the
-- wait of HandleEvent on its five rounds; only waitForSwarm, which has no bound, has the number of its
-- rounds as fuel, and one more than the pauses that the engine needs is enough. The loop of
-- GenerateProxyConfig over the containers is a function from tables to tables; log messages are left out
-- but for the slices they take, which can panic.
--
-- What is not under the repository's own code is a parameter. Platform has the answers of ContainerInspect
-- and NetworkInspect, and net.ParseCIDR; they are fixed during one run of GenerateProxyConfig. Engine has
-- the calls that change the world, and what others do to it while a configuration is generated, and a record of those that were asked for, in order; what a theorem
-- asks of their answers is among its hypotheses. Further parameters: the TOML decoder, the execution of a
-- template from a file, the print of an integer, the match of a regular expression, the client of InfluxDB
-- (Client), and the reset of Prometheus's counters.
--
-- The hash of the poller, the store of the discovery, files, and X.509 are parameters too. A log.Fatal is
-- an error or a panic, which both end the run.
--
-- Not modelled: the parse of the flags, the HTTP listener and the metrics it serves, the stream of events
-- and its channels, logging, and the vendored packages. The goroutines of collectStats are run one after
-- the other.
pub mod Prelude
pub mod Go
pub mod Platform
pub mod Ext
pub mod Config
pub mod Labels
pub mod Address
pub mod Routing
pub mod Nginx
pub mod Haproxy
pub mod Engine
pub mod LoadBalancer
pub mod Server
pub mod Beacon
pub mod Command
pub mod Client
pub mod NodeId
pub mod Tests
