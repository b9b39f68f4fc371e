-- ===== src/Lib.antt =====
-- Jbalance, a load balancer of two planes in Go. The control plane (internal/controlplane) turns
-- the backends that a pool reports and the settings of the operator into one versioned backend set
-- for each group, and streams the sets and a table of L7 rules to the data planes. A data plane
-- (internal/dataplane) keeps a list of backends for each group, tracks their health, matches each
-- request to a rule, and selects a backend for it.
--
-- The parts and their files:
-- - Common and its children: numbers, lists, maps, texts, and runs that may panic.
-- - Platform: float64 arithmetic, the token bucket of golang.org/x/time/rate, and the tables of the
--   standard library (EqualFold, canonical header names). They are not in the repository, so they
--   are a record of operations that every client takes as an instance argument.
-- - Proto (proto/controlplane.pb.go, and the records of internal/controlplane/routes.go, which have
--   the same fields) and Http (net/http and net/url): the messages and requests.
-- - ControlPlane.Stores (overrides.go, algorithm.go, sticky.go, ratelimit.go), ControlPlane.Routes
--   (routes.go, publishRoutes of server.go) and ControlPlane.Server (server.go): the settings, the
--   rules, and the publication of backend sets. Snapshot, Equality and Publishing hold the proofs.
-- - Dataplane.Entry and Dataplane.Backends (backends.go): BackendList without selection. A method
--   becomes a function from the list to the new list. Invariant, Outlier, Streak, Updates and
--   Counters hold the proofs.
-- - Dataplane.Selection and Dataplane.Ring (backends.go): NextForKey, its five algorithms and the
--   hash ring. Search has the binary search, Decimal the decimal numbers, Refresh the slots, Picks,
--   Least and Owner the algorithms, Outcome and Balance the whole call.
-- - Dataplane.History: any sequence of calls of a BackendList, as a relation.
-- - Dataplane.RateLimit (ratelimit.go) with Isolation, Dataplane.HealthCheck (healthcheck.go) with
--   Hysteresis, Dataplane.Proxy (selectBackend of proxy.go) with Affinity.
-- - Dataplane.Router (router.go, authFromProto of edgeauth.go): the route table. Agreement compares
--   it with the control plane's matching; Split, Groups and Paths are about weighted splits, the
--   groups that are named, and rewrites.
-- - Dataplane.EdgeAuth (edgeauth.go, and internal/grpcauth) with Admission: who is admitted, at the
--   edge and to the control plane.
-- - Dataplane.RetryWriter (retrywriter.go) with Replay, and Dataplane.Serving (Handler,
--   serveWithRetries and serveOnce of proxy.go): a request from its rule to its answer. Actives has
--   the counts of outstanding requests, Attempts the loop, Repeats how often it may run, Answers the
--   handler.
-- - ControlPlane.Reports (ReportHealth, ReportMetrics and what server.go makes of them) with Health,
--   Traffic and Fleet; ControlPlane.MetricsHistory (metricshistory.go) with Window and
--   Bounds;
--   ControlPlane.Views (Snapshot and FleetSnapshot of server.go).
-- - ControlPlane.Streams (StreamBackends of server.go): the streams as steps between publications.
--   Versions has the invariant of their channels, Delivery what a data plane gets.
-- - Config (internal/config/validate.go) with DataPlane: the checks of the start-up settings.
--   Checks and Conditions, then Accepted and Providers say when they find nothing. CertPairs (ParseCertPairs of
--   internal/tlsutil/certreloader.go): the list of certificate files.
-- - Admin.LoginLimiter (internal/admin/ratelimit.go): failed logins of each client address.
--   Admin.Session (internal/admin/session.go): the signed cookie of a session.
-- - Samples has a concrete platform, and Examples the runs at concrete inputs.
--
-- How the code is read:
-- - Times and durations are numbers of nanoseconds. A call that reads the clock takes the time once,
--   as its argument `now`; the zero time is `none`.
-- - int32 and int64 values are integers, and int64 arithmetic that can wrap is written with int64.
--   The sum of a split's weights, and the counts of requests and of errors are not wrapped: they
--   stay far below 2^63.
-- - Every method of BackendList and Server takes its lock, so concurrent calls are sequences of
--   calls. A selection reads its counters between other goroutines' changes; it is taken as one call.
-- - Draws of math/rand, the sort of ring points and the answers of the pool are arguments. What is
--   assumed of them is InRange, Sorts and FloatOrder; Samples has an instance of each.
-- - A Go map is an association list. An index out of range is the outcome `panicked`.
-- - Fuel: sort.Search gets one unit more than there are points, and strconv.Itoa one more than the
--   number; both shrink by at least one each turn. A stream's loop over its channel gets the rounds
--   that are looked at, and the attempts of a request are bounded in the code.
-- - The admin console's signature (HMAC) and the numbers of strconv in its cookie are a Signer, and
--   Decimal has what is assumed of the numbers.
-- - What the reverse proxy of net/http, golang-jwt and the PEM parser did is an argument, as are the
--   calls that are made of a response writer.
--
-- Not modelled: files and databases of the stores, the stream of routes, network probes, the
-- proxying itself, TLS, logging, tracing, the data plane's own metrics, the pages and forms of the
-- admin console, the pools and the command lines.
pub mod Common
pub mod Platform
pub mod Proto
pub mod Http
pub mod Dataplane
pub mod Admin
pub mod CertPairs
pub mod Config
pub mod ControlPlane
pub mod Samples
pub mod Examples
