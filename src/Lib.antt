-- ===== src/Lib.antt =====
-- Burnell, a proxy in front of an Apache Pulsar cluster: tokens, tenants, plans and limits.
--
-- What each file models (paths from the repository's root):
-- - Text, Text/*: Go's strings as lists of bytes, with the functions of `strings` and `strconv` that
--   the program calls. Texts are ASCII where they are trimmed or lowered.
-- - Assoc: a Go map with texts for keys. Result: a value, an error or a panic.
-- - Util, Util/*: src/util/util.go. Config, Config/*: src/util/config.go and src/util/proc-mode.go.
-- - Icrypto/Token, Icrypto/Period: src/icrypto/pulsar-jwt.go. `jwt.Parse` is the argument `parse`,
--   `time.ParseDuration` the argument `parse_duration`.
-- - Policy/Plan, Policy/Plan/Reconcile: src/policy/policy.go and `ReconcileTenantPlan` of
--   src/policy/pulsardb.go. Policy/TenantDb: the rest of src/policy/pulsardb.go, where whether the
--   topic takes a message and what the broker answers are arguments.
-- - Route/Subject: `ExtractTenant` and `VerifySubject` of src/route/handlers.go.
--   Route/Middleware, Route/Limit, Route/Semaphore: src/route/middleware.go and
--   src/route/semaphore.go.
-- - Policy/AdminApi: the requests to the brokers' REST API of src/policy. Policy/TenantList:
--   src/policy/tenant.go. Policy/FeatureCodes: src/policy/feature-codes.go. Policy/Startup: the
--   options of the Pulsar clients and `Initialize`.
-- - Icrypto/Keys: the key pairs and key files of src/icrypto/pulsar-jwt.go. Icrypto/Cipher:
--   src/icrypto/icrypto.go and src/icrypto/util.go.
-- - K8s: src/k8s/clientset.go, with client-go as the argument `KubeApi` and what it documents as the
--   record `Documented`, which K8s/Memory fills. Workflow, Workflow/*: src/workflow/keys-jwt.go.
-- - Route/Router, Route/Router/*: src/route/router.go. How gorilla/mux matches a path is the argument
--   `path_vars`; that the first route with the path and the method serves is written out.
-- - LogServer, LogServer/*: src/logserver/logserver.go over the bytes of a file. The loops run on
--   fuel, a turn for each unit, and the theorems say how much is enough.
-- - Policy/TopicStats, Policy/TopicStats/*: src/policy/topic-stats.go. The operations of go-memdb and
--   the GET requests are arguments; the regular expression is written out as a test.
-- - Route/Handlers, Route/Handlers/*: src/route/handlers.go. A handler decides on an outcome; the
--   exchange with the broker or the function worker is the argument `exchange`, and JSON is decoded
--   and encoded by arguments. Pulsar Beam's packages are the argument `Beam`.
-- - Route/Websocket: src/route/websocket.go. Main: src/main.go and `Init` of src/util/config.go, over
--   Config/File, which reads the file. LogServer/Settings: the port of `main` and the paths of logs.
-- - LogClient, LogClient/*: src/logclient/reader.go and src/logstream/util.go.
-- - Policy/TenantDb/Listener, LogClient/Listener: the two readers of topics with their restarts. What
--   a reader receives before it fails is an argument, one list for each start.
-- - Metrics, Metrics/*: src/metrics/federated-prometheus.go. Metrics/UsageDb: the schema of its table
--   and go-memdb as the argument `MemDb`, with what it documents as the record `Inserts`.
-- - Util/Uuid: `NewUUID` of src/util/util.go and `HashKey` of src/route/raw-cache.go. Util/Files:
--   `StringToNewFile` over the argument `Disk`, with what a disk documents as the record `Writes`.
--   Icrypto/Export: the export of keys of src/icrypto/pulsar-jwt.go.
-- - Util/Responses: the answer of an error, and the headers of a request to Pulsar.
--   Policy/TopicStats/Worker: the schema of the table and the rounds of the worker.
-- - K8s/Start: how the client of src/k8s/clientset.go is made, and its listings.
-- - E2e, E2e/*: the two programs under src/e2etest, over the argument `Client` for a server.
-- - Composition: several of these parts together. Composition/Managed answers a request through the
--   routes, the middleware and the tenants' handler, for the program of E2e/TenantRest;
--   Composition/BeamTest answers by the request's method behind `AuthVerifyJWT`, for that of
--   E2e/PulsarBeamRest; Composition/Tailing asks the log server again and again.
-- - Tests: instances of the theorems, and tests by evaluation.
--
-- How the parts interact: a request passes `LimitRate`, then the authentication of its route, which
-- asks Icrypto for the token's subject and Route/Subject whether it acts for the tenant; the
-- handlers behind it read the table of Policy/TenantDb, which the listener of the topic fills. A
-- process started as initializer or healer keeps the keys and the tokens of the admin roles as
-- secrets of Kubernetes instead; a proxy loads these keys, and its token server signs with them.
--
-- Numbers: Go's `int`, `int64` and `time.Duration` are integers with the wrap-around of 64 bits
-- written out where the program multiplies or adds; counts of entries are natural numbers. Times
-- are arguments.
--
-- Not modelled: the network, logging, tickers and generated code; the clients of Pulsar and of
-- grpc; the cache of responses, which is switched off, but for the hash of its keys. Where the
-- program uses such a result it is an argument. The ciphers, the key formats, Kubernetes, Pulsar and
-- regular expressions are libraries: they are arguments, with what they document as hypotheses where
-- a theorem needs it.
pub mod Assoc
pub mod Composition
pub mod Config
pub mod E2e
pub mod Icrypto
pub mod K8s
pub mod LogClient
pub mod LogServer
pub mod Main
pub mod Metrics
pub mod Policy
pub mod Prelude
pub mod Result
pub mod Route
pub mod Tests
pub mod Text
pub mod Util
pub mod Workflow
