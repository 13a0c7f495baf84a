-- ===== src/Lib.antt =====
-- Verification of the task tracker: its HTTP API, its services, the repositories and the
-- cache under them, its email outbox, its configuration, its processes and their shutdown.
--
-- Parts. `Tx` models a call as a function from a state to an outcome (a value, an error or a panic) and
-- a state, and the transaction manager (a third-party package) as a record of its operation with its
-- documented behaviour: the body's error is returned and its writes are undone, and a commit may fail.
--
-- * `Outbox` (internal/infrastructure/outbox): `Shard` is `shardBy`, `Backoff` is `backoff`, `Process`
--   is `processShard`, `Collect` is `collect`, `Tick` is `tick`, `dispatch` and `pause`, `Run` is `Run`
--   and `Drain`; `Email` is `SendBatch` of internal/infrastructure/email/client.go. `Table` and
--   `Truncate` are the statements and `truncateUTF8` of internal/infrastructure/persistence/outbox.go.
--   Workers run concurrently, on shards that share nothing; what a worker meets (its context, the dedup
--   store, the provider, a panic) is its own argument, so a theorem for all arguments is one for all
--   interleavings.
-- * `Domain` is internal/domain. `Store` is the state of the services: the MySQL tables, their counters,
--   the redis keys, and the number of statements sent, by which `Env` decides faults, clocks and
--   random identifiers.
-- * `Persistence` is internal/infrastructure/persistence: `Users`, `Teams`, `Tasks` over `TaskFields`,
--   `Comments`, `Analytics` and the enqueuing in `Messages`. A table lists its rows in the order of its
--   key.
-- * `Service` is internal/service: `Authorizer`, `Auth`, `Teams`, `Tasks`, `Comments`, `Analytics`;
--   `Service/Cache` is internal/infrastructure/cache/tasks.go.
-- * `Http` is internal/transport/http: `Kit` is httpkit, with the tests that its handlers share in
--   `Kit/Gates`; `Rules` are the rules of the validation package, `Query` and `Trim` the parsing of
--   parameters and texts; `Tasks`, `Comments`, `Teams`, `Auth` and `Analytics` are the handlers with
--   their dto.go; `Middleware` is middleware.go and `Router` is router.go, which puts all together:
--   `api` takes a request at an endpoint through the middleware of its group to its handler, and
--   `route` is that behind the recovery from panics, the counters and the log.
-- * `Identity` is internal/identity, `RateLimit` is internal/infrastructure/ratelimit, `Outbox/Dedup` is
--   internal/infrastructure/cache/dedup.go, `Health` is internal/infrastructure/health with the probes of
--   internal/transport/http/health.go, `Lifecycle` is internal/infrastructure/lifecycle, and `Config` is
--   internal/config.go with the sections of the other packages.
-- * `App` is internal/app.go with cmd/api/main.go, and `Cli` is cmd/cli/main.go; its `Cli/Flags` is what
--   the flag package makes of the arguments.
-- * `Examples` runs the theorems at concrete inputs. `Base` has what all share.
--
-- Bounds. Identifiers are only compared, so they are naturals; a negative one in a request is taken by
-- its two's complement. Durations are integers of nanoseconds; the product in `backoff` and the sum in
-- `settle_window`, which can wrap, are taken modulo 2 ^ 64. A text is a list of bytes. The loop of
-- `shardBy` has the length of the batch as its fuel, and each round takes at least one item; that of
-- `trim_left` has the length of the text, and each round cuts at least one byte; a client's walk over
-- pages is given more rounds than there are tasks. A call of a service is one sequence of
-- statements: no other call runs between them. A handler answers once, at its end.
--
-- Parameters, each with the behaviour that is documented: the transaction manager, bcrypt, the token
-- library, the validation package, the circuit breaker, redis_rate, and the parsing of network addresses.
--
-- Not modelled: what is logged beside the entry of each request, the labels and the histogram of
-- the metrics, the matching of paths, the reading of files and of the environment, and the
-- construction of the clients, which are input and output or calls of third-party packages; the
-- expiry of keys in redis; the collation of MySQL, which is an argument; the failure of the JSON
-- encoder; and the load generator and the generated documentation.
pub mod Base
pub mod Tx
pub mod Domain
pub mod Store
pub mod Persistence
pub mod Service
pub mod Outbox
pub mod Lifecycle
pub mod Config
pub mod RateLimit
pub mod Identity
pub mod Http
pub mod Health
pub mod Examples
pub mod App
pub mod Cli
