-- ===== src/Lib.antt =====
-- A model of the user portal's backend: accounts, sessions, roles, and the events it sends.
--
-- A request reaches a service (internal/service), which reads and changes the tables through
-- repositories (internal/repository/impl), some of it in a transaction (tx_manager.go), records an
-- audit log, and puts notification events in the outbox table for a worker to publish.
--
-- - Text, Domain, Errors, Model: text, the enumerations of internal/domain, the errors of
--   internal/service/errors.go, and the rows of internal/model. A time is a number on one time line,
--   an id is a number and uuid.Nil is 0, a nullable column is an Option.
-- - World: the committed database, the one that an open transaction sees, the revocation store, and an
--   environment that answers what packages, the clock and the configuration answer, and says which
--   effect fails. A call is an action of `M`; it returns, fails with an error or panics. `with_tx` is
--   WithTx: a statement called with `tx_ctx` is undone with the transaction, one called with `base_ctx`
--   is not, since getDB takes the transaction from the context that it is given. World/Atomic,
--   World/Returns, World/Keeps, World/Stays, World/Yields, World/Gated and World/Blind hold the rules
--   that proofs follow, one for each way to build an action.
-- - Repo: one module per repository, one action per method, with the scoping by soft deletion, the
--   unique indexes and the test of the rows affected. Repo/Sessions also has the revocation store of
--   internal/infrastructure/redis.
-- - Service: the services. Audit is audit.go, Notification publisher.go, Token the issuer of
--   internal/infrastructure/security/manager.go, RoleService role.go and permission.go, UserService
--   user.go, AdminService admin.go, and Auth auth.go with a child per group of operations. Modules
--   named Effects say what an operation has done when it returns, modules named Atomicity what is left
--   when it fails, modules named Access what an operation means for the tokens that are out, and
--   RefreshTokens/Race what two requests with one token do. Service/Closed, over Repo/Closed, follows a
--   session that was closed through every operation of the services.
-- - Outbox: the worker of internal/worker over the outbox table, and the publisher of
--   internal/infrastructure/kafka (Publisher). Final, Flight, Claims, Attempts and Death say
--   what becomes of an event.
-- - Access: the authenticator and the authorizer of internal/infrastructure/security.
-- - Grpc: the server of internal/handler/grpcserver. Method has the methods, the public ones and the
--   permission that each asks for; Messages the messages of gen/go as the handlers use them; Mapper and
--   Handlers the package mapper and the handlers; Policy and Limit the rate limiter of
--   internal/infrastructure/ratelimit with its interceptor; Chain the other interceptors, and the chain
--   that grpc.go makes of them. A call is `serve`.
-- - Config: the settings of config, as they are read from the environment.
-- - Seed: internal/infrastructure/storage/seed.go, what the server makes sure of when it starts.
-- - App: internal/app. Settings and Bootstrap are New, with the client of Redis; Health is the readiness,
--   with the pings and the routes of the root; Lifecycle is Run with the
--   error of NewGatewayMux and a step relation of what it waits for, and Shutdown.
-- - Cdc: internal/infrastructure/cdc and elasticsearch. Json and Documents map the rows in Debezium's
--   events to documents, Mapping has what an index is created with, Indexer has the two indexers over an
--   index of Elasticsearch (`Cluster`, an interface with the laws that its documentation promises),
--   Handlers the handlers and the router, Consumer the loop over what a Kafka reader gives. Replay says
--   what the documents are meant to be: the changes of the messages, one after the other.
-- - Tests: runs at concrete inputs.
--
-- The statements of two requests are not interleaved: a transaction runs as a whole, and what two
-- requests or two workers do to each other is said of one transaction after the other. Loops of the
-- program are over lists and are structural recursion here, so no fuel is used; the worker's endless
-- loop is its rounds for a number of ticks, and the consumer's is over the list of what its reader
-- gives. The calls are those of a server with Redis: without it the revocation store has no client to
-- call. Not modelled: the transport below the calls, the HTTP gateway, generated code, the loggers and
-- the metrics, constructors that only pass their arguments on, and the clients of Kafka, Redis and
-- Elasticsearch. Hashing, signing, JSON, the operations of float64, the collation of the database,
-- bcrypt, the validator of requests and the limiter of redis_rate are parameters.
mod Prelude
pub mod Text
pub mod Domain
pub mod Errors
pub mod Model
pub mod World
pub mod Repo
pub mod Service
pub mod Outbox
pub mod Access
pub mod Grpc
pub mod Config
pub mod Seed
pub mod App
pub mod Cdc
mod Tests
