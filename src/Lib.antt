-- ===== src/Lib.antt =====
-- Verification library of the social graph engine: the Python middleware in middleware_python.
--
-- The middleware answers HTTP requests. It keeps accounts and sessions in MySQL and short-lived
-- facts (locks, counters, the token blacklist) in Redis, sends graph computations to a C++ engine
-- over pooled TCP connections, and spreads events by Redis Pub/Sub. Every store may be missing: the
-- code then answers None, or goes on without it, and the model does the same.
--
-- Modules and the code they model (paths under middleware_python):
--   TcpPool   services/cpp_tcp_client.py: `get_connection`, `release_connection`, `send_command`,
--             `execute_command_tcp`, `shutdown_tcp_pool` are functions on the list of connections;
--             TcpPool.Run is the step relation of several commands whose awaits interleave.
--   PubSub    services/pubsub.py: `RedisPubSub` as a record, a function per method, the tasks it has
--             created as a list; PubSub.Listen is `_listen_loop`, round by round and message by
--             message.
--   Lazy      db/redis.py: `get_redis_async`, `get_redis_sync`, `reset_redis_connection` and
--             `close_redis`, whose shape db/mysql.py and db/neo4j.py repeat.
--   Errors    core/exceptions.py, and in Errors.Handler middleware/error_handler.py.
--   Redis     the commands that the code calls, a parameter of the model; Redis.Laws is what their
--             documentation says, Redis.Memory a server for which it holds.
--   Auth      auth/service.py and the token functions of core/security.py: State has the tables, the
--             world (MySQL and Redis, each possibly absent) and the monad of the handlers; Lockout,
--             Tokens, Login, Refresh, Logout, Register, ApiKeys and Fields are the operations, named
--             as in the code; the modules below them, Lockouts and RoundTrip say what they achieve.
--   Access    core/dependencies.py: the authentication of a request by a bearer token or an API key;
--             Access.Guards has the dependencies that routes name.
--   RateLimit middleware/rate_limiter.py: who a request counts for, the sliding window, the headers.
--   Neo4j     db/neo4j.py: `_retry_with_backoff` and `execute_cypher`; a run records its calls and
--             delays.
--   Grpc      services/cpp_grpc_client.py: `connect`, `_call_with_retry`, the global client, and in
--             Grpc.Command `execute_via_grpc`.
--   Mongo     db/mongodb.py: the connection, the bulk write, Mongo.Indexes the creation of indexes,
--             Mongo.Registry the registry of cache entries, Mongo.Latency the probe.
--   Engine    services/cpp_engine.py: `execute_command`, the engine as a process; Engine.Answers is the
--             route `get_shortest_path` of routes/graph.py, which runs it.
--   Sockets   websockets/: the test of the token; Sockets.Analysis is the session of
--             analysis_ws.py, Sockets.Live the subscribers and the broadcast of live_data_ws.py with
--             what other coroutines do at each await, Sockets.Live.Sessions its handler.
--   Sync      services/neo4j_service.py: `sync_all_algorithm_results` and the query of its update.
--   Recommend services/neo4j_service.py: `scenario_a_friend_recommendation`.
--   Topology  services/neo4j_service.py: `get_full_topology` and `get_topology_paginated`.
--   Cache     services/cache.py over db/redis.py: Keys has the names of keys, Stored the compression,
--             Compute `cache_get_or_compute`, Atomic the atomic lookup, Versions and Invalidate the
--             ways to invalidate, Scan the pipelines and the keys of a domain. Frame, Transparent,
--             Locks, Hits, Sweep and Tags say what they achieve, Laws what they rely on; Memory and
--             Clock (whose keys expire) are servers, Values a codec for which that holds.
--   Migrate   db/redis.py: `migrate_old_keys`.
--   Performance services/performance.py: the batch buffer of the operation log as a state machine.
--   Base      names of the library that the others share, Boolean tests, texts as code points.
--
-- Parameters: the Redis server, the Neo4j driver, MongoDB, the process of the engine, what Python and
-- FastAPI do with its JSON, floats, UTF-8, zlib and JSON (Cache.`Codec` and `Json`), bcrypt, hashlib, jose and whether the MySQL
-- driver's datetimes have a time zone (the record `Crypto`), random ids, the clock,
-- the network (which streams have ended, whether a connection succeeds, how a read ends) and the
-- handler of a subscription. A handler reads the clock once; times are whole seconds, as far as the
-- code compares them. A column's datetime without a time zone cannot be compared with the clock, and the
-- handlers that try end in a TypeError; SQL is taken as comparing texts exactly.
--
-- The loops with a bound of their own (the retries, the waits of the cache) recur on what is left of
-- it, the others on a list; the endless listening loop runs over the list of the rounds that the
-- environment gives it. Only the loops over SCAN, in the cache and the migration, take fuel, a turn for
-- each call of SCAN; as many turns as the iteration has calls are enough, and that an iteration ends is
-- what SCAN's documentation promises.
--
-- In Cache and Topology a command or a query may fail at any point, and what other clients do to Redis
-- meanwhile is a function that the caller of the model chooses.
--
-- Not modelled: logging, HTTP routes (but that of the path query) and schemas, Cypher texts but that
-- of the update in Sync, the options of MongoDB's indexes, the mock events of the live data, the
-- warming up and the statistics of the cache, the conversion of gRPC messages, the list of API keys,
-- the C++ engine, the front end. A user's columns that the handlers only pass on (the avatar) are left out.
pub mod Access
pub mod Auth
pub mod Base
pub mod Cache
pub mod Engine
pub mod Errors
pub mod Grpc
pub mod Lazy
pub mod Migrate
pub mod Mongo
pub mod Neo4j
pub mod Performance
pub mod PubSub
pub mod RateLimit
pub mod Recommend
pub mod Redis
pub mod Sockets
pub mod Sync
pub mod TcpPool
pub mod Topology
