-- ===== src/Lib.antt =====
-- fastapi-asyncpg-template: a FastAPI server with sign-in, sessions and two-factor authentication,
-- a routed asyncpg database with read replicas, idempotent requests, notifications, webhooks and
-- scheduled tasks. This library models the parts that carry its own logic.
--
-- The parts and their files:
--   Base          names that all modules share; Base/Http is a handler that changes a state and may
--                 raise, where what was written before a raise stays written.
--   Redis         api/core/redis.py: the server as an interface with the documented behaviour of GET,
--                 SET, SET with EX and NX, and DEL, at the time of each command; a hash with HGET, HSET and
--                 EXPIRE; and both in memory.
--   Cache         api/core/cache.py: the decorator over a key and over a field of a hash.
--   Pagination    Page: api/utils/pagination.py. Select: the rows of a statement with conditions, a
--                 cursor, ORDER BY id DESC, LIMIT and OFFSET. Follow is a client of the cursors, over
--                 the interface Listing, which Listed fills for the statement. Order holds the lemmas.
--   Auth          World: the tables, Redis keys, events and context variables of sign-in
--                 (api/apps/user/v0/schemas, api/shared/redis_keys.py, api/core/context.py).
--                 Tokens: api/core/auth.py. Users: the queries of api/apps/user/v0/dao/user.py.
--                 Dependencies: get_current_user, get_sudo_user and disallow_impersonation of
--                 api/core/dependencies.py. Service and Impersonation: the methods of AuthService in
--                 api/apps/user/v0/service/auth.py, each under its own name.
--                 Accounts: creation and update of a user and the revocation of all sessions, in
--                 service/user.py and dao/user.py. Tokens/Verify, Access, Revoke, RevokeAll, Created and
--                 Sudo hold the theorems.
--   TwoFactor     Codes: api/utils/totp.py. Service: the two-factor methods of AuthService.
--                 Backup, Challenge, Replay, Setup and Login hold the theorems.
--   Database      api/core/database.py. Select: _choose_region, _get_region_for_pool,
--                 _select_read_pool and get_pool. Lifecycle: create_pool, the rounds of
--                 _health_check_loop and close_pool. Queries: write and execute. Available, Routing,
--                 ClientRegion, Health, Creation and Retries hold the theorems.
--   Idempotency   api/core/idempotency.py. Route: the manager's operations and the route handler cut
--                 at its Redis calls, so that other requests run in between. Exclusion and Replay hold
--                 the theorems.
--   Migrate       migrate.py. Sections: parse_migration_sql. Sequence: the sequence numbers, the checks on
--                 them, sorting and selection. Runner: run_migration, apply_migrations,
--                 run_specific_migration and check_all_migrations_applied. Parsing and Applying hold the
--                 theorems.
--   ApiKeys       World and Dao: api/apps/common/v0/schemas/api_key.py and dao/api_key.py. Service:
--                 ApiKeyService in service/api_key.py, and get_api_key of api/core/dependencies.py
--                 under the name authorize. Spec is the same without a cache. Rows, Coherence,
--                 Simulation, Changes, Lookups, Refinement and Race hold the theorems.
--   Roles         World, Dao and Service: api/apps/user/v0/dao/role.py and service/role.py over the
--                 users of Auth. Assign: assign_roles of dao/user.py. Tokens and Assign hold the
--                 theorems.
--   DeadLetters   Dao and Service: api/apps/common/v0/dao/dead_letter_task.py and
--                 service/dead_letter_task.py. Capture: handle_task_failure of
--                 api/core/celery_app.py. Values: json_serialize_safe of api/utils/serialization.py.
--                 Retrigger, Recovery, Selection and Lists hold the theorems.
--   WebSocket     Manager: ConnectionManager in api/apps/notification/v0/channels/websocket.py,
--                 connect cut where it waits for Redis. Dict: a Python dict. Synced, Delivery and
--                 Overlap hold the theorems.
--   Events        Bus: the subscriptions of EventBus in api/core/events/bus.py and its handling of an
--                 entry of the stream. Dispatch and Once hold the theorems.
--   PeriodicTasks World: api/apps/common/v0/schemas/periodic_task.py and what the scheduler keeps. Beat:
--                 DatabaseBeatScheduler in api/core/celery_scheduler.py. Service: dao/periodic_task.py
--                 and service/periodic_task.py in api/apps/common/v0. Entries says what the schedule
--                 should have for each row. Changes, Seen and Ticks hold the theorems.
--   Webhooks      Texts: what Python does with texts. Signature: api/apps/common/utils.py. Endpoints and
--                 Service: schemas/webhook.py, dao/webhook.py, service/webhook.py and
--                 routes/webhook.py in api/apps/common/v0, and validate_webhook_url of utils.py.
--                 Delivery: api/apps/common/tasks.py and create_log of dao/webhook_log.py. Logs: the
--                 queries of dao/webhook_log.py. Signed, Reached, Created, Guarded and Lists hold the
--                 theorems, Numbers, Public and Kept their lemmas.
-- How they interact: a request passes Auth.Dependencies, which verifies a token by Auth.Tokens
-- against Redis and reads the user by Auth.Users; the service methods change the tables, Redis, the
-- events and the audit log of one World. ApiKeys and Roles read through Cache; Roles changes the
-- token versions that Auth.Dependencies compares; the worker of Webhooks reads the endpoints that
-- its service writes; the lists of DeadLetters, ApiKeys and Webhooks are read
-- by Pagination.
--
-- Assumptions. Redis, PyJWT, bcrypt, Fernet, pyotp, SHA-256 and asyncpg are parameters (Redis,
-- Auth.World.Services, and the functions connect, probe and close of Database.Lifecycle, and the
-- directory, checksum, execution and clock of Migrate.Runner) with the documented laws that the
-- code relies on. UUIDs and token ids are numbers, and the ones that a call draws are its
-- arguments, as are the clock (whole seconds) and the random draw of a pool. A Redis key is its
-- pattern applied to its fields. Codes and idempotency keys are ASCII. A user's roles stand in its
-- row. A latency is a whole number of microseconds, and averages are compared exactly, where the
-- code compares floating-point quotients. All recursion is on lists, but for the client of
-- Pagination/Follow, where more fuel than rows is enough, and the digits of Webhooks/Texts, where
-- more fuel than the number is enough. The health loop is given the rounds to come. Events is given
-- the entries in the order in which they are processed; the JSON of an event and the handlers that
-- raise are parameters. The broker of DeadLetters says for each message what sending it raises, if
-- it does; base64, JSON of PostgreSQL, ILIKE and the cast to an id are parameters. A jsonb column
-- is written through the codec that create_pool sets, so a text that is json.dumps of a value
-- already is read back as that text: in Webhooks the headers column holds an object or such a text,
-- and in PeriodicTasks json.dumps is a parameter. What the servers do with a statement of
-- Database/Queries is a parameter, and so is the retry of tenacity, with the documented laws of its
-- three strategies. In Webhooks, HMAC, urlparse, DNS, JSON and the answers of the receivers are
-- parameters, texts are ASCII and shorter than the 4300 digits that int takes, and a header is its
-- name as it is written. In Idempotency a body is a text in UTF-8 or bytes that are none, the names
-- of headers are in lower case, and of a repeated header the first value is kept. In ApiKeys and
-- Roles the statements of one request are not interleaved with others but where a theorem says so,
-- the names of roles and the pairs of a role and a permission are taken not to clash, and errors of
-- SQL are only those of the unique columns of api_keys and of the cast of a cursor. A periodic task
-- is read after it was written, though the code reads and writes it by way of a replica; JSON and
-- crontab are parameters, and whether the scheduler can read the table at a tick is an argument.
--
-- Not modelled: OAuth; the cached list of all roles, the statistics and the export of dead letters;
-- inbound webhooks, app versions, lists and manual runs of periodic tasks, publishing to the event
-- bus and its reads of the stream, the fan-out of notifications; building a cache key from a call;
-- the queries that read, the transactions and the statistics of the database class; routes, admin
-- views, middlewares, telemetry, storage and start-up, which are declarative or plain I/O.
-- Exceptions of Redis are not modelled either.
pub mod Base
pub mod Redis
pub mod Cache
pub mod Pagination
pub mod Auth
pub mod TwoFactor
pub mod Database
pub mod Idempotency
pub mod ApiKeys
pub mod Roles
pub mod DeadLetters
pub mod WebSocket
pub mod Events
pub mod PeriodicTasks
pub mod Webhooks
pub mod Migrate
