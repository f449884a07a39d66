-- ===== src/Lib.antt =====
-- A verification library for theclub-api, a roulette service: FastAPI over PostgreSQL, with an outbox
-- that a background task drains to Kafka.
--
-- A request authenticates (app/api/deps.py) and calls a use case of app/services in a transaction; a
-- deposit and a round do so under an Idempotency-Key (app/services/idempotency.py). The use case calls
-- the game's rules (app/domain), which are pure, and the statements of app/repositories, and
-- writes events to the outbox in the same transaction (app/events/outbox.py). The relay
-- (app/events/relay.py) sends them later, in transactions of its own.
--
-- How the files correspond to the code:
--   Prelude, Result, Exec, Rows: numbers and lists over the native naturals, exceptions as values,
--     statements of a session as state passing with a roll-back, and tables by primary key.
--     Json: the documents that are stored and sent.
--     Exec/Session is `unit_of_work` of app/infra/db.py, with the commit before its end.
--   Domain/Money: app/domain/money.py. Domain/Fairness: app/domain/fairness.py.
--   Domain/Table, Domain/Bets, Domain/Engine: the three files of app/domain/roulette;
--     Domain/Bets/Geometry and Domain/Bets/Shape describe the selections by the grid alone.
--   Events/Schemas, Events/Outbox: app/events/schemas.py and outbox.py. Events/Relay: relay.py and
--     outbox_cleanup.py, one pass of each; Events/Relay/Loops: the loops around the passes.
--   Db: the rows of app/models; the unique indexes and CHECK constraints stand in the insertions.
--   Config: the settings that are read, and the validators of app/config.py.
--   World: what comes from outside, which is the clock, uuid4, secrets, HMAC-SHA256, SHA-256, argon2,
--     PyJWT and the folding of CITEXT; every call of the clock, of uuid4 or of secrets takes the next
--     number, so no two calls need to agree. World/Transactions is `session.begin()` on a session of its
--     own, as app/services/idempotency.py opens it three times.
--   Repositories: app/repositories, a module for each file, and Repositories/Listing for the two paged
--     listings.
--   Security: app/infra/security.py.
--   Services/Wallet, Services/Roulette, Services/Fairness, Services/Auth, Services/Idempotency:
--     app/services. Services/Idempotency/Steps cuts `run_idempotent` at the ends of its transactions, and
--     Services/Idempotency/Concurrent interleaves the transactions of any number of requests.
--     Services/Roulette/Events, ToDict and History are further functions of app/services/roulette.py.
--     Services/Untouched says of any part of the database which statements leave it as it was.
--   Ws/Broadcaster, Ws/Connections, Ws/RateLimit: app/ws.
--   Api/Auth: app/api/v1/auth.py, with `get_session` of app/api/deps.py. Api/Health: app/api/health.py.
--   Api/Asgi: the middleware of app/api/request_context.py, middleware.py and errors.py; an application
--     is the tree of what it sends, binds and raises. Main: app/main.py.
--   Api/Deps, Api/Errors, Api/Pagination: the files of app/api of these names. Api/Rounds, Api/Deposits,
--     Api/Fairness, Api/Histories, Api/Ws: the routes of app/api/v1, by what they serve; Api/App is the
--     state that they share. A route is a function of the authenticated user and of the fields of its
--     request; those of Api/Auth and Api/Fairness take the header `Authorization` instead of the user.
--   Tests: each theorem at a concrete input.
-- A module under one of these holds lemmas about it and is named for what they prove.
--
-- Amounts are integers of either sign; the BIGINT and CHECK constraints of a wallet's balance are
-- tested where it is written. Times are microseconds. A string that is hashed is its bytes. A
-- frozenset or a set is a list that is read by membership. A lookup that must find one row raises as
-- SQLAlchemy does where there are none or several.
--
-- Bounds and fuel: `derive_outcome` loops until HMAC output is accepted; its model takes fuel, and
-- any fuel above the number of the first round that is accepted gives the result that the code
-- returns. Each round is rejected only if all eight blocks of the digest are at the top end, so the
-- loop of the code ends with overwhelming probability, but no digest is assumed here. All other loops
-- run over lists. Decimal digits take the number itself as fuel, which is more than its digits.
--
-- A read of the clock inside PyJWT is at the time that the next read of the program gives.
--
-- Concurrency: a use case runs in one transaction, and is modelled as if no other wrote in between;
-- the rows that another relay has locked are a parameter of a pass. For the requests of one
-- Idempotency-Key the order of their transactions is modelled: a step relation lets any of them begin
-- and end its next transaction, and lets other requests change what is not a row of the key. A
-- transaction itself is one step, as UNIQUE(user_id, key) makes it for the rows of the key.
--
-- The two background tasks and the two tasks of a websocket are sequences of events: the cycles of the
-- loops in any order, and what happens to one connection, with time that passes up to the next timer.
--
-- Not modelled: what the event loop does between two awaits of a task; the routers and the slowapi
-- limits; the log format, the metrics but for the counters of requests and of rounds, the fields that a
-- route binds for the log line, and the clients of Kafka, Redis and PostgreSQL, which are calls of other
-- packages; migrations; foreign keys; the JSON text of payloads.
pub mod Prelude
pub mod Result
pub mod Exec
pub mod Rows
pub mod Domain
pub mod Events
pub mod Db
pub mod Json
pub mod Config
pub mod World
pub mod Repositories
pub mod Security
pub mod Services
pub mod Ws
pub mod Api
pub mod Main
pub mod Tests
