-- ===== src/Lib.antt =====
-- The ioka flight booking service: an agent searches for flights, books an offer, and issues the
-- order's ticket against its balance.
--
-- Parts and files (paths from the repository's root):
-- - Domain, Exceptions, Models, Schemas: the data. Domain/Enums, Domain/Provider and
--   Domain/Calendar are app/domain/enums.py, app/domain/provider.py and the instants of
--   app/application/common.py; Exceptions is app/exceptions.py with a result type for what
--   raises; Models is app/infrastructure/models.py, the rows and the database `Db` as its
--   tables; Schemas is app/schemas.py, the bodies and their dumps.
-- - RequestHash: `request_hash` of app/application/common.py, with the sorting of the keys. The
--   services take the hash as a parameter.
-- - Audit: app/infrastructure/audit.py. Each function appends one row.
-- - Cache, Broker: app/infrastructure/cache.py and app/infrastructure/broker.py.
-- - Search: app/application/search.py. Search/Start is `start` and `get`; Search/Process is
--   `process`: `begin_search` its first session, `finish_search` the storing session with the
--   `except` branch (`fail_search`). Search/Worker is app/worker.py, which hands the queue's
--   messages to `process`. The children of Start and Process hold the proofs.
-- - MockProvider: app/infrastructure/mock_provider.py, an instance of the provider's record; its
--   children hold the proofs.
-- - Security: app/security.py. Security/Base64 is `_b64encode` and `_b64decode`,
--   Security/Password is `hash_password` and `verify_password`, Security/Claims the JSON values
--   of a token and Security/Token `create_access_token` and `decode_access_token`. Token/Decode
--   is about tokens of the service's own, Token/Accepted and Token/Refused about all. Bytes
--   holds the operations on bytes and text that these use.
-- - Dependencies: app/api/dependencies.py, the agent that a request's token names.
-- - Schemas/Validation, Schemas/Responses: the constraints and validators of the request bodies,
--   and the response bodies, of app/schemas.py.
-- - Locations: app/infrastructure/locations.py. Main: app/main.py, the default agent and the
--   answer to an `AppError`. Config: app/config.py, the settings and their defaults.
-- - Application: `lifespan` of app/main.py with `create_schema` of
--   app/infrastructure/database.py, and the program as a whole. Application/Steps lets all
--   sessions interleave on one database: those of searches, orders and issues, the check of a
--   request's token, and the start of other processes. Application/Writes is the list of the
--   INSERTs and UPDATEs that a session may send, each with what is known of it then; its
--   children show each session to be a sequence of them, and Application/ForeignKeys, Uniqueness
--   and History what such writes keep. Application/Standing is about what a request that waits
--   has read; Application/Reachable and Application/Money say what holds in every state that is
--   reached.
-- - Tickets: app/application/tickets.py, the guard and the table, and in Tickets/Document the
--   document that a library draws.
-- - Routes: app/api/routes.py. Routes/Login is `login`, Routes/Handlers the handlers that hand a
--   request on to a service, and Routes itself those that make something of its answer.
--   Routes/Answers shows what an agent gets from them after the services' work, Routes/Progress
--   that a search ends, Routes/Handlers/Started what a request for a search leaves, and
--   Routes/Handlers/Orders what an agent's further requests for an order answer.
-- - Booking: app/application/booking.py. Booking/Idempotency is `_idempotent_order`,
--   Booking/Create is `create_order` and `get_order`, Booking/Issue is the first session of
--   `issue_order`, Booking/Settle its second session, `_release_hold` and `issue_order` itself.
--   Booking/Ledger holds the invariant of agents, orders and balance transactions and the money
--   a database accounts for; its children show it of each session. Booking/Concurrent lets the
--   sessions of many requests interleave: a request that waits for the provider is a flight.
--   Booking/Concurrent/Flying and Exclusive are about schedules in which no two flights share an
--   order, Lapse about one that does, Solvent about balances that never fall below zero,
--   Sequential about `issue_order` on its own.
--
-- State and sessions. A session of SQLAlchemy is a function on `Db`; its writes are there after
-- its commit, all or none, so a session that raises gives the database back. The sessions of
-- `issue_order` read their rows with FOR UPDATE, so each is one step. A unique column is a test
-- where a row is written. Foreign keys are no tests: SQLite, the default of app/config.py, does
-- not enforce them unless told to. `Result` is what a call returns or raises: the classes of
-- app/exceptions.py, and `integrity_error` for an IntegrityError that reaches the caller.
--
-- Parameters. The airline provider is a record of operations on a state of its own, and an
-- answer is returned, raised or timed out; a theorem on `issue_order` or `create_order` holds
-- for every provider. The hash of a request body is a function on its JSON. The clock, the
-- measured duration and a new row's uuid are drawn before a call, as a `Moment`; the uuids of a
-- search's offers are a function on their positions. Redis, the `json` library and the message
-- broker are records of operations, each answered or broken; the text of an IntegrityError is a
-- parameter. The service relies on Redis to give back what was written within its time to live,
-- and on `json` to read what it wrote.
--
-- Of the libraries for text and secrets, PBKDF2, HMAC, `json` for tokens, `int()` of a text and
-- the methods of `str` that read the Unicode tables are parameters. Their laws are named where
-- they are used: a digest is bytes, a dump is ASCII and is read back, an ASCII text keeps its
-- length in upper case and does not grow when stripped. The salt of a hash and the `jti` of a
-- token are drawn before a call. Texts have no lone surrogates.
--
-- Numbers. Money is in whole hundredths, an integer with a sign; Python's integers have no
-- width, so nothing wraps around. No definition takes fuel: every loop is over a list or a text.
--
-- Not modelled: SQLAlchemy, the width of columns and indexes; the reading of JSON into typed
-- fields by pydantic, routing and streaming by FastAPI, the drawing of the PDF; reading the
-- environment, the engine, `get_session`, the shutdown of the application and the migrations,
-- which wire frameworks; the delays of the mock provider.

pub mod Prelude
pub mod Bytes
pub mod Json
pub mod RequestHash
pub mod Domain
pub mod Exceptions
pub mod Models
pub mod Audit
pub mod Schemas
pub mod Cache
pub mod Broker
pub mod MockProvider
pub mod Security
pub mod Dependencies
pub mod Locations
pub mod Booking
pub mod Search
pub mod Tickets
pub mod Routes
pub mod Main
pub mod Config
pub mod Application
pub mod Fixture
