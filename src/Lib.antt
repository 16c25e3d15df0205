-- ===== src/Lib.antt =====
-- A model of the RVPay backend, a payment platform between merchants, GoHighLevel (the CRM from
-- which payments are started) and mobile-money providers, written in Go as gRPC services on
-- PostgreSQL. Two services are modelled. The transactions service (transactions/) keeps merchants,
-- customers, deposits and payouts, and verifies payments. The clients service (clients/) keeps the
-- businesses, the platforms and the integrations between them, connects an integration by OAuth,
-- registers RVPay there as a payment provider, takes the platform's webhooks, and asks the
-- transactions service what became of a payment.
--
-- A handler (transactions/{customers,merchants,deposits,payouts,payments}/service.go,
-- clients/{service,oauth,webhooks,payments}) checks its request, calls repositories (db/repo), which
-- run queries (db/sqlc) on the tables of db/migrations, and converts rows to messages. The model has
-- the same layers, and each function has the name of the Go function:
--
--   Base/Effect               errors (repo sentinels, pgx and gRPC errors), wrapError, wrapNotFound,
--                             and calls as functions from a state to a result and a state
--   Base/Text                 strings.TrimSpace and strings.Map
--   Base/Table, Base/Rows, Base/Counts
--                             a table as a list of rows; SELECT, UPDATE, DELETE, ORDER BY on it
--   Base/Pagination           pages of a listing
--   Transactions/Model        rows, structs, messages, the database, the libraries
--   Transactions/Store/*      the queries of transactions/db/sqlc/*.sql.go
--   Transactions/Repo/*       transactions/db/repo/*_repo.go
--   Transactions/Convert      the converters and validateAmount
--   Transactions/{Customers,Merchants,Deposits,Payouts,Payments}
--                             the handlers of the five services
--   Transactions/Change       the specification: the steps that a call may make on the tables
--   Transactions/Service      all handlers as one type of calls, and runs of calls
--   Clients/Model             the tables of clients/db/migrations and the database
--   Clients/Query             the shapes that the queries of clients/db/sqlc have
--   Clients/Repo/*            clients/db/sqlc/*.sql.go and clients/db/repo/*_repo.go, by table
--   Clients/Events            the table of the webhook events, and the recording of an event
--   Clients/Errors            the translateError functions
--   Clients/Providers         clients/providers: the registry, the interfaces of a provider; below it
--                             HighLevel's webhook provider and dispatcher
--   Clients/Oauth             clients/oauth/service.go: authorization, callback, registration, tokens
--   Clients/Webhooks          clients/webhooks/service.go
--   Clients/Payments          clients/payments/service.go, on the model of the transactions service
--   Clients/Service           clients/service: the gRPC handlers and their converters
--   Clients/Http              clients/http: what the handlers answer
--   Clients/Runs              all of these as one type of calls, and runs of calls
--   Clients/Keeps             properties of the tables that operations preserve, operation by operation
--   Clients/Reports           the errors that operations return, operation by operation
--
-- The state is the database of a service: its tables, with a clock, a supply of UUIDs, and for each
-- statement whether the server refuses it. A statement that is refused does nothing; one that has run
-- stays run when the handler fails later, as no handler opens a transaction. A constraint of a table is
-- a test of the row to be inserted, with PostgreSQL's error code; a deletion removes what refers to
-- the row, or is refused, as the foreign key says. A call that is made from outside the repository
-- (UUIDs, pgtype.Numeric, the scanning of texts by pgx, JSON, base64, Ed25519) is a field of a record
-- such as Env, on which the theorems assume nothing but what they say. A provider's answers and random
-- numbers are functions of the number of calls that have been made before, so that two calls may be
-- answered differently. No function of the model needs fuel: the program's loops run over the rows
-- of a result.
--
-- Times are natural numbers of nanoseconds, and a duration is an int64 of nanoseconds, written as its
-- residue modulo 2^64, so that a lifetime given in seconds wraps around as in Go; a time before the
-- first is the first. Numerics are natural numbers that are only handed on; a float is NaN or its place among
-- the others, which is all that the comparison with zero reads. The calls of the services
-- come one after another, each run to its end: interleaved statements of concurrent calls are not
-- modelled, nor are logging, contexts and cancellation. The HTTP client of HighLevel is not modelled,
-- as its answers are those fields; nor are the earlier deposits and integrations services, start-up
-- code, and the code that protoc and sqlc generate for transport.
pub mod Base
pub mod Transactions
pub mod Clients
