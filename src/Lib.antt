-- ===== src/Lib.antt =====
-- A model of the SPI service: user accounts, tenants and dashboards behind an HTTP interface, in Go.
-- An HTTP handler of the application layer checks the token of a request, parses what it was sent
-- into the value types, and calls the business layer, which keeps its data in a store: a cache
-- before PostgreSQL. Paths below are those of the repository.
--
-- Base: what the other files share. Base/Errors has Go's errors as values: an error variable is a
--   `Sentinel`, a chain of wrappers is an `Error`, and a function ends in `ok`, `err` or `panicked`.
--   Base/State has the computations that read and write the world, a function from the world to a
--   result and the next world; the world is a parameter wherever it is used. Base/Int has 64-bit
--   integers, with the wrap-around of Go's `int` written out. Base/Strings has the functions of the
--   package strings over code points.
-- Errs: app/sdk/errs, the error codes with their names and HTTP statuses (Errs/Codes), the errors
--   that handlers return, and the check of what they are sent (Errs/Checking).
-- Types: business/types, the names, phone numbers, passwords, roles, actions and resources with
--   their parsers. A regular expression is a row of character classes with bounds (Types/Regex).
-- Sdk: business/sdk. Sdk/Page is page.Parse, Sdk/Order is order.Parse, and Sdk/Sqldb has the named
--   statements and queries over a driver, and how its errors become those of the program. Sdk/Status
--   is StatusCheck, Sdk/Opening is Open, Sdk/Queries has the other queries and
--   queryString, and Sdk/Tran is tran.go, which the methods new_with_tx of the stores use.
-- User: business/domain/userbus. User/Core has the operations of userbus.Core over any store;
--   User/Cache has the store of usercache.go, which keeps users under their id and their address in
--   a cache and asks the store behind it; User/Db and User/Db/Store have the store of userdb, with
--   its rows, filters and statements. `Storer` is the interface between them: Core takes one, and
--   both new_store functions make one. User/Cache/Coherence states what is asked of a cache and of
--   the store behind it.
-- Auth: app/sdk/auth/auth.go, which makes, verifies and checks tokens.
-- Web: business/sdk/web, the handlers, how middleware wraps them, and how an answer becomes a
--   response; the loop over the middleware runs over an index, as in wrapMiddleware. Web/Server has
--   App with its registration of routes, and ServeHTTP with the headers that it sets.
-- Mid: app/sdk/mid and app/sdk/metrics. A context is a list of keys and values (Mid/Values), a
--   middleware is a function from handlers to handlers, and a panic is an outcome of a handler.
--   Mid/Transactions has BeginCommitRollback, Mid/Logging the loggers of requests.
-- Tenant: business/domain/tenantbus. Tenant/Core has the operations over any store, with entering
--   a dashboard and granting it; Tenant/Db has the store of stores/tenantdb.go over a driver for
--   each kind of row, and Tenant/Db/Statements its SQL texts. Tenant/Db/Tables states what
--   PostgreSQL documents of these statements, in terms of the rows of memberships and of access, and
--   Tenant/Grants follows both operations down to these rows. Tenant/Db/Asked is about any driver.
-- Dashboard: business/domain/dashboardbus, with the store of stores/dashboarddb in Dashboard/Db.
-- App: app/domain, the handlers over the business layer and the middleware of their routes:
--   App/Users is userapp, App/Login is authapp and App/Dashboards is dashboardapp. A handler goes
--   through its calls with `attempt`, which is the call, the test of the error and the early return.
--   App/Models has the rules in the tags `validate` of the models that the handlers decode.
--   App/Serving is the middleware of app/sdk/mux and what App.HandlerFunc of business/sdk/web/web.go
--   registers; App/Api is WebAPI of app/sdk/mux with the routes of each group, and App/Wiring what
--   api/cmd/build/all gives them: the cached store over the database, and the tenants' store.
-- Keystore: foundation/keystore/keystore.go, the map from key ids to keys, and loading it.
--   `key_lookup` makes of it what Auth looks keys up with. A walk of a file system is the list of
--   the calls that fs.WalkDir makes.
-- Logger: foundation/logger, over the handlers of the package slog: the handler that calls the
--   functions for a level, the making of a logger and writing with it (Logger/Writing), and the build
--   information (Logger/BuildInfo).
-- Tracing: foundation/otel, the trace id and the tracer in a context; Tracing/Sampling has the sampler
--   and InitTracing.
-- Program: api/cmd/main.go, the configuration; Program/Alerts is the logger of main with its alert,
--   where a number bounds how deep the event function calls itself, and the theorem about it holds
--   for each number; Program/Running is run, with what it defers. It calls the other packages through
--   a record: Sdk/Opening, Keystore, Tracing/Sampling and App/Api are what it calls.
-- Admin: api/tooling/admin/main.go, the commands that create a user and link one to a dashboard;
--   Admin/Starting opens the database for them.
-- Tests: runs on small values, and an instance of each theorem in the list below.
--
-- Parameters stand for what is not in the repository: the JWT library, the clock, the making and
-- the texts of UUIDs, bcrypt, the cache library, the database driver, the texts of addresses and
-- times, JSON, the validator, the libraries of keys and the file system. What the theorems ask of
-- them is a named hypothesis. Loops are recursion on the list that they go through, but for the one
-- of StatusCheck, which has fuel for its attempts, and a theorem that there is enough. Go strings
-- are taken as valid UTF-8.
--
-- Not modelled: the lines that the operations log and the spans that they open, the mux that picks a
-- route, other deadlines than that of StatusCheck, reading the environment and the flags of the
-- commands, the copy of the array support of lib/pq, and the schema of the database.
pub mod Base
pub mod Errs
pub mod Types
pub mod Sdk
pub mod User
pub mod Auth
pub mod Web
pub mod Mid
pub mod Tenant
pub mod Dashboard
pub mod App
pub mod Keystore
pub mod Admin
pub mod Logger
pub mod Tracing
pub mod Program
pub mod Tests
