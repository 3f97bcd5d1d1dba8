-- ===== src/Lib.antt =====
-- A model of the asb-cloud-api service (the Python package asb_api): scraping behind API keys, rate
-- limits, sessions, worker pools and proxy providers. The functions of the source are translated to
-- functions of the same names, with the state as an argument and a result.
--
-- A request passes the key check (Auth), the URL check (Security), the rate limiter (RateLimit) and
-- the session store (Sessions), gets a worker of its region (Pool), which gets a proxy from a
-- provider (Providers) and a fingerprint (Fingerprint) and runs the browser (Worker); the routes
-- that put this together are in Scrape. Errors become responses in Http. Stripe's events (Webhook)
-- change the tiers of the keys in Postgres (Accounts), after the checkouts of Billing. With a
-- database, the stores of Database take the place of those in memory. Startup and Providers/Registry
-- choose the parts, Startup/Service puts the database, the providers and the workers together as
-- they start and stop, Runner drives the browser, and Client calls the service.
--
-- Files and sources:
--   Base, Base/*            equality, dicts, lists over native numbers, signed integers, text
--   Http, Http/Shape        asb_api/api/errors.py and the exceptions of asb_api/api/rate_limiter.py
--   Auth, Auth/Keys         asb_api/api/auth.py, `InMemoryKeyStore` and `get_api_key`
--   RateLimit, RateLimit/*  asb_api/api/rate_limiter.py, `SlidingWindowLimiter`
--   Pool, Pool/*            asb_api/workers/pool.py, `RegionWorkerPool`
--   License, License/Keys   asb_api/billing/license.py and asb_api/api/routes/licenses.py
--   Providers               asb_api/providers/base.py and null.py
--   Providers/Custom        asb_api/providers/custom.py
--   Providers/Breaker, /*   asb_api/providers/health.py
--   Providers/Decodo, /*    asb_api/providers/decodo.py
--   Sessions, Sessions/*    asb_api/session/store.py and asb_api/api/routes/sessions.py
--   Models                  asb_api/session/models.py
--   Fingerprint             asb_api/fingerprint/generator.py
--   Worker, Worker/*        asb_api/workers/worker.py
--   Usage, Usage/Daily      asb_api/api/usage.py
--   Security, Security/Urls asb_api/security.py
--   Scrape, Scrape/*        asb_api/api/routes/scrape.py
--   Accounts, Accounts/Tiers asb_api/db/auth_store.py
--   Webhook, Webhook/*      asb_api/api/routes/webhooks.py
--   Accounts/Listing        the list of the keys in asb_api/db/auth_store.py
--   Sessions/Spec, /*       the contract of a session store, and asb_api/session/store.py under it
--   Database/Sessions, /*   asb_api/db/session_store.py
--   Database/Usage, /*      asb_api/db/usage.py and asb_api/jobs/daily_rollup.py
--   Database/Limiter, /*    asb_api/db/rate_limiter.py
--   Client, Client/*        clients/python/asb_client
--   Runner, Runner/*        asb_api/workers/asb_runner.py, `start` and `stop` of worker.py
--   Providers/Registry, /*  asb_api/providers/__init__.py, brightdata.py, and asb_api/__main__.py
--   Billing, /Purchases     asb_api/billing/__init__.py, asb_api/api/routes/checkout.py, billing.py
--   Startup, Startup/*      asb_api/__main__.py
--   Database/Connection     class `Database` of asb_api/db/connection.py
--   Database/Migrations, /* `run_migrations` of asb_api/db/connection.py
--   Database/Audit          asb_api/db/audit.py
--   Settings, /Variables    asb_api/config.py
--   Usage/Route             asb_api/api/routes/usage.py
--   Pool/Single             asb_api/workers/pool.py, `WorkerPool`
--   Pool/Lifecycle          `start_all` and `stop_all` of asb_api/workers/pool.py
--   Providers/Status        asb_api/api/routes/health.py
--   Client/Commands         clients/cli/asb_cli/cli.py
--   Admin                   asb_api/admin.py
--   Security/Settings       the configuration in asb_api/security.py
--   Security/Redaction      redact_url_for_logging of asb_api/security.py
--   Tests, Tests/*          the theorems at concrete inputs
--
-- Conventions. Times are in microseconds from the epoch, where the source has floating seconds;
-- lifetimes and windows stay in seconds. A cutoff before the epoch is the epoch, since no time is
-- before either. Dicts are association lists in insertion order. An exception is a value of `Exc` in a
-- `Result`. What runs under a lock is one step; between locks the tasks interleave, which Pool/Leases
-- models as a step relation. Every loop of the source is structural recursion, so no fuel is used.
-- The queries for a date take what asyncpg makes of its text as an argument (Database/Usage/Dates).
-- A store in memory does not raise in the body of a scrape; the worker may.
--
-- A table of Postgres is the list of its rows and a statement is one step; the columns are those of
-- the migrations in asb_api/db/connection.py.
--
-- Parameters: SHA-256, HMAC-SHA256, Fernet, json, `urlparse`, `ipaddress` and the resolver, the
-- answers of the Decodo and Brightdata APIs, Stripe's signature check and its calls, the browser, the
-- HTTP library of the client, asyncpg's pool, Playwright, the tries for the advisory lock, the
-- environment, the random tokens and the clock. Startup/Service takes the making of the default key
-- and the starts and stops of the providers as arguments, whatever these do.
--
-- Not modelled: the parse of the configuration file and of command lines, log lines, the making of the
-- web server, and the node client.
pub mod Admin
pub mod Base
pub mod Http
pub mod Auth
pub mod RateLimit
pub mod Pool
pub mod License
pub mod Providers
pub mod Sessions
pub mod Models
pub mod Fingerprint
pub mod Worker
pub mod Usage
pub mod Security
pub mod Scrape
pub mod Accounts
pub mod Webhook
pub mod Database
pub mod Settings
pub mod Startup
pub mod Billing
pub mod Runner
pub mod Client
pub mod Tests
