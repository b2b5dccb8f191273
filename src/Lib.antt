-- ===== src/Lib.antt =====
-- The core logic of the FastAPI template, as a shallow embedding.
--
-- The application (app/) is a set of bounded contexts over one database. Endpoints and Celery
-- tasks open a database session, call a service, which changes rows and commits, and publish
-- events on a bus. The development models the billing context with the intake of Stripe's
-- webhooks, the notifications of users by inbox, mail, live socket and webhook, three request
-- guards and the order of two layers, the tenant filter of the database, sign-in, tokens, second
-- factors, users and API keys, pages and files, and beside the application its Kubernetes operator
-- (operator/) and the check of API changes (scripts/). An event reaches the
-- inbox (Notifications.Dispatch) and the webhooks (Webhooks.Dispatch) under the preferences of its
-- user; the signatures of webhooks, out to subscribers and in from Stripe, are Signing's.
--
-- Prelude: what all modules share, names of the libraries and helpers on lists, options and
--   numbers.
-- Billing.Model: the rows of app/billing/models. Billing.Status: the two transition tables
--   and the documented diagram as a step relation.
-- Billing.Session: the database session (app/core/database.py), the queries of app/billing/crud,
--   the event bus (app/events/base.py), and the monad of a service call, which passes the state
--   and raises errors. A World is what is stored, what the session sees, and the events that were
--   published; `commit` makes the session durable if the unique indexes of the models admit it.
--   Session.Rows and Session.Unique hold the lemmas on rows and indexes.
-- Billing.Dunning (app/billing/services/dunning.py), Billing.Invoicing (services/invoicing.py),
--   Billing.Usage (services/usage.py), Billing.Proration (services/billing.py), Billing.Checkout
--   and Billing.Stripe (services/stripe_events.py, and the end of api/endpoints/stripe.py),
--   Billing.Stripe.Intake (the start of it, with the signature), Billing.Endpoints
--   (api/endpoints/subscriptions.py), Billing.Endpoints.Invoices (api/endpoints/invoices.py),
--   Billing.Tasks (app/tasks/invoicing.py and app/tasks/dunning.py), Billing.Quota
--   (app/billing/api/deps.py): one function for each of the source's, under its name where that is
--   no keyword or name of the service (`void` is void_invoice, and void_tenant_invoice at the API).
--   Billing.Json is the JSON of an inbound event.
-- Webhooks.Delivery: app/notifications/tasks/webhook.py, and the backoff of
--   app/notifications/services/webhook.py. Webhooks.Dispatch: `handle_event` of that file,
--   app/notifications/crud/webhook.py and the endpoints webhooks.py.
-- Signing: app/core/signing.py.
-- Notifications.Inbox: the inbox of app/notifications/crud/notification.py and its endpoints.
--   Notifications.Dispatch: the preferences there and app/notifications/services/notifications.py.
-- Websocket: app/websocket/manager.py, as a registry and the steps that hold its lock, which
--   Websocket.History puts in any order.
-- Cms: the pages of app/crud/cms.py and app/api/endpoints/cms.py.
-- Files: app/api/endpoints/files.py, app/crud/file.py and app/storage/local.py.
-- Middleware.IpAccess.Rules: app/identity/api/endpoints/tenant_ip_rules.py and
--   app/identity/crud/tenant_ip_rule.py.
-- Middleware.RateLimit: app/core/rate_limiter.py and app/middleware/redis_rate_limit.py.
-- Middleware.Csrf and Middleware.IpAccess: app/middleware/csrf.py and tenant_ip_access.py.
-- Middleware.Stack: app/middleware/tenant.py and the order of its layer and that of the IP rules in
--   app/main.py.
-- Database: the tenant filter of app/core/database.py, over statements with plain tables and
--   joins, rows and what a statement does to them. The look-ups of users and of pages apply it too,
--   under the tenant of the request.
-- Events: the events of app/events/base.py as texts, and the handlers and the loop of
--   app/events/redis_streams.py.
-- Operator: operator/handlers.py, of which Operator.Objects has the builders. Operator.Wiring is on
--   the objects that are built together, and Operator.Reconcile on the calls of the API.
-- Openapi: scripts/check_api_breaking.py; Openapi.Report, Openapi.Served and Openapi.Compatible are
--   its lemmas on changes, endpoints and schemas.
-- Crud: the generic queries of app/crud/base.py and the pages of app/utils/pagination.py.
-- Identity.Blacklist and Identity.Sessions: app/core/jwt_blacklist.py. Identity.Security:
--   app/core/security.py. Identity.Totp: app/identity/auth/totp.py. Identity.Enrolment:
--   app/identity/api/endpoints/totp.py. Identity.Access: app/api/deps.py
--   and app/identity/auth/permissions.py. Identity.Login and Identity.Oauth:
--   app/identity/api/endpoints/auth.py. Identity.Keys and Identity.Users: the endpoints api_keys.py
--   and users.py beside it. Identity.Model is their rows, Identity.Call the state of a call.
--
-- The child modules of a part prove its properties; the modules named Tests hold concrete rows
-- and the theorems at them.
--
-- Time is a natural number of microseconds (seconds for webhooks and tokens), and a parameter
-- wherever the code reads the clock. Money is in integer cents. Ids only count by equality.
-- Python's floats, Redis and its sorted sets, HMAC, JWT, bcrypt, SHA-256, pyotp, base64, Markdown,
-- the OAuth providers, Starlette, the API of Kubernetes, `kopf.adopt`, event handlers and XACK,
-- JSON's reader and writer, the addresses of `ipaddress`, `str` and `int` of a JSON value or a
-- text, the answer of PermissionChecker for an invoice and the webhook's endpoint are parameters,
-- records of operations with the laws that are relied on. `kopf.adopt` may return no object.
-- The queue of mails and deliveries and the live sockets are known by what they refuse.
-- An event bus is known by the events whose publication it refuses. Every loop runs over a list,
-- so no definition takes fuel; the retries of a webhook run over the list of the queue's runs.
--
-- Not modelled: concurrent sessions (a row cannot change between the reads and the commit of one
-- call), the queues and brokers, HTTP, templates, logging and metrics; signatures that are not
-- ASCII, on which `hmac.compare_digest` raises; WebAuthn; the other storages, the stream of an
-- upload's progress, categories and tags, GraphQL, the admin pages; the Kafka bus; compression and
-- the layers that only add headers or log; deployment, the other scripts, the command line, backups
-- and migrations, which are I/O and configuration. Exports, the import of users and updates by
-- field names are left out.
pub mod Prelude
pub mod Signing
pub mod Billing
pub mod Webhooks
pub mod Middleware
pub mod Notifications
pub mod Websocket
pub mod Identity
pub mod Cms
pub mod Database
pub mod Events
pub mod Files
pub mod Openapi
pub mod Operator
pub mod Crud
