-- ===== src/Lib.antt =====
-- Javi: delivery notifications for small shops. A shop enters deliveries, starts one, and the
-- recipient gets a message with an ETA and a tracking link, later a request for a rating; the
-- merchant may get webhooks. These modules model the Python code behind that and prove what makes
-- it correct.
--
-- How the parts interact: a request (a view, an API call or a task callback) runs one operation
-- of deliveries/services.py. An operation that sends a message first asks notifications/quotas.py
-- (reserve_send), which asks billing/services.py whether the shop has access, and logs the send;
-- then the provider is called, and the outcome is recorded on the notification. Tasks (rating
-- request, escalation, webhooks) go to the task queue.
--
-- - Prelude: tests on numbers and texts, rows of a table (first, any, select, count,
--   update_where).
-- - Model: the tables (deliveries/models.py, notifications/models.py, billing/models.py). A
--   moment is a number of microseconds, a coordinate a number of 1e-7 degrees.
-- - Env: what the program takes from outside: settings, clock, time zone, generators, providers
--   (integrations/base.py), the task queue. Every call has a number, so two calls may answer
--   differently. No law of these is assumed but what a theorem names.
-- - World, Exec, Runtime: the state of a request (database, messages sent, tasks queued, calls
--   made), code that may raise, and the calls that leave the process. transaction.atomic restores
--   the database when its block raises, and nothing else. A row lock (select_for_update) is
--   modelled by taking a transaction as one step.
-- - Quotas: notifications/quotas.py.
-- - Billing: billing/services.py, the access of a shop. Memberships has the events of Whop
--   memberships, with the readers of billing/whop.py; a time that whop.when cannot read raises.
--   Api has the requests to Whop, Payments a payment and a refund, Sync the reading of
--   memberships, Signature and Webhook the webhook of billing/views.py, Sound what all of these
--   keep of the tables, Report the month's report, Checkout the start of a subscription.
-- - Timewindow: common/timewindow.py.
-- - Webhooks: notifications/outbound.py and the payload of an event.
-- - Deliveries: deliveries/services.py. Start has start_delivery as three parts, in order: before
--   the lock (check_start), the transaction (commit_start), after the commit (finish_start).
-- - Secrets: common/secrets.py. Receipts: notifications/webhooks.py (delivery and seen receipts;
--   Optouts has the opt-outs by STOP) and notifications/services.py.
-- - Interleaving (under Deliveries.Start): requests that start deliveries at the same time;
--   Turns, Sound and Served have what becomes of one of them.
-- - Messages (under Deliveries): the operations of deliveries/services.py that come after the
--   start: Resend, Rating (Paired: its messages; Once: its callbacks). Edit has the origin of a
--   shop, a new delivery and the edit.
-- - Retention: deliveries/retention.py. Batches has the lemmas on rows, Loops what a loop does
--   with a deadline or without, Erase and Purge the three loops, Runs the whole, Service its
--   entry.
-- - Channels: integrations/chained.py and integrations/providers.py. Ratelimit:
--   common/ratelimit.py. ClientIp: common/client_ip.py.
-- - Callbacks: tasks/views.py. Api: deliveries/api.py, the requests about one delivery, scoped to
--   the shop of the key: Keys how a key lets a request in, Create the creation under an
--   Idempotency-Key (Again: the request sent again; Twice: two requests with one key), Lists the
--   list and the profile, Others what a request leaves alone, which rests on Start.Reach and
--   Messages.Resend.Reach.
-- - Lockout: accounts/lockout.py, over Ratelimit. Tracking: tracking/views.py; Requests has the
--   requests that change nothing, Ratings what a rating changes.
-- - Changelog: changelog.py, its parser; Parts and Keeps have what each line keeps, WellFormed
--   what an accepted file is.
-- - Providers: integrations/metering.py, cache.py and usage.py; Usages has what a message adds to
--   the quotas, Geocodes what the cache answers later (Others: what a request for another address
--   leaves of it).
-- - Telegram: telegram_webhook of notifications/webhooks.py and integrations/telegram.py;
--   Contacts has what a request adds to the table, Shared which requests add to it, Consent who
--   gets the messages.
-- - Pages: deliveries/views.py and deliveries/forms.py. Forms has the clean methods, Deliveries
--   the POSTs about a delivery (Isolated: whom they reach; Unchanged: the form sent back as it
--   was shown), Keys the API keys that a shop makes and revokes, Store the profile, Board what a
--   shop sees.
-- - Tests: the theorems at concrete inputs.
--
-- A model object is a copy of its row, as in Django: an operation takes the object, returns it
-- changed, and writes the fields of save(update_fields=...) to the row. A table keeps its newest
-- row first.
--
-- Only the loops of the purge take fuel, since they go on while rows are due: the fuel is one
-- more than the rows that are due, since each batch takes one at least. Every other loop runs
-- over a list.
--
-- Not modelled: the templates and what the pages show of a form, the checks of single form
-- fields, sign-up and passwords (Django's own), the release of a changelog, visit counts,
-- settings and command-line entry points, the text of messages after gettext, the JSON and HMAC
-- of webhooks, logging. The order of rows with one created_at is not specified by the source
-- either.
mod Prelude
pub mod Model
pub mod Env
pub mod World
pub mod Exec
pub mod Runtime
pub mod Billing
pub mod Quotas
pub mod Timewindow
pub mod Webhooks
pub mod Deliveries
pub mod Secrets
pub mod Receipts
mod Tests
pub mod Channels
pub mod ClientIp
pub mod Ratelimit
pub mod Retention
pub mod Callbacks
pub mod Api
pub mod Lockout
pub mod Tracking
pub mod Changelog
pub mod Providers
pub mod Telegram
pub mod Pages
