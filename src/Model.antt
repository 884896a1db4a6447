-- ===== src/Model.antt =====
-- The tables of the database (the `models.py` files of deliveries, notifications and billing).
-- A moment is a number of microseconds since the epoch, a row's `id` its primary key.
mod Deliveries
mod Notices
mod Subscriptions
pub use Deliveries.*
pub use Notices.*
pub use Subscriptions.*
