-- ===== src/Tests.antt =====
-- Concrete runs: the theorems applied at inputs that meet their hypotheses.
pub mod Sample
mod Access
mod Limits
mod Window
mod Starts
mod Receipts
mod Messages
mod Channels
mod Requests
mod Retention
mod Memberships
mod Payments
mod Public
mod Clients
mod Releases
mod Quota
mod Consents
mod Pages
mod Entry
