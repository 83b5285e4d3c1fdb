-- ===== src/Witnesses.antt =====
-- Runs on a small database: two unpaid invoices of a suspended customer with a reseller.
pub mod Sample
pub mod Billing
pub mod Gateway
pub mod Partners
pub mod Plant
pub mod Field
pub mod Lifecycle
pub mod Accounts
pub mod Sales
