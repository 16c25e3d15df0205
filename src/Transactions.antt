-- ===== src/Transactions.antt =====
-- The transactions service (transactions/): its data, queries, repositories and handlers, and the
-- specification of what a call may do to its tables.
pub mod Model
pub mod Store
pub mod Repo
pub mod Convert
pub mod Customers
pub mod Merchants
pub mod Deposits
pub mod Payouts
pub mod Payments
pub mod Change
pub mod Service
pub mod Tests
