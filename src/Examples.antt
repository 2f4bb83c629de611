-- ===== src/Examples.antt =====
-- Runs of the theorems on concrete wallets, carts, orders, days and cohorts.
pub mod Wallets
pub mod Carts
pub mod Placements
pub mod Tools
pub mod Logins
pub mod Notices
pub mod Days
pub mod Cohorts
mod Deliveries
