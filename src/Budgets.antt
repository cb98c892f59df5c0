-- ===== src/Budgets.antt =====
-- frontend/src/app/budgets: what a cotisation owes, and the financial operations on it.
pub mod Payments
pub mod History
pub mod Recipients
pub mod Message
pub mod Details
mod Tests
