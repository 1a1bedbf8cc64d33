-- ===== src/Paper.antt =====
-- paper.rs: the simulated exchange. Its data, what it computes from an engine, its orders and its
-- fills.
mod Examples
pub mod State
pub mod Amounts
pub mod Steps
pub mod Validate
pub mod Orders
pub mod Fills
pub mod Matching
pub mod FlattenPlan
pub mod Flatten
pub mod Invariant
