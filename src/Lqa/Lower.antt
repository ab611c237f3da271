-- ===== src/Lqa/Lower.antt =====
-- The lowering of the syntax tree to the algebra (crates/polygraph/src/lqa/lower.rs).
pub mod Outcomes
pub mod State
pub mod Terms
pub mod Items
pub mod Ranges
pub mod Folding
pub mod Steps
pub mod Queries
pub mod Progressions
pub mod Yields
pub mod Writes
pub mod Actions
pub mod Walks
pub mod Splits
pub mod Unions
pub mod Updating
pub mod Columns
pub mod Cases
pub mod Total
mod Examples
