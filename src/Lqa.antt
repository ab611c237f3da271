-- ===== src/Lqa.antt =====
-- The Logical Query Algebra (crates/polygraph/src/lqa).
pub mod Kind
pub mod Syntax
pub mod Write
pub mod Normalize
pub mod Aggregates
pub mod Bag
pub mod Lower
mod Examples
