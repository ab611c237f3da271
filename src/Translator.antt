-- ===== src/Translator.antt =====
-- The checks and helpers of the translator on the abstract syntax
-- (crates/polygraph/src/translator/cypher).
pub mod Aggregation
pub mod Collect
pub mod Scans
pub mod Unions
pub mod Scope
pub mod Validate
pub mod Substitution
pub mod References
pub mod CollectUnwind
mod Examples
pub mod Opaque
pub mod Quantifiers
