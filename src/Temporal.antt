-- ===== src/Temporal.antt =====
-- Dates, times and durations folded while a query is translated
-- (crates/polygraph/src/translator/cypher/temporal.rs).
pub mod Calendar
pub mod Weeks
pub mod Text
pub mod Truncation
pub mod Durations
mod Examples
