-- ===== src/Granter.antt =====
-- plan and simplify of lib/src/policy/granter.ts: the model is in Model and Plan.
pub mod Model
pub mod Plan
pub mod Records
pub mod Conjunction
pub mod Last
pub mod Splits
pub mod Errors
mod Tests
