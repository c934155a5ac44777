-- ===== src/Decision.antt =====
-- crates/decision: the decision engine and the built-in validators.
pub mod Engine
pub mod Validators
