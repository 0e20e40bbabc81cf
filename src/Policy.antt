-- ===== src/Policy.antt =====
-- crates/policy: rule matchers and the decision engine.
pub mod Matcher
pub mod Engine
