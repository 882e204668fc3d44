-- ===== src/Ruleset.antt =====
-- internal/ruleset/ruleset.go: which prefixes are routed directly, and which get a client subnet.
pub mod Setup
pub mod Events
pub mod Outcome
pub mod Build
pub mod Order
pub mod Agreement
pub mod Causes
pub mod Reach
pub mod Routes
