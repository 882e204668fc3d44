-- ===== src/Pipeline.antt =====
-- internal/pipeline: the watchdog of the routing.
pub mod Nft
pub mod Problems
pub mod Watchdog
