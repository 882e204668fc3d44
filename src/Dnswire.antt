-- ===== src/Dnswire.antt =====
-- The package internal/dnswire: DNS messages, built and parsed.
pub mod Reader
pub mod Reads
pub mod Name
pub mod Message
pub mod Query
pub mod BuildQuery
pub mod Ecs
pub mod Gives
pub mod Records
pub mod Unpacked
pub mod Types
