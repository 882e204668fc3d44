-- ===== src/Helper.antt =====
-- internal/helper: what the privileged helper lets through.
pub mod Validate
pub mod Json
pub mod Auth
