-- ===== src/Cidrutil.antt =====
-- The package internal/cidrutil: spans of addresses of either family, as unbounded integers.
pub mod Merge
pub mod Combine
pub mod Subtract
pub mod Membership
pub mod Contains
pub mod Blocks
pub mod Load
pub mod Prefixes
