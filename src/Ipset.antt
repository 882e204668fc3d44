-- ===== src/Ipset.antt =====
-- The package internal/ipset: sets of IPv4 addresses as collapsed lists of ranges.
pub mod Collapse
pub mod Subtract
pub mod Sets
pub mod Prefix
pub mod Global
pub mod Count
pub mod Lookup
pub mod Queries
pub mod Addresses
pub mod Load
