-- ===== src/Ecszone.antt =====
-- internal/ecszone/ecszone.go: the zones, a province and a carrier, by which answers to a client subnet are kept.
pub mod Names
pub mod Rows
pub mod Intersections
pub mod Merge
pub mod Marked
pub mod Parts
pub mod Assigned
pub mod Build
pub mod Publish
pub mod Rendered
pub mod Direct
pub mod Writable
pub mod Table
pub mod Fanout
