-- ===== src/Spans.antt =====
-- Address ranges as the packages ipset and cidrutil keep them: a low and a high end, both
-- inclusive. The set of addresses that a list of ranges stands for, and the normal form of lists.
mod Defs
mod Normal
mod Order
unfoldable pub use Defs.*
unfoldable pub use Normal.*
unfoldable pub use Order.*
