-- ===== src/Witnesses.antt =====
-- The theorems at concrete inputs, and runs of the definitions.
mod Anycast
mod Ipset
mod Cidrutil
mod Dnswire
mod Cdn
mod Chnroute
mod Config
mod Ecszone
mod Helper
mod Pipeline
mod Polluted
mod Ruleset
mod Types
mod Zones
