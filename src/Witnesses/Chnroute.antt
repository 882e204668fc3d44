-- ===== src/Witnesses/Chnroute.antt =====
-- A record of APNIC, and a database that adds one block and takes half of the record away.
use dns_stack.Prelude.{
  ℕ, ◌*◌, ◌<◌, ◌≡◌, refl, Bool, true, false, Option, none, some, List, [], ◌∷◌, ltb, if◌then◌else◌,
  arith, u32_mod, max_u32, any, All,
}
use dns_stack.Text.{Bytes}
use dns_stack.Text.Match.{codes, same}
use dns_stack.Text.Maps.{get_else}
use dns_stack.Ipset.Collapse.{collapse}
use dns_stack.Ipset.Sets.{overlaps, new}
use dns_stack.Ipset.Prefix.{prefix_range}
use dns_stack.Chnroute.{parse_apnic, apnic_line}
use dns_stack.Netip.{masked, Addr, v4, Prefix, prefix_from}
use dns_stack.Ipset.Global.{dotted}
use dns_stack.Ecszone.Names.{Record}
use dns_stack.Chnroute.Plan.{run}
use dns_stack.Chnroute.Loaded.{IsEntry, is_foreign}
use dns_stack.Chnroute.Routed.{relevant, IsResult, run-IsResult}

abbrev parse_addr : Bytes → Option Addr
parse_addr s = some (v4 (if same s (codes "1.0.1.0") then dotted 1 0 1 0 else dotted 1 0 1 200))

abbrev parse_uint : Bytes → Option ℕ
parse_uint s = if same s (codes "256") then some 256 else none

abbrev too_many : ℕ → ℕ → Bool
too_many dropped before = ltb (50 * before) (100 * dropped)

abbrev lines : List Bytes
lines = codes "apnic|CN|ipv4|1.0.1.0|256|20110414|allocated" ∷ []

abbrev database : List (Prefix × Record)
database =
    (prefix_from (v4 (dotted 1 0 2 0)) 24, (codes "country_code", codes "CN") ∷ [])
    ∷ (prefix_from (v4 (dotted 1 0 1 0)) 25, (codes "country_code", codes "AU") ∷ [])
    ∷ []

parse_addr_word : (s : Bytes) (a : ℕ) → parse_addr s ≡ some (v4 a) → a < u32_mod
parse_addr_word s a h = ground arith

parse_uint_word : (s : Bytes) (n : ℕ) → parse_uint s ≡ some n → n < u32_mod
parse_uint_word s n h = ground arith

database-IsEntry : All IsEntry database
database-IsEntry = (
  (dotted 1 0 2 0, 24, refl, omega arith, omega arith),
  ((dotted 1 0 1 0, 25, refl, omega arith, omega arith), tt),
)

database_free :
    any
      (is_foreign
        (relevant parse_addr parse_uint too_many true lines false (some (some database)))
        max_u32)
      database
    ≡ false
unfolding any same get_else prefix_range masked prefix_from overlaps new collapse parse_apnic
    apnic_line
database_free = refl

run-IsResult_example :
    IsResult parse_addr parse_uint too_many true lines false
      (some (some database))
      (run parse_addr parse_uint too_many true lines false (some (some database)))
run-IsResult_example =
    run-IsResult parse_addr parse_uint too_many true lines false (some (some database))
      parse_addr_word parse_uint_word database-IsEntry database_free
