-- ===== src/Ecszone/Fanout.antt =====
-- internal/ecszone/fanout.go: the zones whose subnets clients used most. The parser and the printers are arguments; the map
-- of the zones is a list of its entries.
pub mod Picked
use dns_stack.Prelude.{
  ℕ, suc, ◌+◌, Bool, true, false, Option, none, some, List, [], ◌∷◌, ◌++◌, ◌&&◌, ◌||◌, not, ltb,
  leb, ◌==◌, if◌then◌else◌, length, take,
}
use dns_stack.Prelude.Sort.{sort_slice}
use dns_stack.Text.{Bytes}
use dns_stack.Text.Match.{codes, same, bytes_less}
use dns_stack.Text.Maps.{get_else, put}
use dns_stack.Netip.{Prefix, is4, masked}
use dns_stack.Ecszone.Names.{split_zone}

pub record ZoneTraffic : Type 0 where
  pub zone : Bytes
  pub subnet : Bytes
  pub queries : ℕ
  pub subnet_hits : ℕ

abbrev pub no_traffic : Bytes → ZoneTraffic
no_traffic zone = record { zone = zone; subnet = []; queries = 0; subnet_hits = 0 }

-- One subnet with its queries, added to the traffic of its zone.
unfoldable pub add_subnet : Bytes → ℕ → ZoneTraffic → ZoneTraffic
add_subnet subnet n t =
    if ltb t.subnet_hits n || (n == t.subnet_hits && bytes_less subnet t.subnet)
    then record { zone = t.zone; subnet = subnet; queries = t.queries + n; subnet_hits = n }
    else record {
      zone = t.zone;
      subnet = t.subnet;
      queries = t.queries + n;
      subnet_hits = t.subnet_hits;
    }

-- Whether the zone has a province and a carrier.
unfoldable pub is_named : Bytes → Bool
is_named zone = not (length (split_zone zone).0 == 0) && not (length (split_zone zone).1 == 0)

module _ (parse_prefix : Bytes → Option Prefix) (print_prefix : Prefix → Bytes) where
  unfoldable pub add_prefix :
      Option Prefix → Bytes → ℕ → List (Bytes × ZoneTraffic) → List (Bytes × ZoneTraffic)
  add_prefix none zone n by_zone = by_zone
  add_prefix (some p) zone n by_zone =
      if not (is4 p.addr) || not (p.bits_plus_one == 25)
      then by_zone
      else put zone
          (add_subnet (print_prefix (masked p)) n (get_else zone (no_traffic zone) by_zone)) by_zone

  -- `AddTraffic`
  unfoldable pub add_traffic :
      List (Bytes × ZoneTraffic) → Bytes → Bytes → ℕ → List (Bytes × ZoneTraffic)
  add_traffic by_zone zone subnet n =
      if is_named zone then add_prefix (parse_prefix subnet) zone n by_zone else by_zone

unfoldable pub is_busy : ℕ → ZoneTraffic → Bool
is_busy min_queries t = leb min_queries t.queries && not (length t.subnet == 0)

-- The zones that may be picked.
unfoldable pub busy_zones : ℕ → List (Bytes × ZoneTraffic) → List ZoneTraffic
busy_zones min_queries [] = []
busy_zones min_queries ((zone, t) ∷ by_zone) =
    let rest = busy_zones min_queries by_zone in if is_busy min_queries t then t ∷ rest else rest

unfoldable pub is_busier : ZoneTraffic → ZoneTraffic → Bool
is_busier a b = if a.queries == b.queries then bytes_less a.zone b.zone else ltb b.queries a.queries

unfoldable pub by_zone_name : ZoneTraffic → ZoneTraffic → Bool
by_zone_name a b = bytes_less a.zone b.zone

-- `PickFanout`
unfoldable pub pick_fanout : List (Bytes × ZoneTraffic) → ℕ → ℕ → List ZoneTraffic
pick_fanout by_zone min_queries max_zones =
    let out = take max_zones (sort_slice is_busier (busy_zones min_queries by_zone)) in
    if ltb (length out) 2 then [] else sort_slice by_zone_name out

unfoldable pub fanout_lines : List ZoneTraffic → Bytes
fanout_lines [] = []
fanout_lines (t ∷ picked) = t.zone ++ (b',' ∷ (t.subnet ++ (10 ∷ fanout_lines picked)))

-- `RenderFanout`, with the text of the number of days.
unfoldable pub render_fanout : List ZoneTraffic → Bytes → Bytes
render_fanout picked days =
    codes "# generated by dns-stack routing-data (ecs-fanout)"
    ++ (10
        ∷ (codes "# 最近 "
            ++ (days
                ++ (codes " 天客户端实际用到的分片；其中一个分片拿到按子网调度的答案时，mosproxy 替其余分片各问一次"
                    ++ (10 ∷ fanout_lines picked)))))
