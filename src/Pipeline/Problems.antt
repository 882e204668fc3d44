-- ===== src/Pipeline/Problems.antt =====
-- internal/pipeline/watchdog.go: what is wrong with the routing. Go's regular expressions are arguments: does a pattern
-- match in a text, and a text as a pattern.
use dns_stack.Prelude.{
  ℕ, ◌*◌, ◌/◌, Bool, none, some, List, [], ◌∷◌, ◌++◌, ◌&&◌, not, ltb, leb, if◌then◌else◌,
}
use dns_stack.Text.{Bytes}
use dns_stack.Text.Match.{codes, contains, cut_prefix}
use dns_stack.Text.Maps.{get_else}
use dns_stack.Pipeline.Nft.{nft_table_blocks, count_nft_elements}

pub record WatchdogConfig : Type 0 where
  pub direct_set : Bytes
  pub authority_set : Bytes
  pub fw_mark : Bytes
  pub min_entries : ℕ
  pub max_repairs : ℕ
  pub auth_ratio : ℕ
  pub fail_closed : Bool

pub record SetSizes : Type 0 where
  pub direct : ℕ
  pub authority : ℕ
  pub authority_baseline : ℕ

pub record RoutingSnapshot : Type 0 where
  pub nft_table : Bytes
  pub ip_rules : Bytes
  pub baseline : ℕ

pub data Problem : Type 0 where
  no_marking no_nat no_rule no_prohibit direct_set_small authority_set_small : Problem

unfoldable pub direct_too_small : WatchdogConfig → SetSizes → Bool
direct_too_small w s = ltb s.direct w.min_entries

unfoldable pub authority_too_small : WatchdogConfig → SetSizes → Bool
authority_too_small w s =
    leb 20 s.authority_baseline && ltb s.authority (s.authority_baseline * w.auth_ratio / 100)

-- `problems = append(problems, p)` under a condition
abbrev pub when : Bool → Problem → List Problem
when b p = if b then p ∷ [] else []

module _ (matches : Bytes → Bytes → Bool) (quote_meta : Bytes → Bytes) where
  unfoldable pub mark_pattern : WatchdogConfig → Bytes
  unfolding cut_prefix
  mark_pattern w =
      let mark : Bytes = elim (cut_prefix w.fw_mark (codes "0x")) [
        | none ↦ w.fw_mark
        | some rest ↦ rest
      ] in
      codes "0x0*" ++ quote_meta mark ++ codes "\\b"

  unfoldable pub sizes : WatchdogConfig → RoutingSnapshot → SetSizes
  unfolding nft_table_blocks count_nft_elements get_else
  sizes w snap =
      let blocks = nft_table_blocks snap.nft_table in
      record {
        direct = count_nft_elements matches (get_else (codes "set " ++ w.direct_set) [] blocks);
        authority =
            count_nft_elements matches (get_else (codes "set " ++ w.authority_set) [] blocks);
        authority_baseline = snap.baseline;
      }

  unfoldable pub problems : WatchdogConfig → RoutingSnapshot → List Problem
  unfolding sizes mark_pattern direct_too_small authority_too_small nft_table_blocks get_else
  problems w snap =
      let mark = mark_pattern w in
      let blocks = nft_table_blocks snap.nft_table in
      let nat = get_else (codes "chain postrouting") [] blocks in
      when
        (not (matches (codes "meta mark set " ++ mark) (get_else (codes "chain output") [] blocks)))
        no_marking
      ++ when (not (matches mark nat && contains nat (codes "masquerade"))) no_nat
      ++ when (not (matches (codes "fwmark " ++ mark) snap.ip_rules)) no_rule
      ++ when
          (w.fail_closed
            && not (matches (codes "fwmark " ++ mark ++ codes " prohibit") snap.ip_rules))
          no_prohibit
      ++ when (direct_too_small w (sizes w snap)) direct_set_small
      ++ when (authority_too_small w (sizes w snap)) authority_set_small
