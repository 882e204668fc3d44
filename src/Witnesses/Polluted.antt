-- ===== src/Witnesses/Polluted.antt =====
-- Two lines with one address, and evidence for it and for an address that is no longer seen.
use dns_stack.Prelude.{ℕ, ◌≡◌, refl, true, List, [], ◌∷◌, Option, some, none, if◌then◌else◌}
use dns_stack.Text.{trim_space, Bytes}
use dns_stack.Text.Match.{codes, same}
use dns_stack.Text.Maps.{get_else, put}
use dns_stack.Netip.{Addr, v4}
use dns_stack.Ipset.Global.{dotted}
use dns_stack.Polluted.{
  count_lines, observed_keys, run_on_nil, run_on, Evidence, Options, text, missing, nil_map, panics,
  old_keys, parsed_lines, run,
}

abbrev known : Bytes
known = codes "8.8.8.8"

abbrev parse_known : Bytes → Option Addr
parse_known line = if same line known then some (v4 (dotted 8 8 8 8)) else none

abbrev print_known : Addr → Bytes
print_known addr = known

abbrev opt : Options
opt = record { max_age_days = 1; min_observations = 2; now = 90000; has_cidr_out = true }

abbrev seen_at : ℕ → Evidence
seen_at time = record { first_seen_at = time; last_seen_at = time; seen_count = 1 }

abbrev stored : List (Bytes × Evidence)
stored = (known, seen_at 10) ∷ (codes "1.1.1.1", seen_at 5) ∷ []

abbrev lines : List Bytes
lines = known ∷ codes "x" ∷ known ∷ []

test_panics : run parse_known print_known opt (text lines) nil_map missing ≡ panics
unfolding run run_on run_on_nil old_keys observed_keys count_lines parsed_lines same trim_space put
    get_else
test_panics = refl
