-- ===== src/Polluted/Kept.antt =====
-- internal/polluted/polluted.go: which evidence `Run` keeps.
use dns_stack.Prelude.{ℕ, ◌+◌, ◌*◌, Bool, Option, none, some, leb, ◌==◌, if◌then◌else◌}
use dns_stack.Polluted.{Evidence, Options, is_expired}

-- An entry, unless it is older than the cutoff.
unfoldable unexpired : ℕ → ℕ → Option Evidence → Option Evidence
unexpired now max_age_days none = none
unexpired now max_age_days (some item) =
    if is_expired now max_age_days item then none else some item

-- The entry that the run starts from.
unfoldable pub start : ℕ → Bool → Bool → Option Evidence → Option Evidence
start now is_empty was_active entry =
    if is_empty
    then (if was_active
        then some (record { first_seen_at = now; last_seen_at = now; seen_count = 1 })
        else none)
    else entry

-- The evidence of an address that is seen again, or for the first time, at a second from 1970 on.
unfoldable pub seen_again : ℕ → Option Evidence → Evidence
seen_again now none = record { first_seen_at = now; last_seen_at = now; seen_count = 1 }
seen_again now (some e) = record {
  first_seen_at = if e.first_seen_at == 0 then now else e.first_seen_at;
  last_seen_at = now;
  seen_count = e.seen_count + 1;
}

-- The evidence of an address that is not seen: it stays for so many days of 86400 seconds.
unfoldable pub while_recent : ℕ → ℕ → Option Evidence → Option Evidence
while_recent now days none = none
while_recent now days (some e) = if leb now (e.last_seen_at + days * 86400) then some e else none

-- The entry that the run leaves, of a key that is observed or not.
unfoldable pub left_entry : Options → Bool → Option Evidence → Option Evidence
left_entry opt is_observed entry =
    if is_observed
    then some (seen_again opt.now entry)
    else while_recent opt.now opt.max_age_days entry
