-- ===== src/Polluted.antt =====
-- internal/polluted/polluted.go: which addresses of polluted answers stay active, and the evidence for them. The text of an
-- address and its parser are arguments. Times are seconds from 1970 on, none before.
pub mod Observed
pub mod Kept
use dns_stack.Prelude.{
  ℕ, ◌+◌, ◌*◌, Bool, true, false, Option, none, some, List, [], ◌∷◌, ◌++◌, ◌&&◌, ◌||◌, not, ltb,
  leb, ◌==◌, if◌then◌else◌, length, map,
}
use dns_stack.Prelude.Sort.{sort_slice}
use dns_stack.Text.{Bytes, trim_space}
use dns_stack.Text.Match.{has_key}
use dns_stack.Text.Maps.{get_else, put}
use dns_stack.Netip.{Addr, Prefix, is6, unmap}
use dns_stack.Cidrutil.Membership.{to_big}
use dns_stack.Cidrutil.Prefixes.{collapse_addrs}

pub record Evidence : Type 0 where
  pub first_seen_at : ℕ
  pub last_seen_at : ℕ
  pub seen_count : ℕ

abbrev pub no_evidence : Evidence
no_evidence = record { first_seen_at = 0; last_seen_at = 0; seen_count = 0 }

-- A file of addresses: it does not exist, it cannot be read to its end, or it has lines.
pub data AddrFile : Type 0 where
  missing unreadable : AddrFile
  text : List Bytes → AddrFile

-- The file of the evidence: it cannot be read as a map, it is the `null` of JSON, which is read as a nil map, or a map.
pub data EvidenceFile : Type 0 where
  unusable nil_map : EvidenceFile
  entries : List (Bytes × Evidence) → EvidenceFile

pub record Options : Type 0 where
  pub max_age_days : ℕ
  pub min_observations : ℕ
  pub now : ℕ
  pub has_cidr_out : Bool

-- What `Run` returns and writes.
pub record Report : Type 0 where
  pub observed : ℕ
  pub added : ℕ
  pub total : ℕ
  pub raw_unique : ℕ
  pub cidr_entries : ℕ
  pub active : List Addr
  pub evidence : List (Bytes × Evidence)
  pub cidrs : List Prefix

pub data Outcome : Type 0 where
  bad_thresholds raw_unreadable : Outcome
  -- The assignment to an entry of a nil map.
  panics : Outcome
  done : Report → Outcome

-- The keys with at least so many lines.
unfoldable pub observed_keys : ℕ → List (Bytes × ℕ) → List Bytes
observed_keys min_observations [] = []
observed_keys min_observations ((key, n) ∷ counts) =
    let rest = observed_keys min_observations counts in
    if leb min_observations n then key ∷ rest else rest

-- The evidence made of the addresses that were active.
unfoldable pub seed : ℕ → List Bytes → List (Bytes × Evidence) → List (Bytes × Evidence)
seed now [] evidence = evidence
seed now (key ∷ keys) evidence =
    seed now keys
      (put key (record { first_seen_at = now; last_seen_at = now; seen_count = 1 }) evidence)

unfoldable pub renewed : ℕ → Evidence → Evidence
renewed now item = record {
  first_seen_at = if item.first_seen_at == 0 then now else item.first_seen_at;
  last_seen_at = now;
  seen_count = item.seen_count + 1;
}

-- The loop over the observed addresses.
unfoldable pub observe : ℕ → List Bytes → List (Bytes × Evidence) → List (Bytes × Evidence)
observe now [] evidence = evidence
observe now (key ∷ keys) evidence =
    observe now keys (put key (renewed now (get_else key no_evidence evidence)) evidence)

unfoldable pub is_expired : ℕ → ℕ → Evidence → Bool
is_expired now max_age_days item = ltb (item.last_seen_at + max_age_days * 86400) now

-- The loop that deletes what is older than the cutoff.
unfoldable pub drop_expired : ℕ → ℕ → List (Bytes × Evidence) → List (Bytes × Evidence)
drop_expired now max_age_days [] = []
drop_expired now max_age_days ((key, item) ∷ evidence) =
    let rest = drop_expired now max_age_days evidence in
    if is_expired now max_age_days item then rest else (key, item) ∷ rest

-- The order of `SortAddrs`.
unfoldable pub is_before : Addr → Addr → Bool
is_before a b =
    if is6 a then is6 b && ltb (to_big a) (to_big b) else is6 b || ltb (to_big a) (to_big b)

unfoldable pub sort_addrs : List Addr → List Addr
sort_addrs addrs = sort_slice is_before addrs

-- The evidence that the run starts from.
unfoldable pub seeded : ℕ → List Bytes → List (Bytes × Evidence) → List (Bytes × Evidence)
seeded now old evidence = if length evidence == 0 then seed now old evidence else evidence

unfoldable pub kept_evidence :
    Options → List Bytes → List Bytes → List (Bytes × Evidence) → List (Bytes × Evidence)
kept_evidence opt observed old evidence =
    drop_expired opt.now opt.max_age_days (observe opt.now observed (seeded opt.now old evidence))

module _ (parse_addr : Bytes → Option Addr) where
  -- The loop of `readAddrs`.
  unfoldable pub parsed_lines : List Bytes → List Addr
  parsed_lines [] = []
  parsed_lines (line ∷ lines) = elim (parse_addr (trim_space line)) [
    | none ↦ parsed_lines lines
    | some addr ↦ unmap addr ∷ parsed_lines lines
  ]

  unfoldable pub active_addrs : List (Bytes × Evidence) → List Addr
  active_addrs [] = []
  active_addrs ((key, item) ∷ evidence) = elim (parse_addr key) [
    | none ↦ active_addrs evidence
    | some addr ↦ unmap addr ∷ active_addrs evidence
  ]

module _ (print_addr : Addr → Bytes) where
  unfoldable pub count_lines : List Addr → List (Bytes × ℕ) → List (Bytes × ℕ)
  count_lines [] counts = counts
  count_lines (a ∷ addrs) counts =
      count_lines addrs (put (print_addr a) (get_else (print_addr a) 0 counts + 1) counts)

  unfoldable pub count_added : List Bytes → List Addr → ℕ
  count_added old [] = 0
  count_added old (a ∷ active) =
      let rest = count_added old active in if has_key (print_addr a) old then rest else rest + 1

module _ (parse_addr : Bytes → Option Addr) (print_addr : Addr → Bytes) where
  -- The addresses that were active; a file that cannot be read has none.
  unfoldable pub old_keys : AddrFile → List Bytes
  old_keys (text lines) = map print_addr (parsed_lines parse_addr lines)
  old_keys _ = []

  unfoldable pub report_of : Options → List Addr → List Bytes → List (Bytes × Evidence) → Report
  report_of opt raw old stored =
      let counts = count_lines print_addr raw [] in
      let observed = observed_keys opt.min_observations counts in
      let evidence = kept_evidence opt observed old stored in
      let active = sort_addrs (active_addrs parse_addr evidence) in
      let cidrs = if opt.has_cidr_out then collapse_addrs active else [] in
      record {
        observed = length observed;
        added = count_added print_addr old active;
        total = length active;
        raw_unique = length counts;
        cidr_entries = length cidrs;
        active = active;
        evidence = evidence;
        cidrs = cidrs;
      }

  -- A nil map is as good as an empty one as long as nothing is added to it.
  unfoldable pub run_on_nil : Options → List Addr → List Bytes → Outcome
  run_on_nil opt raw old =
      if length old == 0
        && length (observed_keys opt.min_observations (count_lines print_addr raw [])) == 0
      then done (report_of opt raw old [])
      else panics

  unfoldable pub run_on : Options → List Addr → List Bytes → EvidenceFile → Outcome
  run_on opt raw old unusable = done (report_of opt raw old [])
  run_on opt raw old nil_map = run_on_nil opt raw old
  run_on opt raw old (entries stored) = done (report_of opt raw old stored)

  unfoldable pub run : Options → AddrFile → EvidenceFile → AddrFile → Outcome
  run opt raw evidence_file old_file =
      if ltb opt.max_age_days 1 || ltb opt.min_observations 2 then bad_thresholds else (elim raw [
        | missing ↦ run_on opt [] (old_keys old_file) evidence_file
        | unreadable ↦ raw_unreadable
        | text lines ↦ run_on opt (parsed_lines parse_addr lines) (old_keys old_file) evidence_file
      ])
