-- ===== src/Lib.antt =====
-- dns-stack: a recursive DNS service with a control plane in Go that splits routes by country. This
-- library models the packages that everything else computes with (sets of IPv4 ranges, spans and
-- prefixes of both address families, DNS messages), the rules that are built on them (which servers
-- are routed directly, the zones for client subnets), and the watchdog of the routing.
--
-- The parts and the files:
--   Netip      net/netip as the program uses it: Addr and Prefix as values. An address is a number
--              with its family, and Octets has it as bytes. Prefix keeps bits + 1, as Go does, so that
--              0 is an invalid prefix.
--   Spans      Range, which stands for the struct Range of internal/ipset and, with unbounded ends,
--              for the struct span of internal/cidrutil; the addresses that a list of ranges
--              covers, and its normal form (in order, valid, a gap between neighbours), which is
--              the same for two lists that cover the same addresses.
--   Ipset      internal/ipset/ipset.go. Collapse (Collapse), Sets (Set, New, Len, Ranges,
--              AddressCount, Overlaps, locate, ContainsUint, CoversRange), Subtract (isNormalized,
--              Subtract), Prefix (toUint32, prefixBounds, PrefixRange, Contains, CoversPrefix,
--              rangeToPrefixes, Prefixes), Global (the reserved blocks, GlobalParts,
--              IsGlobalPrefix), Addresses (IsGlobalAddr), Load (parsePrefix, LoadReader). Lookup,
--              Queries, Count and the child modules hold proofs.
--   Cidrutil   internal/cidrutil/cidrutil.go and set.go. Merge (mergeSpans), Combine
--              (intersectSpans, subtractSpans), Membership (ToBig, spansOfPrefix, NewSet, Contains),
--              Blocks (FromBig, rangePrefixes), Prefixes (collapseFamily, CollapsePrefixes,
--              CollapseAddrs, Intersect, Subtract, Set.Prefixes), Load (ParsePrefix,
--              ReadPrefixes, FormatAddr4, ParseSet). Subtract, Contains and Load/Sets hold proofs.
--   Text       functions of Go's package strings on lists of bytes (Match, Maps for maps with strings as
--              keys, Below for the walk from a name to its parents, Order for the order of strings).
--   Dnswire    internal/dnswire/message.go. Reader (the errors, parser.uint16, parser.uint32), Name
--              (NormalizeName, appendName, parser.name), Message (Question, RR, Msg, BuildQuery,
--              parser.question, parser.rr, Unpack), Records (NameInRDATA, RR.A, RR.AAAA,
--              RR.TargetName), Types (TypeName, TypeCode). Ecs is internal/dnswire/ecs.go (BuildQueryWithSubnet,
--              Msg.ClientSubnet, decodeClientSubnet). Reads says what it means that a parser takes
--              given bytes wherever they stand, Gives what a parser gives on any bytes; Query,
--              BuildQuery, Unpacked and the child modules hold proofs.
--   Chnroute   internal/chnroute/chnroute.go: the lines of APNIC, the walk over the database, the probes,
--              VerifyDelegated; Plan has planReverseExclusion, attributeDropped, writeExcluded and Run.
--              Loaded, Planned, Covered, Excluded and Routed hold proofs.
--   Config     internal/config/env.go and upsert.go: Read, ReadKeys, Value, Upsert. Lines, Values, Added, Breaks and
--              Upserted hold proofs.
--   Domain     internal/domain: domain.go (IsWellFormed, IsReserved, ZoneDefect), Suffixes for psl.go
--              (ParsePSL, IsPublicSuffix) and Normalize.
--   Cdn        internal/cdn/cdn.go: Table for the operators, IsGeoSteered, SharedDNSProvider, Operators.
--   Infra      internal/infra/infra.go: Parse, Pairs, Zones.
--   Anycast    internal/anycast/anycast.go: the files and servesCNZone; Run has dumpInfra,
--              sharedByAnySource and the loop of Run. Causes and Reported hold proofs.
--   Metrics    internal/metrics/publish.go: ReplaceAndReload.
--   Statefile  internal/statefile/statefile.go: Lines.
--   Ruleset    internal/ruleset/ruleset.go. Setup (Config and its tests), Events (the loop of Build over
--              the zones), Outcome (what Build makes of it, collapse, uniquePrefixes), Build. Order,
--              Agreement, Causes, Reach and Routes hold proofs.
--   Ecszone    internal/ecszone/ecszone.go. Names (ZoneOf, SplitZone), Rows (intersections, MergeRows,
--              DirectCoverage, anyOverlap, Marked, FirstOverlap), Build (Build, LoadDirectIntervals,
--              LoadRows, CountDataLines), Publish (publish.go, Render, RenderUnidentified, and
--              stepECSZone of internal/pipeline/steps.go with what the files hold as arguments), Fanout
--              (fanout.go). Intersections, Parts, Assigned, Merge, Marked, Rendered, Direct, Writable,
--              Table and Fanout/Picked hold proofs.
--   Pipeline   internal/pipeline: Nft for nft.go's nftTableBlocks and countNFTElements; Problems and
--              Watchdog for watchdog.go (problems, Diagnose, Check). Watchdog/Bounds holds proofs.
--   Stack      internal/stack: Health for health.go, and Module.Overdue of stack.go.
--   Helper     internal/helper: Validate for SafeDomain and SafeClientSubnet of validate.go; Auth for auth.go:
--              the update that the panel sends, merged into the record of the account by MergeAuthUpdate, and
--              the changes of the password, the name, the second factor and the session key (Auth/Accounts).
--              The record is a list of entries (Json), the numbers of JSON are a parameter.
--              Validate/Subnet, Auth/Merged and Auth/Verified hold proofs.
--   Polluted   internal/polluted: Run of polluted.go, and SortAddrs of internal/cidrutil. Observed and Kept hold proofs.
--   Prelude    tests on numbers, integers, lists, powers of two, sort.Slice and sort.Search, and
--              permutations.
--   Witnesses  the theorems at concrete inputs, and runs of the definitions.
--
-- How the parts interact: New stores what Collapse returns, and every query of a Set relies on the
-- normal form of that; Subtract takes lists that pass isNormalized as they are and collapses the
-- others; IsGlobalPrefix compares GlobalParts of the range that prefixBounds computes. Unpack runs the
-- parser's methods over one buffer, with the offset passed from each to the next.
--
-- Conventions: a uint32 or uint64 is a natural number with its wrap-around written out (% u32_mod);
-- big.Int is a natural number. A nil *Set, an index -1 and an end not yet set are none, and so is the
-- result of a call that panics. A (value, error) result is Result. sort.Slice is insertion
-- sort with the same order: the order is strict and total on the fields, so that every sorting of the
-- list is the same. sort.Search is its binary search, with the length as fuel: every round halves
-- the interval. The loop over options of ClientSubnet has the length of the data as fuel: every round
-- takes at least four bytes. parser.name has fuel 300: each label takes at least 2 of the 255 bytes of
-- a name, and each pointer one of 32. rangeToPrefixes and rangePrefixes have at most one round for
-- each address of the range. The walk of IsGeoSteered has the length of the name as fuel: every turn
-- drops at least the dot.
--
-- What Go leaves open is an argument: the order of a loop over a map, the parser and the printer of
-- addresses and prefixes, strconv.Atoi and Itoa, regular expressions, what a file or a database holds.
-- A map is a list of entries; a set of names is the list of its keys. The loop of ruleset.go's Build
-- appends to slices and sets keys of maps: it is modelled as the list of these events in the code's
-- order, from which the results are read off. A check of the watchdog takes the file with the count of
-- failed repairs and a record of the system's answers, and returns the file and what it did.
--
-- Not modelled: the parsing of addresses and prefixes; the writing of the report of internal/anycast;
-- collect.go of internal/polluted and the errors of its writing; LoadPSL; the other steps of the
-- pipeline, which run commands and write files; most of internal/helper and internal/stack; the other
-- packages, most of which run commands, serve HTTP, or keep files and databases. Names are bytes:
-- ToLower, ToUpper and TrimSpace are those of ASCII text, and leave bytes from 128 on alone, where Go
-- maps letters past ASCII, replaces invalid UTF-8 and trims other white space. The zone of an IPv6 address is left out.
pub mod Polluted
pub mod Prelude
pub mod Metrics
pub mod Netip
pub mod Spans
pub mod Ipset
pub mod Cidrutil
pub mod Text
pub mod Dnswire
pub mod Config
pub mod Domain
pub mod Anycast
pub mod Cdn
pub mod Chnroute
pub mod Infra
pub mod Ruleset
pub mod Ecszone
pub mod Pipeline
pub mod Stack
pub mod Statefile
pub mod Helper
mod Witnesses
