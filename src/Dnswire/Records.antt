-- ===== src/Dnswire/Records.antt =====
-- internal/dnswire/message.go: `NameInRDATA` and the accessors of a record. A `(value, bool)` result
-- is an Option.
use dns_stack.Prelude.{ℕ, ◌+◌, Option, none, some, ◌||◌, not, ltb, ◌==◌, if◌then◌else◌, length}
use dns_stack.Text.{Bytes}
use dns_stack.Netip.{Addr, is_valid, unmap}
use dns_stack.Netip.Octets.{from_slice}
use dns_stack.Dnswire.Reader.{truncated, Result, ok, err}
use dns_stack.Dnswire.Name.{name}
use dns_stack.Dnswire.Message.{Rr, type_a, type_ns, type_cname, type_soa, type_aaaa}

abbrev pub first_of : Result (Bytes × ℕ) → Result Bytes
first_of (ok (n, off)) = ok n
first_of (err e) = err e

-- The offsets are those of records of the message, which are not negative.
unfoldable pub name_in_rdata : Bytes → ℕ → ℕ → Result Bytes
name_in_rdata msg rdata_at at =
    if ltb (length msg) (rdata_at + at) then err truncated else first_of (name msg (rdata_at + at))

unfoldable pub addr_of : Rr → ℕ → Option Addr
addr_of r want =
    if not (length r.rdata == want)
    then none
    else (let addr = from_slice r.rdata in if not (is_valid addr) then none else some (unmap addr))

-- `RR.A`
unfoldable pub ipv4_of : Rr → Option Addr
ipv4_of r = if not (r.rtype == type_a) then none else addr_of r 4

-- `RR.AAAA`
unfoldable pub ipv6_of : Rr → Option Addr
ipv6_of r = if not (r.rtype == type_aaaa) then none else addr_of r 16

abbrev pub unless_empty : Result Bytes → Option Bytes
unless_empty (ok n) = if length n == 0 then none else some n
unless_empty (err e) = none

unfoldable pub target_name : Rr → Bytes → Option Bytes
target_name r msg =
    if r.rtype == type_ns || (r.rtype == type_cname || r.rtype == type_soa)
    then unless_empty (name_in_rdata msg r.rdata_at 0)
    else none
