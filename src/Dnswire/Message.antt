-- ===== src/Dnswire/Message.antt =====
-- internal/dnswire/message.go: messages, `BuildQuery` and `Unpack`. A string is a list of bytes.
use dns_stack.Prelude.{
  ℕ, zero, suc, ◌+◌, ◌/◌, ◌%◌, Bool, List, [], ◌∷◌, ◌++◌, ltb, ◌==◌, not, if◌then◌else◌, length,
}
use dns_stack.Text.{Bytes}
use dns_stack.Dnswire.Reader.{
  Error, truncated, Result, ok, err, Parser, ◌>>=◌, pure, uint16, uint32, slice, put16, put32,
}
use dns_stack.Dnswire.Name.{name, append_name}

abbrev pub type_a : ℕ
type_a = 1

abbrev pub type_ns : ℕ
type_ns = 2

abbrev pub type_cname : ℕ
type_cname = 5

abbrev pub type_soa : ℕ
type_soa = 6

abbrev pub type_aaaa : ℕ
type_aaaa = 28

abbrev pub type_opt : ℕ
type_opt = 41

abbrev pub class_in : ℕ
class_in = 1

abbrev pub udp_payload_size : ℕ
udp_payload_size = 1232

pub record Question : Type 0 where
  pub name : Bytes
  pub qtype : ℕ
  pub class : ℕ

pub record Rr : Type 0 where
  pub name : Bytes
  pub rtype : ℕ
  pub class : ℕ
  pub ttl : ℕ
  pub rdata : Bytes
  pub rdata_at : ℕ

pub record Msg : Type 0 where
  pub id : ℕ
  pub response : Bool
  pub is_truncated : Bool
  pub rcode : ℕ
  pub questions : List Question
  pub answers : List Rr
  pub authorities : List Rr
  pub additionals : List Rr

-- The header of a query with one question and one additional record.
unfoldable pub query_header : ℕ → Bytes
unfolding put16
query_header id = put16 (put16 (put16 (put16 (put16 (put16 [] id) 0x0100) 1) 0) 0) 1

-- What follows the name: the question's type and class, then the OPT record with its options.
unfoldable pub query_tail : Bytes → ℕ → Bytes → Bytes
unfolding put16 put32
query_tail b qtype option =
    put16
      (put32 (put16 (put16 (put16 (put16 b qtype) class_in ++ 0 ∷ []) type_opt) udp_payload_size) 0)
      (length option % 65536)
    ++ option

abbrev pub map_result : (Bytes → Bytes) → Result Bytes → Result Bytes
map_result f (ok b) = ok (f b)
map_result f (err e) = err e

unfoldable pub build_query : ℕ → Bytes → ℕ → Result Bytes
build_query id name qtype =
    map_result (λ b. query_tail b qtype []) (append_name (query_header id) name)

unfoldable pub question : Parser Question
unfolding name uint16
question = do
  n ← name
  qtype ← uint16
  qclass ← uint16
  pure (record { name = n; qtype = qtype; class = qclass })

-- The data of a record: `length` bytes from the offset on.
unfoldable pub rdata_of : ℕ → Parser (Bytes × ℕ)
rdata_of n buf off =
    if ltb (length buf) (off + n) then err truncated else ok ((slice buf off n, off), off + n)

unfoldable pub rr : Parser Rr
unfolding name uint16 uint32 rdata_of
rr = do
  n ← name
  rtype ← uint16
  rclass ← uint16
  ttl ← uint32
  len ← uint16
  d ← rdata_of len
  pure (record { name = n; rtype = rtype; class = rclass; ttl = ttl; rdata = d.0; rdata_at = d.1 })

-- `for i := 0; i < int(qd); i++`: the first error ends the loop and the call.
unfoldable pub read_questions : ℕ → List Question → Parser (List Question)
read_questions zero acc buf off = ok (acc, off)
read_questions (suc n) acc buf off = elim (question buf off) [
  | err e ↦ err e
  | ok (q, off') ↦ read_questions n (acc ++ q ∷ []) buf off'
]

-- What the loop over one section leaves: all its records, or the records up to an error.
pub data Section : Type 0 where
  done : List Rr → ℕ → Section
  stopped : List Rr → Error → Section

unfoldable pub read_records : ℕ → List Rr → Bytes → ℕ → Section
read_records zero acc buf off = done acc off
read_records (suc n) acc buf off = elim (rr buf off) [
  | err e ↦ stopped acc e
  | ok (r, off') ↦ read_records n (acc ++ r ∷ []) buf off'
]

-- An error in a section: a truncated message is returned as far as it was read.
abbrev pub partial : Msg → Error → Result Msg
partial m e = if m.is_truncated then ok m else err e

unfoldable pub read_additionals : Msg → ℕ → Bytes → ℕ → Result Msg
unfolding read_records
read_additionals m ar buf off = elim (read_records ar [] buf off) [
  | done rs off' ↦ ok (record m { additionals = rs })
  | stopped rs e ↦ partial (record m { additionals = rs }) e
]

unfoldable pub read_authorities : Msg → ℕ → ℕ → Bytes → ℕ → Result Msg
unfolding read_records read_additionals
read_authorities m ns ar buf off = elim (read_records ns [] buf off) [
  | done rs off' ↦ read_additionals (record m { authorities = rs }) ar buf off'
  | stopped rs e ↦ partial (record m { authorities = rs }) e
]

unfoldable pub read_answers : Msg → ℕ → ℕ → ℕ → Bytes → ℕ → Result Msg
unfolding read_records read_authorities
read_answers m an ns ar buf off = elim (read_records an [] buf off) [
  | done rs off' ↦ read_authorities (record m { answers = rs }) ns ar buf off'
  | stopped rs e ↦ partial (record m { answers = rs }) e
]

unfoldable pub value_of : Result (ℕ × ℕ) → ℕ
value_of (ok (v, off)) = v
value_of (err e) = 0

-- The message with the header's flags and no sections.
unfoldable pub header_msg : ℕ → ℕ → Msg
header_msg id flags = record {
  id = id;
  response = not (flags / 0x8000 % 2 == 0);
  is_truncated = not (flags / 0x0200 % 2 == 0);
  rcode = flags % 16;
  questions = [];
  answers = [];
  authorities = [];
  additionals = [];
}

-- The part of `Unpack` after the header, with the counts of the four sections.
unfoldable pub unpack_body : Msg → ℕ → ℕ → ℕ → ℕ → Bytes → Result Msg
unpack_body m qd an ns ar buf = elim (read_questions qd [] buf 12) [
  | err e ↦ err e
  | ok (qs, off) ↦ read_answers (record m { questions = qs }) an ns ar buf off
]

-- `Unpack`. The six reads of the header cannot fail after the test of the length.
unfoldable pub unpack : Bytes → Result Msg
unpack buf =
    if ltb (length buf) 12
    then err truncated
    else unpack_body (header_msg (value_of (uint16 buf 0)) (value_of (uint16 buf 2)))
        (value_of (uint16 buf 4)) (value_of (uint16 buf 6)) (value_of (uint16 buf 8))
        (value_of (uint16 buf 10)) buf
