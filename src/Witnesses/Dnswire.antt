-- ===== src/Witnesses/Dnswire.antt =====
-- Messages: a query for "WWW.example.", its bytes, and hostile names.
use dns_stack.Prelude.{
  ℕ, ◌≤◌, ◌≡◌, refl, ◌↔◌, true, none, some, ◌+◌, ◌*◌, ◌^◌, [], ◌∷◌, ◌++◌, arith, length,
}
use dns_stack.Text.{Bytes, to_lower, trim_space, split_dots}
use dns_stack.Dnswire.Reader.{ok, err, pointer_loop, uint16}
use dns_stack.Dnswire.Reads.{Reads}
use dns_stack.Dnswire.Name.{
  normalize_name, append_name, append_normalized, append_labels, name, name_loop,
}
use dns_stack.Dnswire.Name.Accepts.{IsOk, IsHostName, append_name-IsHostName}
use dns_stack.Dnswire.Unpacked.{Kept, unpack-Kept}
use dns_stack.Dnswire.Name.Total.{Sound, name-Sound}
use dns_stack.Dnswire.Name.RoundTrip.{append_name-Reads}
use dns_stack.Netip.{v4, Prefix, masked, unmap, is6, bit_len}
use dns_stack.Netip.Octets.{octets, as_slice}
use dns_stack.Dnswire.Ecs.{subnet_option, with_masked, build_query_with_subnet, client_subnet}
use dns_stack.Dnswire.Ecs.RoundTrip.{client_subnet-build_query_with_subnet}
use dns_stack.Dnswire.Message.{
  Msg, type_a, class_in, query_header, query_tail, build_query, unpack, unpack_body, read_questions,
  read_answers, read_records, header_msg, value_of, rr,
}
use dns_stack.Dnswire.Query.{query_msg, opt_record}
use dns_stack.Dnswire.BuildQuery.{unpack-build_query}

-- "A.bc."
abbrev host : Bytes
host = b'A' ∷ b'.' ∷ b'b' ∷ b'c' ∷ b'.' ∷ []

-- "a.bc" on the wire
abbrev wire : Bytes
wire = 1 ∷ b'a' ∷ 2 ∷ b'b' ∷ b'c' ∷ 0 ∷ []

program : Unit {0}
unfolding append_name append_normalized append_labels normalize_name to_lower trim_space split_dots
    build_query query_tail query_header
program = tt

append_name_run : append_name [] host ≡ ok wire
unfolding program
append_name_run = refl

host-length : length (normalize_name host) ≤ 254
unfolding program
host-length = omega arith

-- A pointer to itself is refused.
pointer_loop_run : name (0xc0 ∷ 0 ∷ []) 0 ≡ err pointer_loop
unfolding name name_loop
pointer_loop_run = refl

-- A name of one label, found through a pointer.
pointer_run : name (1 ∷ b'A' ∷ 0 ∷ 0xc0 ∷ 0 ∷ []) 3 ≡ ok (b'a' ∷ [], 5)
unfolding name name_loop
pointer_run = refl

build_query_run :
    build_query 7 host type_a
    ≡ ok (
        0
        ∷ 7
        ∷ 1
        ∷ 0
        ∷ 0
        ∷ 1
        ∷ 0
        ∷ 0
        ∷ 0
        ∷ 0
        ∷ 0
        ∷ 1
        ∷ (wire ++ (0 ∷ 1 ∷ 0 ∷ 1 ∷ 0 ∷ 0 ∷ 41 ∷ 4 ∷ 208 ∷ 0 ∷ 0 ∷ 0 ∷ 0 ∷ 0 ∷ 0 ∷ [])))
unfolding program
build_query_run = refl

name-Sound_example : Sound (0xc0 ∷ 0 ∷ []) 0 none (name (0xc0 ∷ 0 ∷ []) 0)
name-Sound_example = name-Sound (0xc0 ∷ 0 ∷ []) 0

append_name-Reads_example :
    (xs : Bytes) × (wire ≡ [] ++ xs) × Reads name xs (λ off. normalize_name host)
append_name-Reads_example = append_name-Reads [] host append_name_run host-length

unpack-build_query_example :
    (at : ℕ) × (unpack (
        0
        ∷ 7
        ∷ 1
        ∷ 0
        ∷ 0
        ∷ 1
        ∷ 0
        ∷ 0
        ∷ 0
        ∷ 0
        ∷ 0
        ∷ 1
        ∷ (wire ++ (0 ∷ 1 ∷ 0 ∷ 1 ∷ 0 ∷ 0 ∷ 41 ∷ 4 ∷ 208 ∷ 0 ∷ 0 ∷ 0 ∷ 0 ∷ 0 ∷ 0 ∷ [])))
      ≡ ok (
          query_msg 7
            (record { name = normalize_name host; qtype = type_a; class = class_in })
            (opt_record [] at)))
unpack-build_query_example =
    unpack-build_query 7 host type_a (omega arith) (omega arith) host-length build_query_run

-- 10.1.2.0/23 as a subnet, and what is written for it.
abbrev subnet : Prefix
subnet = record { addr = v4 (2 ^ 24 * 10 + 2 ^ 16 + 512 + 77); bits_plus_one = 24 }

abbrev subnet_query : Bytes
subnet_query =
    0
    ∷ 7
    ∷ 1
    ∷ 0
    ∷ 0
    ∷ 1
    ∷ 0
    ∷ 0
    ∷ 0
    ∷ 0
    ∷ 0
    ∷ 1
    ∷ (wire
        ++ (0 ∷ 1 ∷ 0 ∷ 1 ∷ 0 ∷ 0 ∷ 41 ∷ 4 ∷ 208 ∷ 0 ∷ 0 ∷ 0 ∷ 0 ∷ 0 ∷ 11 ∷ 0 ∷ 8 ∷ 0 ∷ 7 ∷ 0 ∷ 1
            ∷ 23 ∷ 0 ∷ 10 ∷ 1 ∷ 2 ∷ []))

build_query_with_subnet_run : build_query_with_subnet 7 host type_a subnet ≡ ok subnet_query
unfolding program build_query_with_subnet with_masked subnet_option masked unmap as_slice is6
    bit_len octets
build_query_with_subnet_run = refl

client_subnet-build_query_with_subnet_example :
    (m : Msg) × (unpack subnet_query ≡ ok m)
    × (client_subnet m ≡ some (record { prefix = masked subnet; scope = 0 }))
client_subnet-build_query_with_subnet_example =
    client_subnet-build_query_with_subnet 7 host type_a subnet (omega arith) (omega arith)
      host-length (omega arith) build_query_with_subnet_run

append_name-IsHostName_example : IsOk (append_name [] host) ↔ IsHostName (normalize_name host)
append_name-IsHostName_example = append_name-IsHostName [] host

-- A response with the truncation flag, one answer counted and none there.
abbrev cut_off : Bytes
cut_off = 0 ∷ 7 ∷ 0x83 ∷ 0 ∷ 0 ∷ 0 ∷ 0 ∷ 1 ∷ 0 ∷ 0 ∷ 0 ∷ 0 ∷ []

unpack-Kept_example : Kept cut_off 0 1 0 0 (unpack cut_off)
unpack-Kept_example = unpack-Kept cut_off

truncated_run :
    unpack cut_off
    ≡ ok (record {
      id = 7;
      response = true;
      is_truncated = true;
      rcode = 0;
      questions = [];
      answers = [];
      authorities = [];
      additionals = [];
    })
unfolding unpack unpack_body read_questions read_answers read_records header_msg value_of uint16 rr
    name name_loop
truncated_run = refl
