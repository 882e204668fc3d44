-- ===== src/Dnswire/BuildQuery.antt =====
-- The queries of `BuildQuery`, read by `Unpack`.
use dns_stack.Prelude.{ℕ, ◌+◌, ◌%◌, ◌≤◌, ◌<◌, ◌≡◌, refl, ap, ◌∙◌, [], ◌++◌, arith, length}
use mathlib.Core.List.{append_assoc, append-nil}
use dns_stack.Text.{Bytes}
use dns_stack.Dnswire.Reader.{Result, ok, err}
use dns_stack.Dnswire.Name.{normalize_name, append_name}
use dns_stack.Dnswire.Name.RoundTrip.{append_name-Reads}
use dns_stack.Dnswire.Message.{class_in, query_header, query_tail, map_result, build_query, unpack}
use dns_stack.Dnswire.Query.{
  question_bytes, opt_bytes, opt_record, header_bytes, query_msg, Reads-question, Reads-opt,
  unpack-query,
}

-- The message of a query for a name, as bytes.
pub query_tail-bytes :
    (id qtype : ℕ) (xs option : Bytes)
    → length option < 65536
    → query_tail (query_header id ++ xs) qtype option
      ≡ header_bytes id (question_bytes xs qtype ++ opt_bytes option)
unfolding query_tail query_header
query_tail-bytes id qtype xs option h =
    let small : length option % 65536 ≡ length option = omega arith in
    rw small (simp (append_assoc, append-nil))

-- Reading a query back: its name normalized, its type, and the OPT record with its options.
pub unpack-query_tail :
    (id : ℕ) (n : Bytes) (qtype : ℕ) (option : Bytes) {w : Bytes}
    → id < 65536
    → qtype < 65536
    → length option < 65536
    → length (normalize_name n) ≤ 254
    → append_name (query_header id) n ≡ ok w
    → (at : ℕ) × (unpack (query_tail w qtype option)
        ≡ ok (
            query_msg id
              (record { name = normalize_name n; qtype = qtype; class = class_in })
              (opt_record option at)))
unpack-query_tail id n qtype option i q o h e =
    let (xs, written, reads) = append_name-Reads (query_header id) n e h in
    (
      12 + length (question_bytes xs qtype),
      ap (λ b. unpack (query_tail b qtype option)) written
          ∙ ap unpack (query_tail-bytes id qtype xs option o)
          ∙ unpack-query id (question_bytes xs qtype) (opt_bytes option) _ (opt_record option) i
              (Reads-question (normalize_name n) xs qtype q reads) (Reads-opt option o),
    )

pub map_result-ok :
    (f : Bytes → Bytes) (r : Result Bytes) {w : Bytes}
    → map_result f r ≡ ok w
    → (b : Bytes) × (r ≡ ok b) × (w ≡ f b)
map_result-ok f (ok b) e = (b, refl, cc)
map_result-ok f (err x) e = cc

-- `Unpack` of what `BuildQuery` returns for a uint16 id and type, and for a name of at most 254 bytes
-- once normalized, is the message with that id, no flags and no error, one question (the normalized
-- name, the type, class IN), and one OPT record without options.
pub unpack-build_query :
    (id : ℕ) (n : Bytes) (qtype : ℕ) {w : Bytes}
    → id < 65536
    → qtype < 65536
    → length (normalize_name n) ≤ 254
    → build_query id n qtype ≡ ok w
    → (at : ℕ) × (unpack w
        ≡ ok (
            query_msg id
              (record { name = normalize_name n; qtype = qtype; class = class_in })
              (opt_record [] at)))
unfolding build_query
unpack-build_query id n qtype i q h e =
    let (b, written, same) =
      map_result-ok (λ b. query_tail b qtype []) (append_name (query_header id) n) e in
    rw same (unpack-query_tail id n qtype [] i q (omega arith) h written)
