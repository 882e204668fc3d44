-- ===== src/Dnswire/Query.antt =====
-- `Unpack` reads back what `BuildQuery` has built.
use dns_stack.Prelude.{
  ℕ, ◌+◌, ◌/◌, ◌%◌, ◌≤◌, ◌<◌, ◌≡◌, refl, sym, ap, ◌∙◌, false, [], ◌∷◌, ◌++◌, arith, ltb, length,
  drop, drop_past,
}
use mathlib.Core.List.{append-nil}
use dns_stack.Text.{Bytes, to_lower, join_dots}
use dns_stack.Text.Split.{wire_size}
use dns_stack.Dnswire.Reader.{ok, uint16, uint32}
use dns_stack.Dnswire.Reads.{
  Reads, Reads-then, Reads-pure, Reads-value, Reads-uint16, Reads-uint32, Reads-map, bytes16,
  bytes32,
}
use dns_stack.Dnswire.Name.{name}
use dns_stack.Dnswire.Name.RoundTrip.{encode, Reads-encode}
use dns_stack.Dnswire.Message.{
  Question, Rr, Msg, type_opt, class_in, udp_payload_size, question, rdata_of, rr, read_questions,
  read_records, read_answers, read_authorities, read_additionals, value_of, header_msg, unpack_body,
  unpack,
}

-- The question section of a query for this name.
abbrev pub question_bytes : Bytes → ℕ → Bytes
question_bytes xs qtype = xs ++ (bytes16 qtype ++ (bytes16 class_in ++ []))

abbrev pub opt_bytes : Bytes → Bytes
opt_bytes option =
    (0 ∷ [])
    ++ (bytes16 type_opt
        ++ (bytes16 udp_payload_size ++ (bytes32 0 ++ (bytes16 (length option) ++ (option ++ [])))))

-- The OPT record, found at an offset.
abbrev pub opt_record : Bytes → ℕ → Rr
opt_record option off = record {
  name = [];
  rtype = type_opt;
  class = udp_payload_size;
  ttl = 0;
  rdata = option;
  rdata_at = off + 11;
}

pub Reads-question :
    (n xs : Bytes) (qtype : ℕ)
    → qtype < 65536
    → Reads name xs (λ off. n)
    → Reads question
        (question_bytes xs qtype)
        (λ off. record { name = n; qtype = qtype; class = class_in })
unfolding question
Reads-question n xs qtype h r = Reads-then name _ _ r (
    Reads-then uint16 _ _ (Reads-uint16 qtype h)
      (Reads-then uint16 _ _ (Reads-uint16 class_in (omega arith)) (Reads-pure _)))

Reads-rdata : (option : Bytes) → Reads (rdata_of (length option)) option (λ off. (option, off))
unfolding rdata_of
Reads-rdata option = record {
  at = λ buf off rest h e.
      let (fits, _, same) = drop_past buf off option rest h e in
      let inside : ltb (length buf) (off + length option) ≡ false = ground arith in
      rw (inside, same);
}

pub Reads-opt :
    (option : Bytes) → length option < 65536 → Reads rr (opt_bytes option) (opt_record option)
unfolding rr
Reads-opt option h =
    Reads-value
      (Reads-then name _ _ root (
        Reads-then uint16 _ _ (Reads-uint16 type_opt (omega arith)) (
          Reads-then uint16 _ _ (Reads-uint16 udp_payload_size (omega arith)) (
            Reads-then uint32 _ _ (Reads-uint32 0 (omega arith)) (
              Reads-then uint16 _ _ (Reads-uint16 (length option) h) (
                Reads-map (rdata_of (length option)) (λ d. opt_of d.0 d.1)
                  (Reads-rdata option)))))))
      (λ off. ap (opt_of option) (omega arith))
  where
    opt_of : Bytes → ℕ → Rr
    opt_of d at = record {
      name = [];
      rtype = type_opt;
      class = udp_payload_size;
      ttl = 0;
      rdata = d;
      rdata_at = at;
    }

    root : Reads name (0 ∷ []) (λ off. [])
    root = unfold to_lower join_dots encode in Reads-encode [] tt (unfold wire_size in omega arith)

-- The twelve bytes of the header, and what follows them.
abbrev pub header_bytes : ℕ → Bytes → Bytes
header_bytes id body = id / 256 % 256 ∷ id % 256 ∷ 1 ∷ 0 ∷ 0 ∷ 1 ∷ 0 ∷ 0 ∷ 0 ∷ 0 ∷ 0 ∷ 1 ∷ body

-- The message with one question and one OPT record.
abbrev pub query_msg : ℕ → Question → Rr → Msg
query_msg id q opt = record {
  id = id;
  response = false;
  is_truncated = false;
  rcode = 0;
  questions = q ∷ [];
  answers = [];
  authorities = [];
  additionals = opt ∷ [];
}

read_one_question :
    (buf : Bytes) (off off' : ℕ) (q : Question)
    → question buf off ≡ ok (q, off')
    → read_questions 1 [] buf off ≡ ok (q ∷ [], off')
unfolding read_questions
read_one_question buf off off' q e = rw (e, read_questions)

-- The sections of a message with one additional record.
read_one_record :
    (m : Msg) (buf : Bytes) (off off' : ℕ) (r : Rr)
    → rr buf off ≡ ok (r, off')
    → read_answers m 0 0 1 buf off
      ≡ ok (record m { answers = []; authorities = []; additionals = r ∷ [] })
unfolding read_answers
read_one_record m buf off off' r e =
    rw (e, read_records, read_additionals, read_authorities, read_answers)

-- The header of a query, field by field.
header_field :
    (id v off : ℕ) (body : Bytes) {after : Bytes}
    → v < 65536
    → off ≤ length (header_bytes id body)
    → drop off (header_bytes id body) ≡ bytes16 v ++ after
    → value_of (uint16 (header_bytes id body) off) ≡ v
unfolding value_of
header_field id v off body {after} w h e =
    rw ((Reads-uint16 v w).at (header_bytes id body) off after h e)

unpack-header :
    (id : ℕ) (body : Bytes)
    → id < 65536
    → unpack (header_bytes id body) ≡ unpack_body (header_msg id 256) 1 0 0 1 (header_bytes id body)
unfolding unpack
unpack-header id body w =
    let buf = header_bytes id body in
    let long : ltb (length buf) 12 ≡ false = ground arith in
    let f0 : value_of (uint16 buf 0) ≡ id = header_field id id 0 body w (omega arith) refl in
    let f2 : value_of (uint16 buf 2) ≡ 256 =
      header_field id 256 2 body (omega arith) (omega arith) refl in
    let f4 : value_of (uint16 buf 4) ≡ 1 =
      header_field id 1 4 body (omega arith) (omega arith) refl in
    let f6 : value_of (uint16 buf 6) ≡ 0 =
      header_field id 0 6 body (omega arith) (omega arith) refl in
    let f8 : value_of (uint16 buf 8) ≡ 0 =
      header_field id 0 8 body (omega arith) (omega arith) refl in
    let f10 : value_of (uint16 buf 10) ≡ 1 =
      header_field id 1 10 body (omega arith) (omega arith) refl in
    rw long (rw (f0, f2, f4, f6, f8, f10))

pub unpack-query :
    (id : ℕ) (qs os : Bytes) (q : Question) (opt : ℕ → Rr)
    → id < 65536
    → Reads question qs (λ off. q)
    → Reads rr os opt
    → unpack (header_bytes id (qs ++ os)) ≡ ok (query_msg id q (opt (12 + length qs)))
unfolding unpack_body header_msg
unpack-query id qs os q opt w r s =
    let buf = header_bytes id (qs ++ os) in
    let past = drop_past buf 12 qs os (omega arith) refl in
    let first = r.at buf 12 os (omega arith) refl in
    let second = s.at buf (12 + length qs) [] past.0 (past.1 ∙ sym (append-nil os)) in
    unpack-header id (qs ++ os) w
    ∙ rw (read_one_question buf 12 (12 + length qs) q first, unpack_body)
        (read_one_record _ buf (12 + length qs) _ (opt (12 + length qs)) second)
