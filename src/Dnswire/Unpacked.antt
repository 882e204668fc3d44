-- ===== src/Dnswire/Unpacked.antt =====
-- What `Unpack` returns, for any bytes whatever.
use dns_stack.Prelude.{
  ℕ, zero, suc, ◌+◌, ◌≤◌, ◌≡◌, refl, ◌≢◌, false, List, [], ◌∷◌, ◌++◌, inl, inr, arith, ltb, length,
  length-append, All, All-append, Bool-cases,
}
use mathlib.Core.Bool.{false≢true}
use dns_stack.Text.{Bytes}
use dns_stack.Dnswire.Reader.{Error, Result, ok, err, no_fuel, be16, uint16}
use dns_stack.Dnswire.Gives.{Post, Gives-question, Gives-rr, StandsIn}
use dns_stack.Dnswire.Message.{
  Question, Rr, Msg, Section, done, stopped, question, rr, read_questions, read_records, partial,
  read_answers, read_authorities, read_additionals, value_of, header_msg, unpack_body, unpack,
}

-- The records of a section, and their number unless an error has ended it.
abbrev SectionIn : Bytes → ℕ → Section → Type 0
SectionIn buf n (done rs off) = All (StandsIn buf) rs × (length rs ≡ n)
SectionIn buf n (stopped rs e) = All (StandsIn buf) rs × (e ≢ no_fuel)

read_records-SectionIn :
    (n total : ℕ) (acc : List Rr) (buf : Bytes) (off : ℕ)
    → All (StandsIn buf) acc
    → length acc + n ≡ total
    → SectionIn buf total (read_records n acc buf off)
unfolding read_records
read_records-SectionIn zero total acc buf off h e = (h, omega arith)
read_records-SectionIn (suc n) total acc buf off h e =
    after (rr buf off) ((Gives-rr buf).at off)
      (λ a next. read_records-SectionIn n total (acc ++ a ∷ []) buf next)
  where
    after :
        (r : Result (Rr × ℕ))
        → Post (StandsIn buf) r
        → ((a : Rr) (next : ℕ)
            → All (StandsIn buf) (acc ++ a ∷ [])
            → length (acc ++ a ∷ []) + n ≡ total
            → SectionIn buf total (read_records n (acc ++ a ∷ []) buf next))
        → SectionIn buf total (elim r [
          | err x ↦ stopped acc x
          | ok (a, next) ↦ read_records n (acc ++ a ∷ []) buf next
        ])
    after (err x) k more = (h, k)
    after (ok (a, next)) k more =
        more a next (All-append (StandsIn buf) acc (a ∷ []) h (k, tt))
          (omega (arith, length-append acc (a ∷ [])))

abbrev QuestionsAre : ℕ → Result (List Question × ℕ) → Type 0
QuestionsAre total (err e) = e ≢ no_fuel
QuestionsAre total (ok (qs, off)) = length qs ≡ total

read_questions-QuestionsAre :
    (n total : ℕ) (acc : List Question) (buf : Bytes) (off : ℕ)
    → length acc + n ≡ total
    → QuestionsAre total (read_questions n acc buf off)
unfolding read_questions
read_questions-QuestionsAre zero total acc buf off e = omega arith
read_questions-QuestionsAre (suc n) total acc buf off e =
    after (question buf off) ((Gives-question buf).at off)
      (λ q next. read_questions-QuestionsAre n total (acc ++ q ∷ []) buf next)
  where
    after :
        (r : Result (Question × ℕ))
        → Post (λ q. Unit {0}) r
        → ((q : Question) (next : ℕ)
            → length (acc ++ q ∷ []) + n ≡ total
            → QuestionsAre total (read_questions n (acc ++ q ∷ []) buf next))
        → QuestionsAre total
            (elim r [ err x ↦ err x | ok (q, next) ↦ read_questions n (acc ++ q ∷ []) buf next ])
    after (err x) k more = k
    after (ok (q, next)) k more = more q next (omega (arith, length-append acc (q ∷ [])))

-- The message that the sections are added to, with the counts that the header promises.
module _ (buf : Bytes) (qd an ns ar : ℕ) where
  -- Every record stands in the buffer; the sections are complete unless the message is truncated.
  abbrev pub Kept : Result Msg → Type 0
  Kept (err e) = e ≢ no_fuel
  Kept (ok m) =
      (length m.questions ≡ qd)
      × All (StandsIn buf) m.answers
      × All (StandsIn buf) m.authorities
      × All (StandsIn buf) m.additionals
      × (m.is_truncated ≡ false
          → (length m.answers ≡ an) × (length m.authorities ≡ ns) × (length m.additionals ≡ ar))

  partial-Kept :
      (m : Msg) (e : Error)
      → length m.questions ≡ qd
      → All (StandsIn buf) m.answers
      → All (StandsIn buf) m.authorities
      → All (StandsIn buf) m.additionals
      → e ≢ no_fuel
      → Kept (partial m e)
  partial-Kept m e q a b c d = elim (Bool-cases m.is_truncated) [
    | inl t ↦ rw t (q, a, b, c, λ f. absurd (false≢true (cc)))
    | inr t ↦ rw t d
  ]

  read_additionals-Kept :
      (m : Msg) (off : ℕ)
      → length m.questions ≡ qd
      → All (StandsIn buf) m.answers
      → All (StandsIn buf) m.authorities
      → length m.answers ≡ an
      → length m.authorities ≡ ns
      → Kept (read_additionals m ar buf off)
  unfolding read_additionals
  read_additionals-Kept m off q a b x y =
      after (read_records ar [] buf off) (read_records-SectionIn ar ar [] buf off tt (omega arith))
    where
      after :
          (s : Section)
          → SectionIn buf ar s
          → Kept (elim s [
            | done rs off' ↦ ok (record m { additionals = rs })
            | stopped rs e ↦ partial (record m { additionals = rs }) e
          ])
      after (done rs off') k = (q, a, b, k.0, λ t. (x, y, k.1))
      after (stopped rs e) k = partial-Kept (record m { additionals = rs }) e q a b k.0 k.1

  read_authorities-Kept :
      (m : Msg) (off : ℕ)
      → length m.questions ≡ qd
      → All (StandsIn buf) m.answers
      → All (StandsIn buf) m.additionals
      → length m.answers ≡ an
      → Kept (read_authorities m ns ar buf off)
  unfolding read_authorities
  read_authorities-Kept m off q a c x =
      after (read_records ns [] buf off) (read_records-SectionIn ns ns [] buf off tt (omega arith))
    where
      after :
          (s : Section)
          → SectionIn buf ns s
          → Kept (elim s [
            | done rs off' ↦ read_additionals (record m { authorities = rs }) ar buf off'
            | stopped rs e ↦ partial (record m { authorities = rs }) e
          ])
      after (done rs off') k =
          read_additionals-Kept (record m { authorities = rs }) off' q a k.0 x k.1
      after (stopped rs e) k = partial-Kept (record m { authorities = rs }) e q a k.0 c k.1

  read_answers-Kept :
      (m : Msg) (off : ℕ)
      → length m.questions ≡ qd
      → All (StandsIn buf) m.authorities
      → All (StandsIn buf) m.additionals
      → Kept (read_answers m an ns ar buf off)
  unfolding read_answers
  read_answers-Kept m off q b c =
      after (read_records an [] buf off) (read_records-SectionIn an an [] buf off tt (omega arith))
    where
      after :
          (s : Section)
          → SectionIn buf an s
          → Kept (elim s [
            | done rs off' ↦ read_authorities (record m { answers = rs }) ns ar buf off'
            | stopped rs e ↦ partial (record m { answers = rs }) e
          ])
      after (done rs off') k = read_authorities-Kept (record m { answers = rs }) off' q k.0 c k.1
      after (stopped rs e) k = partial-Kept (record m { answers = rs }) e q k.0 b c k.1

  unpack_body-Kept :
      (m : Msg)
      → All (StandsIn buf) m.authorities
      → All (StandsIn buf) m.additionals
      → Kept (unpack_body m qd an ns ar buf)
  unfolding unpack_body
  unpack_body-Kept m b c =
      after (read_questions qd [] buf 12)
        (read_questions-QuestionsAre qd qd [] buf 12 (omega arith))
    where
      after :
          (r : Result (List Question × ℕ))
          → QuestionsAre qd r
          → Kept (elim r [
            | err e ↦ err e
            | ok (qs, off) ↦ read_answers (record m { questions = qs }) an ns ar buf off
          ])
      after (err e) k = k
      after (ok (qs, off)) k = read_answers-Kept (record m { questions = qs }) off k b c

-- A field of the header of a buffer that is long enough.
value_of-uint16 :
    (buf : Bytes) (off : ℕ)
    → off ≤ 10
    → ltb (length buf) 12 ≡ false
    → value_of (uint16 buf off) ≡ be16 buf off
unfolding value_of uint16
value_of-uint16 buf off h e =
    let inside : ltb (length buf) (off + 2) ≡ false = ground (arith, e) in rw inside refl

-- `Unpack` returns on every buffer, within the model's fuel. A message that it returns has the
-- questions that the header counts; each of its records has a name with a byte past ASCII or of at most 254 bytes, and data that
-- are the buffer's bytes at the place recorded; unless the truncation flag is set, each section has as many
-- records as the header counts.
pub unpack-Kept :
    (buf : Bytes) → Kept buf (be16 buf 4) (be16 buf 6) (be16 buf 8) (be16 buf 10) (unpack buf)
unfolding unpack header_msg
unpack-Kept buf = elim (Bool-cases (ltb (length buf) 12)) [
  | inl e ↦ rw e (λ h. cc)
  | inr e ↦
      let f4 = value_of-uint16 buf 4 (omega arith) e in
      let f6 = value_of-uint16 buf 6 (omega arith) e in
      let f8 = value_of-uint16 buf 8 (omega arith) e in
      let f10 = value_of-uint16 buf 10 (omega arith) e in
      rw e (
        rw (f4, f6, f8, f10)
          (unpack_body-Kept buf (be16 buf 4) (be16 buf 6) (be16 buf 8) (be16 buf 10) _ tt tt))
]
