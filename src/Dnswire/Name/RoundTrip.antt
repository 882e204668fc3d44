-- ===== src/Dnswire/Name/RoundTrip.antt =====
-- `parser.name` reads back what `appendName` has written.
use dns_stack.Prelude.{
  ℕ, zero, suc, ◌+◌, ◌/◌, ◌%◌, ◌≤◌, ◌<◌, ◌≡◌, refl, ap, ◌∙◌, true, false, none, List, [], ◌∷◌, ◌++◌,
  ◌||◌, inl, inr, ltb, leb, ◌==◌, arith, length, length-append, Bool-cases, drop, drop_head,
  drop_past, All,
}
use mathlib.Core.Path.{ap₂}
use mathlib.Core.List.{append_assoc, append-nil}
use dns_stack.Text.{Bytes, lower, to_lower, split_dots, join_dots}
use dns_stack.Text.Split.{wire_size, join_dots-split_dots, wire_size-split_dots}
use dns_stack.Dnswire.Reader.{ok, byte_at, slice}
use dns_stack.Dnswire.Reads.{Reads}
use dns_stack.Dnswire.Name.{
  append_labels, append_normalized, normalize_name, append_name, name_loop, name,
}

-- A label that may stand in a message.
abbrev pub IsLabel : Bytes → Type 0
IsLabel l = (1 ≤ length l) × (length l ≤ 63)

-- The labels on the wire, each behind its length, without the final zero.
unfoldable pub encode : List Bytes → Bytes
encode [] = []
encode (l ∷ ls) = length l ∷ (l ++ encode ls)

-- `appendName` writes labels only if each may stand in a message.
append_labels-encode :
    (b : Bytes) (ls : List Bytes) {w : Bytes}
    → append_labels b ls ≡ ok w
    → All IsLabel ls × (w ≡ b ++ (encode ls ++ 0 ∷ []))
unfolding append_labels encode
append_labels-encode b [] e = (tt, cc)
append_labels-encode b (l ∷ ls) {w} e = elim (Bool-cases (length l == 0 || ltb 63 (length l))) [
  | inl t ↦ cc (rw t at e)
  | inr t ↦
      let (labels, written) =
        append_labels-encode ((b ++ length l % 256 ∷ []) ++ l) ls (rw t at e) in
      let small : length l % 256 ≡ length l = ground arith in
      (
        ((ground arith, ground arith), labels),
        written
            ∙ rw (append_assoc (b ++ length l % 256 ∷ []) l (encode ls ++ 0 ∷ [])) (
                rw (append_assoc b (length l % 256 ∷ []) (l ++ (encode ls ++ 0 ∷ [])))
                  (rw small (rw (append_assoc l (encode ls) (0 ∷ []))))),
      )
]

module _ (fuel : ℕ) (buf : Bytes) (off total : ℕ) (acc : List Bytes) where
  -- One round at a label.
  name_loop_label :
      (n : ℕ)
      → byte_at buf off ≡ n
      → 1 ≤ n
      → n ≤ 63
      → off + 1 + n ≤ length buf
      → total + n + 1 ≤ 255
      → name_loop (suc fuel) buf off none 0 total acc
        ≡ name_loop fuel buf
            (off + 1 + n)
            none
            0
            (total + n + 1)
            (acc ++ slice buf (off + 1) n ∷ [])
  unfolding name_loop
  name_loop_label n e p q r s =
      let a : leb (length buf) off ≡ false = ground arith in
      let b : (n == 0) ≡ false = ground arith in
      let c : (n / 64 == 3) ≡ false = ground arith in
      let d : (n / 64 == 0) ≡ true = ground arith in
      let f : ltb (length buf) (off + 1 + n) ≡ false = ground arith in
      let g : ltb 255 (total + n + 1) ≡ false = ground arith in
      rw e (rw a (rw b (rw c (rw d (rw f (rw g))))))

  -- The last round, at the root label.
  name_loop_root :
      byte_at buf off ≡ 0
      → off < length buf
      → name_loop (suc fuel) buf off none 0 total acc ≡ ok (to_lower (join_dots acc), off + 1)
  unfolding name_loop
  name_loop_root e h = let a : leb (length buf) off ≡ false = ground arith in rw e (rw a)

name_loop-encode :
    (fuel : ℕ) (buf : Bytes) (off total : ℕ) (acc ls : List Bytes) (rest : Bytes)
    → off ≤ length buf
    → drop off buf ≡ encode ls ++ (0 ∷ rest)
    → All IsLabel ls
    → total + wire_size ls ≤ 255
    → wire_size ls < fuel
    → name_loop fuel buf off none 0 total acc
      ≡ ok (to_lower (join_dots (acc ++ ls)), off + length (encode ls) + 1)
name_loop-encode zero buf off total acc ls rest h e l t f = absurd (omega arith)
name_loop-encode (suc fuel) buf off total acc [] rest h e l t f =
    let (inside, root, _) = drop_head 0 buf off 0 rest (unfold encode in e) in
    let end : off + 1 ≡ off + length (encode []) + 1 = unfold encode in omega arith in
    name_loop_root fuel buf off total acc root inside
    ∙ rw append-nil (ap (λ (n : ℕ). ok (to_lower (join_dots acc), n)) end)
name_loop-encode (suc fuel) buf off total acc (x ∷ ls) rest h e l t f =
    let (inside, first, more) =
      drop_head 0 buf off (length x) (x ++ (encode ls ++ (0 ∷ rest)))
        (e ∙ unfold encode in ap (λ r. length x ∷ r) (append_assoc x (encode ls) (0 ∷ rest))) in
    let (fits, later, label) =
      drop_past buf (off + 1) x (encode ls ++ (0 ∷ rest)) (omega (arith, inside)) more in
    let step =
      name_loop_label fuel buf off total acc (length x) first l.0.0 l.0.1 fits
        (unfold wire_size in omega arith) in
    let rest_of =
      name_loop-encode fuel buf (off + 1 + length x) (total + length x + 1) (acc ++ x ∷ []) ls rest
        fits later l.1 (unfold wire_size in omega arith) (unfold wire_size in omega arith) in
    let end : off + 1 + length x + length (encode ls) + 1 ≡ off + length (encode (x ∷ ls)) + 1 =
      unfold encode in omega (arith, length-append x (encode ls)) in
    step
    ∙ rw label (
        rest_of
        ∙ rw (append_assoc acc (x ∷ []) ls)
            (ap (λ (n : ℕ). ok (to_lower (join_dots (acc ++ x ∷ ls)), n)) end))

-- Lower case is lower case.
to_lower-to_lower : (s : Bytes) → to_lower (to_lower s) ≡ to_lower s
unfolding to_lower
to_lower-to_lower [] = refl
to_lower-to_lower (c ∷ s) = ap₂ (λ (k : ℕ) (r : Bytes). k ∷ r) (lower-lower c) (to_lower-to_lower s)
  where
    lower-lower : (c : ℕ) → lower (lower c) ≡ lower c
    lower-lower c = unfold lower in ground arith

length-encode : (ls : List Bytes) → length (encode ls) ≡ wire_size ls
unfolding encode wire_size
length-encode [] = refl
length-encode (l ∷ ls) = omega (arith, length-append l (encode ls), length-encode ls)

-- Labels on the wire are read as the name that they make.
pub Reads-encode :
    (ls : List Bytes)
    → All IsLabel ls
    → wire_size ls ≤ 255
    → Reads name (encode ls ++ 0 ∷ []) (λ off. to_lower (join_dots ls))
unfolding name
Reads-encode ls l t = record {
  at = λ buf off rest h e.
      name_loop-encode 300 buf off 0 [] ls rest h (e ∙ append_assoc (encode ls) (0 ∷ []) rest) l
        (omega arith) (omega arith)
      ∙ ap (λ (n : ℕ). ok (to_lower (join_dots ls), n))
          (omega (arith, length-append (encode ls) (0 ∷ [])));
}

append_normalized-Reads :
    (b s : Bytes) {w : Bytes}
    → append_normalized b s ≡ ok w
    → length s ≤ 254
    → (xs : Bytes) × (w ≡ b ++ xs) × Reads name xs (λ off. to_lower s)
unfolding append_normalized
append_normalized-Reads b [] e h = (
  0 ∷ [],
  cc,
  unfold encode join_dots to_lower in Reads-encode [] tt (unfold wire_size in omega arith),
)
append_normalized-Reads b (c ∷ s) {w} e h =
    let small : ltb 255 (length (c ∷ s)) ≡ false = ground arith in
    let filled : (length (c ∷ s) == 0) ≡ false = ground arith in
    let (labels, written) = append_labels-encode b (split_dots (c ∷ s)) (rw (filled, small) at e) in
    (
      encode (split_dots (c ∷ s)) ++ 0 ∷ [],
      written,
      rw (join_dots-split_dots (c ∷ s)) at
          (Reads-encode (split_dots (c ∷ s)) labels (omega (arith, wire_size-split_dots (c ∷ s)))),
    )

-- If `appendName` writes a name that has at most 254 bytes once it is normalized, then it appends to
-- the buffer, and wherever those bytes stand `parser.name` takes all of them and returns the normalized name.
pub append_name-Reads :
    (b s : Bytes) {w : Bytes}
    → append_name b s ≡ ok w
    → length (normalize_name s) ≤ 254
    → (xs : Bytes) × (w ≡ b ++ xs) × Reads name xs (λ off. normalize_name s)
unfolding append_name
append_name-Reads b s e h =
    let (xs, written, reads) = append_normalized-Reads b (normalize_name s) e h in
    (xs, written, rw (normalized_lower s) at reads)
  where
    normalized_lower : (s : Bytes) → to_lower (normalize_name s) ≡ normalize_name s
    normalized_lower s = unfold normalize_name in to_lower-to_lower _
