-- ===== src/Dnswire/Name/Accepts.antt =====
-- Which names `appendName` takes.
use dns_stack.Prelude.{
  ◌%◌, ◌≤◌, ◌≡◌, ◌↔◌, ◌⊎◌, true, false, List, [], ◌∷◌, ◌++◌, ◌||◌, inl, inr, arith, ltb, ◌==◌,
  length, All, Bool-cases,
}
use dns_stack.Text.{Bytes, split_dots}
use dns_stack.Dnswire.Reader.{Result, ok, err}
use dns_stack.Dnswire.Name.{
  max_label_length, max_name_length, normalize_name, append_labels, append_normalized, append_name,
}
use dns_stack.Dnswire.Name.RoundTrip.{IsLabel}

abbrev pub IsOk : Result Bytes → Type 0
IsOk (ok b) = Unit
IsOk (err e) = ⊥

append_labels-IsLabel : (b : Bytes) (ls : List Bytes) → IsOk (append_labels b ls) ↔ All IsLabel ls
unfolding append_labels
append_labels-IsLabel b [] = (λ h. tt, λ h. tt)
append_labels-IsLabel b (l ∷ ls) =
    let rest = append_labels-IsLabel ((b ++ length l % 256 ∷ []) ++ l) ls in
    elim (Bool-cases (length l == 0 || ltb max_label_length (length l))) [
      | inl e ↦ rw e (λ h. absurd h, λ h. absurd (ground (arith, e, h.0)))
      | inr e ↦ rw e (λ h. (ground (arith, e), rest.0 h), λ h. rest.1 h.1)
    ]

-- The root, or at most 255 bytes in labels of 1 to 63 bytes.
abbrev pub IsHostName : Bytes → Type 0
IsHostName n = (length n ≡ 0) ⊎ ((length n ≤ 255) × All IsLabel (split_dots n))

too_long :
    (n : Bytes) → IsHostName n → (length n == 0) ≡ false → ltb max_name_length (length n) ≡ true → ⊥
too_long n (inl z) e f = ground (arith, e, z)
too_long n (inr k) e f = ground (arith, f, k.0)

labels_of : (n : Bytes) → IsHostName n → (length n == 0) ≡ false → All IsLabel (split_dots n)
labels_of n (inl z) e = absurd (ground (arith, e, z))
labels_of n (inr k) e = k.1

append_normalized-IsHostName : (b n : Bytes) → IsOk (append_normalized b n) ↔ IsHostName n
unfolding append_normalized
append_normalized-IsHostName b n = elim (Bool-cases (length n == 0)) [
  | inl e ↦ rw e (λ h. inl (ground (arith, e)), λ h. tt)
  | inr e ↦ elim (Bool-cases (ltb max_name_length (length n))) [
    | inl f ↦ rw (e, f) (λ h. absurd h, λ h. absurd (too_long n h e f))
    | inr f ↦
        rw (e, f)
          (
            λ h. inr (ground (arith, f), (append_labels-IsLabel b (split_dots n)).0 h),
            λ h. (append_labels-IsLabel b (split_dots n)).1 (labels_of n h e),
          )
  ]
]

-- `appendName` takes a name, whatever the buffer, exactly if the name is empty once it is normalized, or
-- has then at most 255 bytes, in labels of 1 to 63 bytes between the dots; it refuses all others.
pub append_name-IsHostName :
    (b name : Bytes) → IsOk (append_name b name) ↔ IsHostName (normalize_name name)
unfolding append_name
append_name-IsHostName b name = append_normalized-IsHostName b (normalize_name name)
