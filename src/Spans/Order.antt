-- ===== src/Spans/Order.antt =====
-- Sorted ranges ascend by their low ends.
use dns_stack.Prelude.{ℕ, ◌≤◌, ◌≡◌, false, List, [], ◌∷◌, arith}
use dns_stack.Prelude.Sort.{IsSorted}
use dns_stack.Spans.Defs.{Range, range_less}
use dns_stack.Spans.Normal.{Ascending}

range_less_lo : (a b : Range) → range_less b a ≡ false → a.lo ≤ b.lo
unfolding range_less
range_less_lo a b h = ground arith

pub sorted-Ascending :
    (r : Range) (rs : List Range) → IsSorted range_less (r ∷ rs) → Ascending r.lo rs
sorted-Ascending r [] h = tt
sorted-Ascending r (s ∷ rs) h = (range_less_lo r s h.0.0, sorted-Ascending s rs h.1)

pub Ascending-le : (m n : ℕ) (rs : List Range) → m ≤ n → Ascending n rs → Ascending m rs
Ascending-le m n [] h a = tt
Ascending-le m n (r ∷ rs) h a = (omega arith, a.1)
