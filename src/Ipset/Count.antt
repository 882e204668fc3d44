-- ===== src/Ipset/Count.antt =====
-- `AddressCount`: the number of addresses, with no overflow of its uint64.
use dns_stack.Prelude.{
  ℕ, zero, suc, ◌+◌, ◌-◌, ◌%◌, ◌≤◌, ◌<◌, ◌≡◌, refl, sym, ap, ◌∙◌, Bool, true, false, some, List, [],
  ◌∷◌, ◌||◌, if◌then◌else◌, arith, u32_mod, All, any,
}
use mathlib.Core.Path.{fun_ext}
use Prim.Native.Nat.{min}
use dns_stack.Spans.{Range, IsValid, IsWord, NormalFrom, covered, covered_below, within}
use dns_stack.Ipset.Collapse.{collapse, covered-collapse, collapse-IsNormal, collapse-IsWord}
use dns_stack.Ipset.Sets.{new, u64_mod, range_size, count_loop, address_count}

-- How many numbers below `n` pass the test.
unfoldable pub count_below : ℕ → (ℕ → Bool) → ℕ
count_below zero p = 0
count_below (suc n) p = (if p n then 1 else 0) + count_below n p

count_below-le : (n : ℕ) (p : ℕ → Bool) → count_below n p ≤ n
unfolding count_below
count_below-le zero p = omega arith
count_below-le (suc n) p = ground (arith, count_below-le n p)

count_below-within :
    (n : ℕ) (r : Range)
    → IsValid r
    → count_below n (λ x. within x r) ≡ min n (r.hi + 1) - min n r.lo
unfolding count_below
count_below-within zero r v = omega arith
count_below-within (suc n) r v = ground (arith, count_below-within n r v)

-- Tests of which at most one passes at each number.
count_below-disjoint :
    (n : ℕ) (p q : ℕ → Bool)
    → ((x : ℕ) → p x ≡ true → q x ≡ false)
    → count_below n (λ x. p x || q x) ≡ count_below n p + count_below n q
unfolding count_below
count_below-disjoint zero p q d = omega arith
count_below-disjoint (suc n) p q d = ground (arith, d n, count_below-disjoint n p q d)

-- The sum of the sizes, as the loop adds them up, is a count of addresses.
sizes : List Range → ℕ
sizes [] = 0
sizes (r ∷ rs) = (r.hi - r.lo + 1) + sizes rs

count_below-nothing : (n : ℕ) → count_below n (λ x. covered [] x) ≡ 0
unfolding count_below any
count_below-nothing zero = refl
count_below-nothing (suc n) = ground (arith, count_below-nothing n)

count_below-∷ :
    (n : ℕ) (r : Range) (rs : List Range)
    → count_below n (λ x. covered (r ∷ rs) x) ≡ count_below n (λ x. within x r || covered rs x)
unfolding any
count_below-∷ n r rs = refl

sizes-count :
    (n : ℕ) (rs : List Range)
    → NormalFrom n rs
    → All IsWord rs
    → sizes rs ≡ count_below u32_mod (λ x. covered rs x)
unfolding sizes
sizes-count n [] k w = sym (count_below-nothing u32_mod)
sizes-count n (r ∷ rs) k w =
    let apart : (x : ℕ) → within x r ≡ true → covered rs x ≡ false =
      λ x t. covered_below (r.hi + 2) rs x k.2 (ground arith) in
    let here : r.hi - r.lo + 1 ≡ count_below u32_mod (λ x. within x r) =
      omega (arith, count_below-within u32_mod r k.1, k.1, w.0.1) in
    let rest = sizes-count (r.hi + 2) rs k.2 w.1 in
    let same = count_below-∷ u32_mod r rs in
    let both = count_below-disjoint u32_mod (λ x. within x r) (λ x. covered rs x) apart in
    omega (arith, here, rest, both, same)

count_loop-sizes :
    (n : ℕ) (rs : List Range)
    → All IsValid rs
    → All IsWord rs
    → n + sizes rs < u64_mod
    → count_loop n rs ≡ n + sizes rs
unfolding count_loop sizes
count_loop-sizes n [] v w h = omega arith
count_loop-sizes n (r ∷ rs) v w h =
    let exact : (n + range_size r) % u64_mod ≡ n + (r.hi - r.lo + 1) =
      unfold range_size in omega (arith, v.0, w.0.0, w.0.1) in
    rw exact (count_loop-sizes (n + (r.hi - r.lo + 1)) rs v.1 w.1 (omega arith) ∙ omega arith)

NormalFrom-IsValid : (n : ℕ) (rs : List Range) → NormalFrom n rs → All IsValid rs
NormalFrom-IsValid n [] k = tt
NormalFrom-IsValid n (r ∷ rs) k = (k.1, NormalFrom-IsValid (r.hi + 2) rs k.2)

-- The sum over a list in normal form is a count of addresses, and does not overflow.
pub count_loop-count_below :
    (rs : List Range)
    → NormalFrom 0 rs
    → All IsWord rs
    → count_loop 0 rs ≡ count_below u32_mod (λ x. covered rs x)
count_loop-count_below rs k word =
    let count = sizes-count 0 rs k word in
    let bound = count_below-le u32_mod (λ x. covered rs x) in
    count_loop-sizes 0 rs (NormalFrom-IsValid 0 rs k) word (omega (arith, count, bound))
    ∙ omega (arith, count)

-- `AddressCount` of a set made from valid uint32 ranges is the number of IPv4 addresses that some
-- range holds: addresses in several ranges count once, and the sum does not overflow.
pub address_count-count_below :
    (rs : List Range)
    → All IsValid rs
    → All IsWord rs
    → address_count (some (new rs)) ≡ count_below u32_mod (λ x. covered rs x)
unfolding address_count new
address_count-count_below rs v w =
    count_loop-count_below (collapse rs) (collapse-IsNormal rs v w) (collapse-IsWord rs w)
    ∙ ap (count_below u32_mod) (fun_ext (λ x. covered-collapse rs x w))
