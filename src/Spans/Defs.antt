-- ===== src/Spans/Defs.antt =====
-- internal/ipset/ipset.go: `Range`, its order, and what a list of ranges covers.
use dns_stack.Prelude.{
  ℕ, ◌≤◌, ◌≡◌, ap, ◌∙◌, Bool, List, ◌&&◌, arith, ltb, leb, ◌==◌, if◌then◌else◌, any,
}
use dns_stack.Prelude.Sort.{IsStrict}
use dns_stack.Prelude.Permutations.{TiesAreEqual}

pub record Range : Type 0 where
  pub lo : ℕ
  pub hi : ℕ

-- The `less` function that both packages pass to `sort.Slice`.
unfoldable pub range_less : Range → Range → Bool
range_less a b = if a.lo == b.lo then ltb a.hi b.hi else ltb a.lo b.lo

pub range_less-IsStrict : IsStrict range_less
unfolding range_less
range_less-IsStrict = record {
  asymmetric = λ x y h. ground arith;
  not_less_trans = λ x y z h k. ground arith;
}

pub range_less-TiesAreEqual : TiesAreEqual range_less
unfolding range_less
range_less-TiesAreEqual x y h k =
    let same_lo : x.lo ≡ y.lo = ground arith in
    let same_hi : x.hi ≡ y.hi = ground arith in
    ap (λ n. record x { lo = n }) same_lo ∙ ap (λ n. record y { hi = n }) same_hi

-- The address `x` lies in the range.
abbrev pub within : ℕ → Range → Bool
within x r = leb r.lo x && leb x r.hi

-- The address `x` lies in one of the ranges.
abbrev pub covered : List Range → ℕ → Bool
covered rs x = any (within x) rs

-- The ends are in order.
abbrev pub IsValid : Range → Type 0
IsValid r = r.lo ≤ r.hi

-- Both ends are uint32 values.
abbrev pub IsWord : Range → Type 0
IsWord r = (r.lo ≤ 4294967295) × (r.hi ≤ 4294967295)
