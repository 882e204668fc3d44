-- ===== src/Ecszone/Writable.antt =====
-- internal/ecszone/ecszone.go: the rows of the program's zones can be written as lines.
use dns_stack.Prelude.{
  ℕ, ◌+◌, ◌<◌, ◌≡◌, refl, Bool, true, false, List, [], ◌∷◌, ◌++◌, ◌&&◌, ◌||◌, not, inl, inr, ltb,
  ◌==◌, arith, max_u32, All, All-append, any, any-append, length, Bool-cases,
}
use dns_stack.Prelude.Sort.{sort_slice, All-sort_slice}
use dns_stack.Text.{Bytes, is_space}
use dns_stack.Text.Match.{codes}
use dns_stack.Text.Maps.{get_else}
use dns_stack.Text.Solid.{All-not-any}
use dns_stack.Ecszone.Names.{
  Record, region_trim, province_in, province_of, carrier_in, carrier_of, carrier_names, provinces,
  zone_of,
}
use dns_stack.Ecszone.Rows.{
  Row, row_less, merge_into, merge_turn, merge_from, merge_sorted, merge_rows,
}
use dns_stack.Ecszone.Merge.{ApartFrom}
use dns_stack.Ecszone.Rendered.{IsWritable}

-- The text can be written as a field of a line.
unfoldable pub is_plain : Bytes → Bool
is_plain s = not (any is_space s) && not (any (λ c. c == b',') s)

is_plain-append : (s t : Bytes) → is_plain s ≡ true → is_plain t ≡ true → is_plain (s ++ t) ≡ true
unfolding is_plain
is_plain-append s t h k =
    rw (any-append is_space s t, any-append (λ c. c == b',') s t) (ground (arith, h, k))

is_plain-province_in :
    (names : List Bytes) (region : Bytes)
    → any (λ s. not (is_plain s)) names ≡ false
    → is_plain (province_in names region) ≡ true
unfolding province_in any
is_plain-province_in [] region h = unfold is_plain in refl
is_plain-province_in (name ∷ names) region h = ground (arith, h, is_plain-province_in names region)

is_plain-carrier_in :
    (carriers : List (Bytes × Bytes)) (text : Bytes)
    → any (λ (c : Bytes × Bytes). not (is_plain c.1)) carriers ≡ false
    → is_plain (carrier_in carriers text) ≡ true
unfolding carrier_in any
is_plain-carrier_in [] text h = unfold is_plain in refl
is_plain-carrier_in ((keyword, name) ∷ carriers) text h =
    ground (arith, h, is_plain-carrier_in carriers text)

is_plain-province_of : (fields : Record) → is_plain (province_of fields) ≡ true
unfolding province_of is_plain any is_space
is_plain-province_of fields =
    is_plain-province_in provinces (region_trim (get_else (codes "region_name") [] fields)) refl

is_plain-carrier_of : (fields : Record) → is_plain (carrier_of fields) ≡ true
unfolding carrier_of is_plain any is_space
is_plain-carrier_of fields =
    is_plain-carrier_in carrier_names
      (get_else (codes "isp_domain") [] fields
        ++ codes "|"
        ++ get_else (codes "owner_domain") [] fields)
      refl

-- The names in the program's tables can be written as fields.
pub is_plain-zone_of : (fields : Record) → is_plain (zone_of fields) ≡ true
unfolding zone_of
is_plain-zone_of fields =
    elim (Bool-cases (length (province_of fields) == 0 || length (carrier_of fields) == 0)) [
      | inl e ↦ rw e (unfold is_plain any in refl)
      | inr e ↦ rw e (
          is_plain-append (province_of fields) (carrier_of fields) (is_plain-province_of fields)
            (is_plain-carrier_of fields))
    ]

-- A row with a zone that can be written, which ends below 255.255.255.255.
abbrev pub IsGood : Row → Type 0
IsGood r = (is_plain r.zone ≡ true) × (r.hi < max_u32)

merge_turn-IsGood :
    (last row : Row)
    → IsGood last
    → IsGood row
    → All IsGood (merge_turn last row).behind × IsGood (merge_turn last row).last
unfolding merge_turn merge_into
merge_turn-IsGood last row h k = ground arith

merge_from-IsGood :
    (last : Row) (rows : List Row)
    → IsGood last
    → All IsGood rows
    → All IsGood (merge_from last rows).0
unfolding merge_from
merge_from-IsGood last [] h k = (h, tt)
merge_from-IsGood last (row ∷ rows) h k =
    let turn = merge_turn-IsGood last row h k.0 in
    All-append IsGood (merge_turn last row).behind _ turn.0
      (merge_from-IsGood (merge_turn last row).last rows turn.1 k.1)

merge_sorted-IsGood : (rows : List Row) → All IsGood rows → All IsGood (merge_sorted rows).0
unfolding merge_sorted
merge_sorted-IsGood [] h = tt
merge_sorted-IsGood (row ∷ rows) h = elim (Bool-cases (ltb row.hi row.lo)) [
  | inl e ↦ rw e (merge_sorted-IsGood rows h.1)
  | inr e ↦ rw e (merge_from-IsGood row rows h.0 h.1)
]

pub merge_rows-IsGood : (rows : List Row) → All IsGood rows → All IsGood (merge_rows rows).0
unfolding merge_rows
merge_rows-IsGood rows h =
    merge_sorted-IsGood (sort_slice row_less rows) (All-sort_slice row_less IsGood rows h)

-- Good rows that are apart can be written.
pub Good-IsWritable :
    (n : ℕ) (rows : List Row) → ApartFrom n rows → All IsGood rows → All IsWritable rows
unfolding is_plain
Good-IsWritable n [] a h = tt
Good-IsWritable n (r ∷ rows) a h = (
  record {
    valid = a.1;
    word = omega (arith, h.0.1);
    solid_zone = All-not-any is_space r.zone (ground (arith, h.0.0));
    plain_zone = All-not-any (λ c. c == b',') r.zone (ground (arith, h.0.0));
  },
  Good-IsWritable (r.hi + 1) rows a.2 h.1,
)
