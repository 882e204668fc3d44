-- ===== src/Ecszone/Fanout/Picked.antt =====
-- internal/ecszone/fanout.go: which zones `PickFanout` picks.
use dns_stack.Prelude.{
  All-mono, ℕ, suc, ◌≤◌, ◌<◌, ◌≡◌, refl, ap, ◌∙◌, ◌⊎◌, Bool, false, List, [], ◌∷◌, ◌++◌, inl, inr,
  ltb, if◌then◌else◌, arith, length, take, drop, zero, All, map, Bool-cases,
}
use dns_stack.Prelude.Sort.{sort_slice, All-sort_slice, IsStrict, IsSorted, sort_slice-IsSorted}
use mathlib.Core.List.{Permᴰ}
use mathlib.Core.List.Permᴰ
use dns_stack.Prelude.Permutations.{sort_slice-perm, length-Permᴰ}
use dns_stack.Text.Match.{bytes_less}
use dns_stack.Text.{Bytes}
use dns_stack.Text.Order.{bytes_less-IsStrict}
use dns_stack.Ecszone.Fanout.{
  ZoneTraffic, is_busy, busy_zones, is_busier, by_zone_name, pick_fanout,
}

is_busier-IsStrict : IsStrict is_busier
unfolding is_busier
is_busier-IsStrict = record {
  asymmetric = λ x y e. ground (arith, e, bytes_less-IsStrict.asymmetric x.zone y.zone);
  not_less_trans =
      λ x y z e f. ground (arith, e, f, bytes_less-IsStrict.not_less_trans x.zone y.zone z.zone);
}

by_zone_name-IsStrict : IsStrict by_zone_name
unfolding by_zone_name
by_zone_name-IsStrict = record {
  asymmetric = λ x y. bytes_less-IsStrict.asymmetric x.zone y.zone;
  not_less_trans = λ x y z. bytes_less-IsStrict.not_less_trans x.zone y.zone z.zone;
}

append-take-drop : {A : Type 0} (n : ℕ) (xs : List A) → take n xs ++ drop n xs ≡ xs
append-take-drop zero xs = refl
append-take-drop (suc n) [] = refl
append-take-drop (suc n) (x ∷ xs) = ap (λ r. x ∷ r) (append-take-drop n xs)

-- What is dropped from a sorted list does not come before what is taken.
sorted-split :
    {A : Type 0} (less : A → A → Bool) (n : ℕ) (xs : List A)
    → IsSorted less xs
    → All (λ p. All (λ r. less r p ≡ false) (drop n xs)) (take n xs)
sorted-split less zero xs h = tt
sorted-split less (suc n) [] h = tt
sorted-split less (suc n) (x ∷ xs) h =
    (All-drop (λ r. less r x ≡ false) n xs h.0, sorted-split less n xs h.1)
  where
    All-drop : {A : Type 0} (P : A → Type 0) (n : ℕ) (xs : List A) → All P xs → All P (drop n xs)
    All-drop P zero xs h = h
    All-drop P (suc n) [] h = tt
    All-drop P (suc n) (x ∷ xs) h = All-drop P n xs h.1

length-take_min :
    {A : Type 0} (n : ℕ) (xs : List A)
    → length (take n xs) ≡ (if ltb n (length xs) then n else length xs)
length-take_min zero [] = refl
length-take_min zero (x ∷ xs) = ground arith
length-take_min (suc n) [] = ground arith
length-take_min (suc n) (x ∷ xs) = ground (arith, length-take_min n xs)

-- How many of so many zones are picked.
abbrev pub picked_count : ℕ → ℕ → ℕ
picked_count max_zones n = if ltb max_zones n then max_zones else n

-- The zone comes before the other: it has more queries, or as many and not a later name.
abbrev pub Outranks : ZoneTraffic → ZoneTraffic → Type 0
Outranks p r =
    (r.queries < p.queries) ⊎ ((r.queries ≡ p.queries) × (bytes_less r.zone p.zone ≡ false))

not_busier-Outranks : (p r : ZoneTraffic) → is_busier r p ≡ false → Outranks p r
unfolding is_busier
not_busier-Outranks p r h = ground (arith, h)

-- The picked zones are in the order of their names, as many as may be, and no zone that is left out has more queries, or as
-- many and an earlier name, than a picked one.
pub record IsPick (busy : List ZoneTraffic) (max_zones : ℕ) (picked : List ZoneTraffic)
    : Type 0 where
  pub count : length picked ≡ picked_count max_zones (length busy)
  pub in_order : IsSorted (λ a b. bytes_less a.zone b.zone) picked
  pub left_out : List ZoneTraffic
  pub divides : Permᴰ (picked ++ left_out) busy
  pub on_top : All (λ p. All (Outranks p) left_out) picked

-- Enough queries, and a subnet.
abbrev pub HasUse : ℕ → ZoneTraffic → Type 0
HasUse min_queries t = (min_queries ≤ t.queries) × (0 < length t.subnet)

abbrev pub HasNoUse : ℕ → ZoneTraffic → Type 0
HasNoUse min_queries t = (t.queries < min_queries) ⊎ (length t.subnet ≡ 0)

-- The entries that have a use, each as often as it stands among all.
pub record AreUsed (min_queries : ℕ) (entries used : List ZoneTraffic) : Type 0 where
  pub idle : List ZoneTraffic
  pub divides : Permᴰ (used ++ idle) entries
  pub have_use : All (HasUse min_queries) used
  pub have_none : All (HasNoUse min_queries) idle

busy_zones-AreUsed :
    (min_queries : ℕ) (by_zone : List (Bytes × ZoneTraffic))
    → AreUsed min_queries (map (λ e. e.1) by_zone) (busy_zones min_queries by_zone)
unfolding busy_zones is_busy
busy_zones-AreUsed min_queries [] = record {
  idle = [];
  divides = Permᴰ.nil;
  have_use = tt;
  have_none = tt;
}
busy_zones-AreUsed min_queries ((zone, t) ∷ by_zone) =
    let rest = busy_zones-AreUsed min_queries by_zone in
    elim (Bool-cases (is_busy min_queries t)) [
      | inl e ↦ rw e (record {
        idle = rest.idle;
        divides = Permᴰ.cons refl rest.divides;
        have_use = (ground (arith, e), rest.have_use);
        have_none = rest.have_none;
      })
      | inr e ↦ rw e (record {
        idle = t ∷ rest.idle;
        divides =
            Permᴰ.trans (Permᴰ.middle t (busy_zones min_queries by_zone) rest.idle)
              (Permᴰ.cons refl rest.divides);
        have_use = rest.have_use;
        have_none = (ground (arith, e), rest.have_none);
      })
    ]

picked-IsPick :
    (by_zone : List (Bytes × ZoneTraffic)) (min_queries max_zones : ℕ)
    → ((picked_count max_zones (length (busy_zones min_queries by_zone)) < 2)
        × (pick_fanout by_zone min_queries max_zones ≡ []))
      ⊎ ((2 ≤ picked_count max_zones (length (busy_zones min_queries by_zone)))
          × IsPick
              (busy_zones min_queries by_zone)
              max_zones
              (pick_fanout by_zone min_queries max_zones))
unfolding pick_fanout
picked-IsPick by_zone min_queries max_zones =
    let busy = busy_zones min_queries by_zone in
    let sorted = sort_slice is_busier busy in
    let out = take max_zones sorted in
    let size : length out ≡ picked_count max_zones (length busy) =
      length-take_min max_zones sorted
      ∙ ap (picked_count max_zones) (length-Permᴰ (sort_slice-perm is_busier busy)) in
    elim (Bool-cases (ltb (length out) 2)) [
      | inl e ↦ inl (rw (← size) (ground (arith, e)), rw e refl)
      | inr e ↦ inr (
        rw (← size) (ground (arith, e)),
        rw e (record {
          count = length-Permᴰ (sort_slice-perm by_zone_name out) ∙ size;
          in_order =
              unfold by_zone_name in sort_slice-IsSorted by_zone_name by_zone_name-IsStrict out;
          left_out = drop max_zones sorted;
          divides =
              Permᴰ.trans
                (Permᴰ.append_right (drop max_zones sorted) (sort_slice-perm by_zone_name out))
                (rw (append-take-drop max_zones sorted) (sort_slice-perm is_busier busy));
          on_top =
              All-sort_slice by_zone_name (λ p. All (Outranks p) (drop max_zones sorted)) out
                (All-mono _ _ out
                  (λ p h. All-mono _ _ (drop max_zones sorted) (λ r q. not_busier-Outranks p r q) h)
                  (sorted-split is_busier max_zones sorted
                    (sort_slice-IsSorted is_busier is_busier-IsStrict busy)));
        }),
      )
    ]

-- `PickFanout` picks, among the zones that have enough queries and a subnet, as many as may be of those with the most
-- queries, or with as many and an earlier name, in the order of their names, and none if these are fewer than two or fewer than two may be picked.
pub pick_fanout-IsPick :
    (by_zone : List (Bytes × ZoneTraffic)) (min_queries max_zones : ℕ)
    → (used : List ZoneTraffic) × AreUsed min_queries (map (λ e. e.1) by_zone) used
      × (((picked_count max_zones (length used) < 2)
            × (pick_fanout by_zone min_queries max_zones ≡ []))
          ⊎ ((2 ≤ picked_count max_zones (length used))
              × IsPick used max_zones (pick_fanout by_zone min_queries max_zones)))
pick_fanout-IsPick by_zone min_queries max_zones = (
  busy_zones min_queries by_zone,
  busy_zones-AreUsed min_queries by_zone,
  picked-IsPick by_zone min_queries max_zones,
)
