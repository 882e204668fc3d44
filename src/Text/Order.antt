-- ===== src/Text/Order.antt =====
-- The order of byte strings is a total order.
use dns_stack.Prelude.{◌≡◌, refl, true, false, [], ◌∷◌, arith}
use dns_stack.Prelude.Sort.{IsStrict}
use dns_stack.Prelude.Permutations.{TiesAreEqual}
use dns_stack.Text.{Bytes}
use dns_stack.Text.Match.{bytes_less}

bytes_less_asymmetric : (s t : Bytes) → bytes_less s t ≡ true → bytes_less t s ≡ false
unfolding bytes_less
bytes_less_asymmetric s [] h = cc
bytes_less_asymmetric [] (b ∷ t) h = refl
bytes_less_asymmetric (a ∷ s) (b ∷ t) h = ground (arith, h, bytes_less_asymmetric s t)

not_bytes_less_trans :
    (s t u : Bytes) → bytes_less t s ≡ false → bytes_less u t ≡ false → bytes_less u s ≡ false
unfolding bytes_less
not_bytes_less_trans [] t u h k = refl
not_bytes_less_trans (a ∷ s) [] u h k = cc
not_bytes_less_trans (a ∷ s) (b ∷ t) [] h k = cc
not_bytes_less_trans (a ∷ s) (b ∷ t) (c ∷ u) h k = ground (arith, h, k, not_bytes_less_trans s t u)

pub bytes_less-IsStrict : IsStrict bytes_less
bytes_less-IsStrict = record {
  asymmetric = bytes_less_asymmetric;
  not_less_trans = not_bytes_less_trans;
}

pub bytes_less-TiesAreEqual : TiesAreEqual bytes_less
unfolding bytes_less
bytes_less-TiesAreEqual [] [] h k = refl
bytes_less-TiesAreEqual [] (b ∷ t) h k = cc
bytes_less-TiesAreEqual (a ∷ s) [] h k = cc
bytes_less-TiesAreEqual (a ∷ s) (b ∷ t) h k = ground (arith, h, k, bytes_less-TiesAreEqual s t)
