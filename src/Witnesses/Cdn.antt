-- ===== src/Witnesses/Cdn.antt =====
-- Names below a root of an operator.
use dns_stack.Prelude.{◌≡◌, refl, true, false, any}
use dns_stack.Text.Match.{codes, cut}
use dns_stack.Text.Below.{walk_up, is_below_any}
use dns_stack.Cdn.Table.{Operator, operators}
use dns_stack.Domain.Suffixes.{normalize}
use dns_stack.Cdn.{build_geo_steered, geo_steered, is_geo_steered, is_geo_steered-is_below_any}

is_geo_steered-is_below_any_example :
    is_geo_steered (codes "WWW.Edgekey.net.")
    ≡ any
        (λ (op : Operator). is_below_any op.roots (normalize (codes "WWW.Edgekey.net.")))
        operators
is_geo_steered-is_below_any_example = is_geo_steered-is_below_any (codes "WWW.Edgekey.net.")

steered_run : is_geo_steered (codes "WWW.Edgekey.net.") ≡ true
unfolding is_geo_steered walk_up geo_steered build_geo_steered normalize cut
steered_run = refl

not_steered_run : is_geo_steered (codes "notedgekey.net") ≡ false
unfolding is_geo_steered walk_up geo_steered build_geo_steered normalize cut
not_steered_run = refl
