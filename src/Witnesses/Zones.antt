-- ===== src/Witnesses/Zones.antt =====
-- A database with one entry, a file with one direct prefix, and a printer of addresses.
use dns_stack.Prelude.{
  ℕ, ap, ◌≡◌, ◌+◌, ◌-◌, refl, false, true, none, some, Option, List, [], ◌∷◌, arith, All,
  if◌then◌else◌, inl, inr, Bool-cases,
}
use dns_stack.Text.{Bytes, is_space}
use dns_stack.Text.Match.{codes, same, has_prefix, cut_prefix}
use dns_stack.Netip.{Addr, v4, Prefix, prefix_from}
use dns_stack.Ipset.Global.{dotted}
use dns_stack.Ipset.Sets.{new}
use dns_stack.Spans.{Range}
use dns_stack.Ecszone.Names.{Record}
use dns_stack.Ecszone.Rows.{Row, marked}
use dns_stack.Ecszone.Build.{load_rows}
use dns_stack.Metrics.{ReloadAnswers, IsReplaced, replace_and_reload}
use dns_stack.Ecszone.Publish.{render, step_ecs_zone}
use dns_stack.Ecszone.Rendered.{IsPrinter, IsWritable, load_rows-render}
use dns_stack.Ecszone.Direct.{ParsesWords}
use dns_stack.Ecszone.Table.{outcome, belongs, step_ecs_zone-Marked}

-- An address as one character, past those of ASCII.
abbrev print_addr : ℕ → Bytes
print_addr a = (a + 128) ∷ []

abbrev parse_addr : Bytes → Option Addr
parse_addr (c ∷ []) = some (v4 (c - 128))
parse_addr _ = none

printer : IsPrinter parse_addr print_addr
unfolding is_space has_prefix cut_prefix
printer = record {
  reads = λ a h. ap (λ n. some (v4 n)) (omega arith);
  solid = λ a h. (ground arith, tt);
  no_comma = λ a h. (ground arith, tt);
  not_empty = λ a h. refl;
  no_comment = λ a h. ground arith;
}

abbrev block : Prefix
block = prefix_from (v4 (dotted 1 2 0 0)) 16

abbrev parse_prefix : Bytes → Option Prefix
parse_prefix text = if same text (codes "1.2.0.0/16") then some block else none

words : ParsesWords parse_prefix
words text p e f = elim (Bool-cases (same text (codes "1.2.0.0/16"))) [
  | inl t ↦ (dotted 1 2 0 0, 16, ground (arith, e, t), omega arith, omega arith)
  | inr t ↦ absurd (ground (arith, e, t))
]

abbrev entries : List (Prefix × Record)
entries =
    (
      block,
      (codes "country_code", codes "CN")
          ∷ (codes "region_name", codes "北京")
          ∷ (codes "isp_domain", codes "电信")
          ∷ [],
    )
    ∷ []

abbrev disputed : List Range
disputed = record { lo = dotted 1 2 3 0; hi = dotted 1 2 3 255 } ∷ []

-- mosproxy rejects the first table, which is removed.
abbrev rejected : ReloadAnswers
rejected = record { writes = true; code = 400; removes = true; writes_back = true; recheck = 0 }

step_ecs_zone-Marked_example :
    (rows : List Row) × (step_ecs_zone print_addr parse_prefix false
        (some (codes "1.2.0.0/16"))
        (some (new disputed))
        (some entries)
        none
        rejected
      ≡ outcome print_addr false none rejected rows)
    × IsReplaced none
        (render print_addr rows)
        rejected
        (replace_and_reload none (render print_addr rows) rejected)
    × (load_rows parse_addr (some (render print_addr rows)) ≡ some rows)
    × ((x : ℕ) → marked rows x ≡ belongs parse_prefix (codes "1.2.0.0/16") disputed entries x)
step_ecs_zone-Marked_example =
    step_ecs_zone-Marked parse_addr parse_prefix print_addr printer words (codes "1.2.0.0/16")
      disputed entries false none rejected (omega arith) (omega arith)

abbrev written_rows : List Row
written_rows =
    record { lo = 5; hi = 9; zone = codes "北京电信" }
    ∷ record { lo = 10; hi = 20; zone = codes "上海移动" }
    ∷ []

written_rows-IsWritable : All IsWritable written_rows
unfolding is_space
written_rows-IsWritable = (
  record {
    valid = omega arith;
    word = omega arith;
    solid_zone = (refl, (refl, (refl, (refl, tt))));
    plain_zone = (refl, (refl, (refl, (refl, tt))));
  },
  (
    record {
      valid = omega arith;
      word = omega arith;
      solid_zone = (refl, (refl, (refl, (refl, tt))));
      plain_zone = (refl, (refl, (refl, (refl, tt))));
    },
    tt,
  ),
)

load_rows-render_example :
    load_rows parse_addr (some (render print_addr written_rows)) ≡ some written_rows
load_rows-render_example =
    load_rows-render parse_addr print_addr printer written_rows (omega arith)
      written_rows-IsWritable
