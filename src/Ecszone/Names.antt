-- ===== src/Ecszone/Names.antt =====
-- internal/ecszone/ecszone.go: the name of a zone. A text is the list of its code points; whether a part, a prefix or
-- an order of texts holds is the same for their bytes.
use dns_stack.Prelude.{
  none, some, List, [], ◌∷◌, ◌++◌, ◌&&◌, ◌||◌, ltb, ◌==◌, if◌then◌else◌, length,
}
use dns_stack.Text.{Bytes}
use dns_stack.Text.Match.{codes, has_prefix, contains, cut_prefix}
use dns_stack.Text.Maps.{get_else}

abbrev pub Record : Type 0
Record = List (Bytes × Bytes)

abbrev pub carrier_names : List (Bytes × Bytes)
carrier_names =
    (codes "电信", codes "电信")
    ∷ (codes "联通", codes "联通")
    ∷ (codes "网通", codes "联通")
    ∷ (codes "移动", codes "移动")
    ∷ (codes "铁通", codes "移动")
    ∷ (codes "教育网", codes "教育网")
    ∷ (codes "教育", codes "教育网")
    ∷ (codes "广电", codes "广电")
    ∷ (codes "有线", codes "广电")
    ∷ (codes "鹏博士", codes "鹏博士")
    ∷ (codes "长城", codes "长城宽带")
    ∷ []

abbrev pub provinces : List Bytes
provinces =
    codes "北京"
    ∷ codes "天津"
    ∷ codes "河北"
    ∷ codes "山西"
    ∷ codes "内蒙古"
    ∷ codes "辽宁"
    ∷ codes "吉林"
    ∷ codes "黑龙江"
    ∷ codes "上海"
    ∷ codes "江苏"
    ∷ codes "浙江"
    ∷ codes "安徽"
    ∷ codes "福建"
    ∷ codes "江西"
    ∷ codes "山东"
    ∷ codes "河南"
    ∷ codes "湖北"
    ∷ codes "湖南"
    ∷ codes "广东"
    ∷ codes "广西"
    ∷ codes "海南"
    ∷ codes "重庆"
    ∷ codes "四川"
    ∷ codes "贵州"
    ∷ codes "云南"
    ∷ codes "西藏"
    ∷ codes "陕西"
    ∷ codes "甘肃"
    ∷ codes "青海"
    ∷ codes "宁夏"
    ∷ codes "新疆"
    ∷ []

-- `regionTrim`: the signs 市 and 省 are dropped.
unfoldable pub region_trim : Bytes → Bytes
region_trim [] = []
region_trim (c ∷ s) =
    let rest = region_trim s in if c == 0x5e02 || c == 0x7701 then rest else c ∷ rest

-- The loop over the provinces.
unfoldable pub province_in : List Bytes → Bytes → Bytes
province_in [] region = []
province_in (name ∷ names) region =
    let rest = province_in names region in
    if ltb 0 (length region) && has_prefix region name then name else rest

unfoldable pub province_of : Record → Bytes
unfolding province_in region_trim
province_of fields = province_in provinces (region_trim (get_else (codes "region_name") [] fields))

-- The loop over the carriers.
unfoldable pub carrier_in : List (Bytes × Bytes) → Bytes → Bytes
carrier_in [] text = []
carrier_in ((keyword, name) ∷ carriers) text =
    let rest = carrier_in carriers text in if contains text keyword then name else rest

unfoldable pub carrier_of : Record → Bytes
unfolding carrier_in
carrier_of fields = carrier_in carrier_names (
    get_else (codes "isp_domain") [] fields
    ++ codes "|"
    ++ get_else (codes "owner_domain") [] fields)

unfoldable pub zone_of : Record → Bytes
unfolding province_of carrier_of
zone_of fields =
    let province = province_of fields in
    let carrier = carrier_of fields in
    if length province == 0 || length carrier == 0 then [] else province ++ carrier

-- The loop of `SplitZone`.
unfoldable pub split_in : List Bytes → Bytes → Bytes × Bytes
unfolding cut_prefix
split_in [] zone = ([], zone)
split_in (name ∷ names) zone = elim (cut_prefix zone name) [
  | some rest ↦ (name, rest)
  | none ↦ split_in names zone
]

unfoldable pub split_zone : Bytes → Bytes × Bytes
unfolding split_in
split_zone zone = split_in provinces zone
