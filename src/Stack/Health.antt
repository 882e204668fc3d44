-- ===== src/Stack/Health.antt =====
-- internal/stack/health.go: the state of a module, from what the service manager says, and the widths of texts.
-- `last_run` is in seconds, durations in nanoseconds, and a number below 0 counts as 0. A text is the list of its code points.
use dns_stack.Prelude.{
  ℕ, zero, suc, ◌+◌, ◌-◌, ◌*◌, ◌/◌, Bool, [], ◌∷◌, ◌++◌, ◌&&◌, ◌||◌, not, ltb, leb, ◌==◌,
  if◌then◌else◌, length,
}
use dns_stack.Text.{Bytes}
use dns_stack.Text.Match.{codes, same}

pub data State : Type 0 where
  is_ok is_warn is_down is_unknown : State

unfoldable pub state_rank : State → ℕ
state_rank is_ok = 0
state_rank is_unknown = 1
state_rank is_warn = 2
state_rank is_down = 3

unfoldable pub worse : State → State → State
unfolding state_rank
worse a b = if ltb (state_rank a) (state_rank b) then b else a

pub data Kind : Type 0 where
  daemon job : Kind

-- The fields of `Module` that the code here reads.
pub record Job : Type 0 where
  pub kind : Kind
  pub every : ℕ

abbrev pub minute : ℕ
minute = 60000000000

abbrev pub hour : ℕ
hour = 3600000000000

unfoldable pub overdue : Job → ℕ
overdue m = elim m.kind [
  | daemon ↦ 0
  | job ↦ if m.every == 0 then 0 else if ltb hour (m.every * 3) then m.every * 3 else hour
]

pub record Status : Type 0 where
  pub active : Bytes
  pub timer_active : Bytes
  pub last_result : Bytes
  pub last_run : ℕ
  pub unreachable : Bool

module _ (itoa : ℕ → Bytes) where
  unfoldable pub human_span : ℕ → Bytes
  human_span d =
      if ltb d minute
      then codes "不到 1 分钟"
      else if ltb d hour
      then itoa (d / minute) ++ codes " 分钟"
      else if ltb d (24 * hour)
      then itoa (d / hour) ++ codes " 小时"
      else itoa (d / (24 * hour)) ++ codes " 天"

  unfoldable pub evaluate_daemon : Bytes → State × Bytes
  unfolding same
  evaluate_daemon active =
      if same active (codes "active")
      then (is_ok, codes "运行中")
      else if same active (codes "activating") || same active (codes "reloading")
      then (is_ok, codes "启动中")
      else if same active (codes "failed")
      then (is_down, codes "服务已崩溃")
      else if same active (codes "inactive") || same active (codes "deactivating")
      then (is_down, codes "服务未运行")
      else (is_unknown, codes "状态未知")

  -- The part for a job that has run, `elapsed` ago.
  unfoldable pub evaluate_past : Job → Status → ℕ → State × Bytes
  unfolding same overdue human_span
  evaluate_past m st elapsed =
      if ltb 0 (overdue m) && ltb (overdue m) elapsed
      then (is_warn, codes "已经 " ++ human_span elapsed ++ codes "没有运行")
      else if not (length st.last_result == 0) && not (same st.last_result (codes "success"))
      then (is_warn, codes "上次执行结果为 " ++ st.last_result)
      else (is_ok, human_span elapsed ++ codes "前运行过")

  unfoldable pub evaluate_job : Job → Status → ℕ → State × Bytes
  unfolding same evaluate_past
  evaluate_job m st now =
      if same st.active (codes "failed")
      then (is_warn, codes "上次执行失败")
      else if same st.active (codes "active") || same st.active (codes "activating")
      then (is_ok, codes "正在执行")
      else if not (length st.timer_active == 0) && not (same st.timer_active (codes "active"))
      then (is_warn, codes "定时器未启动，这个模块不会自己运行")
      else if st.last_run == 0
      then (is_warn, codes "从未运行过")
      else evaluate_past m st (now - st.last_run * 1000000000)

  -- `now` is in nanoseconds.
  unfoldable pub evaluate : Job → Status → ℕ → State × Bytes
  unfolding evaluate_daemon evaluate_job
  evaluate m st now =
      if st.unreachable
      then (is_unknown, codes "状态查询失败")
      else (elim m.kind [ daemon ↦ evaluate_daemon st.active | job ↦ evaluate_job m st now ])

  unfoldable pub headline : State → ℕ → Bytes
  headline is_ok troubled = codes "全部正常"
  headline is_down troubled = codes "关键模块中断"
  headline is_unknown troubled = codes "状态查不到"
  headline is_warn troubled = itoa troubled ++ codes " 个模块需要关注"

unfoldable pub is_wide : ℕ → Bool
is_wide r =
    leb 0x1100 r
    && (leb r 0x115f
        || r == 0x2329
        || r == 0x232a
        || (leb 0x2e80 r && leb r 0xa4cf && not (r == 0x303f))
        || (leb 0xac00 r && leb r 0xd7a3)
        || (leb 0xf900 r && leb r 0xfaff)
        || (leb 0xfe30 r && leb r 0xfe6f)
        || (leb 0xff00 r && leb r 0xff60)
        || (leb 0xffe0 r && leb r 0xffe6))

unfoldable pub display_width : Bytes → ℕ
unfolding is_wide
display_width [] = 0
display_width (r ∷ text) = (if is_wide r then 2 else 1) + display_width text

unfoldable pub spaces : ℕ → Bytes
spaces zero = []
spaces (suc n) = 32 ∷ spaces n

unfoldable pub pad : Bytes → ℕ → Bytes
unfolding display_width spaces
pad text width =
    if ltb (display_width text) width then text ++ spaces (width - display_width text) else text
