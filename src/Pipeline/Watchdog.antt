-- ===== src/Pipeline/Watchdog.antt =====
-- internal/pipeline/watchdog.go: `Check`, one turn of the watchdog. Its state is the file with the count of failed
-- repairs; what the system answers in a turn, the writes of the file among it, is a record.
pub mod Bounds
use dns_stack.Prelude.{
  ℕ, ◌+◌, ◌==◌, Bool, true, false, Option, none, some, List, [], ◌∷◌, ◌++◌, not, leb, if◌then◌else◌,
  length,
}
use dns_stack.Prelude.Ints.{ℤ, pos, negsuc}
use dns_stack.Text.{Bytes, trim_space}
use dns_stack.Pipeline.Problems.{Problem}

abbrev pub StateFile : Type 0
StateFile = Option Bytes

pub record Health : Type 0 where
  pub problems : List Problem
  pub tunnel_up : Bool
  pub repaired : Bool
  pub fail_count : ℕ

unfoldable pub has_no_problems : Health → Bool
has_no_problems h = length h.problems == 0

-- What `Diagnose` finds of the system, apart from the file.
pub record Diagnosis : Type 0 where
  pub found : List Problem
  pub tunnel : Bool

-- The answers of the system in one check: two diagnoses, the outcome of the restart, and whether the file is written
-- before the restart and where the count is reset, and whether the two caches can be emptied.
pub record Answers : Type 0 where
  pub first : Diagnosis
  pub again : Diagnosis
  pub restarts : Bool
  pub writes : Bool
  pub resets : Bool
  pub unbound_flushes : Bool
  pub mosproxy_flushes : Bool

pub data CheckError : Type 0 where
  gave_up restart_failed not_repaired : CheckError

-- What a check does to the system.
pub data Effect : Type 0 where
  restart : Effect
  -- An attempt to empty the cache of Unbound or of mosproxy, and whether it goes well.
  flush_unbound flush_mosproxy : Bool → Effect

pub record Checked : Type 0 where
  pub file : StateFile
  pub health : Health
  pub error : Option CheckError
  pub effects : List Effect

-- `flushPoisonedCache`: where the first command fails, the other cache is left alone.
unfoldable pub flush_poisoned_cache : Bool → Bool → List Effect
flush_poisoned_cache unbound mosproxy =
    if unbound then flush_unbound true ∷ flush_mosproxy mosproxy ∷ [] else flush_unbound false ∷ []

module _ (atoi : Bytes → Option ℤ) (itoa : ℕ → Bytes) where
  count_in : Option ℤ → ℕ
  count_in none = 0
  count_in (some (pos n)) = n
  count_in (some (negsuc n)) = 0

  unfoldable pub read_fail_count : StateFile → ℕ
  unfolding count_in
  read_fail_count none = 0
  read_fail_count (some text) = count_in (atoi (trim_space text))

  -- `writeFailCount`, where `done` says whether the write goes well: an error is dropped.
  unfoldable pub write_fail_count : Bool → ℕ → StateFile → StateFile
  write_fail_count done n file = if done then some (itoa n ++ 10 ∷ []) else file

  unfoldable pub diagnose : Diagnosis → StateFile → Health
  unfolding read_fail_count
  diagnose d file = record {
    problems = d.found;
    tunnel_up = d.tunnel;
    repaired = false;
    fail_count = read_fail_count file;
  }

  -- `Check` from the restart on.
  unfoldable pub repair : Answers → StateFile → Health → Checked
  unfolding diagnose write_fail_count has_no_problems
  repair a file health =
      let after = diagnose a.again file in
      if not a.restarts
      then record {
        file = file;
        health = health;
        error = some restart_failed;
        effects = restart ∷ [];
      }
      else if not (has_no_problems after)
      then record { file = file; health = after; error = some not_repaired; effects = restart ∷ [] }
      else record {
        file = write_fail_count a.resets 0 file;
        health = record health { repaired = true };
        error = none;
        effects = restart ∷ flush_poisoned_cache a.unbound_flushes a.mosproxy_flushes;
      }

  -- `Check` once the health is known.
  unfoldable pub treat : ℕ → Answers → StateFile → Health → Checked
  unfolding write_fail_count has_no_problems
  treat max_repairs a file health =
      if has_no_problems health
      then (if health.fail_count == 0
          then record { file = file; health = health; error = none; effects = [] }
          else record {
            file = write_fail_count a.resets 0 file;
            health = health;
            error = none;
            effects = flush_poisoned_cache a.unbound_flushes a.mosproxy_flushes;
          })
      else if not health.tunnel_up
      then record { file = file; health = health; error = none; effects = [] }
      else if leb max_repairs health.fail_count
      then record { file = file; health = health; error = some gave_up; effects = [] }
      else repair a (write_fail_count a.writes (health.fail_count + 1) file) health

  unfoldable pub check : ℕ → Answers → StateFile → Checked
  unfolding diagnose treat
  check max_repairs a file = treat max_repairs a file (diagnose a.first file)

  -- One check after the other: the file at the end, and all effects.
  unfoldable pub run_checks : ℕ → List Answers → StateFile → StateFile × List Effect
  unfolding check
  run_checks max_repairs [] file = (file, [])
  run_checks max_repairs (a ∷ answers) file =
      let now = check max_repairs a file in
      let rest = run_checks max_repairs answers now.file in (rest.0, now.effects ++ rest.1)
