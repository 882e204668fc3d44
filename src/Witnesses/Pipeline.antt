-- ===== src/Witnesses/Pipeline.antt =====
-- The watchdog with checks that find a problem, and a number printed as one byte.
use dns_stack.Prelude.{
  ℕ, ◌+◌, ◌-◌, ◌*◌, ◌≤◌, ◌≡◌, refl, ap, true, false, Option, none, some, [], ◌∷◌, arith,
}
use dns_stack.Prelude.Ints.{ℤ, pos}
use dns_stack.Text.{Bytes, is_space, drop_while, trim_right, trim_space}
use dns_stack.Pipeline.Problems.{no_nat}
use dns_stack.Pipeline.Watchdog.{Answers, Diagnosis, read_fail_count, check, run_checks}
use dns_stack.Pipeline.Watchdog.Bounds.{
  Prints, restarts_in, flushes_in, restarts-run_checks, restarts-check_well,
}

abbrev itoa : ℕ → Bytes
itoa n = (n + 100) ∷ []

abbrev atoi : Bytes → Option ℤ
atoi (c ∷ []) = some (pos (c - 100))
atoi _ = none

prints : Prints atoi itoa
unfolding trim_space drop_while trim_right
prints n =
    let no_space : is_space (n + 100) ≡ false = unfold is_space in ground arith in
    rw no_space
      (rw no_space (ap (λ k. some (pos k)) (let back : n + 100 - 100 ≡ n = omega arith in back)))

abbrev broken : Diagnosis
broken = record { found = no_nat ∷ []; tunnel = true }

abbrev well : Diagnosis
well = record { found = []; tunnel = true }

abbrev failing : Answers
failing = record {
  first = broken;
  again = broken;
  restarts = true;
  writes = true;
  resets = true;
  unbound_flushes = true;
  mosproxy_flushes = false;
}

abbrev fine : Answers
fine = record {
  first = well;
  again = well;
  restarts = true;
  writes = true;
  resets = true;
  unbound_flushes = true;
  mosproxy_flushes = false;
}

restarts-run_checks_example :
    restarts_in (run_checks atoi itoa 1 (failing ∷ failing ∷ fine ∷ failing ∷ []) none).1
    ≤ (1 - read_fail_count atoi itoa none)
      + 1 * flushes_in (run_checks atoi itoa 1 (failing ∷ failing ∷ fine ∷ failing ∷ []) none).1
restarts-run_checks_example =
    restarts-run_checks atoi itoa prints 1 (failing ∷ failing ∷ fine ∷ failing ∷ []) none
      (refl, (refl, (refl, (refl, tt))))

restarts-check_well_example :
    restarts_in (check atoi itoa 1 failing (check atoi itoa 1 fine none).file).effects ≡ 1
restarts-check_well_example =
    restarts-check_well atoi itoa prints 1 fine failing none refl refl (omega arith) refl
      (omega arith)
