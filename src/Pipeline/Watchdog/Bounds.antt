-- ===== src/Pipeline/Watchdog/Bounds.antt =====
-- internal/pipeline/watchdog.go: how often the watchdog restarts the routing, and that it starts anew once the routing
-- is well.
use dns_stack.Prelude.{
  ℕ, suc, ◌+◌, ◌-◌, ◌*◌, ◌≤◌, ◌<◌, ◌≡◌, refl, ap, ◌∙◌, true, false, Bool, Option, some, List, [],
  ◌∷◌, ◌++◌, inl, inr, arith, leb, ◌==◌, Bool-cases, length, All,
}
use native.Mathlib.Nat.{mul-add}
use dns_stack.Prelude.Ints.{ℤ, pos}
use dns_stack.Text.{Bytes, trim_space}
use dns_stack.Pipeline.Watchdog.{
  StateFile, Health, has_no_problems, Answers, Effect, restart, flush_unbound, flush_mosproxy,
  flush_poisoned_cache, Checked, count_in, read_fail_count, write_fail_count, diagnose, repair,
  treat, check, run_checks,
}

unfoldable pub restarts_in : List Effect → ℕ
restarts_in [] = 0
restarts_in (restart ∷ es) = suc (restarts_in es)
restarts_in (flush_unbound b ∷ es) = restarts_in es
restarts_in (flush_mosproxy b ∷ es) = restarts_in es

-- The attempts to empty the cache of Unbound, whether they go well or not.
unfoldable pub flushes_in : List Effect → ℕ
flushes_in [] = 0
flushes_in (restart ∷ es) = flushes_in es
flushes_in (flush_unbound b ∷ es) = suc (flushes_in es)
flushes_in (flush_mosproxy b ∷ es) = flushes_in es

restarts_in-append :
    (xs ys : List Effect) → restarts_in (xs ++ ys) ≡ restarts_in xs + restarts_in ys
unfolding restarts_in
restarts_in-append [] ys = omega arith
restarts_in-append (restart ∷ xs) ys = omega (arith, restarts_in-append xs ys)
restarts_in-append (flush_unbound b ∷ xs) ys = restarts_in-append xs ys
restarts_in-append (flush_mosproxy b ∷ xs) ys = restarts_in-append xs ys

flushes_in-append : (xs ys : List Effect) → flushes_in (xs ++ ys) ≡ flushes_in xs + flushes_in ys
unfolding flushes_in
flushes_in-append [] ys = omega arith
flushes_in-append (restart ∷ xs) ys = flushes_in-append xs ys
flushes_in-append (flush_unbound b ∷ xs) ys = omega (arith, flushes_in-append xs ys)
flushes_in-append (flush_mosproxy b ∷ xs) ys = flushes_in-append xs ys

-- The caches are tried once, with no restart.
restarts-flush_poisoned_cache : (u m : Bool) → restarts_in (flush_poisoned_cache u m) ≡ 0
unfolding flush_poisoned_cache restarts_in
restarts-flush_poisoned_cache true m = refl
restarts-flush_poisoned_cache false m = refl

flushes-flush_poisoned_cache : (u m : Bool) → flushes_in (flush_poisoned_cache u m) ≡ 1
unfolding flush_poisoned_cache flushes_in
flushes-flush_poisoned_cache true m = refl
flushes-flush_poisoned_cache false m = refl

-- What is written as a number, `strconv.Atoi` reads as that number.
abbrev pub Prints : (Bytes → Option ℤ) → (ℕ → Bytes) → Type 0
Prints atoi itoa = (n : ℕ) → atoi (trim_space (itoa n ++ 10 ∷ [])) ≡ some (pos n)

-- The file is written before each restart.
abbrev pub Writes : Answers → Type 0
Writes a = a.writes ≡ true

module _ (atoi : Bytes → Option ℤ) (itoa : ℕ → Bytes) (prints : Prints atoi itoa) where
  read-write :
      (n : ℕ) (file : StateFile)
      → read_fail_count atoi itoa (write_fail_count atoi itoa true n file) ≡ n
  unfolding read_fail_count write_fail_count count_in
  read-write n file = rw (prints n) refl

  module _ (most : ℕ) where
    -- The repairs that are left.
    left : StateFile → ℕ
    left file = most - read_fail_count atoi itoa file

    -- A check uses up a repair for each restart, unless it tries to empty the caches.
    Pays : StateFile → Checked → Type 0
    Pays file c = restarts_in c.effects + left c.file ≤ left file + most * flushes_in c.effects

    repair-Pays :
        (a : Answers) (file : StateFile) (health : Health)
        → (before : StateFile)
        → read_fail_count atoi itoa file ≡ read_fail_count atoi itoa before + 1
        → read_fail_count atoi itoa before < most
        → Pays before (repair atoi itoa a file health)
    unfolding repair restarts_in flushes_in left Pays
    repair-Pays a file health before e h = elim (Bool-cases a.restarts) [
      | inr f ↦ rw f (omega (arith, e, h))
      | inl t ↦ rw t (elim (Bool-cases (has_no_problems (diagnose atoi itoa a.again file))) [
        | inr f ↦ rw f (omega (arith, e, h))
        | inl g ↦ rw g (
            omega (
              arith,
              e,
              h,
              restarts-flush_poisoned_cache a.unbound_flushes a.mosproxy_flushes,
              ap (λ (n : ℕ). most * n)
                  (flushes-flush_poisoned_cache a.unbound_flushes a.mosproxy_flushes),
            ))
      ])
    ]

    treat-Pays :
        (a : Answers) (file : StateFile) (health : Health)
        → health.fail_count ≡ read_fail_count atoi itoa file
        → Writes a
        → Pays file (treat atoi itoa most a file health)
    unfolding treat restarts_in flushes_in left Pays
    treat-Pays a file health e w = elim (Bool-cases (has_no_problems health)) [
      | inl g ↦ rw g (elim (Bool-cases (health.fail_count == 0)) [
        | inl z ↦ rw z (omega arith)
        | inr z ↦ rw z (
            omega (
              arith,
              restarts-flush_poisoned_cache a.unbound_flushes a.mosproxy_flushes,
              ap (λ (n : ℕ). most * n)
                  (flushes-flush_poisoned_cache a.unbound_flushes a.mosproxy_flushes),
            ))
      ])
      | inr g ↦ rw g (elim (Bool-cases health.tunnel_up) [
        | inr d ↦ rw d (omega arith)
        | inl u ↦ simp u (elim (Bool-cases (leb most health.fail_count)) [
          | inl many ↦ rw many (omega arith)
          | inr few ↦ rw few (
              simp w (
                repair-Pays a (write_fail_count atoi itoa true (health.fail_count + 1) file) health
                  file (read-write (health.fail_count + 1) file ∙ ap (λ n. n + 1) e)
                  (ground (arith, few, e))))
        ])
      ])
    ]

    spent :
        (a : Answers) (file : StateFile)
        → Writes a
        → restarts_in (check atoi itoa most a file).effects
            + (most - read_fail_count atoi itoa (check atoi itoa most a file).file)
          ≤ (most - read_fail_count atoi itoa file)
            + most * flushes_in (check atoi itoa most a file).effects
    unfolding Pays left check
    spent a file w = treat-Pays a file (diagnose atoi itoa a.first file) refl w

    -- Over any number of checks, with the file written before each restart and `strconv.Atoi` reading what is printed,
    -- the watchdog restarts the routing at most as often as repairs are left at the start, and for each time that it
    -- tries to empty the caches, which it does only where the routing is well, as often as the limit on repairs.
    pub restarts-run_checks :
        (answers : List Answers) (file : StateFile)
        → All Writes answers
        → restarts_in (run_checks atoi itoa most answers file).1
          ≤ (most - read_fail_count atoi itoa file)
            + most * flushes_in (run_checks atoi itoa most answers file).1
    unfolding run_checks
    restarts-run_checks [] file w = unfold restarts_in in omega arith
    restarts-run_checks (a ∷ answers) file w =
        let now = check atoi itoa most a file in
        let rest = (run_checks atoi itoa most answers now.file).1 in
        let total : restarts_in (run_checks atoi itoa most (a ∷ answers) file).1
            ≡ restarts_in now.effects + restarts_in rest =
          restarts_in-append now.effects rest in
        let emptied : flushes_in (run_checks atoi itoa most (a ∷ answers) file).1
            ≡ flushes_in now.effects + flushes_in rest =
          flushes_in-append now.effects rest in
        rw (total, emptied, mul-add most (flushes_in now.effects) (flushes_in rest))
          (omega (arith, spent a file w.0, restarts-run_checks answers now.file w.1))

    well-read :
        (a : Answers) (file : StateFile) (health : Health)
        → health.fail_count ≡ read_fail_count atoi itoa file
        → has_no_problems health ≡ true
        → a.resets ≡ true
        → read_fail_count atoi itoa (treat atoi itoa most a file health).file ≡ 0
    unfolding treat
    well-read a file health e g r = rw g (elim (Bool-cases (health.fail_count == 0)) [
      | inl z ↦ rw z (ground (arith, e, z))
      | inr z ↦ rw z (rw r (read-write 0 file))
    ])

    repair-restarts :
        (b : Answers) (file : StateFile) (health : Health)
        → restarts_in (repair atoi itoa b file health).effects ≡ 1
    unfolding repair restarts_in
    repair-restarts b file health = elim (Bool-cases b.restarts) [
      | inr f ↦ rw f refl
      | inl t ↦ rw t (elim (Bool-cases (has_no_problems (diagnose atoi itoa b.again file))) [
        | inr f ↦ rw f refl
        | inl g ↦ rw g (ap suc (restarts-flush_poisoned_cache b.unbound_flushes b.mosproxy_flushes))
      ])
    ]

    treat-restarts :
        (b : Answers) (file : StateFile) (health : Health)
        → health.fail_count ≡ 0
        → has_no_problems health ≡ false
        → health.tunnel_up ≡ true
        → 0 < most
        → restarts_in (treat atoi itoa most b file health).effects ≡ 1
    unfolding treat
    treat-restarts b file health z g u h =
        let few : leb most health.fail_count ≡ false = ground (arith, z, h) in
        simp (g, u, few)
          (repair-restarts b (write_fail_count atoi itoa b.writes (health.fail_count + 1) file)
            health)

    -- Whatever failed before: after a check that finds the routing well and writes the count, the next check that finds
    -- a problem while the tunnel is up restarts the routing, where the limit on repairs is not 0 and `strconv.Atoi`
    -- reads what is printed.
    pub restarts-check_well :
        (a b : Answers) (file : StateFile)
        → length a.first.found ≡ 0
        → a.resets ≡ true
        → 0 < length b.first.found
        → b.first.tunnel ≡ true
        → 0 < most
        → restarts_in (check atoi itoa most b (check atoi itoa most a file).file).effects ≡ 1
    unfolding check
    restarts-check_well a b file g r p u h =
        let healed = (check atoi itoa most a file).file in
        treat-restarts b healed (diagnose atoi itoa b.first healed)
          (unfold diagnose in
            well-read a file (diagnose atoi itoa a.first file) (unfold diagnose in refl)
              (unfold has_no_problems in ground (arith, g)) r)
          (unfold has_no_problems in ground (arith, p)) (unfold diagnose in u) h
