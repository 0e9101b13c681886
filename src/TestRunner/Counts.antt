-- ===== src/TestRunner/Counts.antt =====
-- What the parent process of tests/runner.c counts, and the exit code that follows from it.
use adaptive_liblitmus.Base.{
  ℕ, suc, ◌+◌, ◌≤◌, ◌≡◌, ◌⊎◌, refl, ap, ◌∙◌, inl, inr, Bool-cases, Bool, true, false, List, [], ◌∷◌,
  arith, length, ◌==◌, if◌then◌else◌,
}
use adaptive_liblitmus.Base.Int.{ℤ, pos, is_neg, is_zero}
use adaptive_liblitmus.Base.Chars.{Bytes, streq}
use adaptive_liblitmus.Kernel.{
  Kernel, Call, Log, Outcome, State, pure, continue-value, continue-value_at, call,
}
use adaptive_liblitmus.TestRunner.{
  TestCase, Suite, syscall, is_ok, run_test, test_at, run_each, run_tests, run_plugin,
}

-- fork succeeds, and this is the parent; waiting for a child succeeds.
pub record IsParent (k : Kernel) : Type 0 where
  pub child : Log → ℕ
  pub forks : (l : Log) → k.answer l Call.spawn ≡ pos (suc (child l))
  pub waits : (l : Log) (pid : ℤ) → is_neg (k.answer l (Call.wait_child pid)) ≡ false

module _ (k : Kernel) (p : IsParent k) where
  abbrev pub pid_at : Log → ℤ
  pid_at l = pos (suc (p.child l))

  -- Whether the child that is forked after these calls exits with 0.
  abbrev pub passes : Log → Bool
  passes l = is_ok (k.child_status (Call.spawn ∷ l) (pid_at l))

  abbrev pub after_test : Log → Log
  after_test l = Call.wait_child (pid_at l) ∷ Call.spawn ∷ l

  -- How many of the children exit with 0, and whether all do.
  abbrev pub count_passes : List ℕ → Log → ℕ
  count_passes [] l = 0
  count_passes (i ∷ is) l = (if passes l then 1 else 0) + count_passes is (after_test l)

  abbrev pub AllPass : List ℕ → Log → Type 0
  AllPass [] l = Unit
  AllPass (i ∷ is) l = (passes l ≡ true) × AllPass is (after_test l)

  count_passes-le : (is : List ℕ) (l : Log) → count_passes is l ≤ length is
  count_passes-le [] l = omega arith
  count_passes-le (i ∷ is) l = ground (arith, count_passes-le is (after_test l))

  count_passes-all : (is : List ℕ) (l : Log) → AllPass is l → count_passes is l ≡ length is
  count_passes-all [] l a = refl
  count_passes-all (i ∷ is) l (a, a') = ground (arith, count_passes-all is (after_test l) a')

  all-count_passes : (is : List ℕ) (l : Log) → count_passes is l ≡ length is → AllPass is l
  all-count_passes [] l e = tt
  all-count_passes (i ∷ is) l e = elim (Bool-cases (passes l)) [
    | inl ok ↦ (ok, all-count_passes is (after_test l) (ground (arith, e)))
    | inr bad ↦ absurd (ground (arith, count_passes-le is (after_test l)))
  ]

  run_test-parent :
      (tc : TestCase) (s : State)
      → ((run_test k tc s).0 ≡ Outcome.value (passes s.log))
        × ((run_test k tc s).1.log ≡ after_test s.log)
  unfolding run_test syscall call
  run_test-parent tc s =
      let parent : is_zero (pid_at s.log) ≡ false = ground arith in
      rw (p.forks s.log, parent, p.waits (Call.spawn ∷ s.log) (pid_at s.log)) (refl, refl)

  run_each-count :
      (catalog : List TestCase) (is : List ℕ) (n : ℕ) (s : State)
      → (run_each k catalog is n s).0 ≡ Outcome.value (n + count_passes is s.log)
  unfolding run_each
  run_each-count catalog [] n s = ap Outcome.value (omega arith)
  run_each-count catalog (i ∷ is) n s =
      let (returns, calls) = run_test-parent (test_at catalog i) s in
      continue-value_at (λ passed. run_each k catalog is (if passed then n + 1 else n))
        (run_test k (test_at catalog i) s) (λ t. t.log ≡ after_test s.log)
        (λ r.
          r.0
          ≡ Outcome.value
              (n + ((if passes s.log then 1 else 0) + count_passes is (after_test s.log))))
        returns calls
        λ t e.
          run_each-count catalog is (if passes s.log then n + 1 else n) t
          ∙ rw e (ap Outcome.value (ground arith))

  -- In the parent, run_tests returns how many of the tests' children exit with 0.
  pub run_tests-count :
      (catalog : List TestCase) (is : List ℕ) (s : State)
      → (run_tests k catalog is s).0 ≡ Outcome.value (count_passes is s.log)
  unfolding run_tests
  run_tests-count catalog is s = run_each-count catalog is 0 s ∙ ap Outcome.value (omega arith)

  -- In the parent, for the plugin of the first suite: the exit code is 0 exactly where every test's
  -- child exits with 0, and 3 otherwise.
  pub run_plugin-AllPass :
      (catalog : List TestCase) (suite : Suite) (suites : List Suite) (plugin_name : Bytes)
      (s : State)
      → streq suite.plugin plugin_name ≡ true
      → (((run_plugin k catalog plugin_name (suite ∷ suites) s).0 ≡ Outcome.value (pos 0))
          × AllPass suite.testcases s.log)
        ⊎ (((run_plugin k catalog plugin_name (suite ∷ suites) s).0 ≡ Outcome.value (pos 3))
            × ¬ AllPass suite.testcases s.log)
  unfolding run_plugin
  run_plugin-AllPass catalog suite suites plugin_name s e =
      let n : ℕ = count_passes suite.testcases s.log in
      let returns : (run_plugin k catalog plugin_name (suite ∷ suites) s).0
          ≡ Outcome.value (if n == length suite.testcases then pos 0 else pos 3) =
        rw e (
          continue-value (λ ok. pure (if ok == length suite.testcases then pos 0 else pos 3))
            (run_tests k catalog suite.testcases s)
            (λ r. r.0 ≡ Outcome.value (if n == length suite.testcases then pos 0 else pos 3))
            (run_tests-count catalog suite.testcases s) (λ t. refl)) in
      elim (Bool-cases (n == length suite.testcases)) [
        | inl same ↦
            inl (rw same at returns, all-count_passes suite.testcases s.log (ground (arith, same)))
        | inr other ↦ inr (
          rw other at returns,
          λ a. absurd (ground (arith, other, count_passes-all suite.testcases s.log a)),
        )
      ]
