-- ===== src/KernelTests/RunnerLaws.antt =====
-- The test cases of tests/nesting.c in the child processes that tests/runner.c forks for them.
use adaptive_liblitmus.Base.{
  ◌≡◌, refl, ap, ◌∙◌, Bool, true, false, List, [], ◌∷◌, All, if◌then◌else◌,
}
use adaptive_liblitmus.Base.Int.{ℤ, pos}
use adaptive_liblitmus.Kernel.{
  Kernel, Call, Outcome, State, ◌>>=◌, ◌>>◌, exit, continue, continue-value_at, call,
}
use adaptive_liblitmus.Litmus.Mode.{background_task}
use adaptive_liblitmus.Litmus.ModeLaws.{mode_of}
use adaptive_liblitmus.Litmus.Sporadic.{init_litmus}
use adaptive_liblitmus.Lifecycle.Library.{init_litmus-Keeps}
use adaptive_liblitmus.TestRunner.{TestCase, syscall, run_test}
use adaptive_liblitmus.KernelTests.Judging.{outcome}
use adaptive_liblitmus.KernelTests.Discipline.{held, Hosts, mode_at, Locks}
use adaptive_liblitmus.KernelTests.Starting.{HoldsNone, held-IsBlind}
use adaptive_liblitmus.KernelTests.NestingLaws.{accepts}
use adaptive_liblitmus.KernelTests.NestingVerdicts.{nesting_tests, JudgedBy, nesting_tests-JudgedBy}

-- What holds of a whole list in every state holds of each element in every state.
All-each :
    {A S : Type 0} (C : S → Type 0) (P : S → A → Type 0) (xs : List A)
    → ((s : S) → C s → All (P s) xs)
    → All (λ x. (s : S) → C s → P s x) xs
All-each C P [] h = tt
All-each C P (x ∷ xs) h = (λ s c. (h s c).0, All-each C P xs (λ s c. (h s c).1))

All-map :
    {A : Type 0} (P Q : A → Type 0) (xs : List A) → ((x : A) → P x → Q x) → All P xs → All Q xs
All-map P Q [] f a = tt
All-map P Q (x ∷ xs) f (a, a') = (f x a, All-map P Q xs f a')

-- The exit code of a child.
abbrev pub ExitsBy : Bool → Outcome Bool → Type 0
ExitsBy b r = r ≡ Outcome.exited (if b then pos 0 else pos 200)

exits :
    (b : Bool) (r : Outcome (Unit {0}) × State)
    → r.0 ≡ outcome b
    → ExitsBy b (continue (λ _. exit (pos 0)) r).0
exits true (Outcome.value x, t) e = refl
exits false (Outcome.value x, t) e = absurd (cc)
exits true (Outcome.exited c, t) e = absurd (cc)
exits false (Outcome.exited c, t) e = let same : c ≡ pos 200 = cc in ap Outcome.exited same
exits true (Outcome.fault, t) e = absurd (cc)
exits false (Outcome.fault, t) e = absurd (cc)

module _ (k : Kernel) (hosts : Hosts k) where
  abbrev At : State → Type 0
  At s = HoldsNone k hosts background_task s.log

  run_test-child :
      (tc : TestCase) (b : Bool) (s : State)
      → k.answer s.log Call.spawn ≡ pos 0
      → (init_litmus k (call k Call.spawn s).1).0 ≡ Outcome.value (pos 0)
      → At s
      → ((t : State) → At t → (tc t).0 ≡ outcome b)
      → ExitsBy b (run_test k tc s).0
  unfolding run_test syscall call
  run_test-child tc b s child ready (mode, empty) judged =
      let u : State = (call k Call.spawn s).1 in
      let forked : HoldsNone k hosts background_task u.log =
        (ap mode_of (hosts.obliges.unchanged Call.spawn s.log refl) ∙ mode, empty) in
      let in_child : ExitsBy b
          ((init_litmus k >>= λ ret. syscall ret >> (tc >> exit (pos 0))) u).0 =
        continue-value_at (λ ret. syscall ret >> (tc >> exit (pos 0))) (init_litmus k u) At
          (λ r. ExitsBy b r.0) ready
          (
            ap mode_of (
                  init_litmus-Keeps hosts.obliges.welcomes.cooperates.permits.policy
                    hosts.obliges.welcomes.cooperates.unaffected k u)
                ∙ forked.0,
            init_litmus-Keeps (held k) (held-IsBlind k) k u ∙ forked.1,
          )
          (λ t h. exits b (tc t) (judged t h)) in
      rw child (rw child at in_child)

  module _ (nests : ℤ → ℤ → Bool) (locks : Locks k hosts nests) where
    -- On a kernel that keeps to a discipline of nested locks, and hosts a sporadic task in partition
    -- 0: where the runner forks a child for a test of tests/nesting.c, as a background task that holds
    -- no lock, and init_litmus succeeds there, the child exits with 0 if the discipline lets the two
    -- protocols nest, in both orders, or forbids it, in both orders, as the test expects; otherwise it
    -- exits with 200.
    pub nesting_tests-ExitsBy :
        (s : State)
        → k.answer s.log Call.spawn ≡ pos 0
        → (init_litmus k (call k Call.spawn s).1).0 ≡ Outcome.value (pos 0)
        → mode_at hosts s.log ≡ background_task
        → held k s.log ≡ []
        → All
            (λ x. ExitsBy (accepts nests x.may_nest x.first x.second) (run_test k x.test s).0)
            (nesting_tests k)
    nesting_tests-ExitsBy s child ready mode empty =
        All-map (λ x. (t : State) → At t → JudgedBy nests t x)
          (λ x. ExitsBy (accepts nests x.may_nest x.first x.second) (run_test k x.test s).0)
          (nesting_tests k) (λ x judged. run_test-child x.test _ s child ready (mode, empty) judged)
          (All-each At (JudgedBy nests) (nesting_tests k)
            (λ t h. nesting_tests-JudgedBy k hosts nests locks t h.0 h.1))
