-- ===== src/KernelTests/NestingVerdicts.antt =====
-- The verdicts of the test cases of tests/nesting.c.
use adaptive_liblitmus.Base.{◌≡◌, Bool, true, false, List, [], ◌∷◌, All, Option, none, some}
use adaptive_liblitmus.Base.Int.{ℤ, pos}
use adaptive_liblitmus.Base.Chars.{Bytes}
use adaptive_liblitmus.Kernel.{Kernel, M, State}
use adaptive_liblitmus.Syscalls.{
  fmlp_sem, srp_sem, mpcp_sem, mpcp_vs_sem, dpcp_sem, pcp_sem, dflp_sem, open_fmlp_sem,
  open_srp_sem,
}
use adaptive_liblitmus.Litmus.Mode.{background_task}
use adaptive_liblitmus.KernelTests.Judging.{outcome, Verdict-outcome}
use adaptive_liblitmus.KernelTests.Discipline.{held, Hosts, mode_at, Locks}
use adaptive_liblitmus.KernelTests.Starting.{Opens}
use adaptive_liblitmus.KernelTests.NestingLaws.{accepts}
use adaptive_liblitmus.KernelTests.NestingRuns.{
  in_namespace-Judges, in_file-Judges, open_fmlp_sem-Opens, open_srp_sem-Opens,
}
use adaptive_liblitmus.KernelTests.Nesting.{
  in_namespace, in_file, lock_fmlp_nesting, lock_fmlp_srp_nesting, lock_srp_nesting,
  lock_pcp_nesting, lock_mpcp_pcp_no_nesting, lock_fmlp_pcp_no_nesting, lock_dpcp_pcp_no_nesting,
  lock_mpcp_srp_no_nesting, lock_dpcp_srp_no_nesting, lock_fmlp_mpcp_no_nesting,
  lock_fmlp_dpcp_no_nesting, mpcp_nesting, mpcpvs_nesting, dpcp_nesting, dflp_nesting,
  lock_fmlp_dflp_no_nesting, lock_dflp_pcp_no_nesting,
}

-- A test case, the protocols of its locks, and whether it expects that they may nest.
pub record NestingTest : Type 0 where
  pub test : M (Unit {0})
  pub may_nest : Bool
  pub first : ℤ
  pub second : ℤ

abbrev forbids : M (Unit {0}) → ℤ → ℤ → NestingTest
forbids m p q = record { test = m; may_nest = false; first = p; second = q }

abbrev allows : M (Unit {0}) → ℤ → ℤ → NestingTest
allows m p q = record { test = m; may_nest = true; first = p; second = q }

abbrev pub nesting_tests : Kernel → List NestingTest
nesting_tests k =
    forbids (lock_fmlp_nesting k) fmlp_sem fmlp_sem
    ∷ forbids (lock_fmlp_srp_nesting k) fmlp_sem srp_sem
    ∷ allows (lock_srp_nesting k) srp_sem srp_sem
    ∷ allows (lock_pcp_nesting k) pcp_sem pcp_sem
    ∷ forbids (lock_mpcp_pcp_no_nesting k) pcp_sem mpcp_sem
    ∷ forbids (lock_fmlp_pcp_no_nesting k) pcp_sem fmlp_sem
    ∷ forbids (lock_dpcp_pcp_no_nesting k) pcp_sem dpcp_sem
    ∷ forbids (lock_mpcp_srp_no_nesting k) srp_sem mpcp_sem
    ∷ forbids (lock_dpcp_srp_no_nesting k) srp_sem dpcp_sem
    ∷ forbids (lock_fmlp_mpcp_no_nesting k) mpcp_sem fmlp_sem
    ∷ forbids (lock_fmlp_dpcp_no_nesting k) dpcp_sem fmlp_sem
    ∷ forbids (mpcp_nesting k) mpcp_sem mpcp_sem
    ∷ forbids (mpcpvs_nesting k) mpcp_vs_sem mpcp_vs_sem
    ∷ forbids (dpcp_nesting k) dpcp_sem dpcp_sem
    ∷ forbids (dflp_nesting k) dflp_sem dflp_sem
    ∷ forbids (lock_fmlp_dflp_no_nesting k) dflp_sem fmlp_sem
    ∷ forbids (lock_dflp_pcp_no_nesting k) pcp_sem dflp_sem
    ∷ []

-- The test goes on where the kernel nests as it expects, and fails with 200 where it does not.
abbrev pub JudgedBy : (ℤ → ℤ → Bool) → State → NestingTest → Type 0
JudgedBy nests s x = (x.test s).0 ≡ outcome (accepts nests x.may_nest x.first x.second)

module _ (k : Kernel) (hosts : Hosts k) (nests : ℤ → ℤ → Bool) (locks : Locks k hosts nests) where
  -- On a kernel that keeps to a discipline of nested locks, and hosts a sporadic task in partition 0:
  -- each test of tests/nesting.c, started as a background task that holds no lock, ends without a
  -- failure where the discipline lets the two protocols nest, in both orders, or forbids it, in both
  -- orders, as the test expects; otherwise it ends with exit(200).
  pub nesting_tests-JudgedBy :
      (s : State)
      → mode_at hosts s.log ≡ background_task
      → held k s.log ≡ []
      → All (JudgedBy nests s) (nesting_tests k)
  unfolding lock_fmlp_nesting lock_fmlp_srp_nesting lock_srp_nesting lock_pcp_nesting
      lock_mpcp_pcp_no_nesting lock_fmlp_pcp_no_nesting lock_dpcp_pcp_no_nesting
      lock_mpcp_srp_no_nesting lock_dpcp_srp_no_nesting lock_fmlp_mpcp_no_nesting
      lock_fmlp_dpcp_no_nesting mpcp_nesting mpcpvs_nesting dpcp_nesting dflp_nesting
      lock_fmlp_dflp_no_nesting lock_dflp_pcp_no_nesting
  nesting_tests-JudgedBy s mode empty = (
    opened false (open_fmlp_sem k) (open_fmlp_sem k) (open_fmlp_sem-Opens k hosts nests locks)
        (open_fmlp_sem-Opens k hosts nests locks),
    (
      opened false (open_fmlp_sem k) (open_srp_sem k) (open_fmlp_sem-Opens k hosts nests locks)
          (open_srp_sem-Opens k hosts nests locks),
      (
        opened true (open_srp_sem k) (open_srp_sem k) (open_srp_sem-Opens k hosts nests locks)
            (open_srp_sem-Opens k hosts nests locks),
        (
          named true _ pcp_sem none pcp_sem none,
          (
            named false _ pcp_sem none mpcp_sem none,
            (
              named false _ pcp_sem none fmlp_sem none,
              (
                named false _ pcp_sem none dpcp_sem at_0,
                (
                  named false _ srp_sem none mpcp_sem none,
                  (
                    named false _ srp_sem none dpcp_sem at_0,
                    (
                      named false _ mpcp_sem none fmlp_sem none,
                      (
                        named false _ dpcp_sem at_0 fmlp_sem none,
                        (
                          named false _ mpcp_sem none mpcp_sem none,
                          (
                            named false _ mpcp_vs_sem none mpcp_vs_sem none,
                            (
                              named false _ dpcp_sem at_0 dpcp_sem at_0,
                              (
                                named false _ dflp_sem at_0 dflp_sem at_0,
                                (
                                  named false _ dflp_sem at_0 fmlp_sem none,
                                  (named false _ pcp_sem none dflp_sem at_0, tt),
                                ),
                              ),
                            ),
                          ),
                        ),
                      ),
                    ),
                  ),
                ),
              ),
            ),
          ),
        ),
      ),
    ),
  )
    where
      at_0 : Option ℤ
      at_0 = some (pos 0)

      named :
          (may_nest : Bool) (f : Bytes) (p : ℤ) (c : Option ℤ) (q : ℤ) (d : Option ℤ)
          → (in_namespace k may_nest f p c q d s).0 ≡ outcome (accepts nests may_nest p q)
      named may_nest f p c q d =
          Verdict-outcome
            ((in_namespace-Judges k hosts nests locks may_nest f p c q d).run s (mode, empty))

      opened :
          (may_nest : Bool) (open1 open2 : ℤ → ℤ → M ℤ) {p q : ℤ}
          → ((fd i : ℤ) → Opens k hosts nests locks (open1 fd i) p)
          → ((fd i : ℤ) → Opens k hosts nests locks (open2 fd i) q)
          → (in_file k may_nest open1 open2 s).0 ≡ outcome (accepts nests may_nest p q)
      opened may_nest open1 open2 {p} {q} h1 h2 = Verdict-outcome (
          (in_file-Judges k hosts nests locks may_nest open1 open2 p q (λ fd. h1 fd (pos 0))
              (λ fd. h2 fd (pos 1))).run
            s (mode, empty))
