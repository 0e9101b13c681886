-- ===== src/Tests/LockTests.antt =====
-- Tests of tests/nesting.c and tests/locks.c on a kernel that keeps to what they expect, and tests
-- of refused calls on a kernel that refuses them all.
use adaptive_liblitmus.Base.{inr, ◌≡◌, refl, true, [], ◌∷◌, All}
use adaptive_liblitmus.Base.Int.{ℤ, pos, minus_one}
use adaptive_liblitmus.Kernel.{Kernel, Call, Outcome, start, call}
use adaptive_liblitmus.Tests.Disk.{disk}
use adaptive_liblitmus.KernelTests.{einval, eperm}
use adaptive_liblitmus.KernelIface.Files.{map_file, mmap}
use adaptive_liblitmus.KernelIface.ControlPage.{init_kernel_iface}
use adaptive_liblitmus.Litmus.Sporadic.{init_litmus, init_rt_thread}
use adaptive_liblitmus.TestRunner.{run_test}
use adaptive_liblitmus.KernelTests.RunnerLaws.{nesting_tests-ExitsBy}
use adaptive_liblitmus.KernelTests.RefusalLaws.{IsBinary, refusal_tests, refusal_tests-refuses}
use adaptive_liblitmus.KernelTests.LockCases.{lock_srp, lock_fmlp, lock_dflp}
use adaptive_liblitmus.KernelTests.LockLaws.{acquire_tests-Checks}
use adaptive_liblitmus.KernelTests.ForkCases.{
  srp_lock_teardown, fmlp_lock_teardown, dflp_lock_teardown,
}
use adaptive_liblitmus.KernelTests.TeardownLaws.{HasSkipped, teardown_tests-HasSkipped}
use adaptive_liblitmus.KernelTests.NestingVerdicts.{nesting_tests}
use adaptive_liblitmus.Tests.Locking.{
  nest_alike, locking, locking-Hosts, locking-Locks, locking-Releases,
}

init_runs : (init_litmus locking (call locking Call.spawn start).1).0 ≡ Outcome.value (pos 0)
unfolding init_litmus init_rt_thread init_kernel_iface map_file mmap call
init_runs = refl

nesting_tests-ExitsBy_example :
    All (λ x. (run_test locking x.test start).0 ≡ Outcome.exited (pos 0)) (nesting_tests locking)
nesting_tests-ExitsBy_example =
    nesting_tests-ExitsBy locking locking-Hosts nest_alike locking-Locks start refl init_runs refl
      refl

acquire_tests-Checks_example :
    All
      (λ test. (test start).0 ≡ Outcome.value tt)
      (lock_srp locking ∷ lock_fmlp locking ∷ lock_dflp locking ∷ [])
acquire_tests-Checks_example =
    acquire_tests-Checks locking locking-Hosts nest_alike locking-Locks true locking-Releases start
      refl refl

teardown_tests-HasSkipped_example :
    All
      (HasSkipped locking start)
      (srp_lock_teardown locking ∷ fmlp_lock_teardown locking ∷ dflp_lock_teardown locking ∷ [])
teardown_tests-HasSkipped_example = teardown_tests-HasSkipped locking start

-- A kernel on which every call fails.
abbrev refused_errno : Call → ℤ
refused_errno Call.query_job_no = eperm
refused_errno c = einval

abbrev refusing : Kernel
refusing = record (disk []) { answer = λ l c. minus_one; errno_of = λ l c. refused_errno c }

refusing-IsBinary : All (λ x. IsBinary refusing x.1) (refusal_tests refusing)
refusing-IsBinary = (
  (
    (λ l. inr refl),
    (
      (λ l. inr refl),
      ((λ l. inr refl), ((λ l. inr refl), ((λ l. inr refl), ((λ l. inr refl), tt)))),
    ),
  ),
  (
    ((λ l. inr refl), ((λ l. inr refl), tt)),
    (((λ l. inr refl), ((λ l. inr refl), ((λ l. inr refl), tt))), tt),
  ),
)

refusal_tests-refuses_example : All (λ x. (x.0 start).0 ≡ Outcome.value tt) (refusal_tests refusing)
refusal_tests-refuses_example = refusal_tests-refuses refusing start refusing-IsBinary
