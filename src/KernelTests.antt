-- ===== src/KernelTests.antt =====
-- The test cases of tests/, which check what a kernel answers: the macros of include/tests.h that
-- they share.
use adaptive_liblitmus.Base.{Bool, ◌||◌, not, if◌then◌else◌}
use adaptive_liblitmus.Base.Int.{ℤ, pos, eqb_ℤ, is_zero}
use adaptive_liblitmus.Kernel.{M, ◌>>=◌, ◌>>◌, pure, gets, exit}
use adaptive_liblitmus.TestRunner.{syscall}
pub mod Nesting
pub mod Judging
pub mod Discipline
pub mod Starting
pub mod LockCases
pub mod LockLaws
pub mod ForkCases
pub mod ObjectCases
pub mod ParamCases
pub mod RefusalLaws
pub mod TeardownLaws
pub mod NestingLaws
pub mod NestingRuns
pub mod NestingVerdicts
pub mod RunnerLaws

-- Error numbers of the system.
abbrev pub ebusy : ℤ
ebusy = pos 16

abbrev pub einval : ℤ
einval = pos 22

abbrev pub enxio : ℤ
enxio = pos 6

abbrev pub eperm : ℤ
eperm = pos 1

-- SYSCALL( ret = m )
unfoldable pub checked : M ℤ → M ℤ
unfolding syscall
checked m = do ret ← m; syscall ret; pure ret

-- SYSCALL_FAILS( expected, m ), as it is written: any result but 0 is a failure.
unfoldable pub syscall_fails : ℤ → M ℤ → M (Unit {0})
syscall_fails expected m = do
  ret ← m
  errno ← gets (λ s. s.errno)
  if is_zero ret || not (eqb_ℤ errno expected) then exit (pos 200) else pure tt
