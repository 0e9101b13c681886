-- ===== src/KernelTests/ForkCases.antt =====
-- tests/locks.c, the test cases that start a child process.
use adaptive_liblitmus.Base.{ℕ, ◌==◌, Bool, false, Option, none, some, if◌then◌else◌}
use adaptive_liblitmus.Base.Int.{ℤ, pos, is_zero}
use adaptive_liblitmus.Base.Chars.{codes}
use adaptive_liblitmus.Kernel.{Kernel, Call, M, ◌>>=◌, ◌>>◌, pure, gets, exit, call}
use adaptive_liblitmus.Syscalls.{
  gettid, set_rt_task_param, od_close, litmus_lock, litmus_unlock, open_fmlp_sem, open_srp_sem,
  open_dflp_sem,
}
use adaptive_liblitmus.Migration.Domains.{be_migrate_to_cpu}
use adaptive_liblitmus.Litmus.Mode.{task_mode, litmus_rt_task, background_task}
use adaptive_liblitmus.KernelTests.{checked}
use adaptive_liblitmus.KernelTests.LockCases.{open_locks, close_locks, long_task}

-- ASSERT( predicate )
unfoldable pub assert : Bool → M (Unit {0})
assert predicate = if predicate then pure tt else exit (pos 200)

abbrev pub exited_with : ℕ → Option ℕ → Bool
exited_with expected none = false
exited_with expected (some code) = code == expected

module _ (k : Kernel) where
  -- FORK_TASK( code ): fork answers 0 in the child.
  unfoldable pub fork_task : M ℤ → M ℤ
  unfolding call
  fork_task code = do
    pid ← call k Call.spawn
    if is_zero pid then (do code; exit (pos 0)) else pure pid

  -- waitpid, and the two assertions on the status
  unfoldable pub await : ℕ → ℤ → M (Unit {0})
  unfolding checked assert call
  await expected child = do
    status ← gets (λ s. k.child_status s.log child)
    checked (call k (Call.wait_child child))
    assert (exited_with expected status)

  -- The child becomes a real-time task, and takes a lock.
  unfoldable pub lock_in_child : ℤ → M ℤ → M ℤ
  unfolding checked gettid set_rt_task_param litmus_lock
  lock_in_child cpu open_sem = do
    me ← gettid k
    checked (set_rt_task_param k me (long_task k cpu))
    checked (be_migrate_to_cpu k cpu)
    checked (task_mode k litmus_rt_task)
    od ← checked open_sem
    checked (litmus_lock k od)
    pure od

  unfoldable pub fmlp_lock_mode_change : M (Unit {0})
  unfolding open_locks close_locks fork_task lock_in_child await checked open_fmlp_sem litmus_unlock
      od_close
  fmlp_lock_mode_change = do
    fd ← open_locks k (codes ".locks")
    child ← fork_task (do
      od ← lock_in_child (pos 0) (open_fmlp_sem k fd (pos 0))
      checked (task_mode k background_task)
      checked (litmus_unlock k od)
      checked (od_close k od)
      exit (pos 0))
    await 0 child
    close_locks k fd (codes ".locks")

  -- There is an exit(0) in front of the test proper.
  unfoldable pub lock_teardown : ℤ → (ℤ → M ℤ) → M (Unit {0})
  unfolding open_locks close_locks fork_task lock_in_child await
  lock_teardown cpu open_sem = do
    fd ← open_locks k (codes ".locks")
    exit {A = Unit {0}} (pos 0)
    child ← fork_task (do lock_in_child cpu (open_sem fd); exit (pos 123))
    await 123 child
    close_locks k fd (codes ".locks")

  unfoldable pub srp_lock_teardown : M (Unit {0})
  unfolding lock_teardown open_srp_sem
  srp_lock_teardown = lock_teardown (pos 0) (λ fd. open_srp_sem k fd (pos 0))

  unfoldable pub fmlp_lock_teardown : M (Unit {0})
  unfolding lock_teardown open_fmlp_sem
  fmlp_lock_teardown = lock_teardown (pos 0) (λ fd. open_fmlp_sem k fd (pos 0))

  unfoldable pub dflp_lock_teardown : M (Unit {0})
  unfolding lock_teardown open_dflp_sem
  dflp_lock_teardown = lock_teardown (pos 1) (λ fd. open_dflp_sem k fd (pos 0) (pos 0))
