-- ===== src/KernelTests/ObjectCases.antt =====
-- tests/fdso.c: descriptors of objects.
use adaptive_liblitmus.Base.{ℕ, ◌==◌, not, Option, none, some, if◌then◌else◌}
use adaptive_liblitmus.Base.Int.{ℤ, pos, minus_one, eqb_ℤ, is_zero}
use adaptive_liblitmus.Base.Chars.{codes}
use adaptive_liblitmus.Kernel.{Kernel, Call, M, ◌>>=◌, ◌>>◌, pure, gets, exit, call}
use adaptive_liblitmus.Syscalls.{od_close, litmus_lock, litmus_unlock, open_fmlp_sem, od_open}
use adaptive_liblitmus.Litmus.Mode.{task_mode, background_task}
use adaptive_liblitmus.Tools.Common.{ms2ns}
use adaptive_liblitmus.KernelTests.{checked, syscall_fails, einval, enxio}
use adaptive_liblitmus.KernelTests.Nesting.{take_lock, become_real_time}
use adaptive_liblitmus.KernelTests.LockCases.{open_locks, close_locks}
use adaptive_liblitmus.KernelTests.ForkCases.{assert}

-- WEXITSTATUS, which takes the status of a child that a signal ended for 0.
abbrev pub exit_status : Option ℕ → ℕ
exit_status none = 0
exit_status (some code) = code

module _ (k : Kernel) where
  unfoldable pub fmlp_not_active : M (Unit {0})
  unfolding open_locks close_locks assert syscall_fails open_fmlp_sem
  fmlp_not_active = do
    fd ← open_locks k (codes ".fmlp_locks")
    assert (not (eqb_ℤ fd minus_one))
    syscall_fails enxio (open_fmlp_sem k fd (pos 0))
    close_locks k fd (codes ".fmlp_locks")

  unfoldable pub invalid_od : M (Unit {0})
  unfolding syscall_fails litmus_lock litmus_unlock od_close
  invalid_od = do
    syscall_fails einval (litmus_lock k (pos 3))
    syscall_fails einval (litmus_unlock k (pos 3))
    syscall_fails einval (od_close k (pos 3))
    syscall_fails einval (litmus_lock k minus_one)
    syscall_fails einval (litmus_unlock k minus_one)
    syscall_fails einval (od_close k minus_one)
    pure tt

  unfoldable pub invalid_obj_type : M (Unit {0})
  unfolding syscall_fails od_open
  invalid_obj_type = do
    syscall_fails einval (od_open k (pos 0) minus_one (pos 0))
    syscall_fails einval (od_open k (pos 0) (pos 10) (pos 0))
    pure tt

  -- The parent, which may lock, and which waits for the child.
  unfoldable pub lock_in_parent : ℤ → ℤ → M (Unit {0})
  unfolding take_lock checked assert call
  lock_in_parent pid od = do
    take_lock k od
    take_lock k od
    checked (task_mode k background_task)
    status ← gets (λ s. k.child_status s.log pid)
    checked (call k (Call.wait_child pid))
    assert (exit_status status == 0)

  unfoldable pub not_inherit_od : M (Unit {0})
  unfolding open_locks close_locks become_real_time checked syscall_fails assert lock_in_parent
      open_fmlp_sem litmus_lock litmus_unlock od_close call
  not_inherit_od = do
    fd ← open_locks k (codes ".fmlp_locks")
    od ← checked (open_fmlp_sem k fd (pos 0))
    pid ← call k Call.spawn
    assert (not (eqb_ℤ pid minus_one))
    become_real_time k (ms2ns 10) (ms2ns 100)
    if is_zero pid
        then (do
          syscall_fails einval (litmus_lock k od)
          syscall_fails einval (litmus_unlock k od)
          checked (task_mode k background_task)
          exit (pos 0))
        else lock_in_parent pid od
    checked (od_close k od)
    close_locks k fd (codes ".fmlp_locks")
