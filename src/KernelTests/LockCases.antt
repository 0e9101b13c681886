-- ===== src/KernelTests/LockCases.antt =====
-- tests/locks.c, the test cases that run in one process.
use adaptive_liblitmus.Base.Int.{ℤ, pos}
use adaptive_liblitmus.Base.Chars.{Bytes, codes}
use adaptive_liblitmus.Kernel.{Kernel, RtTask, Call, OpenMode, M, ◌>>=◌, ◌>>◌, pure, call}
use adaptive_liblitmus.Syscalls.{
  gettid, set_rt_task_param, od_close, litmus_lock, litmus_unlock, open_fmlp_sem, open_srp_sem,
  open_dflp_sem,
}
use adaptive_liblitmus.Migration.Domains.{be_migrate_to_cpu}
use adaptive_liblitmus.Litmus.Mode.{task_mode, litmus_rt_task, background_task}
use adaptive_liblitmus.Litmus.Params.{init_rt_task_param}
use adaptive_liblitmus.Tools.Common.{ms2ns}
use adaptive_liblitmus.KernelTests.{checked, syscall_fails, einval, eperm}
use adaptive_liblitmus.KernelTests.Nesting.{take_lock, become_real_time}

module _ (k : Kernel) where
  -- fd = open(name, O_RDONLY | O_CREAT, S_IRUSR)
  unfoldable pub open_locks : Bytes → M ℤ
  unfolding checked call
  open_locks name = checked (call k (Call.open_file name OpenMode.create))

  unfoldable pub close_locks : ℤ → Bytes → M (Unit {0})
  unfolding checked call
  close_locks fd name = do
    checked (call k (Call.close_file fd))
    checked (call k (Call.remove_file name))
    pure tt

  -- A lock is taken three times; a fourth release is refused.
  unfoldable pub acquire : Bytes → (ℤ → M ℤ) → M (Unit {0})
  unfolding open_locks close_locks become_real_time take_lock checked syscall_fails od_close
      litmus_unlock
  acquire name open_sem = do
    fd ← open_locks name
    become_real_time k (ms2ns 10) (ms2ns 100)
    od ← checked (open_sem fd)
    take_lock k od
    take_lock k od
    take_lock k od
    syscall_fails einval (litmus_unlock k od)
    checked (od_close k od)
    close_locks fd name

  unfoldable pub lock_srp : M (Unit {0})
  unfolding acquire open_srp_sem
  lock_srp = acquire (codes ".srp_locks") (λ fd. open_srp_sem k fd (pos 0))

  unfoldable pub lock_fmlp : M (Unit {0})
  unfolding acquire open_fmlp_sem
  lock_fmlp = acquire (codes ".fmlp_locks") (λ fd. open_fmlp_sem k fd (pos 0))

  unfoldable pub lock_dflp : M (Unit {0})
  unfolding acquire open_dflp_sem
  lock_dflp = acquire (codes ".dflp_locks") (λ fd. open_dflp_sem k fd (pos 0) (pos 1))

  unfoldable pub not_lock_fmlp_be : M (Unit {0})
  unfolding open_locks close_locks checked syscall_fails open_fmlp_sem litmus_lock litmus_unlock
      od_close
  not_lock_fmlp_be = do
    fd ← open_locks (codes ".fmlp_locks")
    od ← checked (open_fmlp_sem k fd (pos 0))
    syscall_fails eperm (litmus_lock k od)
    syscall_fails einval (litmus_unlock k od)
    checked (od_close k od)
    close_locks fd (codes ".fmlp_locks")

  unfoldable pub not_lock_srp_be : M (Unit {0})
  unfolding open_locks close_locks syscall_fails open_srp_sem
  not_lock_srp_be = do
    fd ← open_locks (codes ".srp_locks")
    syscall_fails eperm (open_srp_sem k fd (pos 0))
    close_locks fd (codes ".srp_locks")

  unfoldable pub dflp_bad_cpu : M (Unit {0})
  unfolding open_locks close_locks become_real_time syscall_fails open_dflp_sem
  dflp_bad_cpu = do
    fd ← open_locks (codes ".dflp_locks")
    become_real_time k (ms2ns 10) (ms2ns 100)
    syscall_fails einval (open_dflp_sem k fd (pos 0) (pos 195_938_910))  -- 0xbadca5e
    close_locks fd (codes ".dflp_locks")

  -- The parameters of the tests below; the priority is set separately.
  abbrev pub long_task : ℤ → RtTask
  long_task cpu = record (init_rt_task_param k) {
    cpu = cpu;
    exec_cost = ms2ns 10_000;
    period = ms2ns 100_000;
    relative_deadline = ms2ns 100_000;
    priority = k.lowest_priority;
  }

  -- A lock is released after the task has left real-time mode and `cpu`.
  unfoldable pub change_mode : ℤ → ℤ → (ℤ → M ℤ) → M (Unit {0})
  unfolding open_locks close_locks checked gettid set_rt_task_param init_rt_task_param litmus_lock
      litmus_unlock od_close
  change_mode cpu cpu2 open_sem = do
    fd ← open_locks (codes ".locks")
    me ← gettid k
    checked (set_rt_task_param k me (long_task cpu))
    checked (be_migrate_to_cpu k cpu)
    checked (task_mode k litmus_rt_task)
    od ← checked (open_sem fd)
    checked (litmus_lock k od)
    checked (task_mode k background_task)
    be_migrate_to_cpu k cpu2
    checked (litmus_unlock k od)
    checked (od_close k od)
    close_locks fd (codes ".locks")

  unfoldable pub srp_lock_mode_change : M (Unit {0})
  unfolding change_mode open_srp_sem
  srp_lock_mode_change = change_mode (pos 0) (pos 1) (λ fd. open_srp_sem k fd (pos 0))

  unfoldable pub dflp_lock_mode_change : M (Unit {0})
  unfolding change_mode open_dflp_sem
  dflp_lock_mode_change = change_mode (pos 1) (pos 2) (λ fd. open_dflp_sem k fd (pos 0) (pos 0))
