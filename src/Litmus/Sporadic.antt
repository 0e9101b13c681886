-- ===== src/Litmus/Sporadic.antt =====
-- Setting up sporadic tasks, initialising the library, and sleeping.
use adaptive_liblitmus.Base.{ℕ, ◌/◌, ◌%◌, ◌&&◌, if◌then◌else◌}
use adaptive_liblitmus.Base.Int.{ℤ, pos, minus_one, is_zero}
use adaptive_liblitmus.Kernel.{Kernel, Call, M, ◌>>=◌, pure, call}
use adaptive_liblitmus.Syscalls.{gettid, set_rt_task_param}
use adaptive_liblitmus.KernelIface.ControlPage.{init_kernel_iface}
use adaptive_liblitmus.Migration.Domains.{be_migrate_to_domain, domain_to_first_cpu}
use adaptive_liblitmus.Litmus.Params.{init_rt_task_param}

unfoldable pub sporadic_global : Kernel → ℕ → ℕ → M ℤ
unfolding init_rt_task_param gettid set_rt_task_param
sporadic_global k e_ns p_ns = do
  me ← gettid k
  set_rt_task_param k me (record (init_rt_task_param k) { exec_cost = e_ns; period = p_ns })

unfoldable pub sporadic_partitioned : Kernel → ℕ → ℕ → ℤ → M ℤ
unfolding init_rt_task_param gettid set_rt_task_param
sporadic_partitioned k e_ns p_ns partition = do
  ret ← be_migrate_to_domain k partition
  if is_zero ret
      then (do
        cpu ← domain_to_first_cpu k partition
        me ← gettid k
        set_rt_task_param k me
            (record (init_rt_task_param k) { exec_cost = e_ns; period = p_ns; cpu = cpu }))
      else pure ret

unfoldable pub sporadic_clustered : Kernel → ℕ → ℕ → ℤ → M ℤ
unfolding init_rt_task_param gettid set_rt_task_param
sporadic_clustered k e_ns p_ns cluster = do
  ret ← be_migrate_to_domain k cluster
  if is_zero ret
      then (do
        cpu ← domain_to_first_cpu k cluster
        me ← gettid k
        set_rt_task_param k me
            (record (init_rt_task_param k) { exec_cost = e_ns; period = p_ns; cpu = cpu }))
      else pure ret

unfoldable pub init_rt_thread : Kernel → M ℤ
init_rt_thread k = init_kernel_iface k

-- mlockall(MCL_CURRENT | MCL_FUTURE)
unfoldable pub init_litmus : Kernel → M ℤ
unfolding init_rt_thread call
init_litmus k = do
  ret ← call k Call.lock_memory
  ret2 ← init_rt_thread k
  pure (if is_zero ret && is_zero ret2 then pos 0 else minus_one)

unfoldable pub exit_litmus : M (Unit {0})
exit_litmus = pure tt

-- src/clocks.c
unfoldable pub lt_sleep : Kernel → ℕ → M ℤ
unfolding call
lt_sleep k timeout = call k (Call.nanosleep (timeout / 1_000_000_000) (timeout % 1_000_000_000))
