-- ===== src/KernelTests/ParamCases.antt =====
-- tests/core_api.c: task parameters, and the control of jobs.
use adaptive_liblitmus.Base.{ℕ, ◌==◌, not, if◌then◌else◌}
use adaptive_liblitmus.Base.Int.{ℤ, pos, minus_one, eqb_ℤ, is_zero}
use adaptive_liblitmus.Kernel.{Kernel, RtTask, Call, M, ◌>>=◌, ◌>>◌, pure, gets, exit, call}
use adaptive_liblitmus.Syscalls.{
  gettid, set_rt_task_param, sleep_next_period, wait_for_job_release, get_job_no,
}
use adaptive_liblitmus.Migration.Domains.{be_migrate_to_cpu}
use adaptive_liblitmus.Litmus.Mode.{task_mode, litmus_rt_task, background_task}
use adaptive_liblitmus.Litmus.Params.{init_rt_task_param}
use adaptive_liblitmus.Tools.Common.{ms2ns}
use adaptive_liblitmus.KernelTests.{checked, syscall_fails, einval, eperm}
use adaptive_liblitmus.KernelTests.Nesting.{become_real_time}
use adaptive_liblitmus.KernelTests.ForkCases.{assert}
use adaptive_liblitmus.KernelTests.ObjectCases.{exit_status}

module _ (k : Kernel) where
  -- The parameters that these tests begin with.
  abbrev pub short_task : ℕ → RtTask
  short_task exec_cost = record (init_rt_task_param k) {
    cpu = pos 0;
    exec_cost = exec_cost;
    period = 100;
    relative_deadline = 100;
    phase = 0;
    cls = k.class_hard;
    budget_policy = k.no_enforcement;
  }

  -- set_rt_task_param(gettid(), &params)
  unfoldable pub set_own : RtTask → M ℤ
  unfolding gettid set_rt_task_param
  set_own params = do me ← gettid k; set_rt_task_param k me params

  unfoldable pub set_rt_task_param_invalid_params : M (Unit {0})
  unfolding set_own checked syscall_fails set_rt_task_param init_rt_task_param
  set_rt_task_param_invalid_params = do
    syscall_fails einval (set_own (short_task 110))
    syscall_fails einval (set_own (record (short_task 90) { relative_deadline = 30 }))
    syscall_fails einval (set_rt_task_param k minus_one (short_task 90))
    checked (set_own (short_task 90))
    pure tt

  -- A priority with which the task cannot become a real-time task.
  unfoldable pub refused_priority : ℕ → M (Unit {0})
  unfolding set_own checked syscall_fails init_rt_task_param
  refused_priority priority = do
    checked (set_own (record (short_task 10) { priority = priority }))
    syscall_fails einval (task_mode k litmus_rt_task)

  unfoldable pub reject_bad_priorities : M (Unit {0})
  unfolding checked refused_priority
  reject_bad_priorities = do
    checked (be_migrate_to_cpu k (pos 0))
    refused_priority 0
    refused_priority k.max_priority

  unfoldable pub accepted_priority : ℕ → M ℤ
  unfolding set_own checked init_rt_task_param
  accepted_priority priority = do
    checked (set_own (record (short_task 10) { priority = priority }))
    checked (task_mode k litmus_rt_task)
    checked (task_mode k background_task)

  unfoldable pub accept_valid_priorities : M (Unit {0})
  unfolding checked accepted_priority
  accept_valid_priorities = do
    checked (be_migrate_to_cpu k (pos 0))
    accepted_priority k.lowest_priority
    accepted_priority k.highest_priority
    pure tt

  -- The result of get_job_no, without the number.
  abbrev pub job_no_result : M ℤ
  job_no_result = do r ← get_job_no k; pure (r.0)

  unfoldable pub job_control_non_rt : M (Unit {0})
  unfolding syscall_fails sleep_next_period wait_for_job_release get_job_no
  job_control_non_rt = do
    syscall_fails einval (sleep_next_period k)
    syscall_fails einval (wait_for_job_release k 0)
    syscall_fails eperm job_no_result
    pure tt

  unfoldable pub rt_fork_non_rt : M (Unit {0})
  unfolding become_real_time checked syscall_fails assert sleep_next_period wait_for_job_release
      get_job_no job_control_non_rt call
  rt_fork_non_rt = do
    become_real_time k (ms2ns 10) (ms2ns 100)
    pid ← call k Call.spawn
    assert (not (eqb_ℤ pid minus_one))
    if is_zero pid then (do job_control_non_rt; exit (pos 0)) else (do
      checked (sleep_next_period k)
      checked (wait_for_job_release k 3)
      checked job_no_result
      checked (task_mode k background_task)
      status ← gets (λ s. k.child_status s.log pid)
      checked (call k (Call.wait_child pid))
      assert (exit_status status == 0))
