-- ===== src/Tools/BaseTask.antt =====
-- bin/base_task.c and bin/base_mt_task.c: a skeleton of a real-time task with one thread, and with
-- several. CALL( exp ) reports a failure and goes on. Their `job` never asks to exit, so the loop is
-- given a number of rounds; one that has done them all has not ended.
use adaptive_liblitmus.Base.{ℕ, zero, suc, ◌+◌, if◌then◌else◌, Bool, false}
use adaptive_liblitmus.Base.Int.{ℤ, pos}
use adaptive_liblitmus.Kernel.{Kernel, Call, RtTask, M, ◌>>=◌, ◌>>◌, pure, crash, call}
use adaptive_liblitmus.Syscalls.{gettid, set_rt_task_param, sleep_next_period}
use adaptive_liblitmus.Litmus.Params.{init_rt_task_param}
use adaptive_liblitmus.Litmus.Sporadic.{init_litmus, init_rt_thread}
use adaptive_liblitmus.Litmus.Mode.{litmus_rt_task, background_task, task_mode}
use adaptive_liblitmus.Tools.Common.{ms2ns}

abbrev pub job : Bool
job = false

-- PERIOD, RELATIVE_DEADLINE and EXEC_COST, in milliseconds
abbrev pub period_ms : ℕ
period_ms = 100

abbrev pub relative_deadline_ms : ℕ
relative_deadline_ms = 100

abbrev pub exec_cost_ms : ℕ
exec_cost_ms = 10

abbrev pub num_threads : ℕ
num_threads = 10

unfoldable pub base_param : Kernel → RtTask
unfolding init_rt_task_param
base_param k = record (init_rt_task_param k) {
  exec_cost = ms2ns exec_cost_ms;
  period = ms2ns period_ms;
  relative_deadline = ms2ns relative_deadline_ms;
  budget_policy = k.no_enforcement;
  cls = k.class_soft;
  priority = k.lowest_priority;
}

unfoldable pub base_jobs : Kernel → ℕ → M (Unit {0})
unfolding sleep_next_period
base_jobs k zero = crash
base_jobs k (suc rounds) = do sleep_next_period k; if job then pure tt else base_jobs k rounds

-- What both programs do once they have initialised the library or the thread.
unfoldable pub base_thread : Kernel → ℕ → M (Unit {0})
unfolding base_jobs gettid set_rt_task_param
base_thread k rounds = do
  me ← gettid k
  set_rt_task_param k me (base_param k)
  task_mode k litmus_rt_task
  base_jobs k rounds
  task_mode k background_task
  pure tt

unfoldable pub base_main : Kernel → ℕ → M ℤ
unfolding base_thread
base_main k rounds = do init_litmus k; base_thread k rounds; pure (pos 0)

-- The thread of base_mt_task.c.
unfoldable pub rt_thread : Kernel → ℕ → M (Unit {0})
unfolding base_thread
rt_thread k rounds = do init_rt_thread k; base_thread k rounds

-- The two loops of its main, each from thread i on with `n` threads to go.
unfoldable pub create_threads : Kernel → ℕ → ℕ → M (Unit {0})
unfolding call
create_threads k zero i = pure tt
create_threads k (suc n) i = do call k (Call.start_thread i); create_threads k n (i + 1)

unfoldable pub join_threads : Kernel → ℕ → ℕ → M (Unit {0})
unfolding call
join_threads k zero i = pure tt
join_threads k (suc n) i = do call k (Call.join_thread i); join_threads k n (i + 1)

unfoldable pub base_mt_main : Kernel → M ℤ
unfolding create_threads join_threads
base_mt_main k = do
  init_litmus k
  create_threads k num_threads 0
  join_threads k num_threads 0
  pure (pos 0)
