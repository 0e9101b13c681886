-- ===== src/Syscalls.antt =====
-- src/syscalls.c: one stub for each system call of LITMUS^RT. What a call stores through a pointer
-- argument is returned beside its result. Also the inline wrappers of include/litmus.h that open
-- a semaphore of one locking protocol.
use adaptive_liblitmus.Base.{ℕ, Option, none, some}
use adaptive_liblitmus.Base.Int.{ℤ, pos}
use adaptive_liblitmus.Kernel.{Kernel, Call, RtTask, M, ◌>>=◌, pure, gets, call}

-- obj_type_t
abbrev pub fmlp_sem : ℤ
fmlp_sem = pos 0

abbrev pub srp_sem : ℤ
srp_sem = pos 1

abbrev pub mpcp_sem : ℤ
mpcp_sem = pos 2

abbrev pub mpcp_vs_sem : ℤ
mpcp_vs_sem = pos 3

abbrev pub dpcp_sem : ℤ
dpcp_sem = pos 4

abbrev pub pcp_sem : ℤ
pcp_sem = pos 5

abbrev pub dflp_sem : ℤ
dflp_sem = pos 6

module _ (k : Kernel) where
  unfoldable pub gettid : M ℤ
  unfolding call
  gettid = call k Call.get_tid

  unfoldable pub set_rt_task_param : ℤ → RtTask → M ℤ
  unfolding call
  set_rt_task_param pid param = call k (Call.set_rt_task_param pid param)

  unfoldable pub get_rt_task_param : ℤ → M (ℤ × RtTask)
  unfolding call
  get_rt_task_param pid = do
    stored ← gets (λ s. k.task_param s.log pid)
    ret ← call k (Call.get_rt_task_param pid)
    pure (ret, stored)

  unfoldable pub sleep_next_period : M ℤ
  unfolding call
  sleep_next_period = call k Call.complete_job

  unfoldable pub od_openx : ℤ → ℤ → ℤ → Option ℤ → M ℤ
  unfolding call
  od_openx fd type obj_id config = call k (Call.od_open fd type obj_id config)

  unfoldable pub od_close : ℤ → M ℤ
  unfolding call
  od_close od = call k (Call.od_close od)

  unfoldable pub litmus_lock : ℤ → M ℤ
  unfolding call
  litmus_lock od = call k (Call.litmus_lock od)

  unfoldable pub litmus_unlock : ℤ → M ℤ
  unfolding call
  litmus_unlock od = call k (Call.litmus_unlock od)

  unfoldable pub get_job_no : M (ℤ × ℕ)
  unfolding call
  get_job_no = do
    stored ← gets (λ s. k.job_no s.log)
    ret ← call k Call.query_job_no
    pure (ret, stored)

  unfoldable pub wait_for_job_release : ℕ → M ℤ
  unfolding call
  wait_for_job_release job_no = call k (Call.wait_for_job_release job_no)

  unfoldable pub sched_setscheduler : ℤ → ℕ → M ℤ
  unfolding call
  sched_setscheduler pid policy = call k (Call.set_scheduler pid policy)

  unfoldable pub sched_getscheduler : ℤ → M ℤ
  unfolding call
  sched_getscheduler pid = call k (Call.get_scheduler pid)

  unfoldable pub wait_for_ts_release : M ℤ
  unfolding call
  wait_for_ts_release = call k Call.wait_for_ts_release

  unfoldable pub release_ts : ℕ → M ℤ
  unfolding call
  release_ts delay = call k (Call.release_ts delay)

  unfoldable pub null_call : M (ℤ × ℕ)
  unfolding call
  null_call = do
    stored ← gets (λ s. k.timestamp s.log)
    ret ← call k Call.null_call
    pure (ret, stored)

  -- The wrappers of include/litmus.h.
  unfoldable pub od_open : ℤ → ℤ → ℤ → M ℤ
  unfolding od_openx
  od_open fd type obj_id = od_openx fd type obj_id none

  unfoldable pub open_fmlp_sem : ℤ → ℤ → M ℤ
  unfolding od_open
  open_fmlp_sem fd name = od_open fd fmlp_sem name

  unfoldable pub open_srp_sem : ℤ → ℤ → M ℤ
  unfolding od_open
  open_srp_sem fd name = od_open fd srp_sem name

  unfoldable pub open_pcp_sem : ℤ → ℤ → ℤ → M ℤ
  unfolding od_openx
  open_pcp_sem fd name cpu = od_openx fd pcp_sem name (some cpu)

  unfoldable pub open_mpcp_sem : ℤ → ℤ → M ℤ
  unfolding od_open
  open_mpcp_sem fd name = od_open fd mpcp_sem name

  unfoldable pub open_dpcp_sem : ℤ → ℤ → ℤ → M ℤ
  unfolding od_openx
  open_dpcp_sem fd name cpu = od_openx fd dpcp_sem name (some cpu)

  unfoldable pub open_dflp_sem : ℤ → ℤ → ℤ → M ℤ
  unfolding od_openx
  open_dflp_sem fd name cpu = od_openx fd dflp_sem name (some cpu)
