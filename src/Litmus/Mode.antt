-- ===== src/Litmus/Mode.antt =====
-- src/task.c: the switch between background and real-time mode.
use adaptive_liblitmus.Base.{ℕ, ◌&&◌, if◌then◌else◌}
use adaptive_liblitmus.Base.Int.{ℤ, pos, negsuc, minus_one, eqb_ℤ}
use adaptive_liblitmus.Kernel.{Kernel, M, ◌>>=◌, ◌>>◌, pure, modify}
use adaptive_liblitmus.Syscalls.{gettid, sched_setscheduler, sched_getscheduler}

abbrev pub sched_normal : ℕ
sched_normal = 0

abbrev pub sched_litmus : ℕ
sched_litmus = 7

abbrev pub background_task : ℤ
background_task = pos 0

abbrev pub litmus_rt_task : ℤ
litmus_rt_task = pos 1

-- -EINVAL; EINVAL is 22
abbrev pub neg_einval : ℤ
neg_einval = negsuc 21

unfoldable pub task_mode : Kernel → ℤ → M ℤ
unfolding gettid sched_setscheduler sched_getscheduler
task_mode k mode = do
  me ← gettid k
  self ← gettid k
  policy ← sched_getscheduler k self
  let old_mode = if eqb_ℤ policy (pos sched_litmus) then litmus_rt_task else background_task
  if eqb_ℤ old_mode litmus_rt_task && eqb_ℤ mode background_task
      then sched_setscheduler k me sched_normal
      else if eqb_ℤ old_mode background_task && eqb_ℤ mode litmus_rt_task
      then sched_setscheduler k me sched_litmus
      else (do modify (λ s. record s { errno = neg_einval }); pure minus_one)
