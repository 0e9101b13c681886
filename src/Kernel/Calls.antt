-- ===== src/Kernel/Calls.antt =====
-- Every call by which the library acts on the world, and the kernel as a parameter of the model:
-- an answer to each call that may depend on all the calls made before it.
use adaptive_liblitmus.Base.{ℕ, Bool, List, Option}
use adaptive_liblitmus.Base.Int.{ℤ}
use adaptive_liblitmus.Base.Chars.{Bytes}

-- The members of `struct rt_task` that the program uses (litmus/rt_param.h, a kernel header).
pub record RtTask : Type 0 where
  pub exec_cost : ℕ
  pub period : ℕ
  pub relative_deadline : ℕ
  pub phase : ℕ
  pub cpu : ℤ
  pub priority : ℕ
  pub cls : ℤ
  pub budget_policy : ℕ
  pub release_policy : ℕ

-- The constants and the test that the program takes from litmus/rt_param.h.
pub record Header : Type 0 where
  pub class_hard : ℤ
  pub class_soft : ℤ
  pub class_best_effort : ℤ
  pub lowest_priority : ℕ
  pub highest_priority : ℕ
  pub max_priority : ℕ
  pub is_valid_fixed_prio : ℕ → Bool
  pub no_enforcement : ℕ
  pub precise_enforcement : ℕ
  pub task_sporadic : ℕ

pub data OpenMode : Type 0 where
  read_only read_write create : OpenMode

-- System calls, calls of the C library that reach the kernel, and accesses to the control page,
-- which the kernel shares.
pub data Call : Type 0 where
  open_file : Bytes → OpenMode → Call
  close_file : ℤ → Call
  read_bytes : ℤ → ℕ → Call
  map_memory : ℕ → ℤ → Call
  unmap_memory : ℕ → Call
  lock_memory : Call
  page_size : Call
  online_cpus : Call
  set_affinity : ℤ → List Bool → Call
  get_tid : Call
  get_pid : Call
  set_rt_task_param : ℤ → RtTask → Call
  get_rt_task_param : ℤ → Call
  complete_job : Call
  od_open : ℤ → ℤ → ℤ → Option ℤ → Call
  od_close : ℤ → Call
  litmus_lock : ℤ → Call
  litmus_unlock : ℤ → Call
  query_job_no : Call
  wait_for_job_release : ℕ → Call
  set_scheduler : ℤ → ℕ → Call
  get_scheduler : ℤ → Call
  wait_for_ts_release : Call
  release_ts : ℕ → Call
  null_call : Call
  yield_cpu : Call
  nanosleep : ℕ → ℕ → Call
  sleep : ℕ → Call
  load_preempt : Call
  store_flag : ℕ → Call
  spawn : Call
  wait_child : ℤ → Call
  ignore_signal : Call
  read_clock : Call
  rewind_stream : ℤ → Call
  start_thread : ℕ → Call
  join_thread : ℕ → Call
  exec : List Bytes → Call
  remove_file : Bytes → Call

-- The calls made so far, the newest first.
abbrev pub Log : Type 0
Log = List Call

-- What comes back from a call depends on the call and on the calls before it.
pub record Kernel : Type 0 where
  pub header : Header
  pub open header use *
  pub answer : Log → Call → ℤ
  pub errno_of : Log → Call → ℤ
  -- read(2): the bytes handed over, or `none` for an error
  pub input : Log → ℤ → ℕ → Option Bytes
  -- whether mmap(2) succeeds
  pub maps : Log → ℕ → ℤ → Bool
  -- the control page: what its flag holds when it is mapped, the width of the flag, and what the
  -- kernel has last stored in `preempt`
  pub fresh_flag : ℕ
  pub flag_bits : ℕ
  pub preempt : Log → Bool
  -- what calls store through their pointer arguments
  pub task_param : Log → ℤ → RtTask
  pub job_no : Log → ℕ
  pub timestamp : Log → ℕ
  -- the wait status of a child: its exit code, or `none` where a signal ended it
  pub child_status : Log → ℤ → Option ℕ
