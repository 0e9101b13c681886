-- ===== src/Tools/SpinMain.antt =====
-- main of bin/rtspin.c after its options.
use adaptive_liblitmus.Base.{
  ℕ, zero, suc, ◌-◌, ◌==◌, Bool, true, false, List, [], ◌∷◌, length, ltb, none, some, if◌then◌else◌,
}
use adaptive_liblitmus.Base.Int.{ℤ, pos, minus_one, is_neg, is_zero}
use adaptive_liblitmus.Base.Chars.{Bytes, codes}
use adaptive_liblitmus.Kernel.{Kernel, RtTask, M, ◌>>=◌, ◌>>◌, pure, crash}
use adaptive_liblitmus.Syscalls.{gettid, set_rt_task_param, wait_for_ts_release, get_job_no}
use adaptive_liblitmus.Migration.Domains.{be_migrate_to_domain, domain_to_first_cpu}
use adaptive_liblitmus.Litmus.Locks.{litmus_open_lock}
use adaptive_liblitmus.Litmus.Params.{init_rt_task_param}
use adaptive_liblitmus.Litmus.Sporadic.{init_litmus}
use adaptive_liblitmus.Litmus.Mode.{litmus_rt_task, background_task, task_mode}
use adaptive_liblitmus.Tools.Common.{Double, ms2ns_double, Opt, bail_out, usage}
use adaptive_liblitmus.Tools.ExecTimes.{Scanner, get_exec_times}
use adaptive_liblitmus.Tools.Spin.{
  Clocks, SpinOptions, read_clock, spin_job, debug_delay_loop, spin_options, default_spin_options,
}

module _ {D : Type 0} (k : Kernel) (fl : Double D) (clocks : Clocks D) (scan : Scanner D) where
  unfoldable pub spin_param : SpinOptions D → ℕ → ℕ → ℤ → RtTask
  unfolding init_rt_task_param
  spin_param o wcet period cpu = record (init_rt_task_param k) {
    exec_cost = wcet;
    period = period;
    priority = o.priority;
    cls = o.cls;
    budget_policy = if o.want_enforcement then k.precise_enforcement else k.no_enforcement;
    cpu = cpu;
  }

  unfoldable pub spin_migrate : SpinOptions D → M (Unit {0})
  unfolding bail_out
  spin_migrate o =
      if o.migrate
      then (do ret ← be_migrate_to_domain k o.cluster; if is_neg ret then bail_out else pure tt)
      else pure tt

  unfoldable pub spin_cpu : SpinOptions D → M ℤ
  spin_cpu o =
      if o.migrate
      then (if is_neg o.reservation then domain_to_first_cpu k o.cluster else pure o.reservation)
      else pure (pos 0)

  -- The descriptor of the lock, or -1 without a protocol.
  unfoldable pub spin_lock : SpinOptions D → M ℤ
  spin_lock o = if is_neg o.protocol then pure minus_one else (do
    lock_od ← litmus_open_lock k o.protocol o.resource_id (codes "./rtspin-locks") (some o.cluster)
    if is_neg lock_od then usage else pure lock_od)

  abbrev pub seconds : SpinOptions D → D → D
  seconds o ms = fl.times (fl.times ms fl.milli) o.scale

  -- The jobs of a file, each with its time; all are begun, also those past the end.
  unfoldable pub file_jobs : SpinOptions D → ℕ → D → ℤ → List D → M (Unit {0})
  unfolding spin_job
  file_jobs o rounds program_end lock_od [] = pure tt
  file_jobs o rounds program_end lock_od (x ∷ xs) = do
    spin_job k fl clocks rounds (seconds o x) program_end lock_od (fl.times o.cs_length fl.milli)
    file_jobs o rounds program_end lock_od xs

  -- The `do` loop of jobs of one length.
  unfoldable pub periodic_jobs : SpinOptions D → ℕ → ℕ → D → D → ℤ → M (Unit {0})
  unfolding spin_job get_job_no gettid
  periodic_jobs o zero rounds wcet_ms program_end lock_od = crash
  periodic_jobs o (suc jobs) rounds wcet_ms program_end lock_od = do
    if o.verbose
        then (do get_job_no k; gettid k; read_clock k fl clocks clocks.wctime; pure tt)
        else pure tt
    more ←
        spin_job k fl clocks rounds (seconds o wcet_ms) program_end lock_od
          (fl.times o.cs_length fl.milli)
    if more then periodic_jobs o jobs rounds wcet_ms program_end lock_od else pure tt

  -- From the transition to real-time mode on.
  unfoldable pub spin_run : SpinOptions D → ℕ → List D → D → D → M ℤ
  unfolding bail_out wait_for_ts_release file_jobs periodic_jobs
  spin_run o rounds exec_times wcet_ms duration = do
    init_litmus k
    began ← read_clock k fl clocks clocks.wctime
    ret ← task_mode k litmus_rt_task
    if is_zero ret then pure tt else bail_out
    lock_od ← spin_lock o
    begin ←
        (if o.wait
          then (do
            released ← wait_for_ts_release k
            if is_zero released then pure tt else bail_out
            read_clock k fl clocks clocks.wctime)
          else pure began)
    elim o.file [
      | none ↦ periodic_jobs o rounds rounds wcet_ms (fl.plus begin duration) lock_od
      | some f ↦ file_jobs o rounds (fl.plus begin duration) lock_od exec_times
    ]
    ret' ← task_mode k background_task
    if is_zero ret' then pure tt else bail_out
    pure (pos 0)

  -- The checks on WCET and PERIOD; without a file, the one must not exceed the other.
  unfoldable pub is_bad : SpinOptions D → ℕ → ℕ → Bool
  is_bad o wcet period =
      if wcet == 0
      then true
      else if period == 0
      then true
      else elim o.file [ none ↦ ltb period wcet | some f ↦ false ]

  unfoldable pub spin_task : SpinOptions D → ℕ → List D → D → D → D → M ℤ
  unfolding bail_out gettid set_rt_task_param is_bad spin_param
  spin_task o rounds exec_times wcet_ms period_ms duration =
      if is_bad o (ms2ns_double fl wcet_ms) (ms2ns_double fl period_ms) then usage else (do
        spin_migrate o
        cpu ← spin_cpu o
        me ← gettid k
        ret ←
            set_rt_task_param k me
              (spin_param o (ms2ns_double fl wcet_ms) (ms2ns_double fl period_ms) cpu)
        if is_neg ret then bail_out else pure tt
        spin_run o rounds exec_times wcet_ms duration)

  -- The sum of the times of a file in seconds, and what the periods between its jobs add.
  unfoldable pub total_time : List D → D → D
  total_time [] acc = acc
  total_time (x ∷ xs) acc = total_time xs (fl.plus acc (fl.times x fl.milli))

  unfoldable pub file_duration : List D → D → D
  unfolding total_time
  file_duration xs period_ms =
      if ltb 1 (length xs)
      then fl.plus (total_time xs (fl.of_int (pos 0)))
          (fl.times (fl.times period_ms fl.milli) (fl.of_int (pos (length xs - 1))))
      else total_time xs (fl.of_int (pos 0))

  -- With the arguments behind the options: WCET, PERIOD, and DURATION unless there is a file.
  unfoldable pub spin_args : SpinOptions D → ℕ → List Bytes → M ℤ
  unfolding file_duration
  spin_args o rounds args = elim o.file [
    | none ↦ (elim args [
      | w ∷ p ∷ d ∷ rest ↦ spin_task o rounds [] (fl.of_text w) (fl.of_text p) (fl.of_text d)
      | _ ↦ usage
    ])
    | some f ↦ (do
      xs ← get_exec_times k scan f o.column
      elim args [
        | w ∷ p ∷ rest ↦
            spin_task o rounds xs (fl.of_text w) (fl.of_text p) (file_duration xs (fl.of_text p))
        | _ ↦ usage
      ])
  ]

  unfoldable pub spin_main : ℕ → List Opt → List Bytes → M ℤ
  unfolding spin_args
  spin_main rounds opts args = do
    o ← spin_options k fl clocks opts (default_spin_options k fl clocks)
    if o.test_loop
        then (do debug_delay_loop k fl clocks rounds (fl.of_text (codes "0.5")); pure (pos 0))
        else spin_args o rounds args
