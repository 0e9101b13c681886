-- ===== src/Tools/Launch.antt =====
-- bin/rt_launch.c: the options, the checks on the parameters, and what the launcher then calls.
use adaptive_liblitmus.Base.{ℕ, ◌==◌, Bool, true, false, ◌||◌, List, [], ◌∷◌, ltb, if◌then◌else◌}
use adaptive_liblitmus.Base.Int.{ℤ, pos, minus_one, eqb_ℤ, is_neg, is_zero}
use adaptive_liblitmus.Base.Chars.{Bytes, atoi}
use adaptive_liblitmus.Kernel.{Kernel, Call, RtTask, M, ◌>>=◌, ◌>>◌, pure, call}
use adaptive_liblitmus.Syscalls.{gettid, set_rt_task_param, wait_for_ts_release}
use adaptive_liblitmus.Migration.Domains.{be_migrate_to_domain, domain_to_first_cpu}
use adaptive_liblitmus.Litmus.Params.{init_rt_task_param, str2class}
use adaptive_liblitmus.Litmus.Sporadic.{init_litmus}
use adaptive_liblitmus.Litmus.Mode.{litmus_rt_task, task_mode}
use adaptive_liblitmus.Tools.Common.{Double, ms2ns_double, Opt, to_unsigned, bail_out, usage}

-- The variables that the options set.
pub record Options (D : Type 0) : Type 0 where
  pub verbose : Bool
  pub offset_ms : D
  pub deadline_ms : D
  pub priority : ℕ
  pub want_enforcement : Bool
  pub wait : Bool
  pub cls : ℤ
  pub migrate : Bool
  pub cluster : ℤ
  pub reservation : ℤ

module _ {D : Type 0} (k : Kernel) (fl : Double D) where
  unfoldable pub default_options : Options D
  default_options = record {
    verbose = false;
    offset_ms = fl.of_int (pos 0);
    deadline_ms = fl.of_int (pos 0);
    priority = k.lowest_priority;
    want_enforcement = true;
    wait = false;
    cls = k.class_soft;
    migrate = false;
    cluster = minus_one;
    reservation = minus_one;
  }

  -- One round of the `while` over getopt.
  unfoldable pub launch_option : Opt → Options D → M (Options D)
  launch_option (opt, optarg) o =
      if opt == b'w'
      then pure (record o { wait = true })
      else if opt == b'p'
      then pure (record o { cluster = atoi optarg; migrate = true })
      else if opt == b'q'
      then (if k.is_valid_fixed_prio (to_unsigned (atoi optarg))
          then pure (record o { priority = to_unsigned (atoi optarg) })
          else usage)
      else if opt == b'c'
      then (if eqb_ℤ (str2class k optarg) minus_one
          then usage
          else pure (record o { cls = str2class k optarg }))
      else if opt == b'e'
      then pure (record o { want_enforcement = false })
      else if opt == b'r'
      then pure (record o { reservation = atoi optarg })
      else if opt == b'o'
      then pure (record o { offset_ms = fl.of_text optarg })
      else if opt == b'd'
      then (if fl.is_zero (fl.of_text optarg) || fl.is_less (fl.of_text optarg) (fl.of_int (pos 0))
          then usage
          else pure (record o { deadline_ms = fl.of_text optarg }))
      else if opt == b'v'
      then pure (record o { verbose = true })
      else usage

  unfoldable pub launch_options : List Opt → Options D → M (Options D)
  launch_options [] o = pure o
  launch_options (opt ∷ opts) o = launch_option opt o >>= launch_options opts

  -- The parameters of the task.
  unfoldable pub launch_param : Options D → ℕ → ℕ → ℤ → RtTask
  unfolding init_rt_task_param
  launch_param o wcet period cpu = record (init_rt_task_param k) {
    exec_cost = wcet;
    period = period;
    phase = ms2ns_double fl o.offset_ms;
    relative_deadline = ms2ns_double fl o.deadline_ms;
    priority = o.priority;
    cls = o.cls;
    budget_policy = if o.want_enforcement then k.precise_enforcement else k.no_enforcement;
    cpu = cpu;
  }

  -- param.cpu, which stays 0 without -p
  unfoldable pub launch_cpu : Options D → M ℤ
  launch_cpu o =
      if o.migrate
      then (if is_neg o.reservation then domain_to_first_cpu k o.cluster else pure o.reservation)
      else pure (pos 0)

  unfoldable pub launch_migrate : Options D → M (Unit {0})
  unfolding bail_out
  launch_migrate o =
      if o.migrate
      then (do ret ← be_migrate_to_domain k o.cluster; if is_neg ret then bail_out else pure tt)
      else pure tt

  unfoldable pub launch_verbose : Options D → M (Unit {0})
  unfolding gettid
  launch_verbose o = if o.verbose then (gettid k >> pure tt) else pure tt

  unfoldable pub launch_wait : Options D → M (Unit {0})
  unfolding bail_out wait_for_ts_release
  launch_wait o =
      if o.wait
      then (do released ← wait_for_ts_release k; if is_zero released then pure tt else bail_out)
      else pure tt

  -- The rest of main, from init_litmus on. A call of execvp that succeeds does not return.
  unfoldable pub launch_run : Options D → List Bytes → M ℤ
  unfolding bail_out launch_verbose launch_wait call
  launch_run o program = do
    init_litmus k
    ret ← task_mode k litmus_rt_task
    if is_zero ret then pure tt else bail_out
    launch_verbose o
    launch_wait o
    call k (Call.exec program)
    pure (pos 1)

  -- What follows the checks on WCET and PERIOD.
  unfoldable pub launch_checked : Options D → ℕ → ℕ → List Bytes → M ℤ
  unfolding bail_out gettid set_rt_task_param call
  launch_checked o wcet period program = do
    launch_migrate o
    cpu ← launch_cpu o
    me ← gettid k
    ret ← set_rt_task_param k me (launch_param o wcet period cpu)
    if is_neg ret then bail_out else pure tt
    launch_run o program

  unfoldable pub launch_task : Options D → ℕ → ℕ → List Bytes → M ℤ
  launch_task o wcet period program =
      if wcet == 0
      then usage
      else if period == 0
      then usage
      else if ltb period wcet
      then usage
      else launch_checked o wcet period program

  -- argv[optind + 0], argv[optind + 1] and the program with its arguments
  unfoldable pub launch_args : Options D → List Bytes → M ℤ
  launch_args o (w ∷ p ∷ program ∷ args) =
      launch_task o (ms2ns_double fl (fl.of_text w)) (ms2ns_double fl (fl.of_text p))
        (program ∷ args)
  launch_args o args = usage

  unfoldable pub launch_main : List Opt → List Bytes → M ℤ
  unfolding launch_options default_options call
  launch_main opts args = do
    o ← launch_options opts default_options
    call k Call.ignore_signal
    launch_args o args
