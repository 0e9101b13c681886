-- ===== src/Tools/SpinRun.antt =====
-- bin/rtspin.c from its task parameters to the end of main, in the life cycle.
use adaptive_liblitmus.Base.{
  ℕ, ◌≡◌, refl, inl, inr, Bool-cases, Bool, true, false, arith, List, Option, none, some,
  if◌then◌else◌,
}
use adaptive_liblitmus.Base.Int.{ℤ, pos, is_neg, is_zero}
use adaptive_liblitmus.Base.Chars.{Bytes}
use adaptive_liblitmus.Kernel.{Kernel, Call, RtTask, M, ◌>>=◌, ◌>>◌, pure, call}
use adaptive_liblitmus.Syscalls.{gettid, set_rt_task_param, wait_for_ts_release}
use adaptive_liblitmus.Litmus.Sporadic.{init_litmus}
use adaptive_liblitmus.Litmus.Mode.{task_mode, litmus_rt_task, background_task}
use adaptive_liblitmus.Lifecycle.Library.{init_litmus-Keeps, gettid-Keeps}
use adaptive_liblitmus.Lifecycle.Phase.{Phase, has_budget, phase_of, phase_of-IsBlind}
use adaptive_liblitmus.Lifecycle.Runs.{
  Ends, Runs, Runs-bind, Runs-after, Runs-event, Runs-quiet, Runs-if, Runs-pure, Runs-exit,
}
use adaptive_liblitmus.Lifecycle.Switch.{task_mode-start, task_mode-stop}
use adaptive_liblitmus.Tools.Common.{Double, ms2ns_double, bail_out, usage}
use adaptive_liblitmus.Tools.ExecTimes.{Scanner}
use adaptive_liblitmus.Tools.Spin.{Clocks, SpinOptions, read_clock}
use adaptive_liblitmus.Tools.SpinMain.{
  spin_param, spin_migrate, spin_cpu, spin_lock, file_jobs, periodic_jobs, spin_run, is_bad,
  spin_task,
}
use adaptive_liblitmus.Tools.SpinQuiet.{read_clock-Keeps, spin_migrate-Keeps, spin_cpu-Keeps}
use adaptive_liblitmus.Tools.SpinPhases.{
  InRealTime, read_clock-then, spin_lock-Runs, file_jobs-Runs, periodic_jobs-Runs,
}

-- Where main returns, the task is a background task again.
abbrev pub IsFinished : ℤ → Phase → Type 0
IsFinished ret q = q ≡ Phase.finished

module _ {D : Type 0} (k : Kernel) (fl : Double D) (clocks : Clocks D) (scan : Scanner D) where
  check : ℤ → M (Unit {0})
  check ret = if is_zero ret then pure tt else bail_out

  -- Code after a result that must be 0.
  check-then :
      {B : Type 0} {p q : Phase} {R : B → Phase → Type 0} (ret : ℤ) (m : M B)
      → (is_zero ret ≡ true → q ≡ p)
      → Runs k p m R
      → Runs k q (check ret >> m) R
  unfolding check bail_out
  check-then ret m same h = elim (Bool-cases (is_zero ret)) [
    | inl ok ↦ rw (ok, same ok) h
    | inr failed ↦ rw failed (λ s e. Ends.exits e)
  ]

  abbrev jobs : SpinOptions D → ℕ → List D → D → D → ℤ → Option Bytes → M (Unit {0})
  jobs o rounds xs wcet_ms program_end od file = elim file [
    | none ↦ periodic_jobs k fl clocks scan o rounds rounds wcet_ms program_end od
    | some f ↦ file_jobs k fl clocks scan o rounds program_end od xs
  ]

  jobs-Runs :
      (o : SpinOptions D) (rounds : ℕ) (xs : List D) (wcet_ms program_end : D) (od : ℤ)
      (file : Option Bytes)
      → Runs k Phase.real_time (jobs o rounds xs wcet_ms program_end od file) InRealTime
  jobs-Runs o rounds xs wcet_ms program_end od none =
      periodic_jobs-Runs k fl clocks scan o rounds rounds wcet_ms program_end od
  jobs-Runs o rounds xs wcet_ms program_end od (some f) =
      file_jobs-Runs k fl clocks scan o rounds program_end od xs

  -- When the jobs count from: the release of the task system, if it is waited for.
  abbrev begin_at : SpinOptions D → D → M D
  begin_at o began =
      if o.wait
      then (wait_for_ts_release k >>= λ released.
          check released >> read_clock k fl clocks clocks.wctime)
      else pure began

  begin_at-Runs :
      (o : SpinOptions D) (began : D) → Runs k Phase.real_time (begin_at o began) InRealTime
  unfolding wait_for_ts_release
  begin_at-Runs o began =
      let clock : M D = read_clock k fl clocks clocks.wctime in
      Runs-if k o.wait (call k Call.wait_for_ts_release >>= λ released. check released >> clock)
        (pure began)
        (λ _.
          Runs-event k Call.wait_for_ts_release (λ released. check released >> clock) refl
            λ a. (
              Phase.real_time,
              refl,
              check-then a clock (λ _. refl)
                  (Runs-quiet k clock
                    (read_clock-Keeps (phase_of k) (phase_of-IsBlind k) k fl clocks clocks.wctime)),
            ))
        (λ _. Runs-pure k began refl)

  spin_run-Runs :
      (o : SpinOptions D) (rounds : ℕ) (xs : List D) (wcet_ms duration : D)
      → Runs k Phase.configured (spin_run k fl clocks scan o rounds xs wcet_ms duration) IsFinished
  unfolding spin_run check
  spin_run-Runs o rounds xs wcet_ms duration =
      let return : ℤ → M ℤ = λ ret'. check ret' >> pure (pos 0) in
      let stop : M ℤ = task_mode k background_task >>= return in
      let work : ℤ → D → M ℤ =
        λ od begin. jobs o rounds xs wcet_ms (fl.plus begin duration) od o.file >> stop in
      let locked : D → ℤ → M ℤ = λ began od. begin_at o began >>= work od in
      let lock : D → M ℤ = λ began. spin_lock k fl clocks scan o >>= locked began in
      let start : D → M ℤ =
        λ began. task_mode k litmus_rt_task >>= λ ret. check ret >> lock began in
      Runs-after k (init_litmus k) (λ _. read_clock k fl clocks clocks.wctime >>= start)
        (init_litmus-Keeps (phase_of k) (phase_of-IsBlind k) k)
        λ _. read_clock-then k fl clocks clocks.wctime start λ began.
          Runs-bind k (λ ret q. is_zero ret ≡ true → q ≡ Phase.real_time)
            (task_mode k litmus_rt_task) (λ ret. check ret >> lock began) (task_mode-start k)
            λ ret q ok. check-then ret (lock began) ok (
              Runs-bind k InRealTime (spin_lock k fl clocks scan o) (locked began)
                (spin_lock-Runs k fl clocks scan o)
                λ od q' same. rw same (
                  Runs-bind k InRealTime (begin_at o began) (work od) (begin_at-Runs o began)
                    λ begin p same'. rw same' (
                      Runs-bind k InRealTime
                        (jobs o rounds xs wcet_ms (fl.plus begin duration) od o.file) (λ _. stop)
                        (jobs-Runs o rounds xs wcet_ms (fl.plus begin duration) od o.file)
                        λ _ p' same''. rw same'' (
                          Runs-bind k (λ r u. is_zero r ≡ true → u ≡ Phase.finished)
                            (task_mode k background_task) return (task_mode-stop k)
                            λ r u ok'.
                              check-then r (pure (pos 0)) ok' (Runs-pure k (pos 0) refl)))))

  -- What the checks on WCET and PERIOD have let through.
  has_budget-spin :
      (o : SpinOptions D) (wcet period : ℕ) (cpu : ℤ)
      → is_bad k fl clocks scan o wcet period ≡ false
      → has_budget (spin_param k fl clocks scan o wcet period cpu) ≡ true
  unfolding is_bad spin_param
  has_budget-spin o wcet period cpu e = ground (arith, e)

  pub spin_task-Runs :
      (o : SpinOptions D) (rounds : ℕ) (xs : List D) (wcet_ms period_ms duration : D)
      → Runs k Phase.background
          (spin_task k fl clocks scan o rounds xs wcet_ms period_ms duration)
          IsFinished
  unfolding spin_task set_rt_task_param bail_out
  spin_task-Runs o rounds xs wcet_ms period_ms duration =
      let bad : Bool =
        is_bad k fl clocks scan o (ms2ns_double fl wcet_ms) (ms2ns_double fl period_ms) in
      let param : ℤ → RtTask =
        spin_param k fl clocks scan o (ms2ns_double fl wcet_ms) (ms2ns_double fl period_ms) in
      let run : M ℤ = spin_run k fl clocks scan o rounds xs wcet_ms duration in
      let next : ℤ → M ℤ = λ ret. (if is_neg ret then bail_out else pure tt) >> run in
      let set : ℤ → ℤ → M ℤ = λ cpu me. set_rt_task_param k me (param cpu) >>= next in
      let own : ℤ → M ℤ = λ cpu. gettid k >>= set cpu in
      Runs-if k bad usage (spin_migrate k fl clocks scan o >> (spin_cpu k fl clocks scan o >>= own))
        (λ _. Runs-exit k (pos 1))
        λ good.
          Runs-after k (spin_migrate k fl clocks scan o) (λ _. spin_cpu k fl clocks scan o >>= own)
            (spin_migrate-Keeps (phase_of k) (phase_of-IsBlind k) k fl clocks scan o)
            λ _.
              Runs-after k (spin_cpu k fl clocks scan o) own
                (spin_cpu-Keeps (phase_of k) (phase_of-IsBlind k) k fl clocks scan o)
                λ cpu.
                  Runs-after k (gettid k) (set cpu)
                    (gettid-Keeps (phase_of k) (phase_of-IsBlind k) k)
                    λ me. Runs-event k (Call.set_rt_task_param me (param cpu)) next refl λ a. (
                      (if is_neg a then Phase.background else Phase.configured),
                      rw
                          (has_budget-spin o (ms2ns_double fl wcet_ms) (ms2ns_double fl period_ms)
                            cpu good)
                          refl,
                      elim (Bool-cases (is_neg a)) [
                        | inl failed ↦ rw failed (λ s e. Ends.exits e)
                        | inr set' ↦ rw set' (spin_run-Runs o rounds xs wcet_ms duration)
                      ],
                    )
