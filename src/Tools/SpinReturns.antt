-- ===== src/Tools/SpinReturns.antt =====
-- bin/rtspin.c on a kernel that cooperates, from its task parameters on.
use adaptive_liblitmus.Base.{
  List, ℕ, ◌<◌, ◌≤◌, ◌==◌, ◌≡◌, refl, ap, ◌∙◌, Bool, true, false, [], ◌∷◌, arith, ltb, Option, none,
  some, if◌then◌else◌,
}
use adaptive_liblitmus.Base.Int.{ℤ, pos, minus_one, is_neg, is_zero}
use adaptive_liblitmus.Base.Chars.{Bytes}
use adaptive_liblitmus.Kernel.{
  Kernel, Call, Log, M, Outcome, RtTask, State, ◌>>=◌, ◌>>◌, pure, continue-value_at, call,
}
use adaptive_liblitmus.Syscalls.{gettid, set_rt_task_param, wait_for_ts_release}
use adaptive_liblitmus.Litmus.Sporadic.{init_litmus}
use adaptive_liblitmus.Litmus.Mode.{task_mode, litmus_rt_task, background_task}
use adaptive_liblitmus.Litmus.ModeMachine.{request, task_mode-request}
use adaptive_liblitmus.Litmus.ModeLaws.{mode_of}
use adaptive_liblitmus.Lifecycle.Library.{init_litmus-Keeps}
use adaptive_liblitmus.Lifecycle.Returning.{init_litmus-Returns}
use adaptive_liblitmus.Finishing.{Finishes-at, Finishes-ne-fault}
use adaptive_liblitmus.Finishing.Library.{task_mode-Safe}
use adaptive_liblitmus.Tools.Common.{Double, ms2ns_double, bail_out}
use adaptive_liblitmus.Tools.ExecTimes.{Scanner}
use adaptive_liblitmus.Tools.LaunchExec.{Welcomes}
use adaptive_liblitmus.Tools.Spin.{Clocks, SpinOptions, read_clock}
use adaptive_liblitmus.Tools.SpinMain.{
  spin_param, spin_migrate, spin_cpu, spin_lock, file_jobs, periodic_jobs, spin_run, is_bad,
  spin_task,
}
use adaptive_liblitmus.Tools.Params.{params, params-IsBlind, task_mode-Keeps}
use adaptive_liblitmus.Tools.SpinTime.{readings}
use adaptive_liblitmus.Tools.SpinEnds.{AtLeast, AtLeast-IsStable}
use adaptive_liblitmus.Tools.SpinFinish.{Expires, Begun, jobs-Finishes}
use adaptive_liblitmus.Tools.SpinSteady.{sets_up, IsQuiet, Stays-value, periodic_jobs-Steady}

-- A kernel that moreover changes the policy only when asked to.
pub record Obliges (k : Kernel) : Type 0 where
  pub welcomes : Welcomes k
  pub open welcomes use *
  pub unchanged :
      (c : Call) (l : Log)
      → sets_up c ≡ false
      → welcomes.cooperates.permits.policy (c ∷ l) ≡ welcomes.cooperates.permits.policy l

-- Neither a lock, a file nor a cluster is asked for.
abbrev pub IsSimple : {D : Type 0} → SpinOptions D → Type 0
IsSimple o =
    (is_neg o.protocol ≡ true) × (o.file ≡ none) × (o.migrate ≡ false) × (o.test_loop ≡ false)

-- The program has returned 0, and has set the parameters ps, the newest first.
abbrev pub Returns0 : List RtTask → Outcome ℤ × State → Type 0
Returns0 ps r = (r.0 ≡ Outcome.value (pos 0)) × (params r.1.log ≡ ps)

params-unchanged : (c : Call) (l : Log) → sets_up c ≡ false → params (c ∷ l) ≡ params l
params-unchanged (Call.set_rt_task_param pid p) l e = cc e
params-unchanged c l e = refl

module _ {D : Type 0} (k : Kernel) (w : Obliges k) (fl : Double D) (clocks : Clocks D)
    (scan : Scanner D) (ps : List RtTask) where
  -- The mode that the kernel holds for the thread, which has set the parameters ps.
  abbrev pub IsIn : ℤ → Log → Type 0
  IsIn mode l = (mode_of (w.welcomes.cooperates.permits.policy l) ≡ mode) × (params l ≡ ps)

  IsIn-IsQuiet : (mode : ℤ) → IsQuiet (IsIn mode)
  IsIn-IsQuiet mode c l e (h, set) =
      (ap mode_of (w.unchanged c l e) ∙ h, params-unchanged c l e ∙ set)

  -- A change from one mode to the other.
  switches :
      (from to : ℤ) (s : State)
      → (request from to ≡ (pos 0, to))
      → IsIn from s.log
      → ((task_mode k to s).0 ≡ Outcome.value (pos 0)) × IsIn to (task_mode k to s).1.log
  switches from to s may (at, set) =
      let (returns, moves) = task_mode-request k w.welcomes.cooperates.permits to s in
      let step : request (mode_of (w.welcomes.cooperates.permits.policy s.log)) to ≡ (pos 0, to) =
        rw at may in
      (
        returns ∙ ap (λ r. Outcome.value r.0) step,
        (moves ∙ ap (λ r. r.1) step, task_mode-Keeps k to s ∙ set),
      )

  abbrev check : ℤ → M (Unit {0})
  check ret = if is_zero ret then pure tt else bail_out

  abbrev stop : M ℤ
  stop = task_mode k background_task >>= λ ret'. check ret' >> pure (pos 0)

  stop-Returns0 : (s : State) → IsIn litmus_rt_task s.log → Returns0 ps (stop s)
  stop-Returns0 s at =
      let (leaves, left) = switches litmus_rt_task background_task s refl at in
      continue-value_at (λ ret'. check ret' >> pure (pos 0)) (task_mode k background_task s)
        (λ t. IsIn background_task t.log) (Returns0 ps) leaves left (λ t (idle, set). (refl, set))

  module _ (N rounds : ℕ) (duration : D) (expires : Expires k fl clocks scan N duration)
      (enough : N < rounds) (o : SpinOptions D) (simple : IsSimple o) (wcet_ms : D) where
    abbrev jobs : D → M (Unit {0})
    jobs begin =
        periodic_jobs k fl clocks scan o rounds rounds wcet_ms (fl.plus begin duration) minus_one

    jobs-Returns0 :
        (begin : D) (s : State)
        → Begun k fl clocks scan begin s.log
        → IsIn litmus_rt_task s.log
        → Returns0 ps ((jobs begin >> stop) s)
    jobs-Returns0 begin s begun at =
        let ends =
          jobs-Finishes k fl clocks scan N duration expires o rounds [] wcet_ms begin minus_one none
            s enough begun in
        let (u, returns, at') =
          Stays-value (IsIn litmus_rt_task)
            ((periodic_jobs-Steady (IsIn-IsQuiet litmus_rt_task) k fl clocks scan o rounds rounds
                wcet_ms (fl.plus begin duration) minus_one).run
              s at)
            (Finishes-ne-fault (λ _ _. Unit {0}) ends) in
        continue-value_at (λ _. stop) (jobs begin s) (λ t. IsIn litmus_rt_task t.log) (Returns0 ps)
          returns at' stop-Returns0

    abbrev begin_at : Bool → D → M D
    begin_at wait began =
        if wait
        then (wait_for_ts_release k >>= λ released.
            check released >> read_clock k fl clocks clocks.wctime)
        else pure began

    begins-Returns0 :
        (wait : Bool) (began : D) (s : State)
        → Begun k fl clocks scan began s.log
        → IsIn litmus_rt_task s.log
        → Returns0 ps ((begin_at wait began >>= λ begin. jobs begin >> stop) s)
    unfolding wait_for_ts_release call read_clock
    begins-Returns0 false began s begun at = jobs-Returns0 began s begun at
    begins-Returns0 true began s begun at =
        let released : Log = Call.wait_for_ts_release ∷ s.log in
        rw (w.welcomes.releases s.log) (
          jobs-Returns0 (clocks.wctime released) _ (released, refl, omega arith)
            (IsIn-IsQuiet litmus_rt_task Call.read_clock released refl
              (IsIn-IsQuiet litmus_rt_task Call.wait_for_ts_release s.log refl at)))

    abbrev work : ℤ → D → Option Bytes → M ℤ
    work od begin file =
        (elim file as (λ _. M (Unit {0})) [
          | none ↦
              periodic_jobs k fl clocks scan o rounds rounds wcet_ms (fl.plus begin duration) od
          | some f ↦ file_jobs k fl clocks scan o rounds (fl.plus begin duration) od []
        ])
        >> stop

    abbrev lock : D → M ℤ
    lock began = spin_lock k fl clocks scan o >>= λ od.
        begin_at o.wait began >>= λ begin. work od begin o.file

    lock-Returns0 :
        (began : D) (s : State)
        → Begun k fl clocks scan began s.log
        → IsIn litmus_rt_task s.log
        → Returns0 ps (lock began s)
    unfolding spin_lock
    lock-Returns0 began s begun at =
        simp (simple.0, simple.1) (begins-Returns0 o.wait began s begun at)

    run-Returns0 :
        (s : State)
        → IsIn background_task s.log
        → Returns0 ps (spin_run k fl clocks scan o rounds [] wcet_ms duration s)
    unfolding spin_run read_clock
    run-Returns0 s at =
        let (ret, returns) = init_litmus-Returns k s in
        continue-value_at
          (λ _. read_clock k fl clocks clocks.wctime >>= λ began.
            task_mode k litmus_rt_task >>= λ ret. check ret >> lock began)
          (init_litmus k s) (λ t. IsIn background_task t.log) (Returns0 ps) returns
          (
            ap mode_of (
                  init_litmus-Keeps w.welcomes.cooperates.permits.policy
                    w.welcomes.cooperates.unaffected k s)
                ∙ at.0,
            init_litmus-Keeps params params-IsBlind k s ∙ at.1,
          )
          λ t idle.
            let u : State = record t { log = Call.read_clock ∷ t.log } in
            let (enters, real_time) =
              switches background_task litmus_rt_task u refl
                (IsIn-IsQuiet background_task Call.read_clock t.log refl idle) in
            let later : AtLeast (readings t.log) (task_mode k litmus_rt_task u).1.log =
              Finishes-at (λ _. AtLeast (readings t.log))
                ((task_mode-Safe (AtLeast-IsStable (readings t.log)) k litmus_rt_task).run u
                  (omega arith))
                enters in
            continue-value_at (λ ret. check ret >> lock (clocks.wctime t.log))
              (task_mode k litmus_rt_task u)
              (λ v. Begun k fl clocks scan (clocks.wctime t.log) v.log × IsIn litmus_rt_task v.log)
              (Returns0 ps) enters ((t.log, refl, later), real_time)
              (λ v (begun, real). lock-Returns0 (clocks.wctime t.log) v begun real)

    pub task-Returns0 :
        (period_ms : D) (s : State)
        → 1 ≤ ms2ns_double fl wcet_ms
        → ms2ns_double fl wcet_ms ≤ ms2ns_double fl period_ms
        → mode_of (w.welcomes.cooperates.permits.policy s.log) ≡ background_task
        → (spin_param k fl clocks scan o
              (ms2ns_double fl wcet_ms)
              (ms2ns_double fl period_ms)
              (pos 0)
            ∷ params s.log)
          ≡ ps
        → Returns0 ps (spin_task k fl clocks scan o rounds [] wcet_ms period_ms duration s)
    unfolding spin_task is_bad spin_migrate spin_cpu gettid set_rt_task_param call
    task-Returns0 period_ms s h h' mode set =
        let me : ℤ = k.answer s.log Call.get_tid in
        let p : RtTask =
          spin_param k fl clocks scan o (ms2ns_double fl wcet_ms) (ms2ns_double fl period_ms)
            (pos 0) in
        let own : State = (call k Call.get_tid s).1 in
        let accepts : is_neg (k.answer own.log (Call.set_rt_task_param me p)) ≡ false =
          w.welcomes.cooperates.accepts own.log me p in
        let some_cost : (ms2ns_double fl wcet_ms == 0) ≡ false = ground arith in
        let some_period : (ms2ns_double fl period_ms == 0) ≡ false = ground arith in
        let fits : ltb (ms2ns_double fl period_ms) (ms2ns_double fl wcet_ms) ≡ false =
          ground arith in
        simp (some_cost, some_period, fits, simple.1, simple.2, accepts)
          (run-Returns0 (call k (Call.set_rt_task_param me p) own).1 (
            ap mode_of (
                  w.welcomes.cooperates.unaffected_set own.log me p
                  ∙ w.welcomes.cooperates.unaffected Call.get_tid s.log refl)
                ∙ mode,
            set,
          ))
