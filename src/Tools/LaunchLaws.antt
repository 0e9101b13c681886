-- ===== src/Tools/LaunchLaws.antt =====
-- bin/rt_launch.c: which parameters the launcher sets.
use adaptive_liblitmus.Base.{
  ℕ, ◌==◌, ◌≤◌, ◌≡◌, refl, ◌⊎◌, inl, List, [], ◌∷◌, arith, ltb, if◌then◌else◌,
}
use adaptive_liblitmus.Base.Int.{ℤ, pos, is_neg, is_zero}
use adaptive_liblitmus.Base.Chars.{Bytes}
use adaptive_liblitmus.Kernel.{Kernel, RtTask, Call, M, State, ◌>>=◌, ◌>>◌, pure, call}
use adaptive_liblitmus.Syscalls.{gettid, set_rt_task_param, wait_for_ts_release}
use adaptive_liblitmus.Litmus.Sporadic.{init_litmus}
use adaptive_liblitmus.Litmus.Mode.{task_mode, litmus_rt_task}
use adaptive_liblitmus.Tools.Common.{Double, ms2ns_double, Opt, bail_out, usage}
use adaptive_liblitmus.Tools.Params.{
  params, params-IsBlind, Adds, Adds-bind, Adds-set, if-Adds, task_mode-Keeps,
}
use adaptive_liblitmus.Lifecycle.Quiet.{Keeps, Keeps-bind, Keeps-if}
use adaptive_liblitmus.Lifecycle.Library.{init_litmus-Keeps}
use adaptive_liblitmus.Tools.LaunchQuiet.{
  launch_options-Keeps, launch_cpu-Keeps, launch_migrate-Keeps, launch_verbose-Keeps,
}
use adaptive_liblitmus.Tools.Launch.{
  Options, launch_options, default_options, launch_param, launch_cpu, launch_migrate,
  launch_verbose, launch_wait, launch_run, launch_checked, launch_task, launch_args, launch_main,
}

-- A budget that is not zero and fits into the period.
abbrev pub IsAdmitted : RtTask → Type 0
IsAdmitted p = (1 ≤ p.exec_cost) × (p.exec_cost ≤ p.period)

module _ {D : Type 0} (k : Kernel) (fl : Double D) where
  launch_wait-Keeps : (o : Options D) → Keeps params (launch_wait k fl o)
  unfolding launch_wait wait_for_ts_release bail_out call
  launch_wait-Keeps o s = ground arith

  launch_run-Keeps :
      (o : Options D) (program : List Bytes) → Keeps params (launch_run k fl o program)
  unfolding launch_run bail_out call
  launch_run-Keeps o program =
      let last : M ℤ = call k (Call.exec program) >> pure (pos 1) in
      let waiting : M ℤ = launch_wait k fl o >> last in
      let running : M ℤ = launch_verbose k fl o >> waiting in
      let check : ℤ → M (Unit {0}) = λ ret. if is_zero ret then pure tt else bail_out in
      let mode : M ℤ = task_mode k litmus_rt_task >>= λ ret. check ret >> running in
      Keeps-bind params (init_litmus k) (λ _. mode) (init_litmus-Keeps params params-IsBlind k)
        λ _.
          Keeps-bind params (task_mode k litmus_rt_task) (λ ret. check ret >> running)
            (task_mode-Keeps k litmus_rt_task)
            λ ret.
              Keeps-bind params (check ret) (λ _. running)
                (Keeps-if params (is_zero ret) (pure tt) bail_out (λ s. refl) (λ s. refl))
                λ _.
                  Keeps-bind params (launch_verbose k fl o) (λ _. waiting)
                    (launch_verbose-Keeps params params-IsBlind k fl o)
                    λ _.
                      Keeps-bind params (launch_wait k fl o) (λ _. last) (launch_wait-Keeps o)
                        (λ _ s. refl)

  admitted :
      (o : Options D) (wcet period : ℕ) (cpu : ℤ)
      → 1 ≤ wcet
      → wcet ≤ period
      → IsAdmitted (launch_param k fl o wcet period cpu)
  unfolding launch_param
  admitted o wcet period cpu h h' = (h, h')

  launch_checked-Adds :
      (o : Options D) (wcet period : ℕ) (program : List Bytes)
      → 1 ≤ wcet
      → wcet ≤ period
      → Adds IsAdmitted (launch_checked k fl o wcet period program)
  unfolding launch_checked bail_out gettid set_rt_task_param call
  launch_checked-Adds o wcet period program h h' =
      let check : ℤ → M (Unit {0}) = λ ret. if is_neg ret then bail_out else pure tt in
      let next : ℤ → M ℤ = λ ret. check ret >> launch_run k fl o program in
      let set : ℤ → ℤ → M ℤ =
        λ cpu me. set_rt_task_param k me (launch_param k fl o wcet period cpu) >>= next in
      let own : ℤ → M ℤ = λ cpu. gettid k >>= set cpu in
      let place : M ℤ = launch_cpu k fl o >>= own in
      let next-Keeps : (ret : ℤ) → Keeps params (next ret) = λ ret.
        Keeps-bind params (check ret) (λ _. launch_run k fl o program)
          (Keeps-if params (is_neg ret) bail_out (pure tt) (λ s. refl) (λ s. refl))
          (λ _. launch_run-Keeps o program) in
      Adds-bind IsAdmitted (launch_migrate k fl o) (λ _. place)
        (launch_migrate-Keeps params params-IsBlind k fl o)
        λ _.
          Adds-bind IsAdmitted (launch_cpu k fl o) own
            (launch_cpu-Keeps params params-IsBlind k fl o)
            λ cpu.
              Adds-bind IsAdmitted (gettid k) (set cpu) (λ s. refl)
                λ me.
                  Adds-set IsAdmitted k me (launch_param k fl o wcet period cpu) next
                    (admitted o wcet period cpu h h') next-Keeps

  launch_task-Adds :
      (o : Options D) (wcet period : ℕ) (program : List Bytes)
      → Adds IsAdmitted (launch_task k fl o wcet period program)
  unfolding launch_task
  launch_task-Adds o wcet period program =
      if-Adds IsAdmitted (wcet == 0) usage
        (if period == 0
          then usage
          else if ltb period wcet
          then usage
          else launch_checked k fl o wcet period program)
        (λ s. refl)
        λ e.
          if-Adds IsAdmitted (period == 0) usage
            (if ltb period wcet then usage else launch_checked k fl o wcet period program)
            (λ s. refl)
            λ e'.
              if-Adds IsAdmitted (ltb period wcet) usage (launch_checked k fl o wcet period program)
                (λ s. refl)
                λ e''. launch_checked-Adds o wcet period program (ground arith) (ground arith)

  launch_args-Adds : (o : Options D) (args : List Bytes) → Adds IsAdmitted (launch_args k fl o args)
  unfolding launch_args
  launch_args-Adds o [] = λ s. inl refl
  launch_args-Adds o (w ∷ []) = λ s. inl refl
  launch_args-Adds o (w ∷ p ∷ []) = λ s. inl refl
  launch_args-Adds o (w ∷ p ∷ program ∷ args) =
      launch_task-Adds o (ms2ns_double fl (fl.of_text w)) (ms2ns_double fl (fl.of_text p))
        (program ∷ args)

  -- Whatever options and arguments the launcher gets and whatever the kernel answers, the launcher
  -- sets task parameters at most once, and then with a budget that is not zero and is no longer
  -- than the period.
  pub launch_main-admits :
      (opts : List Opt) (args : List Bytes) (s : State)
      → (params (launch_main k fl opts args s).1.log ≡ params s.log)
        ⊎ ((p : RtTask) × (params (launch_main k fl opts args s).1.log ≡ p ∷ params s.log)
            × IsAdmitted p)
  unfolding launch_main call
  launch_main-admits opts args =
      let run : Options D → M ℤ = λ o. call k Call.ignore_signal >> launch_args k fl o args in
      Adds-bind IsAdmitted (launch_options k fl opts (default_options k fl)) run
        (launch_options-Keeps params params-IsBlind k fl opts (default_options k fl))
        λ o.
          Adds-bind IsAdmitted (call k Call.ignore_signal) (λ _. launch_args k fl o args)
            (λ s. refl) (λ _. launch_args-Adds o args)
