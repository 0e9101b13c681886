-- ===== src/Tools/LaunchPhases.antt =====
-- bin/rt_launch.c keeps to the life cycle of a real-time task.
use adaptive_liblitmus.Base.{
  ℕ, ◌==◌, ◌≡◌, refl, inl, inr, Bool-cases, true, false, List, [], ◌∷◌, ltb, some, drop,
  if◌then◌else◌,
}
use adaptive_liblitmus.Base.Int.{ℤ, pos, is_neg, is_zero}
use adaptive_liblitmus.Base.Chars.{Bytes}
use adaptive_liblitmus.Kernel.{Kernel, Call, M, State, ◌>>=◌, ◌>>◌, pure, call}
use adaptive_liblitmus.Syscalls.{gettid, set_rt_task_param, wait_for_ts_release}
use adaptive_liblitmus.Litmus.Sporadic.{init_litmus}
use adaptive_liblitmus.Litmus.Mode.{task_mode, litmus_rt_task}
use adaptive_liblitmus.Lifecycle.Quiet.{Keeps-call}
use adaptive_liblitmus.Lifecycle.Library.{init_litmus-Keeps, gettid-Keeps}
use adaptive_liblitmus.Lifecycle.Phase.{Phase, has_budget, phase_of, phase_of-IsBlind}
use adaptive_liblitmus.Lifecycle.Runs.{
  Ends, Runs, Runs-bind, Runs-after, Runs-event, Runs-if, Runs-pure, Runs-exit,
}
use adaptive_liblitmus.Lifecycle.Switch.{task_mode-start}
use adaptive_liblitmus.Tools.Common.{Double, ms2ns_double, Opt, bail_out, usage}
use adaptive_liblitmus.Tools.Launch.{
  Options, launch_options, default_options, launch_param, launch_cpu, launch_migrate,
  launch_verbose, launch_wait, launch_run, launch_checked, launch_task, launch_args, launch_main,
}
use adaptive_liblitmus.Tools.LaunchQuiet.{
  launch_options-Keeps, launch_cpu-Keeps, launch_migrate-Keeps, launch_verbose-Keeps,
}

-- The caller goes on with 1 although it has called execvp in real-time mode.
abbrev HasCalled : List Bytes → ℤ → Phase → Type 0
HasCalled program ret q = (ret ≡ pos 1) × (q ≡ Phase.executed program)

-- main returns 1, and only after execvp: of the program that stands behind the first two arguments,
-- with its own arguments, which has not taken the place of the launcher.
abbrev pub Returned : List Bytes → ℤ → Phase → Type 0
Returned args = HasCalled (drop 2 args)

module _ {D : Type 0} (k : Kernel) (fl : Double D) where
  launch_wait-Runs :
      (o : Options D) → Runs k Phase.real_time (launch_wait k fl o) (λ _ q. q ≡ Phase.real_time)
  unfolding launch_wait wait_for_ts_release bail_out
  launch_wait-Runs o =
      let check : ℤ → M (Unit {0}) = λ ret. if is_zero ret then pure tt else bail_out in
      Runs-if k o.wait (call k Call.wait_for_ts_release >>= check) (pure tt)
        (λ _. Runs-event k Call.wait_for_ts_release check refl λ a. (
          Phase.real_time,
          refl,
          Runs-if k (is_zero a) (pure tt) bail_out (λ _. Runs-pure k tt refl)
              (λ _ s e. Ends.exits e),
        ))
        (λ _. Runs-pure k tt refl)

  -- What follows the transition to real-time mode, with its result.
  started-Runs :
      (o : Options D) (program : List Bytes) (ret : ℤ) (q : Phase)
      → (is_zero ret ≡ true → q ≡ Phase.real_time)
      → Runs k q
          ((if is_zero ret then pure tt else bail_out)
            >> (launch_verbose k fl o
                >> (launch_wait k fl o >> (call k (Call.exec program) >> pure (pos 1)))))
          (HasCalled program)
  unfolding bail_out
  started-Runs o program ret q h = elim (Bool-cases (is_zero ret)) [
    | inl ok ↦ rw (ok, h ok) (running)
    | inr failed ↦ rw failed (λ s e. Ends.exits e)
  ]
    where
      last : M ℤ
      last = call k (Call.exec program) >> pure (pos 1)

      running :
          Runs k Phase.real_time
            (launch_verbose k fl o >> (launch_wait k fl o >> last))
            (HasCalled program)
      running =
          Runs-after k (launch_verbose k fl o) (λ _. launch_wait k fl o >> last)
            (launch_verbose-Keeps (phase_of k) (phase_of-IsBlind k) k fl o)
            λ _.
              Runs-bind k (λ _ p. p ≡ Phase.real_time) (launch_wait k fl o) (λ _. last)
                (launch_wait-Runs o)
                λ _ p same. rw same (
                  Runs-event k (Call.exec program) (λ _. pure (pos 1)) refl
                    (λ a. (Phase.executed program, refl, Runs-pure k (pos 1) (refl, refl))))

  launch_run-Runs :
      (o : Options D) (program : List Bytes)
      → Runs k Phase.configured (launch_run k fl o program) (HasCalled program)
  unfolding launch_run
  launch_run-Runs o program =
      let last : M ℤ = call k (Call.exec program) >> pure (pos 1) in
      let rest : ℤ → M ℤ = λ ret.
        (if is_zero ret then pure tt else bail_out)
        >> (launch_verbose k fl o >> (launch_wait k fl o >> last)) in
      Runs-after k (init_litmus k) (λ _. task_mode k litmus_rt_task >>= rest)
        (init_litmus-Keeps (phase_of k) (phase_of-IsBlind k) k)
        λ _.
          Runs-bind k (λ ret q. is_zero ret ≡ true → q ≡ Phase.real_time)
            (task_mode k litmus_rt_task) rest (task_mode-start k) (started-Runs o program)

  pub has_budget-launch :
      (o : Options D) (wcet period : ℕ) (cpu : ℤ)
      → (wcet == 0) ≡ false
      → (period == 0) ≡ false
      → has_budget (launch_param k fl o wcet period cpu) ≡ true
  unfolding launch_param
  has_budget-launch o wcet period cpu e e' = rw (e, e') refl

  launch_checked-Runs :
      (o : Options D) (wcet period : ℕ) (program : List Bytes)
      → (wcet == 0) ≡ false
      → (period == 0) ≡ false
      → Runs k Phase.background (launch_checked k fl o wcet period program) (HasCalled program)
  unfolding launch_checked bail_out set_rt_task_param
  launch_checked-Runs o wcet period program e e' =
      let next : ℤ → M ℤ =
        λ ret. (if is_neg ret then bail_out else pure tt) >> launch_run k fl o program in
      let set : ℤ → ℤ → M ℤ =
        λ cpu me. set_rt_task_param k me (launch_param k fl o wcet period cpu) >>= next in
      let own : ℤ → M ℤ = λ cpu. gettid k >>= set cpu in
      Runs-after k (launch_migrate k fl o) (λ _. launch_cpu k fl o >>= own)
        (launch_migrate-Keeps (phase_of k) (phase_of-IsBlind k) k fl o)
        λ _.
          Runs-after k (launch_cpu k fl o) own
            (launch_cpu-Keeps (phase_of k) (phase_of-IsBlind k) k fl o)
            λ cpu.
              Runs-after k (gettid k) (set cpu) (gettid-Keeps (phase_of k) (phase_of-IsBlind k) k)
                λ me.
                  Runs-event k (Call.set_rt_task_param me (launch_param k fl o wcet period cpu))
                    next refl
                    λ a. (
                      (if is_neg a then Phase.background else Phase.configured),
                      rw (has_budget-launch o wcet period cpu e e') refl,
                      elim (Bool-cases (is_neg a)) [
                        | inl failed ↦ rw failed (λ s e. Ends.exits e)
                        | inr set ↦ rw set (launch_run-Runs o program)
                      ],
                    )

  launch_task-Runs :
      (o : Options D) (wcet period : ℕ) (program : List Bytes)
      → Runs k Phase.background (launch_task k fl o wcet period program) (HasCalled program)
  unfolding launch_task
  launch_task-Runs o wcet period program =
      Runs-if k (wcet == 0) usage
        (if period == 0
          then usage
          else if ltb period wcet
          then usage
          else launch_checked k fl o wcet period program)
        (λ _. Runs-exit k (pos 1))
        λ e.
          Runs-if k (period == 0) usage
            (if ltb period wcet then usage else launch_checked k fl o wcet period program)
            (λ _. Runs-exit k (pos 1))
            λ e'.
              Runs-if k (ltb period wcet) usage (launch_checked k fl o wcet period program)
                (λ _. Runs-exit k (pos 1)) (λ _. launch_checked-Runs o wcet period program e e')

  launch_args-Runs :
      (o : Options D) (args : List Bytes)
      → Runs k Phase.background (launch_args k fl o args) (Returned args)
  unfolding launch_args
  launch_args-Runs o [] = Runs-exit k (pos 1)
  launch_args-Runs o (w ∷ []) = Runs-exit k (pos 1)
  launch_args-Runs o (w ∷ p ∷ []) = Runs-exit k (pos 1)
  launch_args-Runs o (w ∷ p ∷ program ∷ args) =
      launch_task-Runs o (ms2ns_double fl (fl.of_text w)) (ms2ns_double fl (fl.of_text p))
        (program ∷ args)

  -- Started in the background, the launcher keeps to the life cycle, whatever its options and
  -- arguments are and the kernel answers: each of its system calls is in its place, the parameters
  -- that it sets have a budget and a period, and where main returns it returns 1, after execvp was
  -- called, as a real-time task, on what follows the first two arguments.
  pub launch_main-phases :
      (opts : List Opt) (args : List Bytes) (s : State)
      → phase_of k s.log ≡ some Phase.background
      → Ends k (Returned args) (launch_main k fl opts args s)
  unfolding launch_main
  launch_main-phases opts args =
      let run : Options D → M ℤ = λ o. call k Call.ignore_signal >> launch_args k fl o args in
      Runs-after k (launch_options k fl opts (default_options k fl)) run
        (launch_options-Keeps (phase_of k) (phase_of-IsBlind k) k fl opts (default_options k fl))
        λ o.
          Runs-after k (call k Call.ignore_signal) (λ _. launch_args k fl o args)
            (Keeps-call (phase_of k) k Call.ignore_signal (phase_of-IsBlind k) refl)
            (λ _. launch_args-Runs o args)
