-- ===== src/Tools/LaunchSafe.antt =====
-- bin/rt_launch.c without faults, from its parts to main.
use adaptive_liblitmus.Base.{ℕ, ◌≡◌, List, [], ◌∷◌}
use adaptive_liblitmus.Base.Chars.{Bytes}
use adaptive_liblitmus.Kernel.{Kernel, Log, Outcome, State}
use adaptive_liblitmus.Syscalls.{set_rt_task_param, wait_for_ts_release}
use adaptive_liblitmus.Finishing.{Finishes-ne-fault, IsStable, Safe, safe_rules}
use adaptive_liblitmus.Finishing.Library.{
  bail_out-Safe, gettid-Safe, be_migrate_to_domain-Safe, domain_to_first_cpu-Safe, task_mode-Safe,
  init_litmus-Safe,
}
use adaptive_liblitmus.Tools.Common.{Double, Opt}
use adaptive_liblitmus.Tools.Launch.{
  Options, launch_option, launch_options, launch_cpu, launch_migrate, launch_verbose, launch_wait,
  launch_run, launch_checked, launch_task, launch_args, launch_main,
}

module _ {D : Type 0} {I : Log → Type 0} (stable : IsStable I) (k : Kernel) (fl : Double D) where
  launch_option-Safe : (opt : Opt) (o : Options D) → Safe I (launch_option k fl opt o)
  unfolding launch_option
  launch_option-Safe opt o = search safe_rules depth 16

  launch_options-Safe : (opts : List Opt) (o : Options D) → Safe I (launch_options k fl opts o)
  unfolding launch_options
  launch_options-Safe [] o = search safe_rules
  launch_options-Safe (opt ∷ opts) o =
      search (safe_rules, launch_option-Safe, launch_options-Safe opts)

  launch_cpu-Safe : (o : Options D) → Safe I (launch_cpu k fl o)
  unfolding launch_cpu
  launch_cpu-Safe o = search (safe_rules, domain_to_first_cpu-Safe stable)

  launch_migrate-Safe : (o : Options D) → Safe I (launch_migrate k fl o)
  unfolding launch_migrate
  launch_migrate-Safe o = search (safe_rules, bail_out-Safe, be_migrate_to_domain-Safe stable)

  launch_wait-Safe : (o : Options D) → Safe I (launch_wait k fl o)
  unfolding launch_wait wait_for_ts_release
  launch_wait-Safe o = search (safe_rules, bail_out-Safe, stable)

  launch_verbose-Safe : (o : Options D) → Safe I (launch_verbose k fl o)
  unfolding launch_verbose
  launch_verbose-Safe o = search (safe_rules, gettid-Safe stable)

  launch_run-Safe : (o : Options D) (program : List Bytes) → Safe I (launch_run k fl o program)
  unfolding launch_run
  launch_run-Safe o program =
      search
        (
          safe_rules,
          bail_out-Safe,
          stable,
          init_litmus-Safe stable,
          task_mode-Safe stable,
          launch_verbose-Safe,
          launch_wait-Safe,
        )
        depth 12

  launch_checked-Safe :
      (o : Options D) (wcet period : ℕ) (program : List Bytes)
      → Safe I (launch_checked k fl o wcet period program)
  unfolding launch_checked set_rt_task_param
  launch_checked-Safe o wcet period program =
      search
        (
          safe_rules,
          bail_out-Safe,
          stable,
          launch_migrate-Safe,
          launch_cpu-Safe,
          gettid-Safe stable,
          launch_run-Safe,
        )
        depth 12

  launch_task-Safe :
      (o : Options D) (wcet period : ℕ) (program : List Bytes)
      → Safe I (launch_task k fl o wcet period program)
  unfolding launch_task
  launch_task-Safe o wcet period program = search (safe_rules, launch_checked-Safe)

  launch_args-Safe : (o : Options D) (args : List Bytes) → Safe I (launch_args k fl o args)
  unfolding launch_args
  launch_args-Safe o [] = search safe_rules
  launch_args-Safe o (w ∷ []) = search safe_rules
  launch_args-Safe o (w ∷ p ∷ []) = search safe_rules
  launch_args-Safe o (w ∷ p ∷ program ∷ args) = search launch_task-Safe

  pub launch_main-Safe : (opts : List Opt) (args : List Bytes) → Safe I (launch_main k fl opts args)
  unfolding launch_main
  launch_main-Safe opts args = search (safe_rules, stable, launch_options-Safe, launch_args-Safe)

-- Whatever options and arguments the launcher gets, whatever the kernel answers and whatever stands
-- in the files that it reads, the launcher comes to an end, by exit or by returning from main: no
-- loop of the library runs out of the rounds that it is given, and no text of a mask is too long
-- or malformed for it.
pub launch_main-ends :
    {D : Type 0} (k : Kernel) (fl : Double D) (opts : List Opt) (args : List Bytes) (s : State)
    → ¬ ((launch_main k fl opts args s).0 ≡ Outcome.fault)
launch_main-ends k fl opts args s =
    Finishes-ne-fault (λ _ _. Unit {0})
      ((launch_main-Safe {I = λ _. Unit {0}} (λ c l h. tt) k fl opts args).run s tt)
