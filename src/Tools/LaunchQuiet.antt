-- ===== src/Tools/LaunchQuiet.antt =====
-- The parts of bin/rt_launch.c that take no part in the life of a task.
use adaptive_liblitmus.Base.{refl, List, [], ◌∷◌, arith, if◌then◌else◌}
use adaptive_liblitmus.Base.Int.{ℤ, pos, is_neg}
use adaptive_liblitmus.Kernel.{Kernel, Log, M, ◌>>=◌, ◌>>◌, pure}
use adaptive_liblitmus.Syscalls.{gettid}
use adaptive_liblitmus.Migration.Domains.{be_migrate_to_domain, domain_to_first_cpu}
use adaptive_liblitmus.Tools.Common.{Double, Opt, bail_out}
use adaptive_liblitmus.Lifecycle.Events.{IsBlind}
use adaptive_liblitmus.Lifecycle.Quiet.{Keeps, Keeps-bind, Keeps-if}
use adaptive_liblitmus.Lifecycle.Library.{
  gettid-Keeps, be_migrate_to_domain-Keeps, domain_to_first_cpu-Keeps,
}
use adaptive_liblitmus.Tools.Launch.{
  Options, launch_option, launch_options, launch_cpu, launch_migrate, launch_verbose,
}

module _ {D B : Type 0} (obs : Log → B) (blind : IsBlind obs) (k : Kernel) (fl : Double D) where
  pub launch_option-Keeps : (opt : Opt) (o : Options D) → Keeps obs (launch_option k fl opt o)
  unfolding launch_option
  launch_option-Keeps opt o s = ground arith

  pub launch_options-Keeps :
      (opts : List Opt) (o : Options D) → Keeps obs (launch_options k fl opts o)
  unfolding launch_options
  launch_options-Keeps [] o = λ s. refl
  launch_options-Keeps (opt ∷ opts) o =
      Keeps-bind obs (launch_option k fl opt o) (launch_options k fl opts)
        (launch_option-Keeps opt o) (launch_options-Keeps opts)

  pub launch_cpu-Keeps : (o : Options D) → Keeps obs (launch_cpu k fl o)
  unfolding launch_cpu
  launch_cpu-Keeps o =
      Keeps-if obs o.migrate
        (if is_neg o.reservation then domain_to_first_cpu k o.cluster else pure o.reservation)
        (pure (pos 0))
        (Keeps-if obs (is_neg o.reservation) (domain_to_first_cpu k o.cluster) (pure o.reservation)
          (domain_to_first_cpu-Keeps obs blind k o.cluster) (λ s. refl))
        (λ s. refl)

  pub launch_migrate-Keeps : (o : Options D) → Keeps obs (launch_migrate k fl o)
  unfolding launch_migrate bail_out
  launch_migrate-Keeps o =
      let rest : ℤ → M (Unit {0}) = λ ret. if is_neg ret then bail_out else pure tt in
      Keeps-if obs o.migrate (be_migrate_to_domain k o.cluster >>= rest) (pure tt)
        (Keeps-bind obs (be_migrate_to_domain k o.cluster) rest
          (be_migrate_to_domain-Keeps obs blind k o.cluster)
          λ ret. Keeps-if obs (is_neg ret) bail_out (pure tt) (λ s. refl) (λ s. refl))
        (λ s. refl)

  pub launch_verbose-Keeps : (o : Options D) → Keeps obs (launch_verbose k fl o)
  unfolding launch_verbose
  launch_verbose-Keeps o =
      Keeps-if obs o.verbose (gettid k >> pure tt) (pure tt)
        (Keeps-bind obs (gettid k) (λ _. pure tt) (gettid-Keeps obs blind k) (λ _ s. refl))
        (λ s. refl)
