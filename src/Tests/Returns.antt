-- ===== src/Tests/Returns.antt =====
-- Runs of rt_launch and rtspin on a kernel that cooperates.
use adaptive_liblitmus.Base.{ℕ, ◌≡◌, refl, true, false, ◌∷◌}
use adaptive_liblitmus.Base.Int.{ℤ}
use adaptive_liblitmus.Kernel.{Call, Log}
use adaptive_liblitmus.Tools.Launch.{Options, default_options}
use adaptive_liblitmus.Tools.LaunchExec.{Welcomes}
use adaptive_liblitmus.Tests.Tasks.{policy_after, one_thread, whole}
use adaptive_liblitmus.Lifecycle.Phase.{Phase}
use adaptive_liblitmus.Tools.Spin.{SpinOptions, default_spin_options}
use adaptive_liblitmus.Tools.SpinSteady.{sets_up}
use adaptive_liblitmus.Tools.SpinReturns.{Obliges}
use adaptive_liblitmus.Tests.Phases.{ticking, ticks, one_thread-Cooperates}

abbrev one_thread-Welcomes : Welcomes one_thread
one_thread-Welcomes = record { cooperates = one_thread-Cooperates; releases = λ l. refl }

-- The options of -w.
abbrev waits : Options ℤ
waits = record (default_options one_thread whole) { wait = true }

pub policy_after-unchanged :
    (c : Call) (l : Log) → sets_up c ≡ false → policy_after (c ∷ l) ≡ policy_after l
policy_after-unchanged (Call.set_scheduler pid p) l e = cc e
policy_after-unchanged c l e = refl

abbrev one_thread-Obliges : Obliges one_thread
one_thread-Obliges = record { welcomes = one_thread-Welcomes; unchanged = policy_after-unchanged }

abbrev spins : SpinOptions ℕ
spins = record (default_spin_options one_thread ticking ticks) { wait = true }
