-- ===== src/Tools/LaunchExec.antt =====
-- bin/rt_launch.c on a kernel that cooperates, from main to its last call.
use adaptive_liblitmus.Base.{◌≡◌, List, ◌∷◌, some, if◌then◌else◌}
use adaptive_liblitmus.Base.Int.{ℤ, pos, is_zero}
use adaptive_liblitmus.Base.Chars.{Bytes}
use adaptive_liblitmus.Kernel.{Kernel, Call, Log, M, Outcome, RtTask, State, ◌>>◌, pure, call}
use adaptive_liblitmus.Syscalls.{wait_for_ts_release}
use adaptive_liblitmus.Litmus.Mode.{background_task}
use adaptive_liblitmus.Litmus.ModeLaws.{mode_of}
use adaptive_liblitmus.Lifecycle.Phase.{Phase, phase_of}
use adaptive_liblitmus.Tools.BaseTaskLaws.{Cooperates}
use adaptive_liblitmus.Tools.Common.{Double, bail_out}
use adaptive_liblitmus.Tools.Params.{params}
use adaptive_liblitmus.Tools.Launch.{Options, launch_verbose, launch_wait}

-- A kernel that accepts task parameters and the change of the policy, and on which the release that
-- a task waits for comes.
pub record Welcomes (k : Kernel) : Type 0 where
  pub cooperates : Cooperates k
  pub releases : (l : Log) → k.answer l Call.wait_for_ts_release ≡ pos 0

-- A real-time task that has set the parameters ps, the newest first.
abbrev pub IsRunning : Kernel → List RtTask → Log → Type 0
IsRunning k ps l = (phase_of k l ≡ some Phase.real_time) × (params l ≡ ps)

-- The last call executes the program, as such a task.
abbrev pub HasExecuted :
    {A : Type 0} → Kernel → List Bytes → List RtTask → Outcome A × State → Type 0
HasExecuted k program ps r = (l : Log) × (r.1.log ≡ Call.exec program ∷ l) × IsRunning k ps l

module _ {D : Type 0} (k : Kernel) (w : Welcomes k) (fl : Double D) (o : Options D)
    (program : List Bytes) where
  abbrev last : M ℤ
  last = call k (Call.exec program) >> pure (pos 1)

  -- With the policy of a background task, in a phase.
  abbrev IsAt : Phase → List RtTask → Log → Type 0
  IsAt q ps l =
      (phase_of k l ≡ some q)
      × (mode_of (w.cooperates.permits.policy l) ≡ background_task)
      × (params l ≡ ps)

  abbrev check : ℤ → M (Unit {0})
  check ret = if is_zero ret then pure tt else bail_out

  abbrev running : M ℤ
  running = launch_verbose k fl o >> (launch_wait k fl o >> last)
