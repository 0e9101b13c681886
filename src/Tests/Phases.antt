-- ===== src/Tests/Phases.antt =====
-- Instances for the life cycle of a real-time task, and runs of programs through it.
use adaptive_liblitmus.Base.{
  ℕ, ◌≡◌, ◌+◌, ◌-◌, ◌*◌, ◌==◌, refl, All, [], ◌∷◌, List, arith, ltb, none,
}
use adaptive_liblitmus.Base.Int.{ℤ, pos, minus_one, pos_part}
use adaptive_liblitmus.Base.Chars.{Bytes, codes, atoi}
use adaptive_liblitmus.Kernel.{Kernel, Call, Log, Outcome, start}
use adaptive_liblitmus.Litmus.Mode.{background_task, litmus_rt_task}
use adaptive_liblitmus.Litmus.ModeMachine.{task_modes, Permits, mode_now, task_modes-requests}
use adaptive_liblitmus.Lifecycle.Runs.{Ends}
use adaptive_liblitmus.Lifecycle.Events.{IsBlind}
use adaptive_liblitmus.Tools.BaseTask.{base_main, base_mt_main}
use adaptive_liblitmus.Tools.ThreadsLaws.{started, joined, base_mt_main-joins}
use adaptive_liblitmus.Litmus.Sporadic.{init_litmus}
use adaptive_liblitmus.Tools.BaseTaskLaws.{HasDone, Cooperates, base_main-HasDone}
use adaptive_liblitmus.Tools.Common.{Double, Opt}
use adaptive_liblitmus.Tools.ExecTimes.{Scanner}
use adaptive_liblitmus.Tools.Spin.{Clocks, loop_for}
use adaptive_liblitmus.Tools.SpinMain.{spin_main}
use adaptive_liblitmus.Tools.SpinLife.{spin_main-phases}
use adaptive_liblitmus.Tools.SpinRun.{IsFinished}
use adaptive_liblitmus.Tools.SpinTime.{readings, Reaches, Spent, loop_for-ends}
use adaptive_liblitmus.Tools.Launch.{launch_main}
use adaptive_liblitmus.Tools.LaunchPhases.{Returned, launch_main-phases}
use adaptive_liblitmus.Tools.LaunchSafe.{launch_main-ends}
use adaptive_liblitmus.Tools.SpinEnds.{Ending}
use adaptive_liblitmus.Tools.SpinFinish.{Expires}
use adaptive_liblitmus.Tools.SpinTotal.{IsPlain, spin_main-ends}
use adaptive_liblitmus.Tests.Disk.{disk}
use adaptive_liblitmus.Tests.Tasks.{policy_after, one_thread, one_thread-KeepsPolicy, whole}

-- The same numbers without a sign, in which a time that is read grows by 1 with each reading.
abbrev pub ticking : Double ℕ
ticking = record {
  of_text = λ s. pos_part (atoi s);
  of_int = pos_part;
  milli = 0;
  plus = λ x y. x + y;
  minus = λ x y. x - y;
  times = λ x y. x * y;
  is_less = ltb;
  is_zero = λ x. x == 0;
  to_time = λ x. x;
}

abbrev pub ticks : Clocks ℕ
ticks = record { cputime = readings; wctime = readings; drand48 = λ l. 0 }

abbrev pub no_file : Scanner ℕ
no_file = record { number = λ s. none; skip_word = λ s. s; content = λ f. [] }

abbrev pub ls_args : List Bytes
ls_args = codes "10" ∷ codes "100" ∷ codes "ls" ∷ []

abbrev pub waiting : List Opt
waiting = (b'w', []) ∷ []

launch_main-phases_example :
    Ends (disk []) (Returned ls_args) (launch_main (disk []) whole waiting ls_args start)
launch_main-phases_example = launch_main-phases (disk []) whole waiting ls_args start refl

abbrev pub job_args : List Bytes
job_args = codes "1" ∷ codes "2" ∷ codes "6" ∷ []

-- With a lock for critical sections.
abbrev locking : List Opt
locking = (b'X', codes "FMLP") ∷ (b'L', codes "1") ∷ []

spin_main-phases_example :
    Ends (disk []) IsFinished (spin_main (disk []) ticking ticks no_file 20 locking job_args start)
spin_main-phases_example =
    spin_main-phases (disk []) ticking ticks no_file 20 locking job_args start refl

launch_main-ends_example : ¬ ((launch_main (disk []) whole waiting ls_args start).0 ≡ Outcome.fault)
launch_main-ends_example = launch_main-ends (disk []) whole waiting ls_args start

six : ticking.of_text (codes "6") ≡ 6
unfolding atoi
six = refl

-- Six ticks and two more.
six_seconds :
    (k : Kernel) (began : Log)
    → Ending k ticking ticks
        (readings began + 9)
        (ticking.plus (ticks.wctime began) (ticking.of_text (codes "6")))
six_seconds k began = record {
  is_over = λ l h. ground (arith, six, h);
  soon = record { is_set = ground (arith, six); is_past = λ l h. ground (arith, six, h) };
  later = record { is_set = ground (arith, six); is_past = λ l h. ground (arith, six, h) };
}

pub nine_readings : (k : Kernel) → Expires k ticking ticks no_file 9 (ticking.of_text (codes "6"))
nine_readings k = record { ending = six_seconds k }

locking-IsPlain : All IsPlain locking
locking-IsPlain = ((λ e. omega arith, λ e. omega arith), ((λ e. omega arith, λ e. omega arith), tt))

spin_main-ends_example :
    ¬ ((spin_main (disk []) ticking ticks no_file 20 locking job_args start).0 ≡ Outcome.fault)
spin_main-ends_example =
    spin_main-ends (disk []) ticking ticks no_file 9 20 locking (codes "1") (codes "2") (codes "6")
      [] start (nine_readings (disk [])) locking-IsPlain (omega arith)

five_ticks : Reaches (disk []) ticking ticks 5 5 0 []
five_ticks at log last r h = ground (arith, h)

loop_for-ends_example :
    ((loop_for (disk []) ticking ticks 5 5 0 start).0 ≡ Outcome.value tt)
    × Spent (disk []) ticking ticks 5 0 [] (loop_for (disk []) ticking ticks 5 5 0 start).1.log
loop_for-ends_example = loop_for-ends (disk []) ticking ticks 5 5 5 0 start five_ticks (omega arith)

abbrev one_thread-Permits : Permits one_thread
one_thread-Permits = record { keeps = one_thread-KeepsPolicy; permits = λ l p. refl }

-- Into real-time mode twice, to a mode that there is not, and back.
abbrev four_requests : List ℤ
four_requests = litmus_rt_task ∷ litmus_rt_task ∷ pos 7 ∷ background_task ∷ []

task_modes-requests_example :
    ((task_modes one_thread four_requests start).0
      ≡ Outcome.value (pos 0 ∷ minus_one ∷ minus_one ∷ pos 0 ∷ []))
    × (mode_now one_thread one_thread-Permits (task_modes one_thread four_requests start).1
        ≡ background_task)
task_modes-requests_example = task_modes-requests one_thread one_thread-Permits four_requests start

pub policy_after-IsBlind : IsBlind policy_after
policy_after-IsBlind (Call.set_scheduler pid p) l e = cc e
policy_after-IsBlind c l e = refl

abbrev pub one_thread-Cooperates : Cooperates one_thread
one_thread-Cooperates = record {
  permits = one_thread-Permits;
  accepts = λ l pid p. refl;
  unaffected = policy_after-IsBlind;
  unaffected_set = λ l pid p. refl;
}

base_main-HasDone_example : HasDone one_thread 3 (base_main one_thread 3 start)
base_main-HasDone_example = base_main-HasDone one_thread one_thread-Cooperates 3 start refl refl

base_mt_main-joins_example :
    ((base_mt_main one_thread start).0 ≡ Outcome.value (pos 0))
    × ((base_mt_main one_thread start).1.log
        ≡ joined 10 (started 10 (init_litmus one_thread start).1.log))
base_mt_main-joins_example = base_mt_main-joins one_thread start
