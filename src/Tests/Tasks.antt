-- ===== src/Tests/Tasks.antt =====
-- Runs and instances for locks, task modes and task parameters.
use adaptive_liblitmus.Base.{
  ℕ, ◌≤◌, ◌≡◌, refl, ◌⊎◌, inl, ◌*◌, [], ◌∷◌, arith, none, length, if◌then◌else◌,
}
use adaptive_liblitmus.Base.Int.{ℤ, pos, minus_one, ◌+ℤ◌, ◌-ℤ◌, pos_part, is_zero, ltb_ℤ, eqb_ℤ}
use adaptive_liblitmus.Base.Chars.{codes, atoi}
use adaptive_liblitmus.Kernel.{Kernel, Call, Log, RtTask, Outcome, start, call}
use adaptive_liblitmus.Kernel.Descriptors.{open_fds}
use adaptive_liblitmus.Migration.Mask.{mapping_file}
use adaptive_liblitmus.Migration.MaskText.{Masks, top, IsMask, render}
use adaptive_liblitmus.Litmus.Locks.{litmus_open_lock}
use adaptive_liblitmus.Litmus.LockNames.{litmus_open_lock-descriptors}
use adaptive_liblitmus.Litmus.Mode.{task_mode, litmus_rt_task, background_task, neg_einval}
use adaptive_liblitmus.Litmus.ModeLaws.{KeepsPolicy, mode_of, asked, task_mode_refuses}
use adaptive_liblitmus.Litmus.Sporadic.{
  init_litmus, init_rt_thread, sporadic_partitioned, sporadic_clustered,
}
use adaptive_liblitmus.Litmus.Setup.{SetsUp, sporadic_partitioned-params}
use adaptive_liblitmus.Tools.Common.{Double}
use adaptive_liblitmus.Tools.Params.{params}
use adaptive_liblitmus.Tools.Launch.{launch_main}
use adaptive_liblitmus.Tools.LaunchLaws.{IsAdmitted, launch_main-admits}
use adaptive_liblitmus.KernelIface.Files.{map_file, mmap}
use adaptive_liblitmus.KernelIface.ControlPage.{init_kernel_iface}
use adaptive_liblitmus.Migration.HexText.{hex_text}
use adaptive_liblitmus.Tests.Disk.{disk, disk-Holds, answer_of}

litmus_open_lock-descriptors_example :
    (open_fds (disk []) (litmus_open_lock (disk []) (pos 0) (pos 1) (codes "ns") none start).1.log
      ≡ [])
    × ((litmus_open_lock (disk []) (pos 0) (pos 1) (codes "ns") none start).0
        ≡ Outcome.value (pos 9))
litmus_open_lock-descriptors_example =
    litmus_open_lock-descriptors (disk []) (pos 0) (pos 1) (codes "ns") none start

-- A kernel with a thread of the id 42, whose policy is the one that was set last for that id.
abbrev pub policy_after : Log → ℕ
policy_after [] = 0
policy_after (Call.set_scheduler pid p ∷ l) = if eqb_ℤ pid (pos 42) then p else policy_after l
policy_after (c ∷ l) = policy_after l

abbrev scheduler_answer : Log → Call → ℤ
scheduler_answer l (Call.get_scheduler pid) = pos (policy_after l)
scheduler_answer l c = answer_of c

abbrev pub one_thread : Kernel
one_thread = record (disk []) { answer = scheduler_answer }

abbrev pub one_thread-KeepsPolicy : KeepsPolicy one_thread
one_thread-KeepsPolicy = record {
  self = pos 42;
  policy = policy_after;
  identifies = λ l. refl;
  reports = λ l. refl;
  changes = λ l p e. refl;
  quiet_id = λ l. refl;
  quiet_get = λ l pid. refl;
}

task_mode_runs : (task_mode one_thread litmus_rt_task start).0 ≡ Outcome.value (pos 0)
unfolding task_mode call
task_mode_runs = refl

task_mode_refuses_example :
    ((task_mode one_thread background_task start).0 ≡ Outcome.value minus_one)
    × ((task_mode one_thread background_task start).1.errno ≡ neg_einval)
    × ((task_mode one_thread background_task start).1.log ≡ asked one_thread [])
task_mode_refuses_example =
    task_mode_refuses one_thread background_task start one_thread-KeepsPolicy (inl background)
  where
    background : background_task ≡ mode_of (one_thread-KeepsPolicy.policy [])
    background = refl

init_litmus_runs : (init_litmus (disk []) start).0 ≡ Outcome.value (pos 0)
unfolding init_litmus init_rt_thread init_kernel_iface map_file mmap call
init_litmus_runs = refl

-- CPUs 1 and 2
abbrev pub two_cpus : Masks
two_cpus = top 6 []

pub two_cpus-IsMask : IsMask two_cpus
two_cpus-IsMask = omega arith

pub two_cpus-short : length (render two_cpus) ≤ 1152
unfolding render hex_text
two_cpus-short = omega arith

sporadic_partitioned-params_example :
    SetsUp
      (disk (render two_cpus))
      4
      two_cpus
      10
      100
      (sporadic_partitioned (disk (render two_cpus)) 10 100 (pos 3) start)
    × SetsUp
        (disk (render two_cpus))
        4
        two_cpus
        10
        100
        (sporadic_clustered (disk (render two_cpus)) 10 100 (pos 3) start)
sporadic_partitioned-params_example =
    sporadic_partitioned-params (disk (render two_cpus)) 4 two_cpus (pos 3) (λ l. refl)
      two_cpus-IsMask two_cpus-short
      (disk-Holds (mapping_file (codes "domains") (pos 3)) (render two_cpus)) (λ l tid set. refl) 10
      100 start (omega arith)

-- Whole numbers in the place of doubles.
abbrev pub whole : Double ℤ
whole = record {
  of_text = atoi;
  of_int = λ x. x;
  milli = pos 0;
  plus = λ x y. x +ℤ y;
  minus = λ x y. x -ℤ y;
  times = λ x y. pos (pos_part x * pos_part y);
  is_less = ltb_ℤ;
  is_zero = is_zero;
  to_time = pos_part;
}

launch_main-admits_example :
    let r = launch_main (disk []) whole [] (codes "10" ∷ codes "100" ∷ codes "ls" ∷ []) start in
    (params r.1.log ≡ []) ⊎ ((p : RtTask) × (params r.1.log ≡ p ∷ []) × IsAdmitted p)
launch_main-admits_example =
    launch_main-admits (disk []) whole [] (codes "10" ∷ codes "100" ∷ codes "ls" ∷ []) start
