-- ===== src/Litmus/Params.antt =====
-- Default task parameters, task classes, and what is printed of parameters.
use adaptive_liblitmus.Base.{◌≡◌, refl, ◌++◌, if◌then◌else◌}
use adaptive_liblitmus.Base.Int.{ℤ, pos, minus_one}
use adaptive_liblitmus.Base.Chars.{Bytes, codes, show_digits, show_int, streq}
use adaptive_liblitmus.Kernel.{Kernel, RtTask}

-- What memset leaves, and the defaults that are not zero.
unfoldable pub init_rt_task_param : Kernel → RtTask
init_rt_task_param k = record {
  exec_cost = 0;
  period = 0;
  relative_deadline = 0;
  phase = 0;
  cpu = pos 0;
  priority = k.lowest_priority;
  cls = k.class_soft;
  budget_policy = k.no_enforcement;
  release_policy = k.task_sporadic;
}

-- -1 for a name that is no class.
unfoldable pub str2class : Kernel → Bytes → ℤ
str2class k str =
    if streq str (codes "hrt")
    then k.class_hard
    else if streq str (codes "srt")
    then k.class_soft
    else if streq str (codes "be")
    then k.class_best_effort
    else minus_one

-- What is printed: two numbers of 64 bits, which have at most 20 digits, and an int.
unfoldable pub show_rt_param : RtTask → Bytes
unfolding show_digits show_int
show_rt_param tp =
    codes "rt params:\n\texec_cost:\t"
    ++ show_digits 20 tp.exec_cost (
        codes "\n\tperiod:\t\t"
        ++ show_digits 20 tp.period (codes "\n\tcpu:\t" ++ (show_int tp.cpu ++ codes "\n")))

param_runs :
    (k : Kernel)
    → show_rt_param (record (init_rt_task_param k) { exec_cost = 10; period = 100; cpu = pos 3 })
      ≡ codes "rt params:\n\texec_cost:\t10\n\tperiod:\t\t100\n\tcpu:\t3\n"
unfolding show_rt_param init_rt_task_param
param_runs k = refl
