-- ===== src/Tools/SpinDone.antt =====
-- main of bin/rtspin.c on a kernel that cooperates.
use adaptive_liblitmus.Base.Int.{pos}
use adaptive_liblitmus.Base.Chars.{Bytes}
use adaptive_liblitmus.Kernel.{RtTask, Kernel, ◌>>=◌}
use adaptive_liblitmus.Lifecycle.Phase.{Phase}
use adaptive_liblitmus.Tools.Common.{Double, ms2ns_double}
use adaptive_liblitmus.Tools.ExecTimes.{Scanner}
use adaptive_liblitmus.Tools.Spin.{Clocks, SpinOptions}
use adaptive_liblitmus.Tools.SpinMain.{spin_param}

-- The parameters of the task that the options and the arguments WCET and PERIOD describe.
abbrev pub task_of :
    {D : Type 0} → Kernel → Double D → Clocks D → Scanner D → SpinOptions D → Bytes → Bytes → RtTask
task_of k fl clocks scan o wcet period =
    spin_param k fl clocks scan o (ms2ns_double fl (fl.of_text wcet))
      (ms2ns_double fl (fl.of_text period)) (pos 0)
