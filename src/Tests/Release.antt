-- ===== src/Tests/Release.antt =====
-- Instances for the statistics, the release of a task system, and the test runner.
use adaptive_liblitmus.Base.{
  ℕ, ◌≡◌, ◌<◌, ◌^◌, ◌≤◌, refl, [], ◌∷◌, List, arith, ltb, true, some, if◌then◌else◌,
}
use adaptive_liblitmus.Base.Int.{ℤ, pos, minus_one}
use adaptive_liblitmus.Base.Chars.{codes}
use adaptive_liblitmus.Kernel.{Call, Kernel, Log, Outcome, start, pure}
use adaptive_liblitmus.KernelIface.Stats.{stats_file, read_litmus_stats}
use adaptive_liblitmus.KernelIface.StatsRound.{stats_text, Reports, read_litmus_stats-round}
use adaptive_liblitmus.Tools.Release.{ReleaseOptions}
use adaptive_liblitmus.Tools.Common.{Opt}
use adaptive_liblitmus.Tools.ReleaseLaws.{sleeps}
use adaptive_liblitmus.Tools.NullCall.{sample_keys}
use adaptive_liblitmus.Tools.NullCallLaws.{Grows}
use adaptive_liblitmus.Tools.Cycles.{x86_get_cycles}
use adaptive_liblitmus.Tools.CycleLaws.{halves, Measures, x86_get_cycles-Measures}
use adaptive_liblitmus.TestRunner.{TestCase, Suite}
use adaptive_liblitmus.TestRunner.Counts.{IsParent}
use adaptive_liblitmus.Tests.Disk.{disk, disk_at, disk-Shows, answer_of}

-- Three tasks, of which one more is ready with each second.
abbrev three : Log → ℕ
three l = 3

abbrev ready_after : Log → ℕ
ready_after l = if ltb (sleeps l) 3 then sleeps l else 3

abbrev coming : Kernel
coming = disk_at (λ l. stats_text 3 (ready_after l) [])

coming-Reports : Reports coming three ready_after
coming-Reports = record {
  shows = disk-Shows stats_file (λ l. stats_text 3 (ready_after l) []);
  all_fits = λ l. omega arith;
  ready_fits = λ l. ground arith;
}

read_litmus_stats-round_example :
    (read_litmus_stats coming (codes "x") minus_one minus_one start).0
    ≡ Outcome.value (true, pos 0, pos 3)
read_litmus_stats-round_example =
    read_litmus_stats-round coming three ready_after (codes "x") minus_one minus_one start
      coming-Reports

-- A cycle counter that grows by 500 with the first call.
abbrev counter : Log → ℕ
counter [] = 500
counter (c ∷ l) = 1000

counter-Grows : Grows (disk []) counter
counter-Grows = record { enters = enters'; leaves = λ l. omega arith; fits = fits' }
  where
    enters' : (l : Log) → counter l ≤ 1000
    enters' [] = omega arith
    enters' (c ∷ l) = omega arith

    fits' : (l : Log) → counter l < 2 ^ 64
    fits' [] = omega arith
    fits' (c ∷ l) = omega arith

x86_get_cycles-Measures_example :
    Measures
      (disk [])
      counter
      (codes "ab")
      []
      (sample_keys (disk []) (x86_get_cycles (λ l. halves (counter l))) (codes "ab") start)
x86_get_cycles-Measures_example =
    x86_get_cycles-Measures (disk []) counter (codes "ab") start counter-Grows

-- Processes are numbered from 7 on, and the first child fails.
abbrev parent_answer : Call → ℤ
parent_answer Call.spawn = pos 7
parent_answer c = answer_of c

abbrev status_after : Log → ℕ
status_after (Call.spawn ∷ []) = 200
status_after l = 0

abbrev parent : Kernel
parent = record (disk []) {
  answer = λ l c. parent_answer c;
  child_status = λ l pid. some (status_after l);
}

abbrev parent-IsParent : IsParent parent
parent-IsParent = record { child = λ l. 6; forks = λ l. refl; waits = λ l pid. refl }

abbrev passing : List TestCase
passing = pure tt ∷ pure tt ∷ []

abbrev two_tests : Suite
two_tests = record { plugin = codes "P-FP"; testcases = 0 ∷ 1 ∷ [] }

-- Wait for two tasks, and release them after 50 milliseconds.
abbrev release_opts : List Opt
release_opts = (b'f', codes "2") ∷ (b'd', codes "50") ∷ []

abbrev delayed : ReleaseOptions
delayed = record { delay = 50_000_000; wait = true; expected = pos 2 }
