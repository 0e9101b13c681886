-- ===== src/Tests/FileRuns.antt =====
-- A run of rtspin with a file of execution times.
use adaptive_liblitmus.Base.{ℕ, ◌≡◌, refl, false, List, [], ◌∷◌, arith, Option, none, some}
use adaptive_liblitmus.Base.Int.{ℤ, pos_part}
use adaptive_liblitmus.Base.Chars.{Bytes, codes, read_int}
use adaptive_liblitmus.Kernel.{Outcome, start}
use adaptive_liblitmus.Tools.Common.{Opt}
use adaptive_liblitmus.Tools.ExecTimes.{Scanner, skip_columns}
use adaptive_liblitmus.Tools.ExecTimesLaws.{Row, sheet, times}
use adaptive_liblitmus.Tools.Spin.{SpinOptions, spin_option, spin_options, default_spin_options}
use adaptive_liblitmus.Tools.SpinMain.{spin_main, file_duration, total_time}
use adaptive_liblitmus.Tools.SpinFinish.{Expires}
use adaptive_liblitmus.Tools.SpinFile.{IsSheet, spin_main-file_ends}
use adaptive_liblitmus.Tests.Disk.{disk}
use adaptive_liblitmus.Tests.Phases.{ticking, ticks}

abbrev job_times : List (Row ℕ)
job_times =
    record { notes = codes " ms" ∷ []; text = codes "5,a"; time = 5 }
    ∷ record { notes = []; text = codes "70"; time = 70 }
    ∷ []

abbrev unsigned : Option (ℤ × Bytes) → Option (ℕ × Bytes)
unsigned none = none
unsigned (some (n, s)) = some (pos_part n, s)

abbrev counts : Scanner ℕ
counts = record {
  number = λ s. unsigned (read_int s);
  skip_word = λ s. s;
  content = λ f. sheet job_times [];
}

abbrev from_file : List Opt
from_file = (b'f', codes "times") ∷ []

abbrev reads_file : SpinOptions ℕ
reads_file = record (default_spin_options (disk []) ticking ticks) { file = some (codes "times") }

from_file-reads :
    (spin_options
      (disk [])
      ticking
      ticks
      from_file
      (default_spin_options (disk []) ticking ticks)
      start).0
    ≡ Outcome.value reads_file
unfolding spin_options spin_option default_spin_options
from_file-reads = refl

job_times-IsSheet : IsSheet (disk []) counts (codes "times") reads_file.column job_times
unfolding skip_columns read_int default_spin_options
job_times-IsSheet = record {
  tail = [];
  fd = 3;
  rows = ((omega arith, omega arith, refl), ((tt, omega arith, refl), tt));
  notes = tt;
  scans = (λ r. (codes ",a", omega arith, refl), (λ r. ([], tt, refl), tt));
  content = refl;
  opens = λ l. refl;
  rewinds = λ l e. absurd (ground (arith, e));
}

-- In this clock all jobs of the file take no time, and the two seconds two ticks.
no_duration :
    (period : ℕ) → file_duration (disk []) ticking ticks counts (times job_times) period ≡ 0
unfolding file_duration total_time
no_duration period = omega arith

three_readings :
    (period : ℕ)
    → Expires
        (disk [])
        ticking
        ticks
        counts
        3
        (file_duration (disk []) ticking ticks counts (times job_times) period)
three_readings period = record {
  ending = λ began. record {
    is_over = λ l h. ground (arith, no_duration period, h);
    soon = record {
      is_set = ground (arith, no_duration period);
      is_past = λ l h. ground (arith, no_duration period, h);
    };
    later = record {
      is_set = ground (arith, no_duration period);
      is_past = λ l h. ground (arith, no_duration period, h);
    };
  };
}

no_loop : reads_file.test_loop ≡ false
unfolding default_spin_options
no_loop = refl

spin_main-file_ends_example : ¬ (
    (spin_main (disk []) ticking ticks counts 10 from_file (codes "1" ∷ codes "2" ∷ []) start).0
    ≡ Outcome.fault)
spin_main-file_ends_example =
    spin_main-file_ends (disk []) ticking ticks counts 3 10 (codes "times") job_times (codes "1")
      (codes "2") [] (three_readings (ticking.of_text (codes "2"))) (omega arith) from_file
      reads_file start from_file-reads no_loop refl job_times-IsSheet
