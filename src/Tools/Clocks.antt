-- ===== src/Tools/Clocks.antt =====
-- cputime and wctime of src/clocks.c: clock readings in seconds, as doubles.
use adaptive_liblitmus.Base.Int.{ℤ}
use adaptive_liblitmus.Base.Chars.{codes}
use adaptive_liblitmus.Kernel.{Log}
use adaptive_liblitmus.Tools.Common.{Double}
use adaptive_liblitmus.Tools.Spin.{Clocks}
use adaptive_liblitmus.Uncache.Timespec.{Timespec}

-- The clock of the thread, the time of day in seconds and microseconds, and drand48.
pub record SystemClocks (D : Type 0) : Type 0 where
  pub thread_time : Log → Timespec
  pub time_of_day : Log → ℤ × ℤ
  pub random : Log → D

module _ {D : Type 0} (fl : Double D) (system : SystemClocks D) where
  unfoldable pub cputime : Log → D
  cputime l =
      let ts = system.thread_time l in
      fl.plus (fl.of_int ts.tv_sec) (fl.times (fl.of_text (codes "1E-9")) (fl.of_int ts.tv_nsec))

  unfoldable pub wctime : Log → D
  wctime l =
      let tv = system.time_of_day l in
      fl.plus (fl.of_int tv.0) (fl.times (fl.of_text (codes "1E-6")) (fl.of_int tv.1))

  -- What the programs take from these clocks.
  abbrev pub system_clocks : Clocks D
  system_clocks = record { cputime = cputime; wctime = wctime; drand48 = system.random }
