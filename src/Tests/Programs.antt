-- ===== src/Tests/Programs.antt =====
-- Instances for the programs.
use adaptive_liblitmus.Base.{ℕ, ◌≡◌, refl, ltb, List, [], ◌∷◌}
use adaptive_liblitmus.Base.Int.{ℤ, pos}
use adaptive_liblitmus.Base.Chars.{codes, read_int}
use adaptive_liblitmus.Kernel.{Kernel, Outcome, start}
use adaptive_liblitmus.Tools.ExecTimes.{Scanner}
use adaptive_liblitmus.Tools.ExecTimesLaws.{Row, sheet}
use adaptive_liblitmus.Uncache.Data.{Memory, Machine, do_max_alloc}
use adaptive_liblitmus.Uncache.MaxAlloc.{do_max_alloc-ends}
use adaptive_liblitmus.Tests.Disk.{disk}

-- A file with a comment, and the times 5 and 70 with something behind them.
abbrev two_rows : List (Row ℤ)
two_rows =
    record { notes = codes " times" ∷ []; text = codes "5,a"; time = pos 5 }
    ∷ record { notes = []; text = codes "70"; time = pos 70 }
    ∷ []

abbrev whole_numbers : Scanner ℤ
whole_numbers = record {
  number = read_int;
  skip_word = λ s. s;
  content = λ f. sheet two_rows (codes "end" ∷ []);
}

-- One byte of memory.
abbrev pub cell : Memory ℕ
cell = record { store = λ v m. v; load = λ m. m }

-- Any mapping but an empty one succeeds.
abbrev endless : Kernel
endless = record (disk []) { maps = λ l n fd. ltb 0 n }

abbrev machine : Machine ℕ
machine = record {
  memory = cell;
  fresh = 0;
  thread_time = λ l. record { tv_sec = pos 0; tv_nsec = pos 0 };
}

do_max_alloc-ends_example :
    (do_max_alloc endless machine (pos 4096) start).0 ≡ Outcome.value (pos 0)
do_max_alloc-ends_example = do_max_alloc-ends endless machine (pos 4096) (λ l fd. refl) start
