-- ===== src/Tools/SpinFile.antt =====
-- The end of main of bin/rtspin.c with a file of execution times.
use adaptive_liblitmus.Base.{
  ℕ, ◌<◌, ◌≡◌, ◌≢◌, false, List, ◌∷◌, All, Option, none, some, if◌then◌else◌,
}
use adaptive_liblitmus.Base.Int.{ℤ, pos, pos_part, minus_one}
use adaptive_liblitmus.Base.Chars.{Bytes, codes}
use adaptive_liblitmus.Kernel.{
  Kernel, Call, OpenMode, Log, M, Outcome, State, ◌>>=◌, ◌>>◌, pure, continue-value,
}
use adaptive_liblitmus.Finishing.{Finishes, Finishes-ne-fault, Safe, always}
use adaptive_liblitmus.Tools.Common.{Double, Opt}
use adaptive_liblitmus.Tools.ExecTimes.{Scanner, get_exec_times}
use adaptive_liblitmus.Tools.ExecTimesLaws.{
  Row, IsRow, IsText, Scans, sheet, times, get_exec_times-sheet,
}
use adaptive_liblitmus.Tools.Spin.{
  Clocks, SpinOptions, spin_options, default_spin_options, debug_delay_loop,
}
use adaptive_liblitmus.Tools.SpinMain.{spin_task, spin_args, spin_main, file_duration}
use adaptive_liblitmus.Tools.SpinFinish.{Expires, spin_run-Safe}
use adaptive_liblitmus.Tools.SpinTotal.{spin_task-Safe}

-- A file that can be opened and rewound, and that is made of rows and comments. Its conversions give
-- the times of the rows, in the column asked for.
pub record IsSheet {D : Type 0} (k : Kernel) (scan : Scanner D) (file : Bytes) (column : ℤ)
    (ws : List (Row D)) : Type 0 where
  pub tail : List Bytes
  pub fd : ℕ
  pub rows : All IsRow ws
  pub notes : All IsText tail
  pub scans : All (Scans k scan (pos_part column)) ws
  pub content : scan.content file ≡ sheet ws tail
  pub opens : (l : Log) → k.answer l (Call.open_file file OpenMode.read_only) ≡ pos fd
  pub rewinds : (l : Log) → k.answer l (Call.rewind_stream (pos fd)) ≢ minus_one

module _ {D : Type 0} (k : Kernel) (fl : Double D) (clocks : Clocks D) (scan : Scanner D)
    (N rounds : ℕ) (file : Bytes) (ws : List (Row D)) (w p : Bytes) (rest : List Bytes)
    (expires : Expires k fl clocks scan N
      (file_duration k fl clocks scan (times ws) (fl.of_text p)))
    (enough : N < rounds) where
  abbrev run_file : SpinOptions D → List D → M ℤ
  run_file o xs =
      spin_task k fl clocks scan o rounds xs (fl.of_text w) (fl.of_text p)
        (file_duration k fl clocks scan xs (fl.of_text p))

  run_file-Safe : (o : SpinOptions D) → Safe (λ _. Unit {0}) (run_file o (times ws))
  run_file-Safe o =
      let duration : D = file_duration k fl clocks scan (times ws) (fl.of_text p) in
      spin_task-Safe always k fl clocks scan o rounds (times ws) (fl.of_text w) (fl.of_text p)
        duration
        (spin_run-Safe k fl clocks scan N duration expires o rounds (times ws) (fl.of_text w)
          enough)

  spin_args-Finishes :
      (o : SpinOptions D) (s : State)
      → o.file ≡ some file
      → IsSheet k scan file o.column ws
      → Finishes (λ _ _. Unit {0}) (spin_args k fl clocks scan o rounds (w ∷ p ∷ rest) s)
  unfolding spin_args
  spin_args-Finishes o s named given = with_file _ o.file named
    where
      with_file :
          (other : M ℤ) (f : Option Bytes)
          → f ≡ some file
          → Finishes
              (λ _ _. Unit {0})
              ((elim f as (λ _. M ℤ) [
                | none ↦ other
                | some g ↦ get_exec_times k scan g o.column >>= run_file o
              ])
                s)
      with_file other none e = absurd (cc)
      with_file other (some g) e =
          let same : g ≡ file = cc in
          rw same (
            continue-value (run_file o) (get_exec_times k scan file o.column s)
              (Finishes (λ _ _. Unit {0}))
              (get_exec_times-sheet k scan file o.column ws given.tail given.fd s given.rows
                given.notes given.scans given.content (given.opens s.log) given.rewinds)
              (λ t. (run_file-Safe o).run t tt))

  -- With a file of rows and comments, that can be read and has a time for each row: if N readings of
  -- the clock take longer than the jobs of the file and two seconds more, N + 1 rounds are enough for
  -- each loop: with options that are accepted, -f for this file among them and -l not, and with a
  -- WCET and a PERIOD, whatever else the kernel answers, rtspin comes to an end, by exit or by
  -- returning from main.
  pub spin_main-file_ends :
      (opts : List Opt) (o : SpinOptions D) (s : State)
      → (spin_options k fl clocks opts (default_spin_options k fl clocks) s).0 ≡ Outcome.value o
      → o.test_loop ≡ false
      → o.file ≡ some file
      → IsSheet k scan file o.column ws
      → ¬ ((spin_main k fl clocks scan rounds opts (w ∷ p ∷ rest) s).0 ≡ Outcome.fault)
  unfolding spin_main
  spin_main-file_ends opts o s accepted no_loop named given =
      Finishes-ne-fault (λ _ _. Unit {0})
        (continue-value
          (λ o'.
            if o'.test_loop
            then (debug_delay_loop k fl clocks rounds (fl.of_text (codes "0.5")) >> pure (pos 0))
            else spin_args k fl clocks scan o' rounds (w ∷ p ∷ rest))
          (spin_options k fl clocks opts (default_spin_options k fl clocks) s)
          (Finishes (λ _ _. Unit {0})) accepted
          (λ t. simp no_loop (spin_args-Finishes o t named given)))
