-- ===== src/Tools/SpinLife.antt =====
-- main of bin/rtspin.c keeps to the life cycle of a real-time task.
use adaptive_liblitmus.Base.{ℕ, zero, suc, ◌≡◌, List, [], ◌∷◌, Option, none, some, if◌then◌else◌}
use adaptive_liblitmus.Base.Int.{ℤ, pos}
use adaptive_liblitmus.Base.Chars.{Bytes, codes}
use adaptive_liblitmus.Kernel.{Kernel, M, State, ◌>>=◌, ◌>>◌, pure}
use adaptive_liblitmus.Lifecycle.Phase.{Phase, phase_of, phase_of-IsBlind}
use adaptive_liblitmus.Lifecycle.Runs.{Ends, Runs, Runs-bind, Runs-after, Runs-if, Runs-exit}
use adaptive_liblitmus.Tools.Common.{Double, Opt, usage}
use adaptive_liblitmus.Tools.ExecTimes.{Scanner, get_exec_times}
use adaptive_liblitmus.Tools.Spin.{
  Clocks, SpinOptions, read_clock, loop_for, debug_delay_loop, spin_options, default_spin_options,
}
use adaptive_liblitmus.Tools.SpinMain.{spin_task, file_duration, spin_args, spin_main}
use adaptive_liblitmus.Tools.SpinQuiet.{spin_options-Keeps, get_exec_times-Keeps}
use adaptive_liblitmus.Tools.SpinPhases.{read_clock-then, loop_for-then}
use adaptive_liblitmus.Tools.SpinRun.{IsFinished, spin_task-Runs}

module _ {D : Type 0} (k : Kernel) (fl : Double D) (clocks : Clocks D) (scan : Scanner D) where
  abbrev with_file : SpinOptions D → ℕ → List Bytes → Option Bytes → M ℤ
  with_file o rounds args file = elim file [
    | none ↦ (elim args [
      | w ∷ p ∷ d ∷ rest ↦
          spin_task k fl clocks scan o rounds [] (fl.of_text w) (fl.of_text p) (fl.of_text d)
      | _ ↦ usage
    ])
    | some f ↦ (do
      xs ← get_exec_times k scan f o.column
      elim args [
        | w ∷ p ∷ rest ↦
            spin_task k fl clocks scan o rounds xs (fl.of_text w) (fl.of_text p)
              (file_duration k fl clocks scan xs (fl.of_text p))
        | _ ↦ usage
      ])
  ]

  file_args-Runs :
      (o : SpinOptions D) (rounds : ℕ) (args : List Bytes) (xs : List D)
      → Runs k Phase.background
          (elim args [
            | w ∷ p ∷ rest ↦
                spin_task k fl clocks scan o rounds xs
                  (fl.of_text w)
                  (fl.of_text p)
                  (file_duration k fl clocks scan xs (fl.of_text p))
            | _ ↦ usage
          ])
          IsFinished
  file_args-Runs o rounds [] xs = Runs-exit k (pos 1)
  file_args-Runs o rounds (w ∷ []) xs = Runs-exit k (pos 1)
  file_args-Runs o rounds (w ∷ p ∷ rest) xs =
      spin_task-Runs k fl clocks scan o rounds xs (fl.of_text w) (fl.of_text p)
        (file_duration k fl clocks scan xs (fl.of_text p))

  with_file-Runs :
      (o : SpinOptions D) (rounds : ℕ) (args : List Bytes) (file : Option Bytes)
      → Runs k Phase.background (with_file o rounds args file) IsFinished
  with_file-Runs o rounds [] none = Runs-exit k (pos 1)
  with_file-Runs o rounds (w ∷ []) none = Runs-exit k (pos 1)
  with_file-Runs o rounds (w ∷ p ∷ []) none = Runs-exit k (pos 1)
  with_file-Runs o rounds (w ∷ p ∷ d ∷ rest) none =
      spin_task-Runs k fl clocks scan o rounds [] (fl.of_text w) (fl.of_text p) (fl.of_text d)
  with_file-Runs o rounds args (some f) =
      Runs-after k (get_exec_times k scan f o.column) _
        (get_exec_times-Keeps (phase_of k) (phase_of-IsBlind k) k fl clocks scan f o.column)
        (file_args-Runs o rounds args)

  spin_args-Runs :
      (o : SpinOptions D) (rounds : ℕ) (args : List Bytes)
      → Runs k Phase.background (spin_args k fl clocks scan o rounds args) IsFinished
  unfolding spin_args
  spin_args-Runs o rounds args = with_file-Runs o rounds args o.file

  -- The calibration loop never returns; what it does changes no phase.
  debug_delay_loop-Runs :
      (rounds : ℕ) (delay : D)
      → Runs k Phase.background (debug_delay_loop k fl clocks rounds delay) (λ _ q. ⊥)
  unfolding debug_delay_loop
  debug_delay_loop-Runs zero delay = λ s e. Ends.faults e
  debug_delay_loop-Runs (suc rounds) delay =
      let shorter : D = fl.minus delay (fl.of_text (codes "0.01")) in
      let longest : D = fl.of_text (codes "0.5") in
      let down : M (Unit {0}) = debug_delay_loop k fl clocks rounds shorter in
      let clock : M D = read_clock k fl clocks clocks.wctime in
      Runs-if k (fl.is_less (fl.of_text (codes "0.01")) delay)
        (clock >> (loop_for k fl clocks rounds delay (fl.of_int (pos 0)) >> (clock >> down)))
        (debug_delay_loop k fl clocks rounds longest)
        (λ _.
          read_clock-then k fl clocks clocks.wctime
            (λ _. loop_for k fl clocks rounds delay (fl.of_int (pos 0)) >> (clock >> down))
            λ _.
              loop_for-then k fl clocks rounds delay (fl.of_int (pos 0)) (λ _. clock >> down)
                (read_clock-then k fl clocks clocks.wctime (λ _. down)
                  (λ _. debug_delay_loop-Runs rounds shorter)))
        (λ _. debug_delay_loop-Runs rounds longest)

  -- Started in the background, rtspin keeps to the life cycle, whatever its options and arguments
  -- are and the kernel answers: each of its system calls is in its place, the parameters that it sets
  -- have a budget and a period, no job is completed with the lock held, and main returns only as a
  -- background task.
  pub spin_main-phases :
      (rounds : ℕ) (opts : List Opt) (args : List Bytes) (s : State)
      → phase_of k s.log ≡ some Phase.background
      → Ends k IsFinished (spin_main k fl clocks scan rounds opts args s)
  unfolding spin_main
  spin_main-phases rounds opts args =
      let run : SpinOptions D → M ℤ = λ o.
        if o.test_loop
        then (debug_delay_loop k fl clocks rounds (fl.of_text (codes "0.5")) >> pure (pos 0))
        else spin_args k fl clocks scan o rounds args in
      Runs-after k (spin_options k fl clocks opts (default_spin_options k fl clocks)) run
        (spin_options-Keeps (phase_of k) (phase_of-IsBlind k) k fl clocks opts
          (default_spin_options k fl clocks))
        λ o.
          Runs-if k o.test_loop
            (debug_delay_loop k fl clocks rounds (fl.of_text (codes "0.5")) >> pure (pos 0))
            (spin_args k fl clocks scan o rounds args)
            (λ _.
              Runs-bind k (λ _ q. ⊥)
                (debug_delay_loop k fl clocks rounds (fl.of_text (codes "0.5"))) (λ _. pure (pos 0))
                (debug_delay_loop-Runs rounds (fl.of_text (codes "0.5")))
                (λ _ q never. absurd never))
            (λ _. spin_args-Runs o rounds args)
