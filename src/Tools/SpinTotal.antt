-- ===== src/Tools/SpinTotal.antt =====
-- The end of main of bin/rtspin.c.
use adaptive_liblitmus.Base.{
  ℕ, ◌<◌, ◌≡◌, ◌≢◌, refl, false, List, [], ◌∷◌, All, arith, Option, none, some, if◌then◌else◌,
}
use adaptive_liblitmus.Base.Int.{ℤ, pos, is_neg}
use adaptive_liblitmus.Base.Chars.{Bytes}
use adaptive_liblitmus.Kernel.{Kernel, RtTask, Log, M, Outcome, State, ◌>>=◌, ◌>>◌, pure}
use adaptive_liblitmus.Syscalls.{gettid, set_rt_task_param}
use adaptive_liblitmus.Finishing.{
  Finishes, Finishes-continue, Finishes-and, Finishes-ne-fault, IsStable, always, Safe, Safe-bind,
  Safe-then, Safe-if, Safe-exit, safe_rules,
}
use adaptive_liblitmus.Finishing.Library.{
  bail_out-Safe, gettid-Safe, set_rt_task_param-Safe, be_migrate_to_domain-Safe,
  domain_to_first_cpu-Safe,
}
use adaptive_liblitmus.Tools.Common.{Double, Opt, usage, bail_out, ms2ns_double}
use adaptive_liblitmus.Tools.ExecTimes.{Scanner, get_exec_times}
use adaptive_liblitmus.Tools.Spin.{
  Clocks, SpinOptions, spin_option, spin_options, default_spin_options,
}
use adaptive_liblitmus.Tools.SpinMain.{
  spin_param, spin_migrate, spin_cpu, spin_run, is_bad, spin_task, spin_args, spin_main,
  file_duration,
}
use adaptive_liblitmus.Tools.SpinFinish.{Expires, spin_run-Safe}

-- Neither the calibration loop, which never ends, nor a file of execution times is asked for.
abbrev pub IsPlain : Opt → Type 0
IsPlain opt = (opt.0 ≢ b'l') × (opt.0 ≢ b'f')

abbrev Plain : {D : Type 0} → SpinOptions D → Type 0
Plain o = (o.test_loop ≡ false) × (o.file ≡ none)

module _ {D : Type 0} (k : Kernel) (fl : Double D) (clocks : Clocks D) (scan : Scanner D) where
  spin_option-Safe :
      (opt : Opt) (o : SpinOptions D) → Safe (λ _. Unit {0}) (spin_option k fl clocks opt o)
  unfolding spin_option
  spin_option-Safe opt o = search safe_rules depth 20

  spin_option-Plain :
      (opt : Opt) (o o' : SpinOptions D) (s : State)
      → IsPlain opt
      → Plain o
      → (spin_option k fl clocks opt o s).0 ≡ Outcome.value o'
      → Plain o'
  unfolding spin_option
  spin_option-Plain opt o o' s p q e = ground arith

  spin_options-Finishes :
      (opts : List Opt) (o : SpinOptions D) (s : State)
      → All IsPlain opts
      → Plain o
      → Finishes (λ o' _. Plain o') (spin_options k fl clocks opts o s)
  unfolding spin_options
  spin_options-Finishes [] o s p q = Finishes.returns q
  spin_options-Finishes (opt ∷ opts) o s (p, p') q =
      Finishes-continue (λ o' _. Plain o') (λ o' _. Plain o') (spin_options k fl clocks opts)
        (Finishes-and (λ _ _. Unit {0}) Plain (spin_option k fl clocks opt o s)
          ((spin_option-Safe opt o).run s tt) (λ o' e. spin_option-Plain opt o o' s p q e))
        (λ o' t q'. spin_options-Finishes opts o' t p' q')

module _ {D : Type 0} {I : Log → Type 0} (stable : IsStable I) (k : Kernel) (fl : Double D)
    (clocks : Clocks D) (scan : Scanner D) where
  spin_migrate-Safe : (o : SpinOptions D) → Safe I (spin_migrate k fl clocks scan o)
  unfolding spin_migrate
  spin_migrate-Safe o = search (safe_rules, bail_out-Safe, be_migrate_to_domain-Safe stable)

  spin_cpu-Safe : (o : SpinOptions D) → Safe I (spin_cpu k fl clocks scan o)
  unfolding spin_cpu
  spin_cpu-Safe o = search (safe_rules, domain_to_first_cpu-Safe stable)

  refuses-Safe : (ret : ℤ) → Safe I (if is_neg ret then bail_out else pure tt)
  refuses-Safe ret = search (safe_rules, bail_out-Safe)

  pub spin_task-Safe :
      (o : SpinOptions D) (rounds : ℕ) (xs : List D) (wcet_ms period_ms duration : D)
      → Safe I (spin_run k fl clocks scan o rounds xs wcet_ms duration)
      → Safe I (spin_task k fl clocks scan o rounds xs wcet_ms period_ms duration)
  unfolding spin_task
  spin_task-Safe o rounds xs wcet_ms period_ms duration run =
      let param : ℤ → RtTask =
        spin_param k fl clocks scan o (ms2ns_double fl wcet_ms) (ms2ns_double fl period_ms) in
      let next : ℤ → M ℤ = λ ret.
        (if is_neg ret then bail_out else pure tt)
        >> spin_run k fl clocks scan o rounds xs wcet_ms duration in
      let set : ℤ → ℤ → M ℤ = λ cpu me. set_rt_task_param k me (param cpu) >>= next in
      let own : ℤ → M ℤ = λ cpu. gettid k >>= set cpu in
      Safe-if (is_bad k fl clocks scan o (ms2ns_double fl wcet_ms) (ms2ns_double fl period_ms))
        usage (spin_migrate k fl clocks scan o >> (spin_cpu k fl clocks scan o >>= own))
        (λ _. Safe-exit (pos 1))
        λ _.
          Safe-then (spin_migrate k fl clocks scan o) (spin_cpu k fl clocks scan o >>= own)
            (spin_migrate-Safe o)
            (Safe-bind (spin_cpu k fl clocks scan o) own (spin_cpu-Safe o) λ cpu.
              Safe-bind (gettid k) (set cpu) (gettid-Safe stable k) λ me.
                Safe-bind (set_rt_task_param k me (param cpu)) next
                  (set_rt_task_param-Safe stable k me (param cpu))
                  λ ret.
                    Safe-then (if is_neg ret then bail_out else pure tt)
                      (spin_run k fl clocks scan o rounds xs wcet_ms duration) (refuses-Safe ret)
                      run)

module _ {D : Type 0} (k : Kernel) (fl : Double D) (clocks : Clocks D) (scan : Scanner D) (N : ℕ)
    (duration : D) (expires : Expires k fl clocks scan N duration) where
  spin_args-Safe :
      (o : SpinOptions D) (rounds : ℕ) (w p : Bytes) (rest : List Bytes) (d : Bytes)
      → N < rounds
      → o.file ≡ none
      → fl.of_text d ≡ duration
      → Safe (λ _. Unit {0}) (spin_args k fl clocks scan o rounds (w ∷ p ∷ d ∷ rest))
  unfolding spin_args
  spin_args-Safe o rounds w p rest d h plain same = ends o.file plain
    where
      ends :
          (file : Option Bytes)
          → file ≡ none
          → Safe
              (λ _. Unit {0})
              (elim file as (λ _. M ℤ) [
                | none ↦
                    spin_task k fl clocks scan o rounds []
                      (fl.of_text w)
                      (fl.of_text p)
                      (fl.of_text d)
                | some f ↦ (do
                  xs ← get_exec_times k scan f o.column
                  spin_task k fl clocks scan o rounds xs
                      (fl.of_text w)
                      (fl.of_text p)
                      (file_duration k fl clocks scan xs (fl.of_text p)))
              ])
      ends none e = rw same (
          spin_task-Safe always k fl clocks scan o rounds [] (fl.of_text w) (fl.of_text p) duration
            (spin_run-Safe k fl clocks scan N duration expires o rounds [] (fl.of_text w) h))
      ends (some f) e = absurd (cc)

-- If N readings of the clock take longer than the duration asked for and two seconds more, N + 1
-- rounds are enough for each loop: with options other than -l and -f and with a WCET, a PERIOD and
-- that DURATION, whatever the kernel answers, rtspin comes to an end, by exit or by returning from
-- main, also where the thread gets no time on a CPU.
pub spin_main-ends :
    {D : Type 0} (k : Kernel) (fl : Double D) (clocks : Clocks D) (scan : Scanner D) (N rounds : ℕ)
    (opts : List Opt) (w p d : Bytes) (rest : List Bytes) (s : State)
    → Expires k fl clocks scan N (fl.of_text d)
    → All IsPlain opts
    → N < rounds
    → ¬ ((spin_main k fl clocks scan rounds opts (w ∷ p ∷ d ∷ rest) s).0 ≡ Outcome.fault)
unfolding spin_main default_spin_options
spin_main-ends k fl clocks scan N rounds opts w p d rest s expires plain h =
    Finishes-ne-fault (λ _ _. Unit {0})
      (Finishes-continue (λ o _. Plain o) (λ _ _. Unit {0}) _
        (spin_options-Finishes k fl clocks scan opts (default_spin_options k fl clocks) s plain
          (refl, refl))
        (λ o t (no_loop, no_file). simp no_loop (
          (spin_args-Safe k fl clocks scan N (fl.of_text d) expires o rounds w p rest d h no_file
              refl).run
            t tt)))
