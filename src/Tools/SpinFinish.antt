-- ===== src/Tools/SpinFinish.antt =====
-- The end of the jobs of bin/rtspin.c, and of what follows them.
use adaptive_liblitmus.Base.{
  ℕ, zero, suc, ◌+◌, ◌<◌, ◌≤◌, ◌≡◌, refl, inl, inr, Bool-cases, List, [], ◌∷◌, arith, Option, none,
  some, if◌then◌else◌,
}
use adaptive_liblitmus.Base.Int.{ℤ, pos, is_zero}
use adaptive_liblitmus.Base.Chars.{Bytes}
use adaptive_liblitmus.Kernel.{Kernel, Call, Log, M, State, ◌>>=◌, ◌>>◌, pure, call}
use adaptive_liblitmus.Syscalls.{gettid, wait_for_ts_release, get_job_no}
use adaptive_liblitmus.Litmus.Mode.{task_mode, litmus_rt_task, background_task}
use adaptive_liblitmus.Finishing.{
  Finishes, Finishes-continue, Finishes-weaken, always, Safe, safe_rules,
}
use adaptive_liblitmus.Finishing.Library.{
  bail_out-Safe, gettid-Safe, task_mode-Safe, init_litmus-Safe, litmus_open_lock-Safe,
}
use adaptive_liblitmus.Tools.Common.{Double, bail_out}
use adaptive_liblitmus.Tools.ExecTimes.{Scanner}
use adaptive_liblitmus.Tools.Spin.{Clocks, SpinOptions, read_clock}
use adaptive_liblitmus.Tools.SpinMain.{spin_lock, file_jobs, periodic_jobs, spin_run}
use adaptive_liblitmus.Tools.SpinTime.{readings}
use adaptive_liblitmus.Tools.SpinEnds.{
  AtLeast, AtLeast-IsStable, read_clock-Safe, Ending, Done, spin_job-Finishes,
}

module _ {D : Type 0} (k : Kernel) (fl : Double D) (clocks : Clocks D) (scan : Scanner D) where
  module _ (E : ℕ) (program_end : D) (ending : Ending k fl clocks E program_end) where
    file_jobs-Finishes :
        (o : SpinOptions D) (rounds n : ℕ) (od : ℤ) (xs : List D) (s : State)
        → 0 < rounds
        → E < n + rounds
        → n ≤ readings s.log
        → Finishes (λ _. AtLeast n) (file_jobs k fl clocks scan o rounds program_end od xs s)
    unfolding file_jobs
    file_jobs-Finishes o rounds n od [] s p h a = Finishes.returns a
    file_jobs-Finishes o rounds n od (x ∷ xs) s p h a =
        Finishes-continue (Done k fl clocks E program_end ending n) (λ _. AtLeast n) _
          (spin_job-Finishes k fl clocks E program_end ending rounds n _ od _ s p h a)
          (λ more t (b, _). file_jobs-Finishes o rounds n od xs t p h (omega arith))

    report-Safe :
        (o : SpinOptions D) (n : ℕ)
        → Safe (AtLeast n) (
            if o.verbose
            then (get_job_no k >> (gettid k >> (read_clock k fl clocks clocks.wctime >> pure tt)))
            else pure tt)
    unfolding get_job_no
    report-Safe o n = search (
      safe_rules,
      AtLeast-IsStable n,
      gettid-Safe (AtLeast-IsStable n),
      read_clock-Safe k fl clocks n,
    )

    -- A job that is asked for reads a clock, so as many jobs are enough as readings.
    periodic_jobs-Finishes :
        (o : SpinOptions D) (jobs rounds n : ℕ) (wcet_ms : D) (od : ℤ) (s : State)
        → 0 < jobs
        → E < n + jobs
        → 0 < rounds
        → E < n + rounds
        → n ≤ readings s.log
        → Finishes
            (λ _. AtLeast n)
            (periodic_jobs k fl clocks scan o jobs rounds wcet_ms program_end od s)
    unfolding periodic_jobs
    periodic_jobs-Finishes o zero rounds n wcet_ms od s q g p h a = absurd (omega arith)
    periodic_jobs-Finishes o (suc jobs) rounds n wcet_ms od s q g p h a =
        Finishes-continue (λ _. AtLeast n) (λ _. AtLeast n) _ ((report-Safe o n).run s a)
          λ _ t b.
            Finishes-continue (Done k fl clocks E program_end ending n) (λ _. AtLeast n) _
              (spin_job-Finishes k fl clocks E program_end ending rounds n _ od _ t p h b)
              (λ more u (c, last). elim (Bool-cases more) [
                | inr stop ↦ rw stop (Finishes.returns (omega arith))
                | inl go_on ↦
                    let early : n < E = ground (arith, last, go_on) in
                    rw go_on (
                      Finishes-weaken (λ _. AtLeast (suc n)) (λ _. AtLeast n)
                        (periodic_jobs-Finishes o jobs rounds (suc n) wcet_ms od u (omega arith)
                          (omega arith) p (omega arith) c)
                        (λ _ l d. omega arith))
              ])

  -- N readings of the clock take longer than the duration of the program and two seconds more.
  pub record Expires (N : ℕ) (duration : D) : Type 0 where
    pub ending :
        (began : Log)
        → Ending k fl clocks (readings began + N) (fl.plus (clocks.wctime began) duration)

  -- When a program begins: at some reading of the clock.
  abbrev pub Begun : D → Log → Type 0
  Begun begin l = (began : Log) × (begin ≡ clocks.wctime began) × (readings began ≤ readings l)

  module _ (N : ℕ) (duration : D) (expires : Expires N duration) where
    pub jobs-Finishes :
        (o : SpinOptions D) (rounds : ℕ) (xs : List D) (wcet_ms begin : D) (od : ℤ)
        (file : Option Bytes) (s : State)
        → N < rounds
        → Begun begin s.log
        → Finishes
            (λ _ _. Unit {0})
            ((elim file as (λ _. M (Unit {0})) [
              | none ↦
                  periodic_jobs k fl clocks scan o rounds rounds wcet_ms (fl.plus begin duration) od
              | some f ↦ file_jobs k fl clocks scan o rounds (fl.plus begin duration) od xs
            ])
              s)
    jobs-Finishes o rounds xs wcet_ms begin od none s h (began, same, after) = rw same (
        Finishes-weaken (λ _. AtLeast (readings began)) (λ _ _. Unit {0})
          (periodic_jobs-Finishes (readings began + N) _ (expires.ending began) o rounds rounds
            (readings began) wcet_ms od s (omega arith) (omega arith) (omega arith) (omega arith)
            after)
          (λ _ l d. tt))
    jobs-Finishes o rounds xs wcet_ms begin od (some f) s h (began, same, after) = rw same (
        Finishes-weaken (λ _. AtLeast (readings began)) (λ _ _. Unit {0})
          (file_jobs-Finishes (readings began + N) _ (expires.ending began) o rounds
            (readings began) od xs s (omega arith) (omega arith) after)
          (λ _ l d. tt))

    check : ℤ → M (Unit {0})
    check ret = if is_zero ret then pure tt else bail_out

    check-Safe : {I : Log → Type 0} (ret : ℤ) → Safe I (check ret)
    unfolding check
    check-Safe ret = search (safe_rules, bail_out-Safe)

    spin_lock-Safe : (o : SpinOptions D) (n : ℕ) → Safe (AtLeast n) (spin_lock k fl clocks scan o)
    unfolding spin_lock
    spin_lock-Safe o n = search (safe_rules, litmus_open_lock-Safe (AtLeast-IsStable n) k)

    -- When the jobs count from.
    abbrev begin_at : SpinOptions D → D → M D
    begin_at o began =
        if o.wait
        then (wait_for_ts_release k >>= λ released.
            check released >> read_clock k fl clocks clocks.wctime)
        else pure began

    begin_at-Finishes :
        (o : SpinOptions D) (began : D) (s : State)
        → Begun began s.log
        → Finishes Begun (begin_at o began s)
    unfolding wait_for_ts_release call read_clock
    begin_at-Finishes o began s b = elim (Bool-cases o.wait) [
      | inr at_once ↦ rw at_once (Finishes.returns b)
      | inl waits ↦ rw waits (
          Finishes-continue (λ _ _. Unit {0}) Begun _
            ((check-Safe {I = λ _. Unit {0}} (k.answer s.log Call.wait_for_ts_release)).run _ tt)
            (λ _ t _. Finishes.returns (t.log, refl, omega arith)))
    ]

    pub spin_run-Safe :
        (o : SpinOptions D) (rounds : ℕ) (xs : List D) (wcet_ms : D)
        → N < rounds
        → Safe (λ _. Unit {0}) (spin_run k fl clocks scan o rounds xs wcet_ms duration)
    unfolding spin_run check read_clock
    spin_run-Safe o rounds xs wcet_ms h =
        let stop : M ℤ = task_mode k background_task >>= λ ret'. check ret' >> pure (pos 0) in
        let work : ℤ → D → M ℤ = λ od begin.
          (elim o.file as (λ _. M (Unit {0})) [
            | none ↦
                periodic_jobs k fl clocks scan o rounds rounds wcet_ms (fl.plus begin duration) od
            | some f ↦ file_jobs k fl clocks scan o rounds (fl.plus begin duration) od xs
          ])
          >> stop in
        let locked : D → ℤ → M ℤ = λ began od. begin_at o began >>= work od in
        let lock : D → M ℤ = λ began. spin_lock k fl clocks scan o >>= locked began in
        let stop-Safe : Safe (λ _. Unit {0}) stop =
          search (safe_rules, task_mode-Safe always, check-Safe) in
        record {
          run = λ s i.
              Finishes-continue (λ _ _. Unit {0}) (λ _ _. Unit {0}) _
                ((init_litmus-Safe always k).run s i)
                λ _ t _.
                  let n : ℕ = readings t.log in
                  Finishes-continue (λ _. AtLeast n) (λ _ _. Unit {0})
                    (λ ret. check ret >> lock (clocks.wctime t.log))
                    ((task_mode-Safe (AtLeast-IsStable n) k litmus_rt_task).run _ (omega arith))
                    λ ret u a.
                      Finishes-continue (λ _. AtLeast n) (λ _ _. Unit {0})
                        (λ _. lock (clocks.wctime t.log)) ((check-Safe ret).run u a)
                        λ _ v b.
                          Finishes-continue (λ _. AtLeast n) (λ _ _. Unit {0})
                            (locked (clocks.wctime t.log)) ((spin_lock-Safe o n).run v b)
                            λ od w c.
                              Finishes-continue Begun (λ _ _. Unit {0}) (work od)
                                (begin_at-Finishes o (clocks.wctime t.log) w (t.log, refl, c))
                                λ begin x d.
                                  Finishes-continue (λ _ _. Unit {0}) (λ _ _. Unit {0}) (λ _. stop)
                                    (jobs-Finishes o rounds xs wcet_ms begin od o.file x h d)
                                    (λ _ y _. stop-Safe.run y tt);
        }
