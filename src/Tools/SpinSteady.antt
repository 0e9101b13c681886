-- ===== src/Tools/SpinSteady.antt =====
-- The jobs of bin/rtspin.c, as code that does not exit and leaves the policy and the task parameters
-- alone.
use adaptive_liblitmus.Base.{ℕ, zero, suc, ◌≡◌, refl, Bool, true, false, ◌∷◌, if◌then◌else◌}
use adaptive_liblitmus.Base.Int.{ℤ}
use adaptive_liblitmus.Kernel.{
  Kernel, Call, Log, M, Outcome, State, ◌>>=◌, ◌>>◌, pure, gets, crash, continue, call,
}
use adaptive_liblitmus.Syscalls.{gettid, litmus_lock, litmus_unlock, sleep_next_period, get_job_no}
use adaptive_liblitmus.Tools.Common.{Double}
use adaptive_liblitmus.Tools.ExecTimes.{Scanner}
use adaptive_liblitmus.Tools.Spin.{
  Clocks, SpinOptions, read_clock, is_emergency, spin_loop, loop_for, critical_job, spin_job,
}
use adaptive_liblitmus.Tools.SpinMain.{periodic_jobs}

abbrev pub sets_up : Call → Bool
sets_up (Call.set_scheduler pid p) = true
sets_up (Call.set_rt_task_param pid p) = true
sets_up c = false

-- A fact that calls keep, but for those that set the policy or task parameters.
abbrev pub IsQuiet : (Log → Type 0) → Type 0
IsQuiet Q = (c : Call) (l : Log) → sets_up c ≡ false → Q l → Q (c ∷ l)

-- A run that has ended with a value, and with the fact, or in a fault.
pub data Stays {A : Type 0} (Q : Log → Type 0) : Outcome A × State → Type 0 where
  stays : {a : A} {t : State} → Q t.log → Stays Q (Outcome.value a, t)
  faults : {t : State} → Stays Q (Outcome.fault, t)

Stays-continue :
    {A B : Type 0} (Q : Log → Type 0) (f : A → M B) {r : Outcome A × State}
    → Stays Q r
    → ((a : A) (t : State) → Q t.log → Stays Q (f a t))
    → Stays Q (continue f r)
Stays-continue Q f (stays h) next = next _ _ h
Stays-continue Q f faults next = faults

-- Without a fault there is a value.
pub Stays-value :
    {A : Type 0} (Q : Log → Type 0) {r : Outcome A × State}
    → Stays Q r
    → ¬ (r.0 ≡ Outcome.fault)
    → (a : A) × (r.0 ≡ Outcome.value a) × Q r.1.log
Stays-value Q (stays h) ok = (_, refl, h)
Stays-value Q faults ok = absurd (ok refl)

pub record Steady {A : Type 0} (Q : Log → Type 0) (m : M A) : Type 0 where
  pub run : (s : State) → Q s.log → Stays Q (m s)

module _ {Q : Log → Type 0} where
  Steady-pure : {A : Type 0} (a : A) → Steady Q (pure a)
  Steady-pure a = record { run = λ s h. Stays.stays h }

  Steady-gets : {A : Type 0} (f : State → A) → Steady Q (gets f)
  Steady-gets f = record { run = λ s h. Stays.stays h }

  Steady-crash : {A : Type 0} → Steady Q (crash {A = A})
  Steady-crash = record { run = λ s h. Stays.faults }

  Steady-bind :
      {A B : Type 0} (m : M A) (f : A → M B)
      → Steady Q m
      → ((a : A) → Steady Q (f a))
      → Steady Q (m >>= f)
  Steady-bind m f h next = record {
    run = λ s q. Stays-continue Q f (h.run s q) (λ a t q'. (next a).run t q');
  }

  Steady-then : {A B : Type 0} (m : M A) (n : M B) → Steady Q m → Steady Q n → Steady Q (m >> n)
  Steady-then m n h h' = Steady-bind m (λ _. n) h (λ _. h')

  Steady-if :
      {A : Type 0} (b : Bool) (m n : M A) → Steady Q m → Steady Q n → Steady Q (if b then m else n)
  Steady-if true m n h h' = h
  Steady-if false m n h h' = h'

Steady-call :
    {Q : Log → Type 0}
    → IsQuiet Q
    → (k : Kernel) (c : Call) → sets_up c ≡ false
    → Steady Q (call k c)
unfolding call
Steady-call quiet k c e = record { run = λ s h. Stays.stays (quiet c s.log e h) }

ruleset steady_rules =
    (Steady-pure, Steady-gets, Steady-crash, Steady-bind, Steady-then, Steady-if, Steady-call)

module _ {D : Type 0} {Q : Log → Type 0} (quiet : IsQuiet Q) (k : Kernel) (fl : Double D)
    (clocks : Clocks D) (scan : Scanner D) where
  read_clock-Steady : (clock : Log → D) → Steady Q (read_clock k fl clocks clock)
  unfolding read_clock
  read_clock-Steady clock = record { run = λ s h. Stays.stays (quiet Call.read_clock s.log refl h) }

  is_emergency-Steady : (exit : D) → Steady Q (is_emergency k fl clocks exit)
  unfolding is_emergency
  is_emergency-Steady exit = search (steady_rules, read_clock-Steady)

  spin_loop-Steady :
      (rounds : ℕ) (end_time exit now last : D)
      → Steady Q (spin_loop k fl clocks rounds end_time exit now last)
  unfolding spin_loop
  spin_loop-Steady zero end_time exit now last = search steady_rules
  spin_loop-Steady (suc rounds) end_time exit now last =
      search (steady_rules, read_clock-Steady, is_emergency-Steady, spin_loop-Steady rounds)

  loop_for-Steady : (rounds : ℕ) (time exit : D) → Steady Q (loop_for k fl clocks rounds time exit)
  unfolding loop_for
  loop_for-Steady rounds time exit = search (steady_rules, read_clock-Steady, spin_loop-Steady)

  critical_job-Steady :
      (rounds : ℕ) (exec_time program_end : D) (od : ℤ) (cs_length : D)
      → Steady Q (critical_job k fl clocks rounds exec_time program_end od cs_length)
  unfolding critical_job litmus_lock litmus_unlock
  critical_job-Steady rounds exec_time program_end od cs_length =
      search (steady_rules, quiet, read_clock-Steady, loop_for-Steady) depth 12

  spin_job-Steady :
      (rounds : ℕ) (exec_time program_end : D) (od : ℤ) (cs_length : D)
      → Steady Q (spin_job k fl clocks rounds exec_time program_end od cs_length)
  unfolding spin_job sleep_next_period
  spin_job-Steady rounds exec_time program_end od cs_length =
      search (steady_rules, quiet, read_clock-Steady, loop_for-Steady, critical_job-Steady) depth 12

  gettid-Steady : Steady Q (gettid k)
  unfolding gettid
  gettid-Steady = Steady-call quiet k Call.get_tid refl

  get_job_no-Steady : Steady Q (get_job_no k)
  unfolding get_job_no
  get_job_no-Steady = search (steady_rules, quiet)

  report-Steady :
      (o : SpinOptions D)
      → Steady Q (
          if o.verbose
          then (get_job_no k >> (gettid k >> (read_clock k fl clocks clocks.wctime >> pure tt)))
          else pure tt)
  report-Steady o = search (steady_rules, get_job_no-Steady, gettid-Steady, read_clock-Steady)

  pub periodic_jobs-Steady :
      (o : SpinOptions D) (jobs rounds : ℕ) (wcet_ms program_end : D) (od : ℤ)
      → Steady Q (periodic_jobs k fl clocks scan o jobs rounds wcet_ms program_end od)
  unfolding periodic_jobs
  periodic_jobs-Steady o zero rounds wcet_ms program_end od = search steady_rules
  periodic_jobs-Steady o (suc jobs) rounds wcet_ms program_end od =
      search (steady_rules, report-Steady, spin_job-Steady, periodic_jobs-Steady o jobs)
