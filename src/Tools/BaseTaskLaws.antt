-- ===== src/Tools/BaseTaskLaws.antt =====
-- bin/base_task.c: every round of the skeleton completes a job as a real-time task.
use adaptive_liblitmus.Base.{ℕ, zero, suc, ◌+◌, ◌≡◌, refl, ap, ◌∙◌, false, [], ◌∷◌, arith, some}
use adaptive_liblitmus.Base.Int.{ℤ, pos, is_neg}
use adaptive_liblitmus.Kernel.{
  Kernel, Call, Log, M, Outcome, RtTask, State, ◌>>◌, pure, continue, continue-value_at, call,
}
use adaptive_liblitmus.Syscalls.{gettid, set_rt_task_param, sleep_next_period}
use adaptive_liblitmus.Litmus.Sporadic.{init_litmus}
use adaptive_liblitmus.Litmus.Mode.{task_mode, litmus_rt_task, background_task}
use adaptive_liblitmus.Litmus.ModeMachine.{Permits, request, task_mode-request}
use adaptive_liblitmus.Litmus.ModeLaws.{mode_of}
use adaptive_liblitmus.Lifecycle.Events.{IsBlind}
use adaptive_liblitmus.Lifecycle.Library.{init_litmus-Keeps}
use adaptive_liblitmus.Lifecycle.Phase.{Phase, phase_of, phase_of-IsBlind}
use adaptive_liblitmus.Lifecycle.Returning.{init_litmus-Returns}
use adaptive_liblitmus.Lifecycle.Runs.{Ends}
use adaptive_liblitmus.Lifecycle.Switch.{task_mode-start}
use adaptive_liblitmus.Tools.BaseTask.{base_param, base_jobs, base_thread, base_main}

-- How many jobs were completed.
abbrev pub jobs_done : Log → ℕ
jobs_done [] = 0
jobs_done (Call.complete_job ∷ l) = suc (jobs_done l)
jobs_done (c ∷ l) = jobs_done l

pub jobs_done-IsBlind : IsBlind jobs_done
jobs_done-IsBlind Call.complete_job l e = cc e
jobs_done-IsBlind c l e = refl

-- A kernel that accepts task parameters and lets the thread change its policy, which is changed
-- by nothing else.
pub record Cooperates (k : Kernel) : Type 0 where
  pub permits : Permits k
  pub accepts :
      (l : Log) (pid : ℤ) (p : RtTask) → is_neg (k.answer l (Call.set_rt_task_param pid p)) ≡ false
  pub unaffected : IsBlind permits.policy
  pub unaffected_set :
      (l : Log) (pid : ℤ) (p : RtTask)
      → permits.policy (Call.set_rt_task_param pid p ∷ l) ≡ permits.policy l

pub Ends-value :
    {A : Type 0} {k : Kernel} {Q : A → Phase → Type 0} {r : Outcome A × State} {a : A}
    → Ends k Q r
    → r.0 ≡ Outcome.value a
    → (q : Phase) × (phase_of k r.1.log ≡ some q) × Q a q
Ends-value {a = a} (Ends.ends {a = b} {q = q} p h) e = let same : b ≡ a = cc in (q, p, rw same at h)
Ends-value (Ends.exits p) e = absurd (cc)
Ends-value (Ends.faults p) e = absurd (cc)

-- The program after `n` rounds that started after `done` jobs.
abbrev pub HasDone : {A : Type 0} → Kernel → ℕ → Outcome A × State → Type 0
HasDone k n r =
    (r.0 ≡ Outcome.fault) × (phase_of k r.1.log ≡ some Phase.real_time) × (jobs_done r.1.log ≡ n)

base_jobs-HasDone :
    (k : Kernel) (rounds : ℕ) (s : State)
    → phase_of k s.log ≡ some Phase.real_time
    → HasDone k (jobs_done s.log + rounds) (base_jobs k rounds s)
unfolding base_jobs sleep_next_period call
base_jobs-HasDone k zero s e = (refl, e, omega arith)
base_jobs-HasDone k (suc rounds) s e =
    let t : State = (call k Call.complete_job s).1 in
    let (stops, phase, done) = base_jobs-HasDone k rounds t (rw e refl) in
    (stops, phase, done ∙ omega arith)

pub HasDone-after :
    {A B : Type 0} (k : Kernel) (n : ℕ) (f : A → M B) (r : Outcome A × State)
    → HasDone k n r
    → HasDone k n (continue f r)
HasDone-after k n f (Outcome.fault, t) (e, h, h') = (refl, h, h')
HasDone-after k n f (Outcome.value a, t) (e, h, h') = absurd (cc)
HasDone-after k n f (Outcome.exited a, t) (e, h, h') = absurd (cc)

task_mode-jobs_done :
    (k : Kernel) (mode : ℤ) (s : State) → jobs_done (task_mode k mode s).1.log ≡ jobs_done s.log
unfolding task_mode call
task_mode-jobs_done k mode s = ground arith

module _ (k : Kernel) (c : Cooperates k) where
  -- In a phase, with the policy of a background task, and after `n` jobs.
  abbrev pub IsAt : Phase → ℕ → Log → Type 0
  IsAt q n l =
      (phase_of k l ≡ some q) × (mode_of (c.permits.policy l) ≡ background_task) × (jobs_done l ≡ n)

  -- From the transition to real-time mode on.
  abbrev looping : ℕ → M (Unit {0})
  looping rounds = base_jobs k rounds >> (task_mode k background_task >> pure tt)

  starts-HasDone :
      (rounds n : ℕ) (s : State)
      → IsAt Phase.configured n s.log
      → HasDone k (n + rounds) ((task_mode k litmus_rt_task >> looping rounds) s)
  starts-HasDone rounds n s (phase, mode, done) =
      let (returns, moves) = task_mode-request k c.permits litmus_rt_task s in
      let accepted : (request (mode_of (c.permits.policy s.log)) litmus_rt_task).0 ≡ pos 0 =
        rw mode refl in
      let ok : (task_mode k litmus_rt_task s).0 ≡ Outcome.value (pos 0) =
        returns ∙ ap Outcome.value accepted in
      let (q, at, started) = Ends-value (task_mode-start k s phase) ok in
      continue-value_at (λ _. looping rounds) (task_mode k litmus_rt_task s)
        (λ t. (phase_of k t.log ≡ some Phase.real_time) × (jobs_done t.log ≡ n))
        (HasDone k (n + rounds)) ok
        (at ∙ ap some (started refl), task_mode-jobs_done k litmus_rt_task s ∙ done)
        λ t (phase', done').
          HasDone-after k (n + rounds) (λ _. task_mode k background_task >> pure tt)
            (base_jobs k rounds t) (rw done' at (base_jobs-HasDone k rounds t phase'))

  pub base_thread-HasDone :
      (rounds n : ℕ) (s : State)
      → IsAt Phase.background n s.log
      → HasDone k (n + rounds) (base_thread k rounds s)
  unfolding base_thread base_param gettid set_rt_task_param call
  base_thread-HasDone rounds n s (phase, mode, done) =
      let me : ℤ = k.answer s.log Call.get_tid in
      let own : State = (call k Call.get_tid s).1 in
      let set : State = (call k (Call.set_rt_task_param me (base_param k)) own).1 in
      starts-HasDone rounds n set (
        rw (phase, c.accepts own.log me (base_param k)) refl,
        ap mode_of
              (c.unaffected_set own.log me (base_param k) ∙ c.unaffected Call.get_tid s.log refl)
            ∙ mode,
        done,
      )

  -- On a kernel that accepts task parameters and lets the thread change its policy, which nothing
  -- else changes: started in the background, the skeleton completes one job in each round of its
  -- loop, as a real-time task in the life cycle, and never returns.
  pub base_main-HasDone :
      (rounds : ℕ) (s : State)
      → phase_of k s.log ≡ some Phase.background
      → mode_of (c.permits.policy s.log) ≡ background_task
      → HasDone k (jobs_done s.log + rounds) (base_main k rounds s)
  unfolding base_main
  base_main-HasDone rounds s phase mode =
      let n : ℕ = jobs_done s.log in
      let (ret, returns) = init_litmus-Returns k s in
      continue-value_at (λ _. base_thread k rounds >> pure (pos 0)) (init_litmus k s)
        (λ t. IsAt Phase.background n t.log) (HasDone k (n + rounds)) returns
        (
          init_litmus-Keeps (phase_of k) (phase_of-IsBlind k) k s ∙ phase,
          ap mode_of (init_litmus-Keeps c.permits.policy c.unaffected k s) ∙ mode,
          init_litmus-Keeps jobs_done jobs_done-IsBlind k s,
        )
        λ t idle.
          HasDone-after k (n + rounds) (λ _. pure (pos 0)) (base_thread k rounds t)
            (base_thread-HasDone rounds n t idle)
