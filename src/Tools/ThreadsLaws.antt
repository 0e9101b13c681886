-- ===== src/Tools/ThreadsLaws.antt =====
-- bin/base_mt_task.c: main starts its threads and joins them, and a thread does its jobs.
use adaptive_liblitmus.Base.{ℕ, zero, suc, ◌+◌, ◌≡◌, refl, ap, ◌∙◌, ◌∷◌, arith, some}
use adaptive_liblitmus.Base.Int.{ℤ, pos}
use adaptive_liblitmus.Kernel.{
  Kernel, Call, Log, M, Outcome, State, ◌>>◌, pure, continue-value_at, call,
}
use adaptive_liblitmus.Litmus.Sporadic.{init_litmus, init_rt_thread}
use adaptive_liblitmus.Litmus.Mode.{background_task}
use adaptive_liblitmus.Litmus.ModeLaws.{mode_of}
use adaptive_liblitmus.Lifecycle.Library.{init_rt_thread-Keeps}
use adaptive_liblitmus.Lifecycle.Phase.{Phase, phase_of, phase_of-IsBlind}
use adaptive_liblitmus.Lifecycle.Returning.{init_litmus-Returns, init_rt_thread-Returns}
use adaptive_liblitmus.Tools.BaseTask.{
  base_thread, rt_thread, create_threads, join_threads, base_mt_main,
}
use adaptive_liblitmus.Tools.BaseTaskLaws.{
  HasDone, Cooperates, jobs_done, jobs_done-IsBlind, IsAt, base_thread-HasDone,
}

-- The first `n` threads started, in order, after the calls of l.
abbrev pub started : ℕ → Log → Log
started zero l = l
started (suc n) l = Call.start_thread n ∷ started n l

abbrev pub joined : ℕ → Log → Log
joined zero l = l
joined (suc n) l = Call.join_thread n ∷ joined n l

abbrev Logs : Log → Outcome (Unit {0}) × State → Type 0
Logs l r = (r.0 ≡ Outcome.value tt) × (r.1.log ≡ l)

create_threads-Logs :
    (k : Kernel) (n i : ℕ) (l : Log) (s : State)
    → s.log ≡ started i l
    → Logs (started (i + n) l) (create_threads k n i s)
unfolding create_threads call
create_threads-Logs k zero i l s e = (refl, e ∙ ap (λ j. started j l) (omega arith))
create_threads-Logs k (suc n) i l s e =
    let (returns, same) =
      create_threads-Logs k n (i + 1) l (call k (Call.start_thread i) s).1
        (ap (λ x. Call.start_thread i ∷ x) e ∙ ap (λ j. started j l) {x = suc i} (omega arith)) in
    (returns, same ∙ ap (λ j. started j l) (omega arith))

join_threads-Logs :
    (k : Kernel) (n i : ℕ) (l : Log) (s : State)
    → s.log ≡ joined i l
    → Logs (joined (i + n) l) (join_threads k n i s)
unfolding join_threads call
join_threads-Logs k zero i l s e = (refl, e ∙ ap (λ j. joined j l) (omega arith))
join_threads-Logs k (suc n) i l s e =
    let (returns, same) =
      join_threads-Logs k n (i + 1) l (call k (Call.join_thread i) s).1
        (ap (λ x. Call.join_thread i ∷ x) e ∙ ap (λ j. joined j l) {x = suc i} (omega arith)) in
    (returns, same ∙ ap (λ j. joined j l) (omega arith))

-- Whatever init_litmus reports, main of base_mt_task starts its ten threads in order, and then
-- joins each of them once, in the same order, before it returns 0; it makes no other calls but
-- those of init_litmus.
pub base_mt_main-joins :
    (k : Kernel) (s : State)
    → ((base_mt_main k s).0 ≡ Outcome.value (pos 0))
      × ((base_mt_main k s).1.log ≡ joined 10 (started 10 (init_litmus k s).1.log))
unfolding base_mt_main
base_mt_main-joins k s =
    let l : Log = (init_litmus k s).1.log in
    let (ret, returns) = init_litmus-Returns k s in
    let joins : M ℤ = join_threads k 10 0 >> pure (pos 0) in
    continue-value_at (λ _. create_threads k 10 0 >> joins) (init_litmus k s) (λ t. t.log ≡ l)
      (λ r. (r.0 ≡ Outcome.value (pos 0)) × (r.1.log ≡ joined 10 (started 10 l))) returns refl
      λ t here.
        let (creates, running) = create_threads-Logs k 10 0 l t here in
        continue-value_at (λ _. joins) (create_threads k 10 0 t) (λ u. u.log ≡ started 10 l)
          (λ r. (r.0 ≡ Outcome.value (pos 0)) × (r.1.log ≡ joined 10 (started 10 l))) creates
          running
          λ u there.
            let (ends, over) = join_threads-Logs k 10 0 (started 10 l) u there in
            continue-value_at (λ _. pure (pos 0)) (join_threads k 10 0 u)
              (λ v. v.log ≡ joined 10 (started 10 l))
              (λ r. (r.0 ≡ Outcome.value (pos 0)) × (r.1.log ≡ joined 10 (started 10 l))) ends over
              (λ v all. (refl, all))

-- On a kernel that accepts task parameters and lets the thread change its policy, which nothing
-- else changes: a thread of base_mt_task that starts in the background completes one job in each
-- round of its loop, as a real-time task in the life cycle, and never returns.
pub rt_thread-HasDone :
    (k : Kernel) (c : Cooperates k) (rounds : ℕ) (s : State)
    → phase_of k s.log ≡ some Phase.background
    → mode_of (c.permits.policy s.log) ≡ background_task
    → HasDone k (jobs_done s.log + rounds) (rt_thread k rounds s)
unfolding rt_thread
rt_thread-HasDone k c rounds s phase mode =
    let n : ℕ = jobs_done s.log in
    let (ret, returns) = init_rt_thread-Returns k s in
    continue-value_at (λ _. base_thread k rounds) (init_rt_thread k s)
      (λ t. IsAt k c Phase.background n t.log) (HasDone k (n + rounds)) returns
      (
        init_rt_thread-Keeps (phase_of k) (phase_of-IsBlind k) k s ∙ phase,
        ap mode_of (init_rt_thread-Keeps c.permits.policy c.unaffected k s) ∙ mode,
        init_rt_thread-Keeps jobs_done jobs_done-IsBlind k s,
      )
      (base_thread-HasDone k c rounds n)
