-- ===== src/Litmus/ModeLaws.antt =====
-- task_mode as a state machine: which transitions it makes, and that a kernel which does what it is
-- told is in the mode that was asked for afterwards.
use adaptive_liblitmus.Base.{ℕ, ◌≡◌, ◌≢◌, ◌⊎◌, ◌∷◌, arith, ◌==◌, if◌then◌else◌}
use adaptive_liblitmus.Base.Int.{ℤ, pos, minus_one}
use adaptive_liblitmus.Kernel.{Kernel, Call, Log, Outcome, State, call}
use adaptive_liblitmus.Litmus.Mode.{
  sched_normal, sched_litmus, background_task, litmus_rt_task, neg_einval, task_mode,
}

-- The mode that a scheduling policy stands for.
abbrev pub mode_of : ℕ → ℤ
mode_of policy = if policy == sched_litmus then litmus_rt_task else background_task

-- A kernel that keeps a policy for the calling thread: the thread has an id of its own, for which the
-- kernel reports that policy and a successful change stores the new one, and asking for the id
-- or for a policy changes nothing. What a change for another id does is left open.
pub record KeepsPolicy (k : Kernel) : Type 0 where
  pub self : ℤ
  pub policy : Log → ℕ
  pub identifies : (l : Log) → k.answer l Call.get_tid ≡ self
  pub reports : (l : Log) → k.answer l (Call.get_scheduler self) ≡ pos (policy l)
  pub changes :
      (l : Log) (p : ℕ)
      → k.answer l (Call.set_scheduler self p) ≡ pos 0
      → policy (Call.set_scheduler self p ∷ l) ≡ p
  pub quiet_id : (l : Log) → policy (Call.get_tid ∷ l) ≡ policy l
  pub quiet_get : (l : Log) (pid : ℤ) → policy (Call.get_scheduler pid ∷ l) ≡ policy l

module _ (k : Kernel) (p : KeepsPolicy k) where
  -- The policy reported for the id that the kernel has just given is the thread's.
  pub reports-own :
      (before l : Log)
      → k.answer l (Call.get_scheduler (k.answer before Call.get_tid)) ≡ pos (p.policy l)
  reports-own before l = rw (p.identifies before) (p.reports l)

  pub changes-own :
      (before l : Log) (policy : ℕ)
      → k.answer l (Call.set_scheduler (k.answer before Call.get_tid) policy) ≡ pos 0
      → p.policy (Call.set_scheduler (k.answer before Call.get_tid) policy ∷ l) ≡ policy
  changes-own before l policy = rw (p.identifies before) (p.changes l policy)

-- The calls by which task_mode finds out the current mode.
abbrev pub asked : Kernel → Log → Log
asked k l =
    Call.get_scheduler (k.answer (Call.get_tid ∷ l) Call.get_tid) ∷ Call.get_tid ∷ Call.get_tid ∷ l

-- Where task_mode returns 0, on a kernel that keeps a policy, the thread is in the mode that was
-- asked for, and was not in it before.
pub task_mode-enters :
    (k : Kernel) (mode : ℤ) (s : State) (p : KeepsPolicy k)
    → (task_mode k mode s).0 ≡ Outcome.value (pos 0)
    → (mode_of (p.policy (task_mode k mode s).1.log) ≡ mode) × (mode_of (p.policy s.log) ≢ mode)
unfolding task_mode call
task_mode-enters k mode s p h =
    let l : Log = Call.get_tid ∷ Call.get_tid ∷ s.log in
    let self : ℤ = k.answer (Call.get_tid ∷ s.log) Call.get_tid in
    ground (
      arith,
      reports-own k p (Call.get_tid ∷ s.log) l,
      p.quiet_id s.log,
      p.quiet_id (Call.get_tid ∷ s.log),
      p.quiet_get l self,
      changes-own k p s.log (Call.get_scheduler self ∷ l) sched_normal,
      changes-own k p s.log (Call.get_scheduler self ∷ l) sched_litmus,
    )

-- On a kernel that keeps a policy, asking for the mode that the thread is in, or for a mode that
-- does not exist, returns -1, sets errno to -EINVAL and calls no scheduler change.
pub task_mode_refuses :
    (k : Kernel) (mode : ℤ) (s : State) (p : KeepsPolicy k)
    → (mode ≡ mode_of (p.policy s.log)) ⊎ ((mode ≢ background_task) × (mode ≢ litmus_rt_task))
    → ((task_mode k mode s).0 ≡ Outcome.value minus_one)
      × ((task_mode k mode s).1.errno ≡ neg_einval)
      × ((task_mode k mode s).1.log ≡ asked k s.log)
unfolding task_mode call
task_mode_refuses k mode s p h =
    let l : Log = Call.get_tid ∷ Call.get_tid ∷ s.log in
    ground (
      arith,
      reports-own k p (Call.get_tid ∷ s.log) l,
      p.quiet_id s.log,
      p.quiet_id (Call.get_tid ∷ s.log),
    )
