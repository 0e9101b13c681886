-- ===== src/Litmus/ModeMachine.antt =====
-- task_mode implements a machine with two modes, over any sequence of requests.
use adaptive_liblitmus.Base.{ℕ, ◌≡◌, refl, ◌&&◌, ◌||◌, not, List, [], ◌∷◌, arith, if◌then◌else◌}
use mathlib.Core.Path.{subst}
use adaptive_liblitmus.Base.Int.{ℤ, pos, minus_one, eqb_ℤ}
use adaptive_liblitmus.Kernel.{
  Kernel, Call, Log, Outcome, State, M, ◌>>=◌, pure, continue, continue-value_at, call,
}
use adaptive_liblitmus.Litmus.Mode.{
  sched_normal, sched_litmus, background_task, litmus_rt_task, task_mode,
}
use adaptive_liblitmus.Litmus.ModeLaws.{KeepsPolicy, mode_of, reports-own, changes-own}

-- The machine: a request for the other of the two modes succeeds, any other fails and changes
-- nothing.
abbrev pub request : ℤ → ℤ → ℤ × ℤ
request current mode =
    if (eqb_ℤ mode background_task || eqb_ℤ mode litmus_rt_task) && not (eqb_ℤ mode current)
    then (pos 0, mode)
    else (minus_one, current)

abbrev pub requests : ℤ → List ℤ → List ℤ × ℤ
requests current [] = ([], current)
requests current (m ∷ ms) =
    let step = request current m in let rest = requests step.1 ms in (step.0 ∷ rest.0, rest.1)

-- The same requests made of the library, one after the other.
abbrev pub task_modes : Kernel → List ℤ → M (List ℤ)
task_modes k [] = pure []
task_modes k (m ∷ ms) = do ret ← task_mode k m; rets ← task_modes k ms; pure (ret ∷ rets)

-- A kernel that keeps a policy for the thread and lets it change its own policy.
pub record Permits (k : Kernel) : Type 0 where
  pub keeps : KeepsPolicy k
  pub open keeps use *
  pub permits : (l : Log) (p : ℕ) → k.answer l (Call.set_scheduler keeps.self p) ≡ pos 0

module _ (k : Kernel) (p : Permits k) where
  -- The mode that the kernel holds for the thread.
  abbrev pub mode_now : State → ℤ
  mode_now s = mode_of (p.policy s.log)

  permits-own :
      (before l : Log) (policy : ℕ)
      → k.answer l (Call.set_scheduler (k.answer before Call.get_tid) policy) ≡ pos 0
  permits-own before l policy = rw (p.identifies before) (p.permits l policy)

  pub task_mode-request :
      (mode : ℤ) (s : State)
      → ((task_mode k mode s).0 ≡ Outcome.value (request (mode_now s) mode).0)
        × (mode_now (task_mode k mode s).1 ≡ (request (mode_now s) mode).1)
  unfolding task_mode call
  task_mode-request mode s =
      let l : Log = Call.get_tid ∷ Call.get_tid ∷ s.log in
      let self : ℤ = k.answer (Call.get_tid ∷ s.log) Call.get_tid in
      let asked : Log = Call.get_scheduler self ∷ l in
      ground (
        arith,
        reports-own k p.keeps (Call.get_tid ∷ s.log) l,
        p.quiet_id s.log,
        p.quiet_id (Call.get_tid ∷ s.log),
        p.quiet_get l self,
        permits-own s.log asked sched_normal,
        permits-own s.log asked sched_litmus,
        changes-own k p.keeps s.log asked sched_normal,
        changes-own k p.keeps s.log asked sched_litmus,
      )

  -- Where a run of requests must end, and with which results, from a mode on.
  abbrev Follows : ℤ → List ℤ → ℤ → Outcome (List ℤ) × State → Type 0
  Follows ret ms c r =
      (r.0 ≡ Outcome.value (ret ∷ (requests c ms).0)) × (mode_now r.1 ≡ (requests c ms).1)

  -- On a kernel that keeps a policy for the thread and lets it change its own, any sequence of calls of task_mode returns
  -- what the machine returns, and leaves the thread in the machine's mode.
  pub task_modes-requests :
      (ms : List ℤ) (s : State)
      → ((task_modes k ms s).0 ≡ Outcome.value (requests (mode_now s) ms).0)
        × (mode_now (task_modes k ms s).1 ≡ (requests (mode_now s) ms).1)
  task_modes-requests [] s = (refl, refl)
  task_modes-requests (m ∷ ms) s =
      let c : ℤ × ℤ = request (mode_now s) m in
      let (returns, moves) = task_mode-request m s in
      continue-value_at (λ ret. task_modes k ms >>= λ rets. pure (ret ∷ rets)) (task_mode k m s)
        (λ t. mode_now t ≡ c.1) (Follows c.0 ms c.1) returns moves
        λ t q.
          let (returns', moves') = task_modes-requests ms t in
          subst (λ d. Follows c.0 ms d (continue (λ rets. pure (c.0 ∷ rets)) (task_modes k ms t))) q
            (continue-value_at (λ rets. pure (c.0 ∷ rets)) (task_modes k ms t)
              (λ u. mode_now u ≡ (requests (mode_now t) ms).1) (Follows c.0 ms (mode_now t))
              returns' moves' (λ u q'. (refl, q')))
