-- ===== src/Lifecycle/Switch.antt =====
-- task_mode in the life cycle: where it returns 0 the phase has changed.
use adaptive_liblitmus.Base.{◌≡◌, refl, Bool, true, false, ◌&&◌, if◌then◌else◌}
use adaptive_liblitmus.Base.Int.{ℤ, pos, minus_one, eqb_ℤ, is_zero}
use adaptive_liblitmus.Kernel.{Kernel, Call, M, ◌>>=◌, ◌>>◌, pure, modify, call}
use adaptive_liblitmus.Syscalls.{gettid, sched_setscheduler, sched_getscheduler}
use adaptive_liblitmus.Litmus.Mode.{
  sched_normal, sched_litmus, background_task, litmus_rt_task, neg_einval, task_mode,
}
use adaptive_liblitmus.Lifecycle.Library.{gettid-Keeps}
use adaptive_liblitmus.Lifecycle.Quiet.{Keeps-call}
use adaptive_liblitmus.Lifecycle.Phase.{Phase, phase_of, phase_of-IsBlind}
use adaptive_liblitmus.Lifecycle.Runs.{Runs, Runs-after, Runs-call, ends}

module _ (k : Kernel) where
  -- The two tests of task_mode, with whether the policy is SCHED_LITMUS.
  abbrev change : ℤ → ℤ → Bool → M ℤ
  change mode me is_rt =
      let old_mode : ℤ = if is_rt then litmus_rt_task else background_task in
      if eqb_ℤ old_mode litmus_rt_task && eqb_ℤ mode background_task
      then sched_setscheduler k me sched_normal
      else if eqb_ℤ old_mode background_task && eqb_ℤ mode litmus_rt_task
      then sched_setscheduler k me sched_litmus
      else (modify (λ s. record s { errno = neg_einval }) >> pure minus_one)

  task_mode-Runs :
      {p : Phase} {Q : ℤ → Phase → Type 0} (mode : ℤ)
      → ((me : ℤ) (is_rt : Bool) → Runs k p (change mode me is_rt) Q)
      → Runs k p (task_mode k mode) Q
  unfolding task_mode
  task_mode-Runs mode h =
      let decide : ℤ → ℤ → M ℤ = λ me policy. change mode me (eqb_ℤ policy (pos sched_litmus)) in
      Runs-after k (gettid k) (λ me. gettid k >>= λ self. sched_getscheduler k self >>= decide me)
        (gettid-Keeps (phase_of k) (phase_of-IsBlind k) k)
        λ me.
          Runs-after k (gettid k) (λ self. sched_getscheduler k self >>= decide me)
            (gettid-Keeps (phase_of k) (phase_of-IsBlind k) k)
            λ self.
              Runs-after k (call k (Call.get_scheduler self)) (decide me)
                (Keeps-call (phase_of k) k (Call.get_scheduler self) (phase_of-IsBlind k) refl)
                (λ policy. h me (eqb_ℤ policy (pos sched_litmus)))

  change-start :
      (me : ℤ) (is_rt : Bool)
      → Runs k Phase.configured
          (change litmus_rt_task me is_rt)
          (λ ret q. is_zero ret ≡ true → q ≡ Phase.real_time)
  unfolding sched_setscheduler
  change-start me true = λ s h. ends h (λ e. cc e)
  change-start me false =
      Runs-call k (Call.set_scheduler me sched_litmus) refl
        (λ a. ((if is_zero a then Phase.real_time else Phase.configured), refl, λ e. rw e refl))

  pub task_mode-start :
      Runs k Phase.configured
        (task_mode k litmus_rt_task)
        (λ ret q. is_zero ret ≡ true → q ≡ Phase.real_time)
  task_mode-start = task_mode-Runs litmus_rt_task change-start

  change-stop :
      (me : ℤ) (is_rt : Bool)
      → Runs k Phase.real_time
          (change background_task me is_rt)
          (λ ret q. is_zero ret ≡ true → q ≡ Phase.finished)
  unfolding sched_setscheduler
  change-stop me true =
      Runs-call k (Call.set_scheduler me sched_normal) refl
        (λ a. ((if is_zero a then Phase.finished else Phase.real_time), refl, λ e. rw e refl))
  change-stop me false = λ s h. ends h (λ e. cc e)

  pub task_mode-stop :
      Runs k Phase.real_time
        (task_mode k background_task)
        (λ ret q. is_zero ret ≡ true → q ≡ Phase.finished)
  task_mode-stop = task_mode-Runs background_task change-stop
