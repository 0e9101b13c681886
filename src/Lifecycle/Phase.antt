-- ===== src/Lifecycle/Phase.antt =====
-- The life cycle that LITMUS^RT expects of a task, as a state machine over its system calls: set
-- parameters with a budget and a period, become a real-time task, then wait for a release, open
-- locks, complete jobs, and unlock what was locked before anything else; and become a background
-- task again, or be replaced by another program.
use adaptive_liblitmus.Base.{
  ◌==◌, ◌≡◌, refl, Bool, false, not, ◌&&◌, List, [], ◌∷◌, Option, none, some, if◌then◌else◌,
}
use adaptive_liblitmus.Base.Int.{ℤ, eqb_ℤ, is_neg, is_zero}
use adaptive_liblitmus.Base.Chars.{Bytes}
use adaptive_liblitmus.Kernel.{Kernel, RtTask, Call, Log}
use adaptive_liblitmus.Litmus.Mode.{sched_normal, sched_litmus}
use adaptive_liblitmus.Lifecycle.Events.{is_event, IsBlind}

pub data Phase : Type 0 where
  background : Phase
  configured : Phase
  real_time : Phase
  critical : ℤ → Phase  -- between litmus_lock and litmus_unlock of a descriptor
  finished : Phase
  executed : List Bytes → Phase  -- a program and its arguments, which take the place of the caller

-- A task without a budget or a period is none.
abbrev pub has_budget : RtTask → Bool
has_budget p = not (p.exec_cost == 0) && not (p.period == 0)

-- What an event with this answer makes of a phase; `none` where it must not happen.
abbrev pub advance : ℤ → Call → Phase → Option Phase
advance a (Call.set_rt_task_param pid p) Phase.background =
    if has_budget p then some (if is_neg a then Phase.background else Phase.configured) else none
advance a (Call.set_scheduler pid policy) Phase.configured =
    if policy == sched_litmus
    then some (if is_zero a then Phase.real_time else Phase.configured)
    else none
advance a (Call.set_scheduler pid policy) Phase.real_time =
    if policy == sched_normal
    then some (if is_zero a then Phase.finished else Phase.real_time)
    else none
advance a Call.wait_for_ts_release Phase.real_time = some Phase.real_time
advance a (Call.od_open fd t i c) Phase.real_time = some Phase.real_time
advance a Call.complete_job Phase.real_time = some Phase.real_time
advance a (Call.litmus_lock od) Phase.real_time = some (Phase.critical od)
advance a (Call.litmus_unlock od) (Phase.critical held) =
    if eqb_ℤ od held then some Phase.real_time else none
advance a (Call.exec args) Phase.real_time = some (Phase.executed args)
advance a c p = none

-- The events that the life cycle is about: sleeping is none.
abbrev pub is_step : Call → Bool
is_step (Call.sleep n) = false
is_step c = is_event c

-- The phase after the calls of a log, if each was in its place.
abbrev pub phase_of : Kernel → Log → Option Phase
phase_of k [] = some Phase.background
phase_of k (c ∷ l) =
    if is_step c
    then (elim (phase_of k l) [ none ↦ none | some p ↦ advance (k.answer l c) c p ])
    else phase_of k l

is_step-of_event : (c : Call) → is_event c ≡ false → is_step c ≡ false
is_step-of_event (Call.sleep n) e = refl
is_step-of_event c e = e

pub phase_of-IsBlind : (k : Kernel) → IsBlind (phase_of k)
phase_of-IsBlind k c l e = rw (is_step-of_event c e) refl
