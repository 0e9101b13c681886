-- ===== src/KernelTests/Starting.antt =====
-- How the test cases of tests/nesting.c begin: as a real-time task with two open locks.
use adaptive_liblitmus.Base.{
  ℕ, ◌≡◌, refl, ap, ◌∙◌, Bool, true, false, [], ◌∷◌, arith, Option, if◌then◌else◌,
}
use adaptive_liblitmus.Base.Int.{ℤ, pos, is_neg, is_zero}
use adaptive_liblitmus.Base.Chars.{Bytes}
use adaptive_liblitmus.Kernel.{
  Kernel, RtTask, Call, OpenMode, Log, M, Outcome, State, ◌>>=◌, pure, call,
}
use adaptive_liblitmus.Syscalls.{gettid, set_rt_task_param, od_openx}
use adaptive_liblitmus.Litmus.Locks.{litmus_open_lock}
use adaptive_liblitmus.Litmus.Mode.{task_mode, litmus_rt_task, background_task}
use adaptive_liblitmus.Litmus.ModeLaws.{mode_of}
use adaptive_liblitmus.Litmus.ModeMachine.{request, task_mode-request}
use adaptive_liblitmus.Litmus.Params.{init_rt_task_param}
use adaptive_liblitmus.Litmus.Setup.{sporadic_partitioned-params}
use adaptive_liblitmus.Litmus.Sporadic.{sporadic_partitioned}
use adaptive_liblitmus.Lifecycle.Events.{IsBlind}
use adaptive_liblitmus.Lifecycle.Quiet.{Keeps, Keeps-bind, Keeps-if}
use adaptive_liblitmus.Lifecycle.Library.{
  gettid-Keeps, be_migrate_to_domain-Keeps, domain_to_first_cpu-Keeps,
}
use adaptive_liblitmus.Migration.Domains.{be_migrate_to_domain, domain_to_first_cpu}
use adaptive_liblitmus.Tools.BaseTaskLaws.{Cooperates}
use adaptive_liblitmus.Tools.SpinSteady.{sets_up}
use adaptive_liblitmus.KernelTests.{checked}
use adaptive_liblitmus.KernelTests.Judging.{Judges, Judges-then, Judges-checked, Judges-call}
use adaptive_liblitmus.KernelTests.Discipline.{held, Hosts, mode_at, Locks, closes}
use adaptive_liblitmus.KernelTests.Nesting.{become_real_time}

pub held-IsBlind : (k : Kernel) → IsBlind (held k)
held-IsBlind k (Call.litmus_lock od) l e = cc e
held-IsBlind k (Call.litmus_unlock od) l e = cc e
held-IsBlind k c l e = refl

task_mode-held : (k : Kernel) (mode : ℤ) → Keeps (held k) (task_mode k mode)
unfolding task_mode call
task_mode-held k mode s = ground arith

-- An observation that setting parameters does not change either.
sporadic_partitioned-Keeps :
    {B : Type 0} (obs : Log → B) (k : Kernel)
    → IsBlind obs
    → ((l : Log) (pid : ℤ) (p : RtTask) → obs (Call.set_rt_task_param pid p ∷ l) ≡ obs l)
    → (e_ns p_ns : ℕ) (partition : ℤ) → Keeps obs (sporadic_partitioned k e_ns p_ns partition)
unfolding sporadic_partitioned
sporadic_partitioned-Keeps obs k blind sets e_ns p_ns partition =
    let set : ℤ → ℤ → M ℤ = λ cpu me.
      set_rt_task_param k me
        (record (init_rt_task_param k) { exec_cost = e_ns; period = p_ns; cpu = cpu }) in
    let own : ℤ → M ℤ = λ cpu. gettid k >>= set cpu in
    let set_up : M ℤ = domain_to_first_cpu k partition >>= own in
    Keeps-bind obs (be_migrate_to_domain k partition)
      (λ ret. if is_zero ret then set_up else pure ret)
      (be_migrate_to_domain-Keeps obs blind k partition)
      λ ret.
        Keeps-if obs (is_zero ret) set_up (pure ret)
          (Keeps-bind obs (domain_to_first_cpu k partition) own
            (domain_to_first_cpu-Keeps obs blind k partition)
            λ cpu. Keeps-bind obs (gettid k) (set cpu) (gettid-Keeps obs blind k) λ me.
              set_keeps me
                (record (init_rt_task_param k) { exec_cost = e_ns; period = p_ns; cpu = cpu }))
          (λ s. refl)
  where
    set_keeps : (pid : ℤ) (p : RtTask) → Keeps obs (set_rt_task_param k pid p)
    set_keeps pid p s = sets s.log pid p

module _ (k : Kernel) (hosts : Hosts k) where
  -- A task in a mode, which holds no lock.
  abbrev pub HoldsNone : ℤ → Log → Type 0
  HoldsNone mode l = (mode_at hosts l ≡ mode) × (held k l ≡ [])

  pub become_real_time-Judges :
      (e_ns p_ns : ℕ)
      → Judges
          (HoldsNone background_task)
          true
          (become_real_time k e_ns p_ns)
          (λ _. HoldsNone litmus_rt_task)
  unfolding become_real_time
  become_real_time-Judges e_ns p_ns =
      Judges-then {J = HoldsNone background_task}
        (checked (sporadic_partitioned k e_ns p_ns (pos 0))) (checked (task_mode k litmus_rt_task))
        (Judges-checked (sporadic_partitioned k e_ns p_ns (pos 0)) is_set_up)
        (Judges-checked (task_mode k litmus_rt_task) switches)
    where
      is_set_up :
          (s : State)
          → HoldsNone background_task s.log
          → (a : ℤ) × ((sporadic_partitioned k e_ns p_ns (pos 0) s).0 ≡ Outcome.value a)
            × (is_neg a ≡ false)
            × HoldsNone background_task (sporadic_partitioned k e_ns p_ns (pos 0) s).1.log
      is_set_up s (mode, empty) =
          let (c, l, first, (calls, returns)) =
            (sporadic_partitioned-params k hosts.cpus hosts.partition (pos 0) hosts.online
              hosts.mask hosts.short hosts.file hosts.allows e_ns p_ns s hosts.few).0 in
          let coop : Cooperates k = hosts.obliges.welcomes.cooperates in
          (
            _,
            returns,
            coop.accepts (Call.get_tid ∷ l) (k.answer l Call.get_tid) _,
            (
              ap mode_of (
                    sporadic_partitioned-Keeps coop.permits.policy k coop.unaffected
                      coop.unaffected_set e_ns p_ns (pos 0) s)
                  ∙ mode,
              sporadic_partitioned-Keeps (held k) k (held-IsBlind k) (λ l pid p. refl) e_ns p_ns
                    (pos 0) s
                  ∙ empty,
            ),
          )

      switches :
          (s : State)
          → HoldsNone background_task s.log
          → (a : ℤ) × ((task_mode k litmus_rt_task s).0 ≡ Outcome.value a)
            × (is_neg a ≡ false)
            × HoldsNone litmus_rt_task (task_mode k litmus_rt_task s).1.log
      switches s (mode, empty) =
          let (returns, moves) =
            task_mode-request k hosts.obliges.welcomes.cooperates.permits litmus_rt_task s in
          let step : request (mode_at hosts s.log) litmus_rt_task ≡ (pos 0, litmus_rt_task) =
            rw mode refl in
          (
            pos 0,
            returns ∙ ap (λ r. Outcome.value r.0) step,
            refl,
            (moves ∙ ap (λ r. r.1) step, task_mode-held k litmus_rt_task s ∙ empty),
          )

  -- A fact that calls keep which set nothing up, close no lock, and take or release none.
  abbrev pub IsCalm : (Log → Type 0) → Type 0
  IsCalm I =
      (c : Call) (l : Log)
      → sets_up c ≡ false
      → closes c ≡ false
      → held k (c ∷ l) ≡ held k l
      → I l
      → I (c ∷ l)

  module _ (nests : ℤ → ℤ → Bool) (locks : Locks k hosts nests) where
    -- Code that opens a lock of a protocol, and returns its descriptor.
    abbrev pub Opens : M ℤ → ℤ → Type 1
    Opens m p =
        (I : Log → Type 0) → IsCalm I → Judges I true (checked m) (λ od l. I l × locks.Has l od p)

    pub od_openx-Opens : (fd p i : ℤ) (c : Option ℤ) → Opens (od_openx k fd p i c) p
    unfolding od_openx
    od_openx-Opens fd p i c I calm = Judges-call k (Call.od_open fd p i c) true λ l x.
        let (ok, has) = locks.opens l fd p i c in
        (ok, λ _. (calm (Call.od_open fd p i c) l refl refl refl x, has))

    pub litmus_open_lock-Opens :
        (p i : ℤ) (namespace : Bytes) (c : Option ℤ) → Opens (litmus_open_lock k p i namespace c) p
    unfolding litmus_open_lock od_openx call
    litmus_open_lock-Opens p i namespace c I calm =
        Judges-checked (litmus_open_lock k p i namespace c) λ s x.
          let file : Call = Call.open_file namespace OpenMode.create in
          let fd : ℤ = k.answer s.log file in
          let l : Log = file ∷ s.log in
          let (ok, has) = locks.opens l fd p i c in
          let od : ℤ = k.answer l (Call.od_open fd p i c) in
          rw (locks.opens_file s.log namespace) (
            od,
            refl,
            ok,
            (
              calm (Call.close_file fd) _ refl refl refl (
                  calm (Call.od_open fd p i c) l refl refl refl (calm file s.log refl refl refl x)),
              locks.stays (Call.close_file fd) _ od p refl has,
            ),
          )
