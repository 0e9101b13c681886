-- ===== src/KernelTests/LockLaws.antt =====
-- What the test cases lock_srp, lock_fmlp and lock_dflp of tests/locks.c find out about a kernel.
use adaptive_liblitmus.Base.{◌≡◌, refl, Bool, true, [], ◌∷◌, All, some, if◌then◌else◌}
use adaptive_liblitmus.Base.Int.{ℤ, pos, minus_one}
use adaptive_liblitmus.Base.Chars.{Bytes, codes}
use adaptive_liblitmus.Kernel.{Kernel, Call, OpenMode, Log, M, State, ◌>>=◌, ◌>>◌, pure, call}
use adaptive_liblitmus.Syscalls.{
  litmus_unlock, od_close, open_fmlp_sem, open_srp_sem, open_dflp_sem, fmlp_sem, srp_sem, dflp_sem,
}
use adaptive_liblitmus.Litmus.Mode.{litmus_rt_task, background_task}
use adaptive_liblitmus.Tools.Common.{ms2ns}
use adaptive_liblitmus.KernelTests.{checked, syscall_fails, einval}
use adaptive_liblitmus.KernelTests.Nesting.{take_lock, become_real_time}
use adaptive_liblitmus.KernelTests.Judging.{
  outcome, Verdict-outcome, Judges, Judges-bind, Judges-then, Judges-then_sure, Judges-adapt,
  Judges-call, Judges-refused,
}
use adaptive_liblitmus.KernelTests.Discipline.{held, Hosts, mode_at, Locks}
use adaptive_liblitmus.KernelTests.Starting.{
  HoldsNone, Opens, od_openx-Opens, become_real_time-Judges,
}
use adaptive_liblitmus.KernelTests.NestingLaws.{TwoLocks, TwoLocks-call, take_lock-Judges}
use adaptive_liblitmus.KernelTests.NestingRuns.{
  HoldsNone-IsCalm, removes-Judges, open_fmlp_sem-Opens, open_srp_sem-Opens,
}
use adaptive_liblitmus.KernelTests.LockCases.{
  open_locks, close_locks, acquire, lock_srp, lock_fmlp, lock_dflp,
}

-- What becomes of the release of a lock by a task that holds none: it is refused with EINVAL, on a
-- kernel that checks, or else it is accepted.
pub record Releases (k : Kernel) (checks : Bool) : Type 0 where
  pub unowned :
      (l : Log) (od : ℤ)
      → held k l ≡ []
      → k.answer l (Call.litmus_unlock od) ≡ (if checks then minus_one else pos 0)
  pub invalid : (l : Log) (od : ℤ) → held k l ≡ [] → k.errno_of l (Call.litmus_unlock od) ≡ einval

module _ (k : Kernel) (hosts : Hosts k) (nests : ℤ → ℤ → Bool) (locks : Locks k hosts nests)
    (checks : Bool) (owners : Releases k checks) where
  -- A real-time task that holds nothing, with a lock.
  abbrev OneLock : ℤ → ℤ → Log → Type 0
  OneLock od p = TwoLocks k hosts nests locks od p od p []

  unowned-Judges :
      (od p : ℤ)
      → Judges (OneLock od p) checks (syscall_fails einval (litmus_unlock k od)) (λ _. OneLock od p)
  unfolding litmus_unlock
  unowned-Judges od p = Judges-refused k einval (Call.litmus_unlock od) checks λ l x.
      let a : k.answer l (Call.litmus_unlock od) ≡ (if checks then minus_one else pos 0) =
        owners.unowned l od x.holds in
      (
        a,
        owners.invalid l od x.holds,
        λ refuses.
            let not_zero : k.answer l (Call.litmus_unlock od) ≡ minus_one = rw refuses at a in
            TwoLocks-call k hosts nests locks (Call.litmus_unlock od) l refl refl
              (rw not_zero x.holds) x,
      )

  close_locks-Judges :
      (fd : ℤ) (name : Bytes)
      → Judges (λ l. Unit {0}) true (close_locks k fd name) (λ _ l. Unit {0})
  unfolding close_locks
  close_locks-Judges fd name =
      Judges-then {J = λ l. Unit {0}} (checked (call k (Call.close_file fd)))
        (checked (call k (Call.remove_file name)) >> pure tt)
        (Judges-call k (Call.close_file fd) true (λ l x. (locks.closes_file l fd, λ _. tt)))
        (removes-Judges k hosts nests locks name)

  -- With the lock open, to the end of the test.
  uses :
      (fd : ℤ) (name : Bytes) (od p : ℤ)
      → Judges
          (OneLock od p)
          checks
          (take_lock k od
            >> (take_lock k od
                >> (take_lock k od
                    >> (syscall_fails einval (litmus_unlock k od)
                        >> (checked (od_close k od) >> close_locks k fd name)))))
          (λ _ l. Unit {0})
  unfolding od_close
  uses fd name od p =
      let takes : Judges (OneLock od p) true (take_lock k od) (λ _. OneLock od p) =
        take_lock-Judges k hosts nests locks in
      let clean : M (Unit {0}) = checked (od_close k od) >> close_locks k fd name in
      let release : M (Unit {0}) = syscall_fails einval (litmus_unlock k od) >> clean in
      Judges-then (take_lock k od) (take_lock k od >> (take_lock k od >> release)) takes (
        Judges-then (take_lock k od) (take_lock k od >> release) takes (
          Judges-then (take_lock k od) release takes (
            Judges-then_sure (syscall_fails einval (litmus_unlock k od)) clean (unowned-Judges od p)
              (Judges-then {J = λ l. Unit {0}} (checked (od_close k od)) (close_locks k fd name)
                (Judges-call k (Call.od_close od) true (λ l x. (locks.closes_od l od, λ _. tt)))
                (close_locks-Judges fd name)))))

  acquire-Judges :
      (name : Bytes) (open_sem : ℤ → M ℤ) (p : ℤ)
      → ((fd : ℤ) → Opens k hosts nests locks (open_sem fd) p)
      → Judges
          (HoldsNone k hosts background_task)
          checks
          (acquire k name open_sem)
          (λ _ l. Unit {0})
  unfolding acquire open_locks
  acquire-Judges name open_sem p opens =
      let opening : Call = Call.open_file name OpenMode.create in
      let work : ℤ → ℤ → M (Unit {0}) = λ fd od.
        take_lock k od
        >> (take_lock k od
            >> (take_lock k od
                >> (syscall_fails einval (litmus_unlock k od)
                    >> (checked (od_close k od) >> close_locks k fd name)))) in
      let begin : ℤ → M (Unit {0}) = λ fd. checked (open_sem fd) >>= work fd in
      Judges-bind (checked (call k opening))
        (λ fd. become_real_time k (ms2ns 10) (ms2ns 100) >> begin fd)
        (Judges-call k opening true λ l x. (
          locks.opens_file l name,
          λ _. HoldsNone-IsCalm k hosts nests locks background_task opening l refl refl refl x,
        ))
        λ fd.
          Judges-then (become_real_time k (ms2ns 10) (ms2ns 100)) (begin fd)
            (become_real_time-Judges k hosts (ms2ns 10) (ms2ns 100))
            (Judges-bind (checked (open_sem fd)) (work fd)
              (opens fd (HoldsNone k hosts litmus_rt_task)
                (HoldsNone-IsCalm k hosts nests locks litmus_rt_task))
              λ od.
                Judges-adapt (work fd od) (uses fd name od p)
                  (λ l x. record { real_time = x.0.0; first = x.1; second = x.1; holds = x.0.1 })
                  (λ l x. x))

  -- On a kernel that keeps to a discipline of nested locks, and hosts a sporadic task in partition 0:
  -- each of lock_srp, lock_fmlp and lock_dflp, started as a background task that holds no lock, ends without a failure
  -- where the kernel refuses, with EINVAL, to release a lock that the task does not hold, and with
  -- exit(200) where the kernel accepts that.
  pub acquire_tests-Checks :
      (s : State)
      → mode_at hosts s.log ≡ background_task
      → held k s.log ≡ []
      → All (λ test. (test s).0 ≡ outcome checks) (lock_srp k ∷ lock_fmlp k ∷ lock_dflp k ∷ [])
  unfolding lock_srp lock_fmlp lock_dflp open_dflp_sem
  acquire_tests-Checks s mode empty =
      let runs : (name : Bytes) (open_sem : ℤ → M ℤ) (p : ℤ)
          → ((fd : ℤ) → Opens k hosts nests locks (open_sem fd) p)
          → (acquire k name open_sem s).0 ≡ outcome checks =
        λ name open_sem p opens.
          Verdict-outcome ((acquire-Judges name open_sem p opens).run s (mode, empty)) in
      (
        runs (codes ".srp_locks") (λ fd. open_srp_sem k fd (pos 0)) srp_sem
            (λ fd. open_srp_sem-Opens k hosts nests locks fd (pos 0)),
        (
          runs (codes ".fmlp_locks") (λ fd. open_fmlp_sem k fd (pos 0)) fmlp_sem
              (λ fd. open_fmlp_sem-Opens k hosts nests locks fd (pos 0)),
          (
            runs (codes ".dflp_locks") (λ fd. open_dflp_sem k fd (pos 0) (pos 1)) dflp_sem
                open_dflp_sem-Opens,
            tt,
          ),
        ),
      )
    where
      open_dflp_sem-Opens :
          (fd : ℤ) → Opens k hosts nests locks (open_dflp_sem k fd (pos 0) (pos 1)) dflp_sem
      open_dflp_sem-Opens fd = od_openx-Opens k hosts nests locks fd dflp_sem (pos 0) (some (pos 1))
