-- ===== src/KernelTests/NestingRuns.antt =====
-- The test cases of tests/nesting.c as test code with a verdict, for any two protocols.
use adaptive_liblitmus.Base.{refl, ap, ◌∙◌, Bool, true, [], Option, none}
use adaptive_liblitmus.Base.Int.{ℤ, pos}
use adaptive_liblitmus.Base.Chars.{Bytes, codes}
use adaptive_liblitmus.Kernel.{Kernel, Call, OpenMode, Log, M, ◌>>=◌, ◌>>◌, pure, call}
use adaptive_liblitmus.Syscalls.{fmlp_sem, srp_sem, open_fmlp_sem, open_srp_sem, od_open}
use adaptive_liblitmus.Litmus.Locks.{litmus_open_lock}
use adaptive_liblitmus.Litmus.Mode.{litmus_rt_task, background_task}
use adaptive_liblitmus.Litmus.ModeLaws.{mode_of}
use adaptive_liblitmus.KernelTests.{checked}
use adaptive_liblitmus.KernelTests.Judging.{
  Judges, Judges-bind, Judges-then, Judges-then_sure, Judges-adapt, Judges-pure, Judges-call,
}
use adaptive_liblitmus.KernelTests.Discipline.{Hosts, Locks}
use adaptive_liblitmus.KernelTests.Starting.{
  HoldsNone, IsCalm, Opens, become_real_time-Judges, litmus_open_lock-Opens, od_openx-Opens,
}
use adaptive_liblitmus.KernelTests.NestingLaws.{accepts, TwoLocks, use_locks-Judges}
use adaptive_liblitmus.KernelTests.Nesting.{become_real_time, use_locks, in_namespace, in_file}

module _ (k : Kernel) (hosts : Hosts k) (nests : ℤ → ℤ → Bool) (locks : Locks k hosts nests) where
  pub HoldsNone-IsCalm : (mode : ℤ) → IsCalm k hosts (HoldsNone k hosts mode)
  HoldsNone-IsCalm mode c l quiet keeps same (at, empty) =
      (ap mode_of (hosts.obliges.unchanged c l quiet) ∙ at, same ∙ empty)

  Has-IsCalm : (mode od p : ℤ) → IsCalm k hosts (λ l. HoldsNone k hosts mode l × locks.Has l od p)
  Has-IsCalm mode od p c l quiet keeps same (h, has) =
      (HoldsNone-IsCalm mode c l quiet keeps same h, locks.stays c l od p keeps has)

  -- What both kinds of tests do with the locks, and before they clean up.
  with_locks-Judges :
      (may_nest : Bool) (open1 open2 : M ℤ) (p q : ℤ) (clean : M (Unit {0}))
      → Opens k hosts nests locks open1 p
      → Opens k hosts nests locks open2 q
      → Judges (λ l. Unit {0}) true clean (λ _ l. Unit {0})
      → Judges
          (HoldsNone k hosts litmus_rt_task)
          (accepts nests may_nest p q)
          (checked open1 >>= λ od. checked open2 >>= λ od2. use_locks k may_nest od od2 >> clean)
          (λ _ l. Unit {0})
  with_locks-Judges may_nest open1 open2 p q clean h1 h2 cleans =
      Judges-bind (checked open1)
        (λ od. checked open2 >>= λ od2. use_locks k may_nest od od2 >> clean)
        (h1 (HoldsNone k hosts litmus_rt_task) (HoldsNone-IsCalm litmus_rt_task))
        λ od.
          Judges-bind (checked open2) (λ od2. use_locks k may_nest od od2 >> clean)
            (h2 (λ l. HoldsNone k hosts litmus_rt_task l × locks.Has l od p)
              (Has-IsCalm litmus_rt_task od p))
            λ od2.
              Judges-then_sure (use_locks k may_nest od od2) clean
                (Judges-adapt (use_locks k may_nest od od2)
                  (use_locks-Judges k hosts nests locks may_nest) (two od od2) (λ l x. x))
                cleans
    where
      two :
          (od od2 : ℤ) (l : Log)
          → (HoldsNone k hosts litmus_rt_task l × locks.Has l od p) × locks.Has l od2 q
          → TwoLocks k hosts nests locks od p od2 q [] l
      two od od2 l x = record { real_time = x.0.0.0; first = x.0.1; second = x.1; holds = x.0.0.1 }

  pub removes-Judges :
      (f : Bytes)
      → Judges
          (λ l. Unit {0})
          true
          (checked (call k (Call.remove_file f)) >> pure tt)
          (λ _ l. Unit {0})
  removes-Judges f =
      Judges-then {J = λ l. Unit {0}} (checked (call k (Call.remove_file f))) (pure tt)
        (Judges-call k (Call.remove_file f) true (λ l x. (locks.removes l f, λ _. tt)))
        (Judges-pure tt)

  pub in_namespace-Judges :
      (may_nest : Bool) (f : Bytes) (p : ℤ) (c : Option ℤ) (q : ℤ) (d : Option ℤ)
      → Judges
          (HoldsNone k hosts background_task)
          (accepts nests may_nest p q)
          (in_namespace k may_nest f p c q d)
          (λ _ l. Unit {0})
  unfolding in_namespace
  in_namespace-Judges may_nest f p c q d =
      let clean : M (Unit {0}) = checked (call k (Call.remove_file f)) >> pure tt in
      Judges-then (become_real_time k 10 100)
        (checked (litmus_open_lock k p (pos 0) f c) >>= λ od.
          checked (litmus_open_lock k q (pos 1) f d) >>= λ od2.
          use_locks k may_nest od od2 >> clean)
        (become_real_time-Judges k hosts 10 100)
        (with_locks-Judges may_nest (litmus_open_lock k p (pos 0) f c)
          (litmus_open_lock k q (pos 1) f d) p q clean
          (litmus_open_lock-Opens k hosts nests locks p (pos 0) f c)
          (litmus_open_lock-Opens k hosts nests locks q (pos 1) f d) (removes-Judges f))

  pub in_file-Judges :
      (may_nest : Bool) (open1 open2 : ℤ → ℤ → M ℤ) (p q : ℤ)
      → ((fd : ℤ) → Opens k hosts nests locks (open1 fd (pos 0)) p)
      → ((fd : ℤ) → Opens k hosts nests locks (open2 fd (pos 1)) q)
      → Judges
          (HoldsNone k hosts background_task)
          (accepts nests may_nest p q)
          (in_file k may_nest open1 open2)
          (λ _ l. Unit {0})
  unfolding in_file
  in_file-Judges may_nest open1 open2 p q h1 h2 =
      let file : Bytes = codes ".fmlp_locks" in
      let opening : Call = Call.open_file file OpenMode.create in
      let clean : ℤ → M (Unit {0}) = λ fd.
        checked (call k (Call.close_file fd))
        >> (checked (call k (Call.remove_file file)) >> pure tt) in
      let with_file : ℤ → M (Unit {0}) = λ fd. checked (open1 fd (pos 0)) >>= λ od.
      checked (open2 fd (pos 1)) >>= λ od2. use_locks k may_nest od od2 >> clean fd in
      Judges-bind (checked (call k opening)) (λ fd. become_real_time k 10 100 >> with_file fd)
        (Judges-call k opening true (λ l x. (
          locks.opens_file l file,
          λ _. HoldsNone-IsCalm background_task opening l refl refl refl x,
        )))
        λ fd.
          Judges-then (become_real_time k 10 100) (with_file fd)
            (become_real_time-Judges k hosts 10 100)
            (with_locks-Judges may_nest (open1 fd (pos 0)) (open2 fd (pos 1)) p q (clean fd) (h1 fd)
              (h2 fd)
              (Judges-then {J = λ l. Unit {0}} (checked (call k (Call.close_file fd)))
                (checked (call k (Call.remove_file file)) >> pure tt)
                (Judges-call k (Call.close_file fd) true (λ l x. (locks.closes_file l fd, λ _. tt)))
                (removes-Judges file)))

  pub open_fmlp_sem-Opens : (fd i : ℤ) → Opens k hosts nests locks (open_fmlp_sem k fd i) fmlp_sem
  unfolding open_fmlp_sem od_open
  open_fmlp_sem-Opens fd i = od_openx-Opens k hosts nests locks fd fmlp_sem i none

  pub open_srp_sem-Opens : (fd i : ℤ) → Opens k hosts nests locks (open_srp_sem k fd i) srp_sem
  unfolding open_srp_sem od_open
  open_srp_sem-Opens fd i = od_openx-Opens k hosts nests locks fd srp_sem i none
