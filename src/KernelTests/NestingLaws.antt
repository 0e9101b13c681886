-- ===== src/KernelTests/NestingLaws.antt =====
-- What the test cases of tests/nesting.c find out about a kernel.
use adaptive_liblitmus.Base.{
  ◌≡◌, refl, ap, ◌∙◌, ◌&&◌, not, Bool, true, false, List, [], ◌∷◌, arith, if◌then◌else◌,
}
use adaptive_liblitmus.Base.Int.{ℤ, pos, minus_one, is_neg}
use adaptive_liblitmus.Kernel.{Kernel, Call, Log, M, ◌>>◌, call}
use adaptive_liblitmus.Kernel.Descriptors.{erase_self}
use adaptive_liblitmus.Syscalls.{litmus_lock, litmus_unlock, od_close}
use adaptive_liblitmus.Litmus.Mode.{litmus_rt_task}
use adaptive_liblitmus.Litmus.ModeLaws.{mode_of}
use adaptive_liblitmus.Tools.SpinSteady.{sets_up}
use adaptive_liblitmus.KernelTests.{checked, syscall_fails, ebusy}
use adaptive_liblitmus.KernelTests.Judging.{
  Judges, Judges-then, Judges-then_sure, Judges-adapt, Judges-call, Judges-refused,
}
use adaptive_liblitmus.KernelTests.Discipline.{held, Hosts, mode_at, Locks, closes}
use adaptive_liblitmus.KernelTests.Nesting.{take_lock, refused_in, nested_in, in_turn, use_locks}

-- What a test finds in order, of two protocols of which it expects that they may nest, or not.
abbrev pub accepts : (ℤ → ℤ → Bool) → Bool → ℤ → ℤ → Bool
accepts nests true p q = nests p q && nests q p
accepts nests false p q = not (nests p q) && not (nests q p)

accepts_both :
    (nests : ℤ → ℤ → Bool) (may_nest : Bool) (p q : ℤ)
    → accepts nests may_nest p q ≡ (
        (if may_nest then nests p q else not (nests p q))
        && (if may_nest then nests q p else not (nests q p)))
accepts_both nests true p q = refl
accepts_both nests false p q = refl

module _ (k : Kernel) (hosts : Hosts k) (nests : ℤ → ℤ → Bool) (locks : Locks k hosts nests) where
  -- A real-time task with two open locks, that holds some.
  pub record TwoLocks (od p od2 q : ℤ) (ods : List ℤ) (l : Log) : Type 0 where
    pub real_time : mode_at hosts l ≡ litmus_rt_task
    pub first : locks.Has l od p
    pub second : locks.Has l od2 q
    pub holds : held k l ≡ ods

  swap :
      {od p od2 q : ℤ} {ods : List ℤ} {l : Log}
      → TwoLocks od p od2 q ods l
      → TwoLocks od2 q od p ods l
  swap x = record { real_time = x.real_time; first = x.second; second = x.first; holds = x.holds }

  -- Calls that set up nothing and close no lock.
  pub TwoLocks-call :
      {od p od2 q : ℤ} {ods ods' : List ℤ} (c : Call) (l : Log)
      → sets_up c ≡ false
      → closes c ≡ false
      → held k (c ∷ l) ≡ ods'
      → TwoLocks od p od2 q ods l
      → TwoLocks od p od2 q ods' (c ∷ l)
  TwoLocks-call {od} {p} {od2} {q} c l quiet keeps e x = record {
    real_time = ap mode_of (hosts.obliges.unchanged c l quiet) ∙ x.real_time;
    first = locks.stays c l od p keeps x.first;
    second = locks.stays c l od2 q keeps x.second;
    holds = e;
  }

  -- Taking the first lock, and releasing the newest.
  takes :
      {od p od2 q : ℤ}
      → Judges
          (TwoLocks od p od2 q [])
          true
          (checked (litmus_lock k od))
          (λ _. TwoLocks od p od2 q (od ∷ []))
  unfolding litmus_lock
  takes {od} {p} {od2} {q} = Judges-call k (Call.litmus_lock od) true λ l x.
      let a : k.answer l (Call.litmus_lock od) ≡ pos 0 =
        locks.free l od p x.real_time x.first x.holds in
      (rw a refl, λ _. TwoLocks-call (Call.litmus_lock od) l refl refl (rw (a, x.holds) refl) x)

  releases :
      {od p od2 q o : ℤ} {ods : List ℤ}
      → Judges
          (TwoLocks od p od2 q (o ∷ ods))
          true
          (checked (litmus_unlock k o))
          (λ _. TwoLocks od p od2 q ods)
  unfolding litmus_unlock
  releases {od} {p} {od2} {q} {o} {ods} = Judges-call k (Call.litmus_unlock o) true λ l x.
      let a : k.answer l (Call.litmus_unlock o) ≡ pos 0 = locks.unlocks l o ods x.holds in
      (
        rw a refl,
        λ _.
            TwoLocks-call (Call.litmus_unlock o) l refl refl (rw (a, x.holds) (erase_self o ods)) x,
      )

  -- Asking for the second while the first is held.
  nested :
      {od p od2 q : ℤ} (b : Bool)
      → nests p q ≡ b
      → Judges
          (TwoLocks od p od2 q (od ∷ []))
          b
          (checked (litmus_lock k od2))
          (λ _. TwoLocks od p od2 q (od2 ∷ od ∷ []))
  unfolding litmus_lock
  nested {od} {p} {od2} {q} b e = Judges-call k (Call.litmus_lock od2) b λ l x.
      let a : k.answer l (Call.litmus_lock od2) ≡ (if b then pos 0 else minus_one) =
        rw e at (locks.nested l od p od2 q x.real_time x.first x.second x.holds) in
      (
        rw a (negative b),
        λ yes'.
            let zero : k.answer l (Call.litmus_lock od2) ≡ pos 0 = rw yes' at a in
            TwoLocks-call (Call.litmus_lock od2) l refl refl (rw (zero, x.holds) refl) x,
      )
    where
      negative : (b : Bool) → is_neg (if b then pos 0 else minus_one) ≡ not b
      negative true = refl
      negative false = refl

  refused :
      {od p od2 q : ℤ} (b : Bool)
      → not (nests p q) ≡ b
      → Judges
          (TwoLocks od p od2 q (od ∷ []))
          b
          (syscall_fails ebusy (litmus_lock k od2))
          (λ _. TwoLocks od p od2 q (od ∷ []))
  unfolding litmus_lock
  refused {od} {p} {od2} {q} b e = Judges-refused k ebusy (Call.litmus_lock od2) b λ l x.
      let a : k.answer l (Call.litmus_lock od2) ≡ (if nests p q then pos 0 else minus_one) =
        locks.nested l od p od2 q x.real_time x.first x.second x.holds in
      let answer : k.answer l (Call.litmus_lock od2) ≡ (if b then minus_one else pos 0) =
        a ∙ flip (nests p q) b e in
      (
        answer,
        locks.busy l od od2 x.holds,
        λ yes'.
            let not_zero : k.answer l (Call.litmus_lock od2) ≡ minus_one = rw yes' at answer in
            TwoLocks-call (Call.litmus_lock od2) l refl refl (rw not_zero x.holds) x,
      )
    where
      flip :
          (c b : Bool)
          → not c ≡ b
          → (if c then pos 0 else minus_one) ≡ (if b then minus_one else pos 0)
      flip c b e = ground arith

  pub take_lock-Judges :
      {od p od2 q : ℤ}
      → Judges (TwoLocks od p od2 q []) true (take_lock k od) (λ _. TwoLocks od p od2 q [])
  unfolding take_lock
  take_lock-Judges {od} =
      Judges-then (checked (litmus_lock k od)) (checked (litmus_unlock k od)) takes releases

  -- The second lock inside the first.
  in_turn-Judges :
      {od p od2 q : ℤ} (may_nest : Bool)
      → Judges
          (TwoLocks od p od2 q [])
          (if may_nest then nests p q else not (nests p q))
          (in_turn k may_nest od od2)
          (λ _. TwoLocks od p od2 q [])
  unfolding in_turn refused_in nested_in
  in_turn-Judges {od} {p} {od2} {q} false =
      Judges-then (checked (litmus_lock k od))
        (syscall_fails ebusy (litmus_lock k od2) >> checked (litmus_unlock k od)) takes
        (Judges-then_sure (syscall_fails ebusy (litmus_lock k od2)) (checked (litmus_unlock k od))
          (refused (not (nests p q)) refl) releases)
  in_turn-Judges {od} {p} {od2} {q} true =
      let release : M ℤ = checked (litmus_unlock k od2) >> checked (litmus_unlock k od) in
      Judges-then (checked (litmus_lock k od)) (checked (litmus_lock k od2) >> release) takes (
        Judges-then_sure (checked (litmus_lock k od2)) release (nested (nests p q) refl) (
          Judges-then (checked (litmus_unlock k od2)) (checked (litmus_unlock k od)) releases
            releases))

  in_turn_swapped :
      {od p od2 q : ℤ} (may_nest : Bool)
      → Judges
          (TwoLocks od p od2 q [])
          (if may_nest then nests q p else not (nests q p))
          (in_turn k may_nest od2 od)
          (λ _. TwoLocks od p od2 q [])
  in_turn_swapped {od} {p} {od2} {q} may_nest =
      Judges-adapt (in_turn k may_nest od2 od) (in_turn-Judges may_nest) (λ l x. swap x)
        (λ l x. swap x)

  closing :
      {od p od2 q : ℤ}
      → Judges
          (TwoLocks od p od2 q [])
          true
          (checked (od_close k od) >> checked (od_close k od2))
          (λ _ l. Unit)
  unfolding od_close
  closing {od} {p} {od2} {q} =
      Judges-then {J = λ l. Unit {0}} (checked (call k (Call.od_close od)))
        (checked (call k (Call.od_close od2)))
        (Judges-call k (Call.od_close od) true (λ l x. (locks.closes_od l od, λ _. tt)))
        (Judges-call k (Call.od_close od2) true (λ l x. (locks.closes_od l od2, λ _. tt)))

  pub use_locks-Judges :
      {od p od2 q : ℤ} (may_nest : Bool)
      → Judges
          (TwoLocks od p od2 q [])
          (accepts nests may_nest p q)
          (use_locks k may_nest od od2)
          (λ _ l. Unit)
  unfolding use_locks
  use_locks-Judges {od} {p} {od2} {q} may_nest =
      let close : M ℤ = checked (od_close k od) >> checked (od_close k od2) in
      let turns : M ℤ = in_turn k may_nest od od2 >> (in_turn k may_nest od2 od >> close) in
      let ends : Judges (TwoLocks od p od2 q []) (accepts nests may_nest p q) turns
          (λ _ l. Unit {0}) =
        rw (accepts_both nests may_nest p q) (
          Judges-then (in_turn k may_nest od od2) (in_turn k may_nest od2 od >> close)
            (in_turn-Judges may_nest)
            (Judges-then_sure (in_turn k may_nest od2 od) close (in_turn_swapped may_nest)
              closing)) in
      Judges-then (take_lock k od) (take_lock k od2 >> turns) take_lock-Judges (
        Judges-then (take_lock k od2) turns
          (Judges-adapt (take_lock k od2) take_lock-Judges (λ l x. swap x) (λ l x. swap x)) ends)
