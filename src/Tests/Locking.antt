-- ===== src/Tests/Locking.antt =====
-- A kernel on which PCP locks nest, and SRP locks, and no others, and which lets no task release a
-- lock that it does not hold.
use adaptive_liblitmus.Base.{
  ℕ, suc, ◌<◌, ◌≡◌, refl, sym, ◌∙◌, ◌&&◌, ◌||◌, Bool, true, false, List, [], ◌∷◌, arith,
  if◌then◌else◌,
}
use adaptive_liblitmus.Base.Int.{ℤ, pos, minus_one, eqb_ℤ, is_zero}
use adaptive_liblitmus.Base.Chars.{codes}
use adaptive_liblitmus.Kernel.{Kernel, Call, Log}
use adaptive_liblitmus.Kernel.Descriptors.{erase}
use adaptive_liblitmus.Syscalls.{pcp_sem, srp_sem}
use adaptive_liblitmus.KernelIface.Content.{Hands, Holds}
use adaptive_liblitmus.Migration.Mask.{mapping_file}
use adaptive_liblitmus.Migration.MaskText.{render}
use adaptive_liblitmus.Tools.SpinReturns.{Obliges}
use adaptive_liblitmus.Tests.Disk.{disk, unread, disk-Hands, answer_of}
use adaptive_liblitmus.Tests.Tasks.{two_cpus, two_cpus-IsMask, two_cpus-short, policy_after}
use adaptive_liblitmus.Tests.Phases.{policy_after-IsBlind}
use adaptive_liblitmus.Tests.Returns.{policy_after-unchanged}
use adaptive_liblitmus.KernelTests.{ebusy, einval}
use adaptive_liblitmus.KernelTests.Discipline.{held, Hosts, Locks, closes}
use adaptive_liblitmus.KernelTests.LockLaws.{Releases}

abbrev pub nest_alike : ℤ → ℤ → Bool
nest_alike p q = eqb_ℤ p q && (eqb_ℤ p pcp_sem || eqb_ℤ p srp_sem)

-- Objects are numbered in the order of opening.
abbrev objects : Log → ℕ
objects [] = 0
objects (Call.od_open fd p i c ∷ l) = suc (objects l)
objects (c ∷ l) = objects l

abbrev protocol_at : Log → ℤ → ℤ
protocol_at [] od = minus_one
protocol_at (Call.od_open fd p i c ∷ l) od =
    if eqb_ℤ od (pos (objects l)) then p else protocol_at l od
protocol_at (c ∷ l) od = protocol_at l od

abbrev may_lock : Log → List ℤ → ℤ → Bool
may_lock l [] od = true
may_lock l (o ∷ ods) od = nest_alike (protocol_at l o) (protocol_at l od)

abbrev holds_none : List ℤ → Bool
holds_none [] = true
holds_none (o ∷ ods) = false

-- The locks that are held, the newest first.
abbrev stack : Log → List ℤ
stack [] = []
stack (Call.litmus_lock od ∷ l) = if may_lock l (stack l) od then od ∷ stack l else stack l
stack (Call.litmus_unlock od ∷ l) = erase od (stack l)
stack (c ∷ l) = stack l

abbrev lock_answer : Log → Call → ℤ
lock_answer l (Call.get_scheduler pid) = pos (policy_after l)
lock_answer l (Call.od_open fd p i c) = pos (objects l)
lock_answer l (Call.litmus_lock od) = if may_lock l (stack l) od then pos 0 else minus_one
lock_answer l (Call.litmus_unlock od) = if holds_none (stack l) then minus_one else pos 0
lock_answer l c = answer_of c

abbrev lock_errno : Call → ℤ
lock_errno (Call.litmus_lock od) = ebusy
lock_errno c = einval

abbrev pub locking : Kernel
locking = record (disk (render two_cpus)) { answer = lock_answer; errno_of = λ l c. lock_errno c }

unlocked :
    (od : ℤ) (ods : List ℤ)
    → (if is_zero (if holds_none ods then minus_one else pos 0) then erase od ods else ods)
      ≡ erase od ods
unlocked od [] = refl
unlocked od (o ∷ ods) = refl

stack-held : (l : Log) → held locking l ≡ stack l
stack-held [] = refl
stack-held (Call.litmus_lock od ∷ l) = rw (stack-held l) (ground arith)
stack-held (Call.litmus_unlock od ∷ l) = rw (stack-held l) (unlocked od (stack l))
stack-held (c ∷ l) = stack-held l

abbrev locking-Obliges : Obliges locking
locking-Obliges = record {
  welcomes = record {
    cooperates = record {
      permits = record {
        keeps = record {
          self = pos 42;
          policy = policy_after;
          identifies = λ l. refl;
          reports = λ l. refl;
          changes = λ l p e. refl;
          quiet_id = λ l. refl;
          quiet_get = λ l pid. refl;
        };
        permits = λ l p. refl;
      };
      accepts = λ l pid p. refl;
      unaffected = policy_after-IsBlind;
      unaffected_set = λ l pid p. refl;
    };
    releases = λ l. refl;
  };
  unchanged = policy_after-unchanged;
}

pub locking-Holds : Holds locking (mapping_file (codes "domains") (pos 0)) (render two_cpus)
locking-Holds = record {
  fd = 3;
  left = unread (λ l. render two_cpus);
  opens = λ l. refl;
  whole = λ l. refl;
  serves = λ l n h.
      let x : Hands (disk (render two_cpus)) (pos 3) (unread (λ l. render two_cpus)) l n =
        disk-Hands (λ l. render two_cpus) l n h in
      record {
        chunk = x.chunk;
        rest = x.rest;
        handed = x.handed;
        split = x.split;
        fits = x.fits;
        after = x.after;
        at_end = x.at_end;
      };
}

abbrev pub locking-Hosts : Hosts locking
locking-Hosts = record {
  obliges = locking-Obliges;
  cpus = 4;
  few = omega arith;
  online = λ l. refl;
  partition = two_cpus;
  mask = two_cpus-IsMask;
  short = two_cpus-short;
  file = locking-Holds;
  allows = λ l tid set. refl;
}

-- An object that was opened, and its protocol.
abbrev Has : Log → ℤ → ℤ → Type 0
Has l od p = (n : ℕ) × (od ≡ pos n) × (n < objects l) × (protocol_at l od ≡ p)

Has-stays : (c : Call) (l : Log) (od p : ℤ) → closes c ≡ false → Has l od p → Has (c ∷ l) od p
Has-stays (Call.od_open fd q i c) l od p e (n, same, opened, at) =
    (n, same, omega (arith, opened), older)
  where
    older : protocol_at (Call.od_open fd q i c ∷ l) od ≡ p
    older = ground (arith, same, opened, at)
Has-stays c l od p e (n, same, opened, at) = (n, same, opened, at)

nested_answer :
    (l : Log) (od p od2 q : ℤ)
    → Has l od p
    → Has l od2 q
    → held locking l ≡ od ∷ []
    → lock_answer l (Call.litmus_lock od2) ≡ (if nest_alike p q then pos 0 else minus_one)
nested_answer l od p od2 q (n, same, opened, at) (n', same', opened', at') h =
    let top : stack l ≡ od ∷ [] = sym (stack-held l) ∙ h in rw (top, at, at') refl

pub locking-Locks : Locks locking locking-Hosts nest_alike
locking-Locks = record {
  Has = Has;
  opens = λ l fd p i c. (refl, (objects l, refl, omega arith, newest l p));
  stays = Has-stays;
  free = λ l od p mode has h. let empty : stack l ≡ [] = sym (stack-held l) ∙ h in rw empty refl;
  nested = λ l od p od2 q mode has has' h. nested_answer l od p od2 q has has' h;
  busy = λ l od od2 h. refl;
  unlocks = λ l od ods h. let top : stack l ≡ od ∷ ods = sym (stack-held l) ∙ h in rw top refl;
  closes_od = λ l od. refl;
  opens_file = λ l f. refl;
  closes_file = λ l fd. refl;
  removes = λ l f. refl;
}
  where
    newest :
        (l : Log) (p : ℤ)
        → (if eqb_ℤ (pos (objects l)) (pos (objects l)) then p else protocol_at l (pos (objects l)))
          ≡ p
    newest l p = ground arith

pub locking-Releases : Releases locking true
locking-Releases = record {
  unowned = λ l od h. let empty : stack l ≡ [] = sym (stack-held l) ∙ h in rw empty refl;
  invalid = λ l od h. refl;
}
