-- ===== src/KernelTests/Discipline.antt =====
-- What a kernel promises of locks that are held one inside the other: an abstract discipline, which
-- says for which protocols a task that holds a lock may ask for another.
use adaptive_liblitmus.Base.{
  ℕ, ◌≤◌, ◌≡◌, Bool, true, false, List, [], ◌∷◌, length, Option, if◌then◌else◌,
}
use adaptive_liblitmus.Base.Int.{ℤ, pos, minus_one, is_neg, is_zero}
use adaptive_liblitmus.Base.Chars.{Bytes, codes}
use adaptive_liblitmus.Kernel.{Kernel, Call, OpenMode, Log}
use adaptive_liblitmus.Kernel.Descriptors.{erase}
use adaptive_liblitmus.KernelIface.Content.{Holds}
use adaptive_liblitmus.Litmus.Mode.{litmus_rt_task}
use adaptive_liblitmus.Litmus.ModeLaws.{mode_of}
use adaptive_liblitmus.Migration.CpuSet.{CpuSet}
use adaptive_liblitmus.Migration.Mask.{mapping_file}
use adaptive_liblitmus.Migration.MaskText.{Masks, IsMask, render}
use adaptive_liblitmus.Tools.SpinReturns.{Obliges}
use adaptive_liblitmus.KernelTests.{ebusy}

-- The locks that the calls of a log have taken and not released again, the newest first.
abbrev pub held : Kernel → Log → List ℤ
held k [] = []
held k (Call.litmus_lock od ∷ l) =
    if is_zero (k.answer l (Call.litmus_lock od)) then od ∷ held k l else held k l
held k (Call.litmus_unlock od ∷ l) =
    if is_zero (k.answer l (Call.litmus_unlock od)) then erase od (held k l) else held k l
held k (c ∷ l) = held k l

-- A kernel on which a thread can become a sporadic task of partition 0.
pub record Hosts (k : Kernel) : Type 0 where
  pub obliges : Obliges k
  pub cpus : ℕ
  pub few : cpus ≤ 4096
  pub online : (l : Log) → k.answer l Call.online_cpus ≡ pos cpus
  pub partition : Masks
  pub mask : IsMask partition
  pub short : length (render partition) ≤ 1152
  pub file : Holds k (mapping_file (codes "domains") (pos 0)) (render partition)
  pub allows : (l : Log) (tid : ℤ) (set : CpuSet) → k.answer l (Call.set_affinity tid set) ≡ pos 0

-- The mode that the kernel holds for the thread.
abbrev pub mode_at : {k : Kernel} → Hosts k → Log → ℤ
mode_at h l = mode_of (h.obliges.welcomes.cooperates.permits.policy l)

-- What closes a descriptor of an object.
abbrev pub closes : Call → Bool
closes (Call.od_close od) = true
closes c = false

-- Locks on such a kernel. `nests p q` says whether a task that holds a lock of protocol p may take
-- one of protocol q; where it may not, the request fails with EBUSY.
pub record Locks (k : Kernel) (hosts : Hosts k) (nests : ℤ → ℤ → Bool) : Type 1 where
  -- a descriptor is open, and of a protocol
  pub Has : Log → ℤ → ℤ → Type 0
  pub opens :
      (l : Log) (fd p i : ℤ) (c : Option ℤ)
      → (is_neg (k.answer l (Call.od_open fd p i c)) ≡ false)
        × Has (Call.od_open fd p i c ∷ l) (k.answer l (Call.od_open fd p i c)) p
  pub stays : (c : Call) (l : Log) (od p : ℤ) → closes c ≡ false → Has l od p → Has (c ∷ l) od p
  pub free :
      (l : Log) (od p : ℤ)
      → mode_at hosts l ≡ litmus_rt_task
      → Has l od p
      → held k l ≡ []
      → k.answer l (Call.litmus_lock od) ≡ pos 0
  pub nested :
      (l : Log) (od p od2 q : ℤ)
      → mode_at hosts l ≡ litmus_rt_task
      → Has l od p
      → Has l od2 q
      → held k l ≡ od ∷ []
      → k.answer l (Call.litmus_lock od2) ≡ (if nests p q then pos 0 else minus_one)
  pub busy :
      (l : Log) (od od2 : ℤ) → held k l ≡ od ∷ [] → k.errno_of l (Call.litmus_lock od2) ≡ ebusy
  pub unlocks :
      (l : Log) (od : ℤ) (ods : List ℤ)
      → held k l ≡ od ∷ ods
      → k.answer l (Call.litmus_unlock od) ≡ pos 0
  -- what does not fail
  pub closes_od : (l : Log) (od : ℤ) → is_neg (k.answer l (Call.od_close od)) ≡ false
  pub opens_file :
      (l : Log) (f : Bytes) → is_neg (k.answer l (Call.open_file f OpenMode.create)) ≡ false
  pub closes_file : (l : Log) (fd : ℤ) → is_neg (k.answer l (Call.close_file fd)) ≡ false
  pub removes : (l : Log) (f : Bytes) → is_neg (k.answer l (Call.remove_file f)) ≡ false
