-- ===== src/Migration/Affinity.antt =====
-- The affinity that be_migrate_to_cpu asks for.
use adaptive_liblitmus.Base.{
  ℕ, ◌+◌, ◌*◌, ◌/◌, ◌<◌, ◌≡◌, ◌⊎◌, refl, inl, inr, Bool-cases, true, false, ◌∷◌, arith, length, ltb,
  get_or-replicate, length-replicate, ◌==◌, if◌then◌else◌,
}
use adaptive_liblitmus.Base.Int.{ℤ, pos, negsuc, minus_one, is_zero, is_neg, ◌≤ℤ◌}
use adaptive_liblitmus.Kernel.{Kernel, Call, Log, Outcome, State, call}
use adaptive_liblitmus.Syscalls.{gettid}
use adaptive_liblitmus.Migration.CpuSet.{CpuSet, cpu_alloc, cpu_set, cpu_isset, cpu_isset-cpu_set}
use adaptive_liblitmus.Migration.Mask.{num_online_cpus}
use adaptive_liblitmus.Migration.Domains.{resolve_tid, be_migrate_thread_to_cpu}

-- A set of room for n CPUs in which one of them is set has that CPU and no other.
cpu_isset-single : (n c x : ℕ) → c < n → cpu_isset x (cpu_set c (cpu_alloc n)) ≡ (x == c)
cpu_isset-single n c x h =
    let size : length (cpu_alloc n) ≡ (n + 63) / 64 * 64 = length-replicate _ false in
    let clear : cpu_isset x (cpu_alloc n) ≡ false = get_or-replicate _ x false in
    rw (cpu_isset-cpu_set x c (cpu_alloc n), size, clear) (ground arith)

-- The calls by which a thread id is found: 0 stands for the caller, who asks for its own.
abbrev pub tid_log : ℤ → Log → Log
tid_log tid l = if is_zero tid then Call.get_tid ∷ l else l

abbrev pub tid_of : Kernel → ℤ → Log → ℤ
tid_of k tid l = if is_zero tid then k.answer l Call.get_tid else tid

-- What becomes of a request to move a thread: a negative target is refused without any call; one
-- that is not below the number of CPUs online, or where that number is not known, after asking for
-- the number; and for any other, an online CPU c, the thread's affinity is set to c alone.
abbrev pub Migrates : Kernel → ℤ → ℤ → State → Outcome ℤ × State → Type 0
Migrates k tid target s r =
    let online = k.answer s.log Call.online_cpus in
    let l = Call.online_cpus ∷ s.log in
    ((is_neg target ≡ true) × (r.0 ≡ Outcome.value minus_one) × (r.1.log ≡ s.log))
    ⊎ ((is_neg target ≡ false)
        × (online ≤ℤ target)
        × (r.0 ≡ Outcome.value minus_one)
        × (r.1.log ≡ l))
    ⊎ ((c : ℕ) × (n : ℕ) × (target ≡ pos c)
        × (online ≡ pos n)
        × (c < n)
        × ((set : CpuSet) × ((x : ℕ) → cpu_isset x set ≡ (x == c))
            × (r.1.log ≡ Call.set_affinity (tid_of k tid l) set ∷ tid_log tid l)
            × (r.0
                ≡ Outcome.value
                    (k.answer (tid_log tid l) (Call.set_affinity (tid_of k tid l) set)))))

-- An integer is negative, or at least one that is not, or below it.
order_cases : (a : ℤ) (c : ℕ) → (a ≤ℤ pos c) ⊎ ((n : ℕ) × (a ≡ pos n) × (c < n))
order_cases (negsuc n) c = inl (omega arith)
order_cases (pos n) c = elim (Bool-cases (ltb c n)) [
  | inl more ↦ inr (n, refl, ground arith)
  | inr less ↦ inl (ground arith)
]

-- Whatever the target is and the kernel answers: a negative target gives -1 and no call; a target
-- that is not below the number of CPUs online, also where that number is not known, gives -1 after
-- that one question; and for an online CPU the thread's affinity is set to that CPU alone, and the
-- answer to that call is the result.
pub be_migrate_thread_to_cpu-affinity :
    (k : Kernel) (tid target : ℤ) (s : State)
    → Migrates k tid target s (be_migrate_thread_to_cpu k tid target s)
unfolding be_migrate_thread_to_cpu resolve_tid gettid num_online_cpus call
be_migrate_thread_to_cpu-affinity k tid (negsuc t) s = inl (refl, refl, refl)
be_migrate_thread_to_cpu-affinity k tid (pos c) s =
    elim (order_cases (k.answer s.log Call.online_cpus) c) [
      | inl far ↦ inr (inl (refl, far, ground arith, ground arith))
      | inr (n, e, h) ↦ inr (
          inr (
            c,
            n,
            refl,
            e,
            h,
            (cpu_set c (cpu_alloc n), (λ x. cpu_isset-single n c x h), ground arith, ground arith),
          ))
    ]
