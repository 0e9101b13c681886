-- ===== src/Litmus/Setup.antt =====
-- What a thread has told the kernel when it has been set up as a sporadic task, when initialising
-- the library has succeeded, and how long lt_sleep sleeps.
use adaptive_liblitmus.Base.{
  ℕ, suc, ◌+◌, ◌*◌, ◌/◌, ◌%◌, ◌^◌, ◌<◌, ◌≤◌, ◌≡◌, refl, ◌∷◌, arith, length, if◌then◌else◌,
}
use native.Mathlib.Nat.{mod-eq_of_lt}
use adaptive_liblitmus.Base.Bits.{test_bit}
use adaptive_liblitmus.Base.Int.{ℤ, pos, is_zero}
use adaptive_liblitmus.Base.Chars.{codes}
use adaptive_liblitmus.Kernel.{
  Kernel, Call, Log, M, Outcome, State, mapped, ◌>>=◌, pure, continue-value, call,
}
use adaptive_liblitmus.Syscalls.{gettid, set_rt_task_param}
use adaptive_liblitmus.KernelIface.Files.{mmap, map_file}
use adaptive_liblitmus.KernelIface.ControlPage.{init_kernel_iface}
use adaptive_liblitmus.KernelIface.Content.{Holds}
use adaptive_liblitmus.Migration.CpuSet.{CpuSet}
use adaptive_liblitmus.Migration.Mask.{mapping_file}
use adaptive_liblitmus.Migration.MaskText.{Masks, IsMask, render, value_of}
use adaptive_liblitmus.Migration.Domains.{
  resolve_tid, be_migrate_thread_to_domain, be_migrate_to_domain, domain_to_first_cpu,
}
use adaptive_liblitmus.Migration.Lookup.{IsFirst, read_mapping-render, domain_to_first_cpu-IsFirst}
use adaptive_liblitmus.Litmus.Params.{init_rt_task_param}
use adaptive_liblitmus.Litmus.Sporadic.{
  sporadic_partitioned, sporadic_clustered, init_litmus, init_rt_thread, lt_sleep,
}

-- lt_sleep asks for exactly the time that it is given, in whole seconds and less than a second
-- more of nanoseconds.
pub lt_sleep-time :
    (k : Kernel) (timeout : ℕ) (s : State)
    → (sec : ℕ) × (nsec : ℕ) × ((lt_sleep k timeout s).1.log ≡ Call.nanosleep sec nsec ∷ s.log)
      × (sec * 1_000_000_000 + nsec ≡ timeout)
      × (nsec < 1_000_000_000)
unfolding lt_sleep call
lt_sleep-time k timeout s =
    (timeout / 1_000_000_000, timeout % 1_000_000_000, refl, omega arith, omega arith)

-- Where init_litmus returns 0, on a system with a page size, the memory is locked and the control
-- page is mapped.
pub init_litmus-mapped :
    (k : Kernel) (n : ℕ) (s : State)
    → k.answer (Call.lock_memory ∷ s.log) Call.page_size ≡ pos (suc n)
    → suc n < 2 ^ 64
    → (init_litmus k s).0 ≡ Outcome.value (pos 0)
    → (k.answer s.log Call.lock_memory ≡ pos 0) × ((init_litmus k s).1.ctrl_page ≡ mapped)
unfolding init_litmus init_rt_thread init_kernel_iface map_file mmap call
init_litmus-mapped k n s size small h =
    let whole : suc n % 2 ^ 64 ≡ suc n = mod-eq_of_lt small in ground arith

-- The last two calls are those by which the thread asks for its own id and sets the parameters of the
-- thread of that id, and the answer to the second is returned. The parameters are the execution cost
-- and the period that are given, the lowest of the first n CPUs whose bit the mask has, or a negative
-- number, and defaults.
abbrev pub SetsUp : Kernel → ℕ → Masks → ℕ → ℕ → Outcome ℤ × State → Type 0
SetsUp k n m e_ns p_ns r =
    (c : ℤ) × (l : Log) × IsFirst n 0 (test_bit (value_of m)) c
    × (let set =
          Call.set_rt_task_param (k.answer l Call.get_tid)
            (record (init_rt_task_param k) { exec_cost = e_ns; period = p_ns; cpu = c }) in
        (r.1.log ≡ set ∷ Call.get_tid ∷ l)
        × (r.0 ≡ Outcome.value (k.answer (Call.get_tid ∷ l) set)))

module _ (k : Kernel) (n : ℕ) (m : Masks) (domain : ℤ)
    (online : (l : Log) → k.answer l Call.online_cpus ≡ pos n) (mask : IsMask m)
    (short : length (render m) ≤ 1152)
    (file : Holds k (mapping_file (codes "domains") domain) (render m))
    (allows : (l : Log) (tid : ℤ) (set : CpuSet)
      → k.answer l (Call.set_affinity tid set) ≡ pos 0) where
  be_migrate_to_domain_ok :
      (s : State) → n ≤ 4096 → (be_migrate_to_domain k domain s).0 ≡ Outcome.value (pos 0)
  unfolding be_migrate_to_domain be_migrate_thread_to_domain resolve_tid gettid call
  be_migrate_to_domain_ok s few =
      let (set, reads, has) =
        read_mapping-render k n m domain (codes "domains") online mask short file s few in
      continue-value
        (λ x.
          if is_zero x.0
          then (resolve_tid k (pos 0) >>= λ tid. call k (Call.set_affinity tid x.1))
          else pure x.0)
        _ (λ r. r.0 ≡ Outcome.value (pos 0)) reads (λ t. rw (allows _ _ set))

  -- What both functions do once the thread has migrated.
  abbrev set_up : ℕ → ℕ → M ℤ
  set_up e_ns p_ns = domain_to_first_cpu k domain >>= λ cpu. gettid k >>= λ me.
      set_rt_task_param k me
        (record (init_rt_task_param k) { exec_cost = e_ns; period = p_ns; cpu = cpu })

  set_up-SetsUp :
      (e_ns p_ns : ℕ) (s : State) → n ≤ 4096 → SetsUp k n m e_ns p_ns (set_up e_ns p_ns s)
  unfolding gettid set_rt_task_param call
  set_up-SetsUp e_ns p_ns s few =
      let (c, finds, first) =
        domain_to_first_cpu-IsFirst k n m domain online mask short file s few in
      continue-value
        (λ cpu. gettid k >>= λ me.
          set_rt_task_param k me
            (record (init_rt_task_param k) { exec_cost = e_ns; period = p_ns; cpu = cpu }))
        _ (SetsUp k n m e_ns p_ns) finds (λ u. (c, _, first, (refl, refl)))

  -- With n CPUs online, at most 4096, the mask m in the domain's file, and a kernel that lets the
  -- thread migrate, sporadic_partitioned and sporadic_clustered both end by asking for the thread's
  -- own id and setting the parameters of that thread, and return the kernel's answer: the execution cost and the period that were given,
  -- the lowest online CPU of the domain (a negative number if it has none), and the defaults for the
  -- rest.
  pub sporadic_partitioned-params :
      (e_ns p_ns : ℕ) (s : State)
      → n ≤ 4096
      → SetsUp k n m e_ns p_ns (sporadic_partitioned k e_ns p_ns domain s)
        × SetsUp k n m e_ns p_ns (sporadic_clustered k e_ns p_ns domain s)
  unfolding sporadic_partitioned sporadic_clustered
  sporadic_partitioned-params e_ns p_ns s few =
      let migrated : SetsUp k n m e_ns p_ns (
          (be_migrate_to_domain k domain >>= λ ret.
          if is_zero ret then set_up e_ns p_ns else pure ret)
            s) =
        continue-value (λ ret. if is_zero ret then set_up e_ns p_ns else pure ret) _
          (SetsUp k n m e_ns p_ns) (be_migrate_to_domain_ok s few)
          (λ t. set_up-SetsUp e_ns p_ns t few) in
      (migrated, migrated)
