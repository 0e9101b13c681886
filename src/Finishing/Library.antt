-- ===== src/Finishing/Library.antt =====
-- The functions of the library, as code that ends without a fault.
use adaptive_liblitmus.Base.{
  ℕ, zero, suc, ◌+◌, ◌-◌, ◌<◌, ◌≡◌, refl, true, ◌&&◌, [], ◌∷◌, ◌++◌, arith, length, length-append,
  ltb, Option, none, some, if◌then◌else◌,
}
use adaptive_liblitmus.Base.Int.{ℤ, pos, minus_one, eqb_ℤ}
use adaptive_liblitmus.Base.Chars.{Bytes}
use adaptive_liblitmus.Kernel.{Kernel, RtTask, Call, Log, M, Page, ◌>>=◌, ◌>>◌, pure, modify, call}
use adaptive_liblitmus.Syscalls.{gettid, set_rt_task_param, od_openx}
use adaptive_liblitmus.KernelIface.Files.{read, after_read, read_loop, read_file, mmap, map_file}
use adaptive_liblitmus.KernelIface.ControlPage.{init_kernel_iface}
use adaptive_liblitmus.Migration.Mask.{num_online_cpus, mapping_from, read_mapping}
use adaptive_liblitmus.Migration.AnyText.{parse_mask-returns}
use adaptive_liblitmus.Migration.Domains.{
  resolve_tid, be_migrate_thread_to_domain, be_migrate_to_domain, domain_to_first_cpu,
}
use adaptive_liblitmus.Litmus.Sporadic.{init_rt_thread, init_litmus}
use adaptive_liblitmus.Litmus.Mode.{
  sched_litmus, sched_normal, background_task, litmus_rt_task, neg_einval, task_mode,
}
use adaptive_liblitmus.Litmus.Locks.{litmus_open_lock}
use adaptive_liblitmus.Tools.Common.{bail_out}
use adaptive_liblitmus.Finishing.{
  Finishes, IsStable, Safe, Safe-pure, Safe-bind, Safe-if, Safe-call, Safe-modify, safe_rules,
}

module _ {I : Log → Type 0} (stable : IsStable I) (k : Kernel) where
  pub gettid-Safe : Safe I (gettid k)
  unfolding gettid
  gettid-Safe = search (safe_rules, stable)

  pub set_rt_task_param-Safe : (pid : ℤ) (p : RtTask) → Safe I (set_rt_task_param k pid p)
  unfolding set_rt_task_param
  set_rt_task_param-Safe pid p = search (safe_rules, stable)

  read-Safe : (fd : ℤ) (n : ℕ) → Safe I (read k fd n)
  unfolding read
  read-Safe fd n = record { run = λ s h. Finishes.returns (stable (Call.read_bytes fd n) s.log h) }

  after_read-Safe :
      (again : Bytes → M (Option Bytes)) (maxlen : ℕ) (buf : Bytes)
      → ltb (length buf) maxlen ≡ true
      → ((b : Bytes) → maxlen - length b < maxlen - length buf → Safe I (again b))
      → (i : Option Bytes) → Safe I (after_read again buf i)
  unfolding after_read
  after_read-Safe again maxlen buf room h none = search safe_rules
  after_read-Safe again maxlen buf room h (some []) = search safe_rules
  after_read-Safe again maxlen buf room h (some (b ∷ bs)) =
      h (buf ++ (b ∷ bs)) (ground (arith, length-append buf (b ∷ bs), room))

  -- A round of the loop adds a byte, so it has enough of them.
  read_loop-Safe :
      (fuel : ℕ) (fd : ℤ) (maxlen : ℕ) (buf : Bytes)
      → maxlen - length buf < fuel
      → Safe I (read_loop k fuel fd maxlen buf)
  unfolding read_loop
  read_loop-Safe zero fd maxlen buf h = absurd (omega arith)
  read_loop-Safe (suc fuel) fd maxlen buf h =
      let again : Bytes → M (Option Bytes) = read_loop k fuel fd maxlen in
      Safe-if (ltb (length buf) maxlen) (read k fd (maxlen - length buf) >>= after_read again buf)
        (pure (some buf))
        (λ room.
          Safe-bind (read k fd (maxlen - length buf)) (after_read again buf)
            (read-Safe fd (maxlen - length buf))
            (after_read-Safe again maxlen buf room
              (λ b l. read_loop-Safe fuel fd maxlen b (omega arith))))
        (λ full. Safe-pure (some buf))

  pub read_file-Safe : (f : Bytes) (n : ℕ) → Safe I (read_file k f n)
  unfolding read_file
  read_file-Safe f n = search (safe_rules, stable, read_loop-Safe, read_enough n)
    where
      read_enough : (n : ℕ) → n - length {A = ℕ} [] < n + 1
      read_enough n = omega arith

  mapping_from-Safe : (i : Option Bytes) → Safe I (mapping_from i)
  unfolding mapping_from
  mapping_from-Safe none = search safe_rules
  mapping_from-Safe (some []) = search safe_rules
  mapping_from-Safe (some (b ∷ bs)) =
      let (s, e) = parse_mask-returns (b ∷ bs) in rw (e, mapping_from) (Safe-pure (pos 0, s))

  pub num_online_cpus-Safe : Safe I (num_online_cpus k)
  unfolding num_online_cpus
  num_online_cpus-Safe = search (safe_rules, stable)

  pub read_mapping-Safe : (idx : ℤ) (which : Bytes) → Safe I (read_mapping k idx which)
  unfolding read_mapping
  read_mapping-Safe idx which =
      search (safe_rules, read_file-Safe, mapping_from-Safe, num_online_cpus-Safe)

  resolve_tid-Safe : (tid : ℤ) → Safe I (resolve_tid k tid)
  unfolding resolve_tid
  resolve_tid-Safe tid = search (safe_rules, gettid-Safe)

  pub be_migrate_to_domain-Safe : (domain : ℤ) → Safe I (be_migrate_to_domain k domain)
  unfolding be_migrate_to_domain be_migrate_thread_to_domain
  be_migrate_to_domain-Safe domain =
      search (safe_rules, stable, read_mapping-Safe, resolve_tid-Safe)

  pub domain_to_first_cpu-Safe : (domain : ℤ) → Safe I (domain_to_first_cpu k domain)
  unfolding domain_to_first_cpu
  domain_to_first_cpu-Safe domain = search (safe_rules, read_mapping-Safe, num_online_cpus-Safe)

  -- What task_mode does once it knows the policy.
  abbrev switch : ℤ → ℤ → ℤ → M ℤ
  switch mode me policy =
      let old_mode = if eqb_ℤ policy (pos sched_litmus) then litmus_rt_task else background_task in
      if eqb_ℤ old_mode litmus_rt_task && eqb_ℤ mode background_task
      then call k (Call.set_scheduler me sched_normal)
      else if eqb_ℤ old_mode background_task && eqb_ℤ mode litmus_rt_task
      then call k (Call.set_scheduler me sched_litmus)
      else (modify (λ s. record s { errno = neg_einval }) >> pure minus_one)

  refuse-Safe : Safe I (modify (λ s. record s { errno = neg_einval }))
  refuse-Safe = Safe-modify (λ s. record s { errno = neg_einval }) (λ s. refl)

  switch-Safe : (mode me policy : ℤ) → Safe I (switch mode me policy)
  switch-Safe mode me policy = search (safe_rules, stable, refuse-Safe)

  pub task_mode-Safe : (mode : ℤ) → Safe I (task_mode k mode)
  unfolding task_mode
  task_mode-Safe mode =
      Safe-bind (gettid k)
        (λ me. gettid k >>= λ self. call k (Call.get_scheduler self) >>= switch mode me) gettid-Safe
        λ me.
          Safe-bind (gettid k) (λ self. call k (Call.get_scheduler self) >>= switch mode me)
            gettid-Safe
            λ self.
              Safe-bind (call k (Call.get_scheduler self)) (switch mode me)
                (Safe-call stable k (Call.get_scheduler self)) (switch-Safe mode me)

  pub litmus_open_lock-Safe :
      (protocol id : ℤ) (f : Bytes) (c : Option ℤ) → Safe I (litmus_open_lock k protocol id f c)
  unfolding litmus_open_lock od_openx
  litmus_open_lock-Safe protocol id f c = search (safe_rules, stable)

  mmap-Safe : (n : ℕ) (fd : ℤ) → Safe I (mmap k n fd)
  unfolding mmap
  mmap-Safe n fd = record { run = λ s h. Finishes.returns (stable (Call.map_memory n fd) s.log h) }

  map_file-Safe : (f : Bytes) (addr : Page) (n : ℕ) → Safe I (map_file k f addr n)
  unfolding map_file
  map_file-Safe f addr zero = search safe_rules
  map_file-Safe f addr (suc n) = search (safe_rules, stable, mmap-Safe)

  store-Safe :
      (x : ℤ × Page) → Safe I (modify (λ s. record s { ctrl_page = x.1; np_flag = k.fresh_flag }))
  store-Safe x = Safe-modify (λ s. record s { ctrl_page = x.1; np_flag = k.fresh_flag }) (λ s. refl)

  init_kernel_iface-Safe : Safe I (init_kernel_iface k)
  unfolding init_kernel_iface
  init_kernel_iface-Safe = search (safe_rules, stable, map_file-Safe, store-Safe)

  pub init_litmus-Safe : Safe I (init_litmus k)
  unfolding init_litmus init_rt_thread
  init_litmus-Safe = search (safe_rules, stable, init_kernel_iface-Safe)

pub bail_out-Safe : {I : Log → Type 0} {A : Type 0} → Safe I (bail_out {A = A})
unfolding bail_out
bail_out-Safe = record { run = λ s h. Finishes.exits }
