-- ===== src/Lifecycle/Library.antt =====
-- The parts of the library that look up, migrate and initialise: no observation of the life of a
-- task is changed by them.
use adaptive_liblitmus.Base.{
  ℕ, zero, suc, ◌+◌, ◌-◌, refl, ◌&&◌, [], ◌∷◌, ◌++◌, arith, length, ltb, Option, none, some,
  if◌then◌else◌,
}
use adaptive_liblitmus.Base.Int.{ℤ, pos, pos_part, eqb_ℤ, minus_one, is_neg, is_zero, ltb_ℤ}
use adaptive_liblitmus.Base.Chars.{Bytes, codes}
use adaptive_liblitmus.Kernel.{
  Kernel, Call, OpenMode, Log, M, Page, null, map_failed, ◌>>=◌, ◌>>◌, pure, modify, call,
}
use adaptive_liblitmus.Syscalls.{gettid}
use adaptive_liblitmus.KernelIface.Files.{read, after_read, read_loop, read_file, mmap, map_file}
use adaptive_liblitmus.KernelIface.ControlPage.{init_kernel_iface, ctrl_device, to_size}
use adaptive_liblitmus.Migration.CpuSet.{CpuSet}
use adaptive_liblitmus.Migration.Mask.{num_online_cpus, mapping_from, mapping_file, read_mapping}
use adaptive_liblitmus.Migration.Domains.{
  resolve_tid, be_migrate_thread_to_domain, be_migrate_to_domain, domain_to_first_cpu, first_set,
}
use adaptive_liblitmus.Litmus.Sporadic.{init_rt_thread, init_litmus}
use adaptive_liblitmus.Lifecycle.Events.{IsBlind}
use adaptive_liblitmus.Lifecycle.Quiet.{Keeps, Keeps-bind, Keeps-if, Keeps-call}

module _ {B : Type 0} (obs : Log → B) (blind : IsBlind obs) (k : Kernel) where
  read-Keeps : (fd : ℤ) (n : ℕ) → Keeps obs (read k fd n)
  unfolding read
  read-Keeps fd n s = blind (Call.read_bytes fd n) s.log refl

  after_read-Keeps :
      (again : Bytes → M (Option Bytes)) (buf : Bytes) (i : Option Bytes)
      → ((b : Bytes) → Keeps obs (again b))
      → Keeps obs (after_read again buf i)
  unfolding after_read
  after_read-Keeps again buf none h s = refl
  after_read-Keeps again buf (some []) h s = refl
  after_read-Keeps again buf (some (b ∷ bs)) h s = h (buf ++ (b ∷ bs)) s

  read_loop-Keeps :
      (fuel : ℕ) (fd : ℤ) (maxlen : ℕ) (buf : Bytes) → Keeps obs (read_loop k fuel fd maxlen buf)
  unfolding read_loop
  read_loop-Keeps zero fd maxlen buf = λ s. refl
  read_loop-Keeps (suc fuel) fd maxlen buf =
      let again : Bytes → M (Option Bytes) = read_loop k fuel fd maxlen in
      Keeps-if obs (ltb (length buf) maxlen)
        (read k fd (maxlen - length buf) >>= after_read again buf) (pure (some buf))
        (Keeps-bind obs (read k fd (maxlen - length buf)) (after_read again buf)
          (read-Keeps fd (maxlen - length buf))
          (λ i. after_read-Keeps again buf i (λ b. read_loop-Keeps fuel fd maxlen b)))
        (λ s. refl)

  pub read_file-Keeps : (f : Bytes) (n : ℕ) → Keeps obs (read_file k f n)
  unfolding read_file
  read_file-Keeps f n =
      let close : ℤ → Option Bytes → M (Option Bytes) =
        λ fd got. call k (Call.close_file fd) >> pure got in
      let load : ℤ → M (Option Bytes) = λ fd. read_loop k (n + 1) fd n [] >>= close fd in
      Keeps-bind obs (call k (Call.open_file f OpenMode.read_only))
        (λ fd. if eqb_ℤ fd minus_one then pure none else load fd)
        (Keeps-call obs k (Call.open_file f OpenMode.read_only) blind refl)
        λ fd.
          Keeps-if obs (eqb_ℤ fd minus_one) (pure none) (load fd) (λ s. refl)
            (Keeps-bind obs (read_loop k (n + 1) fd n []) (close fd)
              (read_loop-Keeps (n + 1) fd n [])
              λ got.
                Keeps-bind obs (call k (Call.close_file fd)) (λ _. pure got)
                  (Keeps-call obs k (Call.close_file fd) blind refl) (λ _ s. refl))

  mapping_from-Keeps : (i : Option Bytes) → Keeps obs (mapping_from i)
  unfolding mapping_from
  mapping_from-Keeps none s = refl
  mapping_from-Keeps (some []) s = refl
  mapping_from-Keeps (some (b ∷ bs)) s = ground arith

  num_online_cpus-Keeps : Keeps obs (num_online_cpus k)
  unfolding num_online_cpus
  num_online_cpus-Keeps = Keeps-call obs k Call.online_cpus blind refl

  read_mapping-Keeps : (idx : ℤ) (which : Bytes) → Keeps obs (read_mapping k idx which)
  unfolding read_mapping
  read_mapping-Keeps idx which =
      let parse : M (ℤ × CpuSet) = read_file k (mapping_file which idx) 1152 >>= mapping_from in
      Keeps-bind obs (num_online_cpus k)
        (λ cpus. if ltb_ℤ (pos 4096) cpus then pure (minus_one, []) else parse)
        num_online_cpus-Keeps
        λ cpus.
          Keeps-if obs (ltb_ℤ (pos 4096) cpus) (pure (minus_one, [])) parse (λ s. refl)
            (Keeps-bind obs (read_file k (mapping_file which idx) 1152) mapping_from
              (read_file-Keeps (mapping_file which idx) 1152) mapping_from-Keeps)

  pub gettid-Keeps : Keeps obs (gettid k)
  unfolding gettid
  gettid-Keeps = Keeps-call obs k Call.get_tid blind refl

  pub be_migrate_to_domain-Keeps : (domain : ℤ) → Keeps obs (be_migrate_to_domain k domain)
  unfolding be_migrate_to_domain be_migrate_thread_to_domain resolve_tid
  be_migrate_to_domain-Keeps domain =
      let set_to : CpuSet → ℤ → M ℤ = λ set tid'. call k (Call.set_affinity tid' set) in
      let migrate : CpuSet → M ℤ = λ set. gettid k >>= set_to set in
      Keeps-bind obs (read_mapping k domain (codes "domains"))
        (λ x. if is_zero x.0 then migrate x.1 else pure x.0)
        (read_mapping-Keeps domain (codes "domains"))
        λ x.
          Keeps-if obs (is_zero x.0) (migrate x.1) (pure x.0)
            (Keeps-bind obs (gettid k) (set_to x.1) gettid-Keeps
              (λ tid'. Keeps-call obs k (Call.set_affinity tid' x.1) blind refl))
            (λ s. refl)

  pub domain_to_first_cpu-Keeps : (domain : ℤ) → Keeps obs (domain_to_first_cpu k domain)
  unfolding domain_to_first_cpu
  domain_to_first_cpu-Keeps domain =
      let pick : CpuSet → ℤ → M ℤ = λ bits n. pure (first_set (pos_part n) 0 bits) in
      Keeps-bind obs (read_mapping k domain (codes "domains"))
        (λ x. if is_zero x.0 then (num_online_cpus k >>= pick x.1) else pure x.0)
        (read_mapping-Keeps domain (codes "domains"))
        λ x.
          Keeps-if obs (is_zero x.0) (num_online_cpus k >>= pick x.1) (pure x.0)
            (Keeps-bind obs (num_online_cpus k) (pick x.1) num_online_cpus-Keeps (λ n s. refl))
            (λ s. refl)

  mmap-Keeps : (n : ℕ) (fd : ℤ) → Keeps obs (mmap k n fd)
  unfolding mmap
  mmap-Keeps n fd s = blind (Call.map_memory n fd) s.log refl

  map_file-Keeps : (f : Bytes) (addr : Page) (n : ℕ) → Keeps obs (map_file k f addr n)
  unfolding map_file
  map_file-Keeps f addr zero = λ s. refl
  map_file-Keeps f addr (suc n) =
      let result : Page → M (ℤ × Page) =
        λ page. pure ((elim page [ map_failed ↦ minus_one | _ ↦ pos 0 ]), page) in
      let close : ℤ → Page → M (ℤ × Page) = λ fd page. call k (Call.close_file fd) >> result page in
      Keeps-bind obs (call k (Call.open_file f OpenMode.read_write))
        (λ fd. if is_neg fd then pure (fd, addr) else (mmap k (suc n) fd >>= close fd))
        (Keeps-call obs k (Call.open_file f OpenMode.read_write) blind refl)
        λ fd.
          Keeps-if obs (is_neg fd) (pure (fd, addr)) (mmap k (suc n) fd >>= close fd) (λ s. refl)
            (Keeps-bind obs (mmap k (suc n) fd) (close fd) (mmap-Keeps (suc n) fd) λ page.
              Keeps-bind obs (call k (Call.close_file fd)) (λ _. result page)
                (Keeps-call obs k (Call.close_file fd) blind refl) (λ _ s. refl))

  init_kernel_iface-Keeps : Keeps obs (init_kernel_iface k)
  unfolding init_kernel_iface
  init_kernel_iface-Keeps =
      let store : ℤ × Page → M ℤ =
        λ x. modify (λ s. record s { ctrl_page = x.1; np_flag = k.fresh_flag }) >> pure x.0 in
      let map_it : ℤ → M ℤ = λ size. map_file k ctrl_device null (to_size size) >>= store in
      Keeps-bind obs (call k Call.page_size) map_it (Keeps-call obs k Call.page_size blind refl)
        λ size.
          Keeps-bind obs (map_file k ctrl_device null (to_size size)) store
            (map_file-Keeps ctrl_device null (to_size size)) (λ x s. refl)

  pub init_rt_thread-Keeps : Keeps obs (init_rt_thread k)
  unfolding init_rt_thread
  init_rt_thread-Keeps = init_kernel_iface-Keeps

  pub init_litmus-Keeps : Keeps obs (init_litmus k)
  unfolding init_litmus
  init_litmus-Keeps =
      let result : ℤ → ℤ → M ℤ =
        λ ret ret2. pure (if is_zero ret && is_zero ret2 then pos 0 else minus_one) in
      Keeps-bind obs (call k Call.lock_memory) (λ ret. init_rt_thread k >>= result ret)
        (Keeps-call obs k Call.lock_memory blind refl)
        λ ret. Keeps-bind obs (init_rt_thread k) (result ret) init_rt_thread-Keeps (λ ret2 s. refl)
