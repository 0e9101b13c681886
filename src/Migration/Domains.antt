-- ===== src/Migration/Domains.antt =====
-- The public functions of src/migration.c.
use adaptive_liblitmus.Base.{
  ℕ, zero, suc, ◌+◌, Bool, true, ◌||◌, [], ◌∷◌, ltb, if◌then◌else◌, none, some,
}
use adaptive_liblitmus.Base.Bits.{set_bit}
use adaptive_liblitmus.Base.Int.{ℤ, pos, negsuc, minus_one, pos_part, eqb_ℤ, is_neg, is_zero, leb_ℤ}
use adaptive_liblitmus.Base.Chars.{Bytes, codes, starts_with, c_string, atoi}
use adaptive_liblitmus.Kernel.{Kernel, Call, M, ◌>>=◌, pure, call}
use adaptive_liblitmus.Syscalls.{gettid}
use adaptive_liblitmus.KernelIface.Files.{read_file}
use adaptive_liblitmus.Migration.CpuSet.{CpuSet, cpu_alloc, cpu_set, cpu_isset}
use adaptive_liblitmus.Migration.Mask.{num_online_cpus, read_mapping}

-- "NO_CPU", or an error or an empty file, is -1.
unfoldable pub release_master : Kernel → M ℤ
unfolding read_file starts_with atoi c_string
release_master k = do
  got ← read_file k (codes "/proc/litmus/release_master") 6
  pure (elim got [
    | none ↦ minus_one
    | some [] ↦ minus_one
    | some (b ∷ bs) ↦
        if starts_with (codes "NO_CPU") (c_string (b ∷ bs))
        then minus_one
        else atoi (c_string (b ∷ bs))
  ])

-- The loop of cpusettoull, with `n` rounds left from CPU i on.
unfoldable pub collect_mask : ℕ → ℕ → CpuSet → ℕ → ℕ
collect_mask zero i bits mask = mask
collect_mask (suc n) i bits mask =
    collect_mask n (i + 1) bits (if cpu_isset i bits then set_bit mask i else mask)

unfoldable pub cpusettoull : CpuSet → ℕ
unfolding collect_mask
cpusettoull bits = collect_mask 64 0 bits 0

-- `num_online_cpus() > sizeof(mask) * 8`, where the int becomes a size_t: -1 is above it too.
abbrev pub exceeds_ull : ℤ → Bool
exceeds_ull (pos n) = ltb 64 n
exceeds_ull (negsuc n) = true

-- The result, and *mask as it is left.
unfoldable pub mask_of : Kernel → ℤ → Bytes → ℕ → M (ℤ × ℕ)
unfolding num_online_cpus
mask_of k idx which mask = do
  cpus ← num_online_cpus k
  if exceeds_ull cpus then pure (minus_one, mask) else (do
    (ret, bits) ← read_mapping k idx which
    pure (ret, (if is_zero ret then cpusettoull bits else mask)))

unfoldable pub domain_to_cpus : Kernel → ℤ → ℕ → M (ℤ × ℕ)
unfolding mask_of
domain_to_cpus k domain mask = mask_of k domain (codes "domains") mask

unfoldable pub cpu_to_domains : Kernel → ℤ → ℕ → M (ℤ × ℕ)
unfolding mask_of
cpu_to_domains k cpu mask = mask_of k cpu (codes "cpus") mask

-- The loop of domain_to_first_cpu, with `n` rounds left from CPU i on.
unfoldable pub first_set : ℕ → ℕ → CpuSet → ℤ
first_set zero i bits = minus_one
first_set (suc n) i bits =
    let rest = first_set n (i + 1) bits in if cpu_isset i bits then pos i else rest

unfoldable pub domain_to_first_cpu : Kernel → ℤ → M ℤ
unfolding num_online_cpus
domain_to_first_cpu k domain = do
  (ret, bits) ← read_mapping k domain (codes "domains")
  if is_zero ret
      then (do n_online ← num_online_cpus k; pure (first_set (pos_part n_online) 0 bits))
      else pure ret

-- `if (tid == 0) tid = gettid();`
unfoldable pub resolve_tid : Kernel → ℤ → M ℤ
unfolding gettid
resolve_tid k tid = if is_zero tid then gettid k else pure tid

unfoldable pub be_migrate_thread_to_cpu : Kernel → ℤ → ℤ → M ℤ
unfolding num_online_cpus resolve_tid call
be_migrate_thread_to_cpu k tid target_cpu = if is_neg target_cpu then pure minus_one else (do
  num_cpus ← num_online_cpus k
  if eqb_ℤ num_cpus minus_one || leb_ℤ num_cpus target_cpu then pure minus_one else (do
    tid' ← resolve_tid k tid
    call k
        (Call.set_affinity tid' (cpu_set (pos_part target_cpu) (cpu_alloc (pos_part num_cpus))))))

unfoldable pub be_migrate_thread_to_domain : Kernel → ℤ → ℤ → M ℤ
unfolding resolve_tid call
be_migrate_thread_to_domain k tid domain = do
  (ret, set) ← read_mapping k domain (codes "domains")
  if is_zero ret
      then (do tid' ← resolve_tid k tid; call k (Call.set_affinity tid' set))
      else pure ret

unfoldable pub be_migrate_to_cpu : Kernel → ℤ → M ℤ
unfolding be_migrate_thread_to_cpu
be_migrate_to_cpu k target_cpu = be_migrate_thread_to_cpu k (pos 0) target_cpu

unfoldable pub be_migrate_to_domain : Kernel → ℤ → M ℤ
unfolding be_migrate_thread_to_domain
be_migrate_to_domain k domain = be_migrate_thread_to_domain k (pos 0) domain

-- The deprecated functions; the size of the cluster is not used.
unfoldable pub be_migrate_to_cluster : Kernel → ℤ → ℤ → M ℤ
unfolding be_migrate_to_domain
be_migrate_to_cluster k cluster cluster_size = be_migrate_to_domain k cluster

unfoldable pub cluster_to_first_cpu : Kernel → ℤ → ℤ → M ℤ
unfolding domain_to_first_cpu
cluster_to_first_cpu k cluster cluster_size = domain_to_first_cpu k cluster

unfoldable pub partition_to_cpu : Kernel → ℤ → M ℤ
unfolding domain_to_first_cpu
partition_to_cpu k partition = domain_to_first_cpu k partition
