-- ===== src/Migration/Errors.antt =====
-- What domain_to_cpus returns where there is no mask to be had.
use adaptive_liblitmus.Base.{
  ℕ, zero, suc, ◌+◌, ◌<◌, ◌≤◌, ◌≡◌, refl, ◌⊎◌, inl, inr, true, false, [], ◌∷◌, arith, ltb, le→ltb,
  if◌then◌else◌,
}
use adaptive_liblitmus.Base.Int.{ℤ, pos, minus_one, ltb_ℤ, is_zero}
use adaptive_liblitmus.Base.Chars.{codes}
use adaptive_liblitmus.Kernel.{
  Kernel, Call, OpenMode, Log, Outcome, State, pure, continue-value, call,
}
use adaptive_liblitmus.KernelIface.Files.{read_file}
use adaptive_liblitmus.KernelIface.Content.{Holds, read_file-content}
use adaptive_liblitmus.Migration.Mask.{num_online_cpus, mapping_file, mapping_from, read_mapping}
use adaptive_liblitmus.Migration.Domains.{collect_mask, cpusettoull, mask_of, domain_to_cpus}

module _ (k : Kernel) (n : ℕ) (domain : ℤ)
    (online : (l : Log) → k.answer l Call.online_cpus ≡ pos n) where
  read_mapping-unopened :
      (s : State)
      → k.answer
          (Call.online_cpus ∷ s.log)
          (Call.open_file (mapping_file (codes "domains") domain) OpenMode.read_only)
        ≡ minus_one
      → (read_mapping k domain (codes "domains") s).0 ≡ Outcome.value (minus_one, [])
  unfolding read_mapping num_online_cpus read_file mapping_from call
  read_mapping-unopened s e = ground (arith, online s.log, e)

  -- With more CPUs online than an unsigned long long has bits, or with at most as many and a file
  -- that cannot be opened, domain_to_cpus returns -1 and leaves *mask as it was.
  pub domain_to_cpus-fails :
      (mask : ℕ) (s : State)
      → (64 < n)
        ⊎ ((n ≤ 64)
            × (k.answer
                  (Call.online_cpus ∷ Call.online_cpus ∷ s.log)
                  (Call.open_file (mapping_file (codes "domains") domain) OpenMode.read_only)
                ≡ minus_one))
      → (domain_to_cpus k domain mask s).0 ≡ Outcome.value (minus_one, mask)
  unfolding domain_to_cpus mask_of num_online_cpus call
  domain_to_cpus-fails mask s (inl many) =
      let above : ltb 64 n ≡ true = ground arith in rw (online s.log, above) refl
  domain_to_cpus-fails mask s (inr (few, e)) =
      let within : ltb 64 n ≡ false = le→ltb 64 n few in
      rw (online s.log, within)
        (continue-value (λ x. pure (x.0, (if is_zero x.0 then cpusettoull x.1 else mask))) _
          (λ r. r.0 ≡ Outcome.value (minus_one, mask))
          (read_mapping-unopened (record s { log = Call.online_cpus ∷ s.log }) e) (λ t. refl))

  read_mapping-empty :
      (s : State)
      → n ≤ 4096
      → Holds k (mapping_file (codes "domains") domain) []
      → (read_mapping k domain (codes "domains") s).0 ≡ Outcome.value (pos 0, [])
  unfolding read_mapping num_online_cpus call
  read_mapping-empty s few file =
      let within : ltb_ℤ (pos 4096) (pos n) ≡ false = ground arith in
      let opened : State = record s { log = Call.online_cpus ∷ s.log } in
      rw (online s.log, within)
        (continue-value mapping_from
          (read_file k (mapping_file (codes "domains") domain) 1152 opened)
          (λ r. r.0 ≡ Outcome.value (pos 0, []))
          (read_file-content k (mapping_file (codes "domains") domain) (λ l. []) 1152 opened file)
          (λ t. unfold mapping_from in refl))

  no_cpus : (r m : ℕ) (i : ℕ) → collect_mask r i [] m ≡ m
  unfolding collect_mask
  no_cpus zero m i = refl
  no_cpus (suc r) m i = no_cpus r m (i + 1)

  cpusettoull-none : cpusettoull [] ≡ 0
  unfolding cpusettoull
  cpusettoull-none = no_cpus 64 0 0

  -- With at most 64 CPUs online and an empty file of the domain, domain_to_cpus reports success,
  -- by 0, and stores an empty mask.
  pub domain_to_cpus-empty :
      (mask : ℕ) (s : State)
      → n ≤ 64
      → Holds k (mapping_file (codes "domains") domain) []
      → (domain_to_cpus k domain mask s).0 ≡ Outcome.value (pos 0, 0)
  unfolding domain_to_cpus mask_of num_online_cpus call
  domain_to_cpus-empty mask s few file =
      let within : ltb 64 n ≡ false = le→ltb 64 n few in
      rw (online s.log, within)
        (rw cpusettoull-none at (
          continue-value {B = ℤ × ℕ}
            (λ x. pure (x.0, (if is_zero x.0 then cpusettoull x.1 else mask)))
            (read_mapping k domain (codes "domains") (record s { log = Call.online_cpus ∷ s.log }))
            (λ r. r.0 ≡ Outcome.value (pos 0, cpusettoull []))
            (read_mapping-empty (record s { log = Call.online_cpus ∷ s.log }) (omega arith) file)
            (λ t. refl)))
