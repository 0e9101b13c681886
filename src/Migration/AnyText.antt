-- ===== src/Migration/AnyText.antt =====
-- What the functions on domains do with any text in /proc/litmus, be it a mask or not.
use adaptive_liblitmus.Base.{
  ℕ, zero, suc, ◌+◌, ◌-◌, ◌*◌, ◌<◌, ◌≤◌, ◌≡◌, refl, inl, inr, Bool-cases, false, [], ◌∷◌, arith,
  length, take, ltb, le→ltb, drop, some, if◌then◌else◌,
}
use adaptive_liblitmus.Base.Bits.{test_bit}
use adaptive_liblitmus.Base.Int.{ℤ, pos, pos_part, ltb_ℤ, is_zero}
use adaptive_liblitmus.Base.Chars.{Bytes, codes, c_string, strtoul_hex}
use adaptive_liblitmus.Kernel.{Kernel, Call, Log, Outcome, State, ◌>>=◌, pure, continue-value, call}
use adaptive_liblitmus.KernelIface.Files.{read_file}
use adaptive_liblitmus.KernelIface.Content.{Holds, read_file-content}
use adaptive_liblitmus.Migration.CpuSet.{CpuSet, cpu_alloc, set_chunk}
use adaptive_liblitmus.Migration.Mask.{
  read_chunks, parse_mask, bits_of, num_online_cpus, mapping_file, mapping_from, read_mapping,
}
use adaptive_liblitmus.Migration.Domains.{
  cpusettoull, first_set, mask_of, domain_to_cpus, domain_to_first_cpu,
}
use adaptive_liblitmus.Migration.Lookup.{
  IsFirst, member_of, first_set-IsFirst, cpusettoull-test_bit,
}

-- Whatever the text, its chunks are read with a round for each of its bytes and one more.
read_chunks-returns :
    (fuel : ℕ) (buf : Bytes) (at i : ℕ) (s : CpuSet)
    → at ≤ fuel
    → 0 < fuel
    → (s' : CpuSet) × (read_chunks fuel buf at i s ≡ some s')
unfolding read_chunks
read_chunks-returns zero buf at i s h p = absurd (omega arith)
read_chunks-returns (suc fuel) buf at i s h p =
    let start : ℕ = if ltb at 9 then 9 else at in
    let s' : CpuSet = set_chunk 65 (i * 32) (strtoul_hex (drop (start - 9) buf)) s in
    let down : start - 9 ≤ at - 1 = ground arith in
    elim (Bool-cases (ltb (start - 9) 1)) [
      | inl last ↦ (s', rw last refl)
      | inr more ↦
          let (r, e) =
            read_chunks-returns fuel buf (start - 9) (i + 1) s' (ground (arith, down))
              (ground (arith, down)) in
          (r, rw more e)
    ]

pub parse_mask-returns : (buf : Bytes) → (s : CpuSet) × (parse_mask buf ≡ some s)
unfolding parse_mask
parse_mask-returns buf =
    let text : Bytes = c_string buf in
    read_chunks-returns (length text + 1) text (length text + 1) 0
      (cpu_alloc (bits_of (length text))) (omega arith) (omega arith)

mapping_from-reads :
    (w : Bytes)
    → (set : CpuSet) × ((t : State) → mapping_from (some w) t ≡ (Outcome.value (pos 0, set), t))
unfolding mapping_from
mapping_from-reads [] = ([], λ t. refl)
mapping_from-reads (b ∷ bs) =
    let (set, e) = parse_mask-returns (b ∷ bs) in (set, λ t. rw (e, mapping_from) refl)

-- A set has the same first member among the first n numbers as the word made of it has, if all of
-- them have a bit in the word.
IsFirst-word :
    (n : ℕ) (set : CpuSet) (c : ℤ)
    → n ≤ 64
    → IsFirst n 0 (member_of set) c
    → IsFirst n 0 (test_bit (cpusettoull set)) c
IsFirst-word n set (pos c) h f = (
  f.0,
  f.1,
  ground (arith, cpusettoull-test_bit set c, f.1, f.2),
  λ x a b. ground (arith, cpusettoull-test_bit set x, f.3 x a b),
)
IsFirst-word n set (ℤ.negsuc e) h f = λ x a b. ground (arith, cpusettoull-test_bit set x, f x a b)

module _ (k : Kernel) (n : ℕ) (domain : ℤ) (text : Bytes)
    (online : (l : Log) → k.answer l Call.online_cpus ≡ pos n) (few : n ≤ 64)
    (file : Holds k (mapping_file (codes "domains") domain) text) where
  read_mapping-reads :
      (set : CpuSet) × ((s : State)
        → (read_mapping k domain (codes "domains") s).0 ≡ Outcome.value (pos 0, set))
  unfolding read_mapping num_online_cpus call
  read_mapping-reads =
      let (set, reads) = mapping_from-reads (take 1152 text) in
      let within : ltb_ℤ (pos 4096) (pos n) ≡ false = ground arith in
      (
        set,
        λ s.
            rw (online s.log, within)
              (continue-value mapping_from
                (read_file k (mapping_file (codes "domains") domain) 1152
                  (record s { log = Call.online_cpus ∷ s.log }))
                (λ r. r.0 ≡ Outcome.value (pos 0, set))
                (read_file-content k (mapping_file (codes "domains") domain) (λ l. text) 1152
                  (record s { log = Call.online_cpus ∷ s.log }) file)
                (λ t. rw (reads t) refl)),
      )

  -- With at most 64 CPUs online, and whatever text the domain's file holds, be it a mask, empty or
  -- malformed: domain_to_cpus succeeds, and domain_to_first_cpu returns the lowest online CPU in
  -- the word that domain_to_cpus stores, or a negative number if there is none.
  pub domain_to_first_cpu-agrees :
      (word : ℕ) (s t : State)
      → (v : ℕ) × (c : ℤ) × ((domain_to_cpus k domain word s).0 ≡ Outcome.value (pos 0, v))
        × ((domain_to_first_cpu k domain t).0 ≡ Outcome.value c)
        × IsFirst n 0 (test_bit v) c
  unfolding domain_to_cpus mask_of domain_to_first_cpu num_online_cpus call
  domain_to_first_cpu-agrees word s t =
      let (set, reads) = read_mapping-reads in
      let within : ltb 64 n ≡ false = le→ltb 64 n few in
      (
        cpusettoull set,
        first_set n 0 set,
        rw (online s.log, within)
            (continue-value (λ x. pure (x.0, (if is_zero x.0 then cpusettoull x.1 else word))) _
              (λ r. r.0 ≡ Outcome.value (pos 0, cpusettoull set))
              (reads (record s { log = Call.online_cpus ∷ s.log })) (λ u. refl)),
        continue-value
            (λ x.
              if is_zero x.0
              then (num_online_cpus k >>= λ n_online. pure (first_set (pos_part n_online) 0 x.1))
              else pure x.0)
            _ (λ r. r.0 ≡ Outcome.value (first_set n 0 set)) (reads t)
            (λ u. rw (online u.log) refl),
        IsFirst-word n set (first_set n 0 set) few (first_set-IsFirst n 0 set),
      )
