-- ===== src/Migration/Lookup.antt =====
-- What the functions on domains return, from the text of the mask in /proc/litmus on.
use adaptive_liblitmus.Base.{
  ℕ, zero, suc, ◌+◌, ◌<◌, ◌≤◌, ◌≡◌, refl, ap, Bool, true, false, ◌&&◌, ◌||◌, [], ◌∷◌, arith, length,
  take_all, ltb, leb, ◌==◌, Option, some, if◌then◌else◌, Bool-cases, inl, inr, ◌⊎◌, le→ltb,
}
use mathlib.Core.Path.{subst, fun_ext}
use adaptive_liblitmus.Base.Bits.{test_bit, test_bit-zero, set_bit, test_bit-set_bit}
use adaptive_liblitmus.Base.Int.{ℤ, pos, negsuc, pos_part, ltb_ℤ, is_zero}
use adaptive_liblitmus.Base.Chars.{Bytes, codes}
use adaptive_liblitmus.Kernel.{
  Kernel, Call, Log, Outcome, State, ◌>>=◌, pure, continue, continue-value, call,
}
use adaptive_liblitmus.KernelIface.Files.{read_file}
use adaptive_liblitmus.KernelIface.Content.{Holds, read_file-content}
use adaptive_liblitmus.Migration.CpuSet.{CpuSet, cpu_isset}
use adaptive_liblitmus.Migration.Mask.{
  num_online_cpus, mapping_file, mapping_from, parse_mask, read_mapping,
}
use adaptive_liblitmus.Migration.MaskText.{
  Masks, IsMask, render, value_of, chunks_bounds, parse_mask-render,
}
use adaptive_liblitmus.Migration.Domains.{
  collect_mask, cpusettoull, first_set, mask_of, domain_to_first_cpu,
}

collect_mask-test_bit :
    (n i j : ℕ) (bits : CpuSet) (mask : ℕ)
    → test_bit (collect_mask n i bits mask) j
      ≡ ((leb i j && ltb j (i + n) && cpu_isset j bits) || test_bit mask j)
unfolding collect_mask
collect_mask-test_bit zero i j bits mask = ground arith
collect_mask-test_bit (suc n) i j bits mask =
    rw (collect_mask-test_bit n (i + 1) j bits (if cpu_isset i bits then set_bit mask i else mask))
      (elim (Bool-cases (cpu_isset i bits)) [
        | inl member ↦
            rw (member, test_bit-set_bit)
              (elim (Bool-cases (j == i)) [ inl same ↦ ground arith | inr other ↦ ground arith ])
        | inr out ↦
            rw out
              (elim (Bool-cases (j == i)) [ inl same ↦ ground arith | inr other ↦ ground arith ])
      ])

-- The bits of the word are the CPUs of the set below 64.
pub cpusettoull-test_bit :
    (bits : CpuSet) (j : ℕ) → test_bit (cpusettoull bits) j ≡ (ltb j 64 && cpu_isset j bits)
unfolding cpusettoull
cpusettoull-test_bit bits j = rw (collect_mask-test_bit 64 0 j bits 0, test_bit-zero) (ground arith)

-- The lowest number from i on and below i + n that passes the test, or a negative number where
-- there is none.
abbrev pub IsFirst : ℕ → ℕ → (ℕ → Bool) → ℤ → Type 0
IsFirst n i p (pos c) =
    (i ≤ c) × (c < i + n) × (p c ≡ true) × ((x : ℕ) → i ≤ x → x < c → p x ≡ false)
IsFirst n i p (negsuc e) = (x : ℕ) → i ≤ x → x < i + n → p x ≡ false

here_or_later : (i x : ℕ) → i ≤ x → (x ≡ i) ⊎ (i + 1 ≤ x)
here_or_later i x h = omega arith

not_yet : (i x : ℕ) (p : ℕ → Bool) → p i ≡ false → ((i + 1 ≤ x) → p x ≡ false) → i ≤ x → p x ≡ false
not_yet i x p out later h = elim (here_or_later i x h) [ inl e ↦ rw e out | inr l ↦ later l ]

IsFirst-later :
    (n i : ℕ) (p : ℕ → Bool) (r : ℤ) → p i ≡ false → IsFirst n (i + 1) p r → IsFirst (suc n) i p r
IsFirst-later n i p (pos c) out f = (
  omega (arith, f.0),
  omega (arith, f.1),
  f.2,
  λ x h l. not_yet i x p out (λ later. f.3 x later l) h,
)
IsFirst-later n i p (negsuc e) out f =
    λ x h l. not_yet i x p out (λ later. f x later (omega arith)) h

abbrev pub member_of : CpuSet → ℕ → Bool
member_of bits x = cpu_isset x bits

pub first_set-IsFirst :
    (n i : ℕ) (bits : CpuSet) → IsFirst n i (member_of bits) (first_set n i bits)
unfolding first_set
first_set-IsFirst zero i bits = λ x h l. absurd (omega arith)
first_set-IsFirst (suc n) i bits = elim (Bool-cases (cpu_isset i bits)) [
  | inl member ↦
      rw (member, first_set) (omega arith, omega arith, member, λ x h l. absurd (omega arith))
  | inr out ↦
      rw (out, first_set)
        (IsFirst-later n i (member_of bits) (first_set n (i + 1) bits) out
          (first_set-IsFirst n (i + 1) bits))
]

-- The text of a mask becomes its set.
mapping_from-render :
    (m : Masks) (w : Bytes) (t : State) (s : CpuSet)
    → IsMask m
    → w ≡ render m
    → parse_mask w ≡ some s
    → mapping_from (some w) t ≡ (Outcome.value (pos 0, s), t)
unfolding mapping_from
mapping_from-render m [] t s h e p = absurd (omega (arith, chunks_bounds m h, ap length e))
mapping_from-render m (c ∷ cs) t s h e p = rw (p, mapping_from)

mapping-then :
    (m : Masks) (s : CpuSet) (r : Outcome (Option Bytes) × State)
    → IsMask m
    → parse_mask (render m) ≡ some s
    → r.0 ≡ Outcome.value (some (render m))
    → (continue mapping_from r).0 ≡ Outcome.value (pos 0, s)
mapping-then m s (Outcome.value o, t) h p e =
    let same : o ≡ some (render m) = cc in
    rw same (rw (mapping_from-render m (render m) t s h refl p))
mapping-then m s (Outcome.exited c, t) h p e = cc
mapping-then m s (Outcome.fault, t) h p e = cc

-- A kernel with n CPUs online, which holds the mask m in a file of /proc/litmus.
module _ (k : Kernel) (n : ℕ) (m : Masks) (idx : ℤ) (which : Bytes)
    (online : (l : Log) → k.answer l Call.online_cpus ≡ pos n) (mask : IsMask m)
    (short : length (render m) ≤ 1152) (file : Holds k (mapping_file which idx) (render m)) where
  pub read_mapping-render :
      (s : State)
      → n ≤ 4096
      → (set : CpuSet) × ((read_mapping k idx which s).0 ≡ Outcome.value (pos 0, set))
        × ((x : ℕ) → cpu_isset x set ≡ test_bit (value_of m) x)
  unfolding read_mapping num_online_cpus call
  read_mapping-render s few =
      let within : ltb_ℤ (pos 4096) (pos n) ≡ false = ground arith in
      let (set, parses, has) = parse_mask-render m mask in
      (
        set,
        rw (online s.log, within)
            (mapping-then m set
              (read_file k (mapping_file which idx) 1152
                (record s { log = Call.online_cpus ∷ s.log }))
              mask parses
              (rw (take_all 1152 (render m) short) at (
                read_file-content k (mapping_file which idx) (λ l. (render m)) 1152
                  (record s { log = Call.online_cpus ∷ s.log }) file))),
        has,
      )

  -- With n CPUs online, at most 64, and the mask m in the file, the body that domain_to_cpus and
  -- cpu_to_domains share returns 0 and stores the word whose bits are the lowest 64 bits of the mask.
  pub mask_of-render :
      (word : ℕ) (s : State)
      → n ≤ 64
      → (v : ℕ) × ((mask_of k idx which word s).0 ≡ Outcome.value (pos 0, v))
        × ((j : ℕ) → test_bit v j ≡ (ltb j 64 && test_bit (value_of m) j))
  unfolding mask_of num_online_cpus call
  mask_of-render word s few =
      let within : ltb 64 n ≡ false = le→ltb 64 n few in
      let (set, reads, has) =
        read_mapping-render (record s { log = Call.online_cpus ∷ s.log }) (omega arith) in
      (
        cpusettoull set,
        rw (online s.log, within)
            (continue-value (λ x. pure (x.0, (if is_zero x.0 then cpusettoull x.1 else word))) _
              (λ r. r.0 ≡ Outcome.value (pos 0, cpusettoull set)) reads (λ t. refl)),
        λ j. rw (cpusettoull-test_bit set j, has j),
      )

module _ (k : Kernel) (n : ℕ) (m : Masks) (domain : ℤ)
    (online : (l : Log) → k.answer l Call.online_cpus ≡ pos n) (mask : IsMask m)
    (short : length (render m) ≤ 1152)
    (file : Holds k (mapping_file (codes "domains") domain) (render m)) where
  -- With n CPUs online, at most 4096, and the mask m in the domain's file, domain_to_first_cpu
  -- returns the lowest online CPU whose bit the mask has, or a negative number if it has none of
  -- theirs.
  pub domain_to_first_cpu-IsFirst :
      (s : State)
      → n ≤ 4096
      → (c : ℤ) × ((domain_to_first_cpu k domain s).0 ≡ Outcome.value c)
        × IsFirst n 0 (test_bit (value_of m)) c
  unfolding domain_to_first_cpu num_online_cpus call
  domain_to_first_cpu-IsFirst s few =
      let (set, reads, has) =
        read_mapping-render k n m domain (codes "domains") online mask short file s few in
      (
        first_set n 0 set,
        continue-value
            (λ x.
              if is_zero x.0
              then (num_online_cpus k >>= λ n_online. pure (first_set (pos_part n_online) 0 x.1))
              else pure x.0)
            _ (λ r. r.0 ≡ Outcome.value (first_set n 0 set)) reads (λ t. rw (online t.log)),
        subst (λ p. IsFirst n 0 p (first_set n 0 set)) (fun_ext has) (first_set-IsFirst n 0 set),
      )
