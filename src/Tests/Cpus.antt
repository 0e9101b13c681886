-- ===== src/Tests/Cpus.antt =====
-- Runs and instances for CPU masks and migration.
use adaptive_liblitmus.Base.{ℕ, ◌≤◌, ◌≡◌, refl, ◌&&◌, [], ◌∷◌, arith, some, length, ltb}
use adaptive_liblitmus.Base.Int.{ℤ, pos}
use adaptive_liblitmus.Base.Bits.{test_bit}
use adaptive_liblitmus.Base.Chars.{Bytes, codes}
use adaptive_liblitmus.Kernel.{Outcome, start}
use adaptive_liblitmus.Migration.CpuSet.{CpuSet, cpu_isset}
use adaptive_liblitmus.Migration.Mask.{mapping_file, parse_mask}
use adaptive_liblitmus.Migration.HexText.{hex_text, hex_char}
use adaptive_liblitmus.Migration.MaskText.{
  Masks, top, more, IsMask, render, value_of, parse_mask-render,
}
use adaptive_liblitmus.Migration.AnyText.{domain_to_first_cpu-agrees}
use adaptive_liblitmus.Migration.Errors.{domain_to_cpus-empty}
use adaptive_liblitmus.Migration.Domains.{
  domain_to_cpus, mask_of, domain_to_first_cpu, be_migrate_thread_to_cpu,
}
use adaptive_liblitmus.Migration.Lookup.{IsFirst, mask_of-render, domain_to_first_cpu-IsFirst}
use adaptive_liblitmus.Migration.Affinity.{Migrates, be_migrate_thread_to_cpu-affinity}
use adaptive_liblitmus.Tests.Disk.{disk, disk-Holds}

-- CPUs 1, 2 and 32
abbrev three_cpus : Masks
three_cpus = more (top 1 []) 0 (0 ∷ 0 ∷ 0 ∷ 0 ∷ 0 ∷ 0 ∷ 6 ∷ [])

three_cpus-text : render three_cpus ≡ codes "1,00000006"
unfolding render hex_text hex_char
three_cpus-text = refl

three_cpus-IsMask : IsMask three_cpus
three_cpus-IsMask = omega arith

parse_mask-render_example :
    (s : CpuSet) × (parse_mask (render three_cpus) ≡ some s)
    × ((x : ℕ) → cpu_isset x s ≡ test_bit (value_of three_cpus) x)
parse_mask-render_example = parse_mask-render three_cpus three_cpus-IsMask

three_cpus-short : length (render three_cpus) ≤ 1152
unfolding render hex_text
three_cpus-short = omega arith

mask_of-render_example :
    (v : ℕ) × ((mask_of (disk (render three_cpus)) (pos 7) (codes "domains") 0 start).0
      ≡ Outcome.value (pos 0, v))
    × ((j : ℕ) → test_bit v j ≡ (ltb j 64 && test_bit (value_of three_cpus) j))
mask_of-render_example =
    mask_of-render (disk (render three_cpus)) 4 three_cpus (pos 7) (codes "domains") (λ l. refl)
      three_cpus-IsMask three_cpus-short
      (disk-Holds (mapping_file (codes "domains") (pos 7)) (render three_cpus)) 0 start
      (omega arith)

domain_to_first_cpu-IsFirst_example :
    (c : ℤ) × ((domain_to_first_cpu (disk (render three_cpus)) (pos 7) start).0 ≡ Outcome.value c)
    × IsFirst 4 0 (test_bit (value_of three_cpus)) c
domain_to_first_cpu-IsFirst_example =
    domain_to_first_cpu-IsFirst (disk (render three_cpus)) 4 three_cpus (pos 7) (λ l. refl)
      three_cpus-IsMask three_cpus-short
      (disk-Holds (mapping_file (codes "domains") (pos 7)) (render three_cpus)) start (omega arith)

be_migrate_thread_to_cpu-affinity_example :
    Migrates
      (disk [])
      (pos 0)
      (pos 2)
      start
      (be_migrate_thread_to_cpu (disk []) (pos 0) (pos 2) start)
be_migrate_thread_to_cpu-affinity_example =
    be_migrate_thread_to_cpu-affinity (disk []) (pos 0) (pos 2) start

domain_to_cpus-empty_example :
    (domain_to_cpus (disk []) (pos 7) 99 start).0 ≡ Outcome.value (pos 0, 0)
domain_to_cpus-empty_example =
    domain_to_cpus-empty (disk []) 4 (pos 7) (λ l. refl) 99 start (omega arith)
      (disk-Holds (mapping_file (codes "domains") (pos 7)) [])

-- Neither digits nor a mask.
abbrev garbled : Bytes
garbled = codes "zz,3,,g"

domain_to_first_cpu-agrees_example :
    (v : ℕ) × (c : ℤ) × ((domain_to_cpus (disk garbled) (pos 7) 99 start).0
      ≡ Outcome.value (pos 0, v))
    × ((domain_to_first_cpu (disk garbled) (pos 7) start).0 ≡ Outcome.value c)
    × IsFirst 4 0 (test_bit v) c
domain_to_first_cpu-agrees_example =
    domain_to_first_cpu-agrees (disk garbled) 4 (pos 7) garbled (λ l. refl) (omega arith)
      (disk-Holds (mapping_file (codes "domains") (pos 7)) garbled) 99 start start
