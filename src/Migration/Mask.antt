-- ===== src/Migration/Mask.antt =====
-- read_mapping: the text of a mask, hexadecimal with a comma before every 8 digits from the right,
-- is put into a CPU set chunk by chunk, from its end.
use adaptive_liblitmus.Base.{
  ℕ, zero, suc, ◌+◌, ◌-◌, ◌*◌, ◌/◌, ◌%◌, [], ◌∷◌, ◌++◌, length, drop, ltb, if◌then◌else◌, Option,
  none, some,
}
use adaptive_liblitmus.Base.Int.{ℤ, pos, minus_one, ltb_ℤ}
use adaptive_liblitmus.Base.Chars.{Bytes, codes, c_string, strtoul_hex, show_int}
use adaptive_liblitmus.Kernel.{Kernel, Call, M, ◌>>=◌, pure, crash, call}
use adaptive_liblitmus.KernelIface.Files.{read_file}
use adaptive_liblitmus.Migration.CpuSet.{CpuSet, cpu_alloc, set_chunk}

-- The `do` loop. `at` is chunk_str - buf + 9, which never is negative: a round whose chunk would
-- begin before the buffer begins at it, and the loop ends when the chunk after it would begin more
-- than 8 bytes before.
unfoldable pub read_chunks : ℕ → Bytes → ℕ → ℕ → CpuSet → Option CpuSet
read_chunks zero buf at i s = none
read_chunks (suc fuel) buf at i s =
    let start = if ltb at 9 then 9 else at in
    let s' = set_chunk 65 (i * 32) (strtoul_hex (drop (start - 9) buf)) s in
    let rest = read_chunks fuel buf (start - 9) (i + 1) s' in
    if ltb (start - 9) 1 then some s' else rest

-- The bits that `nbits` counts for a text of this length.
abbrev pub bits_of : ℕ → ℕ
bits_of len = 32 * (len / 9) + 4 * (len % 9)

-- The set for the text in the buffer (its bytes up to the first NUL).
unfoldable pub parse_mask : Bytes → Option CpuSet
unfolding read_chunks c_string
parse_mask buf =
    let text = c_string buf in
    read_chunks (length text + 1) text (length text + 1) 0 (cpu_alloc (bits_of (length text)))

-- sysconf(_SC_NPROCESSORS_ONLN)
unfoldable pub num_online_cpus : Kernel → M ℤ
unfolding call
num_online_cpus k = call k Call.online_cpus

abbrev pub mapping_file : Bytes → ℤ → Bytes
mapping_file which idx = codes "/proc/litmus/" ++ which ++ b'/' ∷ show_int idx

-- What becomes of the result of read_file: its error or its 0 is returned, with the set at NULL.
unfoldable pub mapping_from : Option Bytes → M (ℤ × CpuSet)
mapping_from none = pure (minus_one, [])
mapping_from (some []) = pure (pos 0, [])
mapping_from (some (b ∷ bs)) = elim (parse_mask (b ∷ bs)) [
  | none ↦ crash
  | some s ↦ pure (pos 0, s)
]

-- The buffer holds 4096 / 4 + 4096 / 32 bytes and a NUL.
unfoldable pub read_mapping : Kernel → ℤ → Bytes → M (ℤ × CpuSet)
unfolding num_online_cpus
read_mapping k idx which = do
  cpus ← num_online_cpus k
  if ltb_ℤ (pos 4096) cpus
      then pure (minus_one, [])
      else read_file k (mapping_file which idx) (4096 / 4 + 4096 / 32) >>= mapping_from
