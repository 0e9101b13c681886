-- ===== src/Tools/ExecTimes.antt =====
-- get_exec_times of bin/rtspin.c: the execution times in a CSV file. A stream is the bytes that it has
-- still to deliver.
use adaptive_liblitmus.Base.{
  ℕ, zero, suc, ◌+◌, ◌-◌, ◌==◌, Bool, true, false, List, [], ◌∷◌, length, Option, none, some,
  if◌then◌else◌,
}
use adaptive_liblitmus.Base.Int.{ℤ, pos, pos_part, eqb_ℤ, is_neg, minus_one}
use adaptive_liblitmus.Base.Chars.{Bytes}
use adaptive_liblitmus.Kernel.{Kernel, Call, OpenMode, M, ◌>>=◌, ◌>>◌, pure, exit, crash, call}
use adaptive_liblitmus.Tools.Common.{bail_out}

-- What the C library reads from a stream for "%lf" and for "%*s,", and what a file holds.
pub record Scanner (D : Type 0) : Type 0 where
  pub number : Bytes → Option (D × Bytes)
  pub skip_word : Bytes → Bytes
  pub content : Bytes → Bytes

-- Whether a newline made processing stop, and what is behind it.
unfoldable pub skip_to_next_line : Bytes → Bool × Bytes
skip_to_next_line [] = (false, [])
skip_to_next_line (c ∷ cs) =
    let rest = skip_to_next_line cs in if c == b'\n' then (true, cs) else rest

-- The rounds of the loop of skip_comments; the character that ends it is put back.
unfoldable pub skip_lines : ℕ → Bytes → Bytes
unfolding skip_to_next_line
skip_lines zero s = s
skip_lines (suc fuel) [] = []
skip_lines (suc fuel) (c ∷ cs) =
    let rest = skip_lines fuel (skip_to_next_line cs).1 in if c == b'#' then rest else c ∷ cs

-- Each round takes a character at least.
unfoldable pub skip_comments : Bytes → Bytes
unfolding skip_lines
skip_comments s = skip_lines (length s) s

-- The loop that counts the jobs.
unfoldable pub count_lines : ℕ → Bytes → ℕ
unfolding skip_comments
count_lines zero s = 0
count_lines (suc fuel) s =
    let line = skip_to_next_line (skip_comments s) in
    let rest = count_lines fuel line.1 in if line.0 then suc rest else 0

unfoldable pub count_jobs : Bytes → ℕ
unfolding count_lines
count_jobs s = count_lines (length s + 1) s

module _ {D : Type 0} (k : Kernel) (scan : Scanner D) where
  -- The columns before the one asked for.
  unfoldable pub skip_columns : ℕ → Bytes → Bytes
  skip_columns zero s = s
  skip_columns (suc n) s = skip_columns n (scan.skip_word s)

  -- The loop that reads `n` more times. A stream that ends before that fails the assertion.
  unfoldable pub read_jobs : ℕ → ℕ → Bytes → M (List D)
  unfolding skip_comments skip_columns
  read_jobs column zero s = pure []
  read_jobs column (suc n) s = elim (scan.number (skip_columns (column - 1) (skip_comments s))) [
    | none ↦ exit (pos 1)
    | some (x, rest) ↦ (do
      let line = skip_to_next_line rest
      xs ← if line.0 then read_jobs column n line.1 else (if n == 0 then pure [] else crash)
      pure (x ∷ xs))
  ]

  unfoldable pub get_exec_times : Bytes → ℤ → M (List D)
  unfolding bail_out call count_jobs read_jobs
  get_exec_times file column = do
    fstream ← call k (Call.open_file file OpenMode.read_only)
    if is_neg fstream then bail_out else pure tt
    ret ← call k (Call.rewind_stream fstream)
    if eqb_ℤ ret minus_one then bail_out else pure tt
    times ← read_jobs (pos_part column) (count_jobs (scan.content file)) (scan.content file)
    call k (Call.close_file fstream)
    pure times
