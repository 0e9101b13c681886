-- ===== src/Tools/ExecTimesLaws.antt =====
-- What get_exec_times of bin/rtspin.c reads from a file of lines: comments, and rows with a time.
use adaptive_liblitmus.Base.{
  ℕ, zero, suc, ◌+◌, ◌-◌, ◌==◌, ◌≤◌, ◌<◌, ◌≡◌, ◌≢◌, refl, Bool, true, false, List, [], ◌∷◌, ◌++◌,
  All, length, arith, some,
}
use adaptive_liblitmus.Base.Int.{ℤ, pos, pos_part, eqb_ℤ_no, minus_one}
use adaptive_liblitmus.Base.Chars.{Bytes}
use adaptive_liblitmus.Kernel.{Kernel, Call, OpenMode, Log, Outcome, State, call}
use adaptive_liblitmus.Tools.ExecTimes.{
  Scanner, skip_to_next_line, skip_lines, skip_comments, count_lines, count_jobs, skip_columns,
  read_jobs, get_exec_times,
}

abbrev newline : ℕ
newline = b'\n'

-- A text within one line.
abbrev pub IsText : Bytes → Type 0
IsText t = All (λ c. c ≢ newline) t

abbrev pub begins_comment : Bytes → Bool
begins_comment [] = false
begins_comment (c ∷ cs) = c == b'#'

-- Comment lines, given by what is behind their #, before other bytes.
abbrev pub comments : List Bytes → Bytes → Bytes
comments [] r = r
comments (t ∷ ts) r = b'#' ∷ t ++ newline ∷ comments ts r

-- The line of a job, with the comments before it and the time that it gives.
pub record Row (D : Type 0) : Type 0 where
  pub notes : List Bytes
  pub text : Bytes
  pub time : D

abbrev pub sheet : {D : Type 0} → List (Row D) → List Bytes → Bytes
sheet [] ts = comments ts []
sheet (w ∷ ws) ts = comments w.notes (w.text ++ newline ∷ sheet ws ts)

abbrev pub times : {D : Type 0} → List (Row D) → List D
times [] = []
times (w ∷ ws) = w.time ∷ times ws

-- A row that is one line and no comment.
abbrev pub IsRow : {D : Type 0} → Row D → Type 0
IsRow w = All IsText w.notes × IsText w.text × (begins_comment w.text ≡ false)

skip_to_next_line-text : (t r : Bytes) → IsText t → skip_to_next_line (t ++ newline ∷ r) ≡ (true, r)
unfolding skip_to_next_line
skip_to_next_line-text [] r h = refl
skip_to_next_line-text (c ∷ t) r (h, h') =
    let other : (c == newline) ≡ false = ground arith in
    rw (other, skip_to_next_line) (skip_to_next_line-text t r h')

length-line : (t r : Bytes) → length r < length (t ++ newline ∷ r)
length-line [] r = omega arith
length-line (c ∷ t) r = omega (arith, length-line t r)

skip_lines-stop : (fuel : ℕ) (r : Bytes) → begins_comment r ≡ false → skip_lines fuel r ≡ r
unfolding skip_lines
skip_lines-stop zero r h = refl
skip_lines-stop (suc fuel) [] h = refl
skip_lines-stop (suc fuel) (c ∷ cs) h = rw h refl

skip_lines-comments :
    (fuel : ℕ) (ts : List Bytes) (r : Bytes)
    → All IsText ts
    → begins_comment r ≡ false
    → length (comments ts r) ≤ fuel
    → skip_lines fuel (comments ts r) ≡ r
unfolding skip_lines
skip_lines-comments fuel [] r a h f = skip_lines-stop fuel r h
skip_lines-comments zero (t ∷ ts) r a h f = absurd (omega arith)
skip_lines-comments (suc fuel) (t ∷ ts) r (a, a') h f =
    rw (skip_to_next_line-text t (comments ts r) a)
      (skip_lines-comments fuel ts r a' h (omega (arith, length-line t (comments ts r))))

skip_comments-comments :
    (ts : List Bytes) (r : Bytes)
    → All IsText ts
    → begins_comment r ≡ false
    → skip_comments (comments ts r) ≡ r
unfolding skip_comments
skip_comments-comments ts r a h =
    skip_lines-comments (length (comments ts r)) ts r a h (omega arith)

begins_comment-line :
    (t r : Bytes) → begins_comment t ≡ false → begins_comment (t ++ newline ∷ r) ≡ false
begins_comment-line [] r h = refl
begins_comment-line (c ∷ t) r h = h

length-comments : (ts : List Bytes) (r : Bytes) → length r ≤ length (comments ts r)
length-comments [] r = omega arith
length-comments (t ∷ ts) r = omega (arith, length-comments ts r, length-line t (comments ts r))

-- A row's comments are skipped as a whole.
skip_comments-row :
    {D : Type 0} (w : Row D) (r : Bytes)
    → IsRow w
    → skip_comments (comments w.notes (w.text ++ newline ∷ r)) ≡ w.text ++ newline ∷ r
skip_comments-row w r (a, t, h) =
    skip_comments-comments w.notes (w.text ++ newline ∷ r) a (begins_comment-line w.text r h)

count_lines-sheet :
    {D : Type 0} (fuel : ℕ) (ws : List (Row D)) (ts : List Bytes)
    → All IsRow ws
    → All IsText ts
    → length (sheet ws ts) < fuel
    → count_lines fuel (sheet ws ts) ≡ length ws
unfolding count_lines
count_lines-sheet zero ws ts a b f = absurd (omega arith)
count_lines-sheet (suc fuel) [] ts a b f =
    rw (skip_comments-comments ts [] b refl) (unfold skip_to_next_line in refl)
count_lines-sheet (suc fuel) (w ∷ ws) ts (a, a') b f =
    rw
      (
        skip_comments-row w (sheet ws ts) a,
        skip_to_next_line-text w.text (sheet ws ts) a.1,
        count_lines-sheet fuel ws ts a' b (
            omega (
              arith,
              length-comments w.notes (w.text ++ newline ∷ sheet ws ts),
              length-line w.text (sheet ws ts),
            )),
      )
      refl

-- In a file made of rows, each one line that is no comment, and of comment lines before, between
-- and behind them, count_jobs counts the rows and not the comments.
pub count_jobs-sheet :
    {D : Type 0} (ws : List (Row D)) (ts : List Bytes)
    → All IsRow ws
    → All IsText ts
    → count_jobs (sheet ws ts) ≡ length ws
unfolding count_jobs
count_jobs-sheet ws ts a b = count_lines-sheet (length (sheet ws ts) + 1) ws ts a b (omega arith)

module _ {D : Type 0} (k : Kernel) (scan : Scanner D) (column : ℕ) where
  -- In the column asked for of a row, fscanf finds the time of the row, and stops in its line.
  abbrev pub Scans : Row D → Type 0
  Scans w =
      (r : Bytes)
      → (left : Bytes) × IsText left
        × (scan.number (skip_columns k scan (column - 1) (w.text ++ newline ∷ r))
            ≡ some (w.time, left ++ newline ∷ r))

  read_jobs-sheet :
      (ws : List (Row D)) (ts : List Bytes) (s : State)
      → All IsRow ws
      → All Scans ws
      → read_jobs k scan column (length ws) (sheet ws ts) s ≡ (Outcome.value (times ws), s)
  unfolding read_jobs
  read_jobs-sheet [] ts s a b = refl
  read_jobs-sheet (w ∷ ws) ts s (a, a') (b, b') =
      let (left, within, found) = b (sheet ws ts) in
      rw
        (
          skip_comments-row w (sheet ws ts) a,
          found,
          skip_to_next_line-text left (sheet ws ts) within,
          read_jobs-sheet ws ts s a' b',
        )
        refl

pub get_exec_times-sheet :
    {D : Type 0} (k : Kernel) (scan : Scanner D) (file : Bytes) (column : ℤ) (ws : List (Row D))
    (ts : List Bytes) (fd : ℕ) (s : State)
    → All IsRow ws
    → All IsText ts
    → All (Scans k scan (pos_part column)) ws
    → scan.content file ≡ sheet ws ts
    → k.answer s.log (Call.open_file file OpenMode.read_only) ≡ pos fd
    → ((l : Log) → k.answer l (Call.rewind_stream (pos fd)) ≢ minus_one)
    → (get_exec_times k scan file column s).0 ≡ Outcome.value (times ws)
unfolding get_exec_times call
get_exec_times-sheet k scan file column ws ts fd s a b c e opens rewinds =
    let o = Call.open_file file OpenMode.read_only in
    rw (opens, eqb_ℤ_no _ minus_one (rewinds (o ∷ s.log)), e, count_jobs-sheet ws ts a b)
      (rw (read_jobs-sheet k scan (pos_part column) ws ts _ a c) refl)
