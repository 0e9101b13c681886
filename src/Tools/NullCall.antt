-- ===== src/Tools/NullCall.antt =====
-- bin/null_call.c and bin/cycles.c, which measure with the cycle counter. What they print is
-- returned; how the counter is read depends on the processor, and is a parameter.
use adaptive_liblitmus.Base.{ℕ, zero, suc, ◌+◌, ◌-◌, ◌%◌, ◌^◌, List, [], ◌∷◌, if◌then◌else◌}
use adaptive_liblitmus.Base.Int.{ℤ, pos, pos_part, is_zero, is_neg}
use adaptive_liblitmus.Base.Chars.{Bytes, atoi}
use adaptive_liblitmus.Kernel.{Kernel, Call, M, ◌>>=◌, ◌>>◌, pure, crash, call}
use adaptive_liblitmus.KernelIface.ControlPage.{to_size}
use adaptive_liblitmus.Syscalls.{null_call}
use adaptive_liblitmus.Tools.Common.{Double}

-- The six columns of a line: the three readings, and how far they are apart.
pub record Sample : Type 0 where
  pub pre : ℕ
  pub in_kernel : ℕ
  pub post : ℕ
  pub entry : ℕ
  pub exit : ℕ
  pub total : ℕ

-- A difference of cycles_t, an unsigned 64-bit number.
abbrev pub cycles_between : ℕ → ℕ → ℕ
cycles_between from to = (to + 2 ^ 64 - from) % 2 ^ 64

abbrev pub sample : ℕ → ℕ → ℕ → Sample
sample t0 t1 t2 = record {
  pre = t0;
  in_kernel = t1;
  post = t2;
  entry = cycles_between t0 t1;
  exit = cycles_between t1 t2;
  total = cycles_between t0 t2;
}

-- The seconds, as a 64-bit word, and the nanoseconds; `floor` is floor and the cast behind it.
unfoldable pub sec2timespec : {D : Type 0} → Double D → (D → ℤ) → D → ℕ × ℕ
sec2timespec fl floor seconds =
    let rest = fl.minus seconds (fl.of_int (floor seconds)) in
    (to_size (floor seconds), fl.to_time (fl.times rest (fl.of_int (pos 1_000_000_000))))

module _ (k : Kernel) (get_cycles : M ℕ) where
  unfoldable pub time_null_call : M Sample
  unfolding null_call
  time_null_call = do
    t0 ← get_cycles
    (ret, t1) ← null_call k
    t2 ← get_cycles
    pure (sample t0 t1 t2)

  -- The `do` loop: it goes on as long as nanosleep returns 0.
  unfoldable pub sample_often : ℕ → ℕ → ℕ → M (List Sample)
  unfolding time_null_call call
  sample_often zero sec nsec = crash
  sample_often (suc rounds) sec nsec = do
    x ← time_null_call
    slept ← call k (Call.nanosleep sec nsec)
    xs ← if is_zero slept then sample_often rounds sec nsec else pure []
    pure (x ∷ xs)

  -- The `while` loop, over what getchar returns before the end of the input.
  unfoldable pub sample_keys : Bytes → M (List Sample)
  unfolding time_null_call
  sample_keys [] = pure []
  sample_keys (c ∷ cs) = do x ← time_null_call; xs ← sample_keys cs; pure (x ∷ xs)

  -- With one argument, or with another number of them.
  unfoldable pub null_call_main :
      {D : Type 0} → Double D → (D → ℤ) → ℕ → Bytes → List Bytes → M (List Sample)
  unfolding sample_often sample_keys sec2timespec
  null_call_main fl floor rounds input (seconds ∷ []) =
      let sleep_time = sec2timespec fl floor (fl.of_text seconds) in
      sample_often rounds sleep_time.0 sleep_time.1
  null_call_main fl floor rounds input args = sample_keys input

  -- The rounds of bin/cycles.c: the cycles that pass while it sleeps.
  unfoldable pub count_cycles : ℕ → ℕ → M (List ℕ)
  unfolding call
  count_cycles zero secs = pure []
  count_cycles (suc rounds) secs = do
    t1 ← get_cycles
    call k (Call.sleep secs)
    t2 ← get_cycles
    rest ← count_cycles rounds secs
    pure (cycles_between t1 t2 ∷ rest)

  abbrev pub seconds_of : List Bytes → ℕ
  seconds_of [] = 1
  seconds_of (a ∷ args) =
      if is_zero (atoi a) then 1 else if is_neg (atoi a) then 1 else pos_part (atoi a)

  -- Its endless loop, up to a number of rounds.
  unfoldable pub cycles_main : ℕ → List Bytes → M (List ℕ)
  unfolding count_cycles
  cycles_main rounds args = count_cycles rounds (seconds_of args)
