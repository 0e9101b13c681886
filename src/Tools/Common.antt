-- ===== src/Tools/Common.antt =====
-- What the programs share: bin/common.c, doubles, options from getopt, and the conversions of
-- include/litmus.h.
use adaptive_liblitmus.Base.{ℕ, ◌-◌, ◌*◌, ◌%◌, ◌^◌, Bool}
use adaptive_liblitmus.Base.Int.{ℤ, pos, negsuc, ◌-ℤ◌}
use adaptive_liblitmus.Base.Chars.{Bytes}
use adaptive_liblitmus.Kernel.{M, exit}

-- The type `double` and what the programs do with it; the model knows nothing of its values.
pub record Double (D : Type 0) : Type 0 where
  pub of_text : Bytes → D  -- atof
  pub of_int : ℤ → D
  pub milli : D  -- 0.001
  pub plus : D → D → D
  pub minus : D → D → D
  pub times : D → D → D
  pub is_less : D → D → Bool
  pub is_zero : D → Bool
  pub to_time : D → ℕ  -- the conversion to lt_t

abbrev pub thousand : ℕ
thousand = 1000

-- ms2ns of an integer, and of a double that is then stored in an lt_t
abbrev pub ms2ns : ℕ → ℕ
ms2ns ms = ms * 1_000_000 % 2 ^ 64

abbrev pub ms2ns_double : {D : Type 0} → Double D → D → ℕ
ms2ns_double fl ms = fl.to_time (fl.times ms (fl.of_int (pos 1_000_000)))

-- An option as getopt returns it, with its argument.
abbrev pub Opt : Type 0
Opt = ℕ × Bytes

-- The conversion of an int to an unsigned int.
abbrev pub to_unsigned : ℤ → ℕ
to_unsigned (pos n) = n % 2 ^ 32
to_unsigned (negsuc n) = 2 ^ 32 - 1 - n % 2 ^ 32

-- perror(msg); exit(-1 * errno);
unfoldable pub bail_out : {A : Type 0} → M A
bail_out s = exit (pos 0 -ℤ s.errno) s

-- usage(msg) prints, and exits with 1 (EXIT_FAILURE).
abbrev pub usage : {A : Type 0} → M A
usage = exit (pos 1)
