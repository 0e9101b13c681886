-- ===== src/Base/Chars.antt =====
-- Bytes, C strings, and what <string.h>, <stdlib.h> and <ctype.h> do with them.
use adaptive_liblitmus.Base.Tests.{ltb, leb, ◌==◌, if◌then◌else◌}
use adaptive_liblitmus.Base.Int.{ℤ, pos, negsuc, sub_ℕ}
use Prim.Native.Nat.{ℕ, zero, suc, ◌/◌, ◌+◌, ◌-◌, ◌*◌, ◌^◌, ◌%◌}
use Prim.Native.Char.{code}
use Prim.Native.String.{String}
use mathlib.Core.Path.{◌≡◌, refl}
use mathlib.Core.Bool.{Bool, true, false, ◌&&◌, ◌||◌}
use mathlib.Core.List.{List, [], ◌∷◌}
use mathlib.Core.Option.{Option, none, some}
use native.Mathlib.Omega.{arith}

-- The bytes of a C string, without its NUL.
abbrev pub Bytes : Type 0
Bytes = List ℕ

-- The bytes of a string literal (all of the program's are ASCII).
abbrev pub codes : String → Bytes
codes String.[] = []
codes (String.◌∷◌ c s) = code c ∷ codes s

-- strcmp(a, b) == 0
unfoldable pub streq : Bytes → Bytes → Bool
streq [] [] = true
streq [] (b ∷ bs) = false
streq (a ∷ as') [] = false
streq (a ∷ as') (b ∷ bs) = a == b && streq as' bs

pub streq_refl : (a : Bytes) → streq a a ≡ true
unfolding streq
streq_refl [] = refl
streq_refl (a ∷ as') = ground (arith, streq_refl as')

pub streq→eq : (a b : Bytes) → streq a b ≡ true → a ≡ b
unfolding streq
streq→eq [] [] h = refl
streq→eq [] (b ∷ bs) h = cc
streq→eq (a ∷ as') [] h = cc
streq→eq (a ∷ as') (b ∷ bs) h = ground (arith, streq→eq as' bs)

-- strncmp(s, p, strlen(p)) == 0
unfoldable pub starts_with : Bytes → Bytes → Bool
starts_with [] s = true
starts_with (p ∷ ps) [] = false
starts_with (p ∷ ps) (c ∷ s) = c == p && starts_with ps s

-- The string that begins at the first byte of a buffer: what stands before the first NUL.
unfoldable pub c_string : Bytes → Bytes
c_string [] = []
c_string (b ∷ bs) = if b == 0 then [] else b ∷ c_string bs

-- isspace
unfoldable pub is_space : ℕ → Bool
is_space c = c == 32 || (leb 9 c && leb c 13)

unfoldable pub skip_space : Bytes → Bytes
skip_space [] = []
skip_space (c ∷ s) = if is_space c then skip_space s else c ∷ s

-- The value of a digit of base 10, and of base 16.
unfoldable pub dec_digit : ℕ → Option ℕ
dec_digit c = if leb b'0' c && leb c b'9' then some (c - 48) else none

unfoldable pub hex_digit : ℕ → Option ℕ
hex_digit c =
    if leb b'0' c && leb c b'9'
    then some (c - 48)
    else if leb b'a' c && leb c b'f'
    then some (c - 87)
    else if leb b'A' c && leb c b'F'
    then some (c - 55)
    else none

-- Reads digits from the left, `acc` being the value so far; the rest follows the last digit.
unfoldable pub read_digits : (ℕ → Option ℕ) → ℕ → ℕ → Bytes → ℕ × Bytes
read_digits digit base acc [] = (acc, [])
read_digits digit base acc (c ∷ s) = elim (digit c) [
  | none ↦ (acc, c ∷ s)
  | some d ↦ read_digits digit base (acc * base + d) s
]

abbrev pub ulong_max : ℕ
ulong_max = 2 ^ 64 - 1

-- strtoul clamps what an unsigned long cannot hold
abbrev pub clamp_ulong : ℕ → ℕ
clamp_ulong n = if ltb n (2 ^ 64) then n else ulong_max

-- The optional "0x" of strtoul in base 16: skipped only where a digit follows it.
unfoldable pub skip_0x : Bytes → Bytes
skip_0x (z ∷ x ∷ d ∷ s) =
    if z == b'0' && (x == b'x' || x == b'X')
    then (elim (hex_digit d) [ none ↦ z ∷ x ∷ d ∷ s | some _ ↦ d ∷ s ])
    else z ∷ x ∷ d ∷ s
skip_0x s = s

unfoldable pub hex_magnitude : Bytes → ℕ
unfolding read_digits hex_digit skip_0x
hex_magnitude t = clamp_ulong (read_digits hex_digit 16 0 (skip_0x t)).0

-- A number behind '-' is negated, unless it is too large.
abbrev pub negate_ulong : ℕ → ℕ
negate_ulong n = if ltb n (2 ^ 64) then (2 ^ 64 - n) % 2 ^ 64 else ulong_max

unfoldable pub signed_hex : Bytes → ℕ
unfolding hex_magnitude read_digits hex_digit skip_0x
signed_hex [] = 0
signed_hex (c ∷ t) =
    if c == b'-'
    then negate_ulong (read_digits hex_digit 16 0 (skip_0x t)).0
    else if c == b'+'
    then hex_magnitude t
    else hex_magnitude (c ∷ t)

-- strtoul(s, NULL, 16), for a 64-bit unsigned long
unfoldable pub strtoul_hex : Bytes → ℕ
unfolding signed_hex skip_space is_space
strtoul_hex s = signed_hex (skip_space s)

-- Decimal digits, at least one; `none` where no digit stands.
unfoldable pub read_nat : Bytes → Option (ℕ × Bytes)
unfolding read_digits dec_digit
read_nat [] = none
read_nat (d ∷ t) = elim (dec_digit d) [
  | none ↦ none
  | some _ ↦ some (read_digits dec_digit 10 0 (d ∷ t))
]

-- The same behind an optional sign.
unfoldable pub read_int : Bytes → Option (ℤ × Bytes)
unfolding read_nat
read_int [] = none
read_int (c ∷ s) =
    if c == b'-'
    then (elim (read_nat s) [ none ↦ none | some (n, rest) ↦ some (sub_ℕ 0 n, rest) ])
    else (elim (read_nat (if c == b'+' then s else c ∷ s)) [
      | none ↦ none
      | some (n, rest) ↦ some (pos n, rest)
    ])

-- atoi, for values that an int holds
unfoldable pub atoi : Bytes → ℤ
unfolding read_int skip_space is_space
atoi s = elim (read_int (skip_space s)) [ none ↦ pos 0 | some (n, rest) ↦ n ]

abc_is_2748 : strtoul_hex (codes " abc,00000001") ≡ 2748
unfolding strtoul_hex
abc_is_2748 = refl

atoi_runs :
    (atoi (codes " -42x") ≡ ℤ.negsuc 41) × (atoi (codes "7") ≡ pos 7) × (atoi (codes "x") ≡ pos 0)
unfolding atoi
atoi_runs = (refl, refl, refl)

-- printf's %d: the digits from the right, for numbers of at most `fuel` digits
unfoldable pub show_digits : ℕ → ℕ → Bytes → Bytes
show_digits zero n acc = acc
show_digits (suc fuel) n acc =
    let more = show_digits fuel (n / 10) ((48 + n % 10) ∷ acc) in
    if ltb n 10 then (48 + n) ∷ acc else more

-- The numbers of an int have at most 10 digits.
unfoldable pub show_int : ℤ → Bytes
unfolding show_digits
show_int (pos n) = show_digits 10 n []
show_int (negsuc n) = b'-' ∷ show_digits 10 (n + 1) []

show_runs : (show_int (pos 4096) ≡ codes "4096") × (show_int (negsuc 0) ≡ codes "-1")
unfolding show_int
show_runs = (refl, refl)
