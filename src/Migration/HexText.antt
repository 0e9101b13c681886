-- ===== src/Migration/HexText.antt =====
-- Hexadecimal groups as the kernel prints them, and what strtoul reads of them.
use adaptive_liblitmus.Base.{
  ℕ, ◌+◌, ◌*◌, ◌^◌, ◌<◌, ◌≤◌, ◌≡◌, refl, ap, ◌∙◌, ◌≢◌, List, [], ◌∷◌, ◌++◌, All, arith, length, ltb,
  if◌then◌else◌, none, some, lt→ltb,
}
use native.Mathlib.Nat.{mul-le-mul_right, pow-suc, le_trans, pow-le-pow_right}
use adaptive_liblitmus.Base.Chars.{
  Bytes, hex_digit, read_digits, skip_0x, hex_magnitude, strtoul_hex,
}

-- The lower-case digit of a number below 16.
unfoldable pub hex_char : ℕ → ℕ
hex_char n = if ltb n 10 then n + 48 else n + 87

unfoldable pub hex_text : List ℕ → Bytes
hex_text [] = []
hex_text (d ∷ ds) = hex_char d ∷ hex_text ds

unfoldable pub hex_value : ℕ → List ℕ → ℕ
hex_value acc [] = acc
hex_value acc (d ∷ ds) = hex_value (acc * 16 + d) ds

abbrev pub AreNibbles : List ℕ → Type 0
AreNibbles = All (λ d. d < 16)

-- What follows a group: nothing, or a comma.
abbrev pub Stops : Bytes → Type 0
Stops [] = Unit {0}
Stops (c ∷ t) = c ≡ b','

hex_digit-hex_char : (d : ℕ) → d < 16 → hex_digit (hex_char d) ≡ some d
unfolding hex_digit hex_char
hex_digit-hex_char d h = ground arith

read_digits-hex_text :
    (ds : List ℕ) (acc : ℕ) (tail : Bytes)
    → AreNibbles ds
    → Stops tail
    → read_digits hex_digit 16 acc (hex_text ds ++ tail) ≡ (hex_value acc ds, tail)
unfolding read_digits hex_text hex_value
read_digits-hex_text [] acc [] h t = refl
read_digits-hex_text [] acc (c ∷ cs) h t =
    let comma : hex_digit c ≡ none = stops_at c t in rw (comma, read_digits)
  where
    stops_at : (x : ℕ) → x ≡ b',' → hex_digit x ≡ none
    stops_at x e = rw e (unfold hex_digit in refl)
read_digits-hex_text (d ∷ ds) acc tail h t =
    rw (hex_digit-hex_char d h.0, read_digits) (read_digits-hex_text ds (acc * 16 + d) tail h.1 t)

hex_value-lt :
    (ds : List ℕ) (acc : ℕ) → AreNibbles ds → hex_value acc ds + 1 ≤ (acc + 1) * 16 ^ length ds
unfolding hex_value
hex_value-lt [] acc h = omega arith
hex_value-lt (d ∷ ds) acc h =
    let digit : (acc * 16 + d + 1) * 16 ^ length ds ≤ ((acc + 1) * 16) * 16 ^ length ds =
      mul-le-mul_right (16 ^ length ds) (omega (arith, h.0)) in
    omega (
      arith,
      digit,
      hex_value-lt ds (acc * 16 + d) h.1,
      ap (λ (t : ℕ). (acc + 1) * t) (pow-suc 16 (length ds)),
    )

-- A group of at most 8 digits fits 32 bits.
pub hex_value_bound : (ds : List ℕ) → AreNibbles ds → length ds ≤ 8 → hex_value 0 ds < 2 ^ 32
hex_value_bound ds h l =
    omega (
      arith,
      hex_value-lt ds 0 h,
      pow-le-pow_right {n = 16} (omega arith) {i = length ds} {j = 8} l,
    )

hex_char_bounds : (d : ℕ) → d < 16 → (48 ≤ hex_char d) × (hex_char d ≢ b'x') × (hex_char d ≢ b'X')
unfolding hex_char
hex_char_bounds d h = ground arith

-- The first byte of a group is no white space and no sign, and what follows it is no x.
strtoul_hex_plain : (x : ℕ) (s : Bytes) → 48 ≤ x → strtoul_hex (x ∷ s) ≡ hex_magnitude (x ∷ s)
unfolding strtoul_hex
strtoul_hex_plain x s h = ground arith

skip_0x_plain : (z x : ℕ) (s : Bytes) → x ≢ b'x' → x ≢ b'X' → skip_0x (z ∷ x ∷ s) ≡ z ∷ x ∷ s
unfolding skip_0x
skip_0x_plain z x [] h k = refl
skip_0x_plain z x (d ∷ s) h k = ground arith

skip_0x-hex_text :
    (ds : List ℕ) (tail : Bytes)
    → AreNibbles ds
    → Stops tail
    → skip_0x (hex_text ds ++ tail) ≡ hex_text ds ++ tail
unfolding skip_0x hex_text
skip_0x-hex_text [] [] h t = refl
skip_0x-hex_text [] (c ∷ []) h t = refl
skip_0x-hex_text [] (c ∷ d ∷ []) h t = refl
skip_0x-hex_text [] (c ∷ d ∷ e ∷ s) h t = ground arith
skip_0x-hex_text (d ∷ []) [] h t = refl
skip_0x-hex_text (d ∷ []) (c ∷ s) h t = skip_0x_plain (hex_char d) c s (omega arith) (omega arith)
skip_0x-hex_text (d ∷ e ∷ ds) tail h t =
    skip_0x_plain (hex_char d) (hex_char e) (hex_text ds ++ tail) (hex_char_bounds e h.1.0).1
      (hex_char_bounds e h.1.0).2

-- strtoul reads a group of at most 8 digits whole, and stops at the comma behind it.
pub strtoul_hex-hex_text :
    (d : ℕ) (ds : List ℕ) (tail : Bytes)
    → AreNibbles (d ∷ ds)
    → length (d ∷ ds) ≤ 8
    → Stops tail
    → strtoul_hex (hex_text (d ∷ ds) ++ tail) ≡ hex_value 0 (d ∷ ds)
unfolding hex_magnitude
strtoul_hex-hex_text d ds tail h l t =
    let first : strtoul_hex (hex_text (d ∷ ds) ++ tail)
        ≡ hex_magnitude (hex_text (d ∷ ds) ++ tail) =
      unfold hex_text in
      strtoul_hex_plain (hex_char d) (hex_text ds ++ tail) (hex_char_bounds d h.0).0 in
    let small : hex_value 0 (d ∷ ds) < 2 ^ 64 =
      le_trans (hex_value_bound (d ∷ ds) h l) (omega arith) in
    first
    ∙ rw (
      skip_0x-hex_text (d ∷ ds) tail h t,
      read_digits-hex_text (d ∷ ds) 0 tail h t,
      lt→ltb _ _ small,
    )
