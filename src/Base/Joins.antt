-- ===== src/Base/Joins.antt =====
-- The binary or of two numbers that share no bit.
use Prim.Native.Nat.{
  ℕ, zero, suc, ◌+◌, ◌*◌, ◌/◌, ◌%◌, ◌^◌, ◌<◌, ◌≤◌, max, digits, bit_or, bit_or-bitwise,
}
use mathlib.Core.Path.{◌≡◌, refl, ap, ◌∙◌}
use native.Mathlib.Omega.{arith}
use native.Mathlib.Nat.{pow-suc}

-- With a count of digits that is large enough.
abbrev or_digits : ℕ → ℕ → ℕ → ℕ
or_digits n a b = digits (λ b. b) max n a b

or_digits_count : (n m a b : ℕ) → a ≤ n → a ≤ m → or_digits n a b ≡ or_digits m a b
or_digits_count zero zero a b h h' = refl
or_digits_count zero (suc m) zero b h h' = refl
or_digits_count zero (suc m) (suc a) b h h' = absurd (omega arith)
or_digits_count (suc n) zero zero b h h' = refl
or_digits_count (suc n) zero (suc a) b h h' = absurd (omega arith)
or_digits_count (suc n) (suc m) zero b h h' = refl
or_digits_count (suc n) (suc m) (suc a) b h h' =
    omega (arith, or_digits_count n m (suc a / 2) (b / 2) (omega arith) (omega arith))

bit_or-zero : (b : ℕ) → bit_or 0 b ≡ b
bit_or-zero b = bit_or-bitwise 0 b

bit_or-halves : (a b : ℕ) → bit_or a b ≡ bit_or (a / 2) (b / 2) * 2 + max (a % 2) (b % 2)
bit_or-halves zero b = omega (arith, bit_or-zero b, bit_or-zero (b / 2))
bit_or-halves (suc a) b = omega (
  arith,
  bit_or-bitwise (suc a) b,
  bit_or-bitwise (suc a / 2) (b / 2),
  or_digits_count a (suc a / 2) (suc a / 2) (b / 2) (omega arith) (omega arith),
)

-- The low word beside the high one.
pub bit_or-join : (w a d : ℕ) → a < 2 ^ w → bit_or a (d * 2 ^ w) ≡ d * 2 ^ w + a
bit_or-join zero a d h =
    let none_left : a ≡ 0 = omega arith in rw none_left (omega (arith, bit_or-zero (d * 2 ^ 0)))
bit_or-join (suc w) a d h =
    let double : d * 2 ^ suc w ≡ 2 * (d * 2 ^ w) =
      omega (arith, ap (λ (t : ℕ). d * t) (pow-suc 2 w)) in
    let ih : bit_or (a / 2) (d * 2 ^ w) ≡ d * 2 ^ w + a / 2 =
      bit_or-join w (a / 2) d (omega (arith, pow-suc 2 w)) in
    let half : d * 2 ^ suc w / 2 ≡ d * 2 ^ w = omega arith in
    let even : d * 2 ^ suc w % 2 ≡ 0 = omega arith in
    bit_or-halves a (d * 2 ^ suc w) ∙ rw (half, even, ih) (omega arith)
