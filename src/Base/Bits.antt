-- ===== src/Base/Bits.antt =====
-- Single bits of an unsigned word, digit by digit.
use adaptive_liblitmus.Base.Tests.{◌==◌, ltb, if◌then◌else◌}
use Prim.Native.Nat.{ℕ, zero, suc, ◌+◌, ◌-◌, ◌*◌, ◌/◌, ◌%◌, ◌^◌, ◌<◌, ◌≤◌}
use mathlib.Core.Path.{◌≡◌, refl, ap}
use mathlib.Core.Logic.{◌⊎◌}
use mathlib.Core.Bool.{Bool, false, ◌||◌}
use native.Mathlib.Omega.{arith}
use native.Mathlib.Nat.{pow-suc}

-- c >> j & 1
abbrev pub test_bit : ℕ → ℕ → Bool
test_bit c zero = c % 2 == 1
test_bit c (suc j) = test_bit (c / 2) j

-- c & ~(1ul << j)
unfoldable pub clear_bit : ℕ → ℕ → ℕ
clear_bit c zero = c - c % 2
clear_bit c (suc j) = 2 * clear_bit (c / 2) j + c % 2

-- The position of the lowest set bit, searched for in the lowest `w` bits.
unfoldable pub lowest : ℕ → ℕ → ℕ
lowest zero c = 0
lowest (suc w) c = let rest = suc (lowest w (c / 2)) in if c % 2 == 1 then 0 else rest

-- A search in more bits finds the same bit.
pub lowest_wider : (w v c : ℕ) → 0 < c → c < 2 ^ w → w ≤ v → lowest v c ≡ lowest w c
unfolding lowest
lowest_wider zero v c p h l = absurd (omega arith)
lowest_wider (suc w) zero c p h l = absurd (omega arith)
lowest_wider (suc w) (suc v) c p h l = ground (arith, pow-suc 2 w, lowest_wider w v (c / 2))

pub clear_bit-le : (c j : ℕ) → clear_bit c j ≤ c
unfolding clear_bit
clear_bit-le c zero = omega arith
clear_bit-le c (suc j) = omega (arith, clear_bit-le (c / 2) j)

-- Twice a number has the number's bits, one place higher.
pub clear_bit-double : (q j : ℕ) → clear_bit (2 * q) (suc j) ≡ 2 * clear_bit q j
unfolding clear_bit
clear_bit-double q j =
    let half : 2 * q / 2 ≡ q = omega arith in
    let even : 2 * q % 2 ≡ 0 = omega arith in rw (half, even) (omega arith)

pub lowest-double : (w q : ℕ) → lowest (suc w) (2 * q) ≡ suc (lowest w q)
unfolding lowest
lowest-double w q =
    let half : 2 * q / 2 ≡ q = omega arith in
    let even : 2 * q % 2 ≡ 0 = omega arith in rw (even, half)

pub test_bit-zero : (j : ℕ) → test_bit 0 j ≡ false
test_bit-zero zero = refl
test_bit-zero (suc j) = test_bit-zero j

-- A number below 2 ^ w has no bit from w on.
pub test_bit_high : (w c j : ℕ) → c < 2 ^ w → w ≤ j → test_bit c j ≡ false
test_bit_high zero c j h l = let e : c ≡ 0 = omega arith in rw e (test_bit-zero j)
test_bit_high (suc w) c zero h l = absurd (omega arith)
test_bit_high (suc w) c (suc j) h l =
    test_bit_high w (c / 2) j (omega (arith, pow-suc 2 w)) (omega arith)

-- The bits of two words joined.
pub test_bit-join :
    (w a b j : ℕ)
    → b < 2 ^ w
    → test_bit (a * 2 ^ w + b) j ≡ (if ltb j w then test_bit b j else test_bit a (j - w))
test_bit-join zero a b j h =
    let e : a * 2 ^ 0 + b ≡ a = omega arith in
    let f : j - 0 ≡ j = omega arith in rw (e, f) (ground arith)
test_bit-join (suc w) a b zero h =
    let even : (a * 2 ^ suc w + b) % 2 ≡ b % 2 =
      omega (arith, ap (λ (t : ℕ). a * t) (pow-suc 2 w)) in
    rw even (ground arith)
test_bit-join (suc w) a b (suc j) h =
    let half : (a * 2 ^ suc w + b) / 2 ≡ a * 2 ^ w + b / 2 =
      omega (arith, ap (λ (t : ℕ). a * t) (pow-suc 2 w)) in
    rw half (ground (arith, test_bit-join w a (b / 2) j (omega (arith, pow-suc 2 w))))

pub lowest_odd : (w q : ℕ) → lowest (suc w) (2 * q + 1) ≡ 0
unfolding lowest
lowest_odd w q = let odd : (2 * q + 1) % 2 ≡ 1 = omega arith in rw odd

pub clear_bit_odd : (q : ℕ) → clear_bit (2 * q + 1) 0 ≡ 2 * q
unfolding clear_bit
clear_bit_odd q = omega arith

pub test_bit-double : (q j : ℕ) → test_bit (2 * q) (suc j) ≡ test_bit q j
test_bit-double q j = let half : 2 * q / 2 ≡ q = omega arith in rw half

pub test_bit-double_add_one : (q j : ℕ) → test_bit (2 * q + 1) (suc j) ≡ test_bit q j
test_bit-double_add_one q j = let half : (2 * q + 1) / 2 ≡ q = omega arith in rw half

pub even_or_odd : (c : ℕ) → (c ≡ 2 * (c / 2)) ⊎ (c ≡ 2 * (c / 2) + 1)
even_or_odd c = omega arith

-- c | 1ul << j
unfoldable pub set_bit : ℕ → ℕ → ℕ
set_bit c zero = c - c % 2 + 1
set_bit c (suc j) = 2 * set_bit (c / 2) j + c % 2

pub test_bit-set_bit : (c i j : ℕ) → test_bit (set_bit c i) j ≡ ((j == i) || test_bit c j)
unfolding set_bit
test_bit-set_bit c zero zero = let odd : (c - c % 2 + 1) % 2 ≡ 1 = omega arith in rw odd
test_bit-set_bit c zero (suc j) =
    let half : (c - c % 2 + 1) / 2 ≡ c / 2 = omega arith in rw half (ground arith)
test_bit-set_bit c (suc i) zero =
    let low : (2 * set_bit (c / 2) i + c % 2) % 2 ≡ c % 2 = omega arith in rw low (ground arith)
test_bit-set_bit c (suc i) (suc j) =
    let half : (2 * set_bit (c / 2) i + c % 2) / 2 ≡ set_bit (c / 2) i = omega arith in
    rw (half, test_bit-set_bit (c / 2) i j) (ground arith)
