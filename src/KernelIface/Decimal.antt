-- ===== src/KernelIface/Decimal.antt =====
-- A number that is printed by %d is read back by %d, whatever stands behind it that is no digit.
use adaptive_liblitmus.Base.{
  ℕ, zero, suc, ◌+◌, ◌-◌, ◌*◌, ◌/◌, ◌%◌, ◌<◌, ◌≤◌, ◌≡◌, refl, ap, ◌∙◌, inl, inr, Bool-cases, true,
  ◌∷◌, ◌++◌, arith, length, ltb, leb, ltb→lt, some,
}
use adaptive_liblitmus.Base.Int.{pos}
use adaptive_liblitmus.Base.Chars.{
  Bytes, c_string, is_space, skip_space, dec_digit, read_digits, read_nat, read_int, show_digits,
}

-- 10 to the power of a number of digits.
abbrev pub ten_pow : ℕ → ℕ
ten_pow zero = 1
ten_pow (suc f) = 10 * ten_pow f

-- A byte is a digit.
abbrev pub IsDigit : ℕ → Type 0
IsDigit c = (48 ≤ c) × (c ≤ 57)

read_digits-digit :
    (acc d : ℕ) (r : Bytes)
    → d < 10
    → read_digits dec_digit 10 acc ((48 + d) ∷ r) ≡ read_digits dec_digit 10 (acc * 10 + d) r
unfolding read_digits dec_digit
read_digits-digit acc d r h =
    let low : leb 48 (48 + d) ≡ true = ground arith in
    let high : leb (48 + d) 57 ≡ true = ground arith in
    let same : 48 + d - 48 ≡ d = omega arith in ground arith

read_digits-show :
    (f n : ℕ) (r : Bytes)
    → n < ten_pow f
    → read_digits dec_digit 10 0 (show_digits f n r) ≡ read_digits dec_digit 10 n r
unfolding show_digits
read_digits-show zero n r h = let z : n ≡ 0 = omega arith in rw z refl
read_digits-show (suc f) n r h = elim (Bool-cases (ltb n 10)) [
  | inl small ↦
      rw (small, show_digits)
        (read_digits-digit 0 n r (ltb→lt n 10 small)
          ∙ ap (λ x. read_digits dec_digit 10 x r) (omega arith))
  | inr large ↦
      let back : n / 10 * 10 + n % 10 ≡ n = omega arith in
      rw
        (
          large,
          show_digits,
          read_digits-show f (n / 10) ((48 + n % 10) ∷ r) (omega arith),
          read_digits-digit (n / 10) (n % 10) r (omega arith),
          back,
        )
        refl
]

-- What is printed begins with a digit.
pub show_digits-cons :
    (f n : ℕ) (r : Bytes) → (d : ℕ) × (t : Bytes) × (show_digits (suc f) n r ≡ d ∷ t) × IsDigit d
unfolding show_digits
show_digits-cons zero n r = elim (Bool-cases (ltb n 10)) [
  | inl small ↦ (48 + n, r, rw small refl, ground (arith, ltb→lt n 10 small))
  | inr large ↦ (48 + n % 10, r, rw large refl, omega arith)
]
show_digits-cons (suc f) n r = elim (Bool-cases (ltb n 10)) [
  | inl small ↦ (48 + n, r, rw small refl, ground (arith, ltb→lt n 10 small))
  | inr large ↦ rw (large, show_digits) (show_digits-cons f (n / 10) ((48 + n % 10) ∷ r))
]

-- A newline behind a number ends it.
pub read_int-show :
    (f n : ℕ) (r : Bytes)
    → n < ten_pow (suc f)
    → read_int (show_digits (suc f) n (b'\n' ∷ r)) ≡ some (pos n, b'\n' ∷ r)
unfolding read_int read_nat dec_digit
read_int-show f n r h =
    let (d, t, e, digit) = show_digits-cons f n (b'\n' ∷ r) in
    let whole : read_digits dec_digit 10 0 (d ∷ t) ≡ (n, b'\n' ∷ r) =
      rw e at (read_digits-show (suc f) n (b'\n' ∷ r) h ∙ unfold read_digits in refl) in
    rw e (ground (arith, whole))

pub skip_space-show :
    (f n : ℕ) (r : Bytes) → skip_space (show_digits (suc f) n r) ≡ show_digits (suc f) n r
unfolding skip_space is_space
skip_space-show f n r =
    let (d, t, e, digit) = show_digits-cons f n r in rw e (ground (arith, digit))

-- What is printed holds no NUL.
pub c_string-show :
    (f n : ℕ) (r : Bytes) → c_string (show_digits f n r) ≡ show_digits f n (c_string r)
unfolding c_string show_digits
c_string-show zero n r = refl
c_string-show (suc f) n r =
    let more : c_string ((48 + n % 10) ∷ r) ≡ (48 + n % 10) ∷ c_string r = ground arith in
    ground (arith, c_string-show f (n / 10) ((48 + n % 10) ∷ r), more)

pub length-show : (f n : ℕ) (r : Bytes) → length (show_digits f n r) ≤ f + length r
unfolding show_digits
length-show zero n r = omega arith
length-show (suc f) n r = ground (arith, length-show f (n / 10) ((48 + n % 10) ∷ r))

pub show_digits-append : (f n : ℕ) (r x : Bytes) → show_digits f n r ++ x ≡ show_digits f n (r ++ x)
unfolding show_digits
show_digits-append zero n r x = refl
show_digits-append (suc f) n r x = elim (Bool-cases (ltb n 10)) [
  | inl small ↦ rw (small, show_digits) refl
  | inr large ↦ rw (large, show_digits) (show_digits-append f (n / 10) ((48 + n % 10) ∷ r) x)
]
