-- ===== src/Migration/CpuSet.antt =====
-- Dynamic CPU sets (CPU_ALLOC, CPU_SET_S, ...) and the loop that puts one 32-bit chunk of a mask
-- into such a set. An allocation is taken to succeed, as in the source.
use adaptive_liblitmus.Base.{
  ℕ, zero, suc, ◌+◌, ◌-◌, ◌*◌, ◌/◌, ◌^◌, ◌<◌, ◌≡◌, refl, Bool, true, false, ◌&&◌, ◌||◌, List, arith,
  length, set, get_or, replicate, ltb, leb, ◌==◌, if◌then◌else◌, length-set, get_or-set_self,
  get_or-set_ne, get_or_past, Bool-cases, inl, inr, ◌⊎◌, ltb→lt, ltb→le,
}
use adaptive_liblitmus.Base.Bits.{
  test_bit, clear_bit, lowest, lowest_wider, clear_bit-le, clear_bit-double, lowest-double,
  test_bit-zero, lowest_odd, clear_bit_odd, test_bit-double, test_bit-double_add_one, even_or_odd,
}
use native.Mathlib.Nat.{pow-suc, le_trans, pow-le-pow_right}
use Prim.Native.Nat.{suc-le-suc}

-- Bit x of the allocated memory, for every x that it has; NULL with size 0 is the empty list.
abbrev pub CpuSet : Type 0
CpuSet = List Bool

-- CPU_ALLOC(n) and CPU_ZERO_S: whole 64-bit words.
abbrev pub cpu_alloc : ℕ → CpuSet
cpu_alloc n = replicate ((n + 63) / 64 * 64) false

-- CPU_SET_S, which ignores a CPU beyond the set, and CPU_ISSET_S, which finds none there.
abbrev pub cpu_set : ℕ → CpuSet → CpuSet
cpu_set x s = set s x true

abbrev pub cpu_isset : ℕ → CpuSet → Bool
cpu_isset x s = get_or s x false

-- `while (chunk)` of read_mapping, for the chunk whose lowest bit is CPU `first`.
unfoldable pub set_chunk : ℕ → ℕ → ℕ → CpuSet → CpuSet
set_chunk zero first chunk s = s
set_chunk (suc fuel) first chunk s =
    let j = lowest 64 chunk in
    let rest = set_chunk fuel first (clear_bit chunk j) (cpu_set (first + j) s) in
    if chunk == 0 then s else rest

set_chunk-zero : (fuel first : ℕ) (s : CpuSet) → set_chunk fuel first 0 s ≡ s
unfolding set_chunk
set_chunk-zero zero first s = refl
set_chunk-zero (suc fuel) first s = refl

-- A chunk of twice the value starts one CPU further up.
set_chunk-double :
    (fuel first q : ℕ) (s : CpuSet)
    → q < 2 ^ 63
    → set_chunk fuel first (2 * q) s ≡ set_chunk fuel (first + 1) q s
unfolding set_chunk
set_chunk-double zero first q s h = refl
set_chunk-double (suc fuel) first zero s h = refl
set_chunk-double (suc fuel) first (suc p) s h =
    let wide : lowest 64 (suc p) ≡ lowest 63 (suc p) =
      lowest_wider 63 64 (suc p) (omega arith) h (omega arith) in
    let up : first + suc (lowest 63 (suc p)) ≡ first + 1 + lowest 63 (suc p) = omega arith in
    rw (set_chunk, lowest-double 63 (suc p), wide, clear_bit-double, up)
      (ground (
        arith,
        set_chunk-double fuel first (clear_bit (suc p) (lowest 63 (suc p)))
            (cpu_set (first + 1 + lowest 63 (suc p)) s)
            (le_trans (suc-le-suc (clear_bit-le (suc p) (lowest 63 (suc p)))) h),
      ))

-- An odd chunk sets its first CPU and goes on with the rest.
set_chunk-odd :
    (fuel first q : ℕ) (s : CpuSet)
    → q < 2 ^ 63
    → set_chunk (suc fuel) first (2 * q + 1) s ≡ set_chunk fuel (first + 1) q (cpu_set first s)
unfolding set_chunk
set_chunk-odd fuel first q s h =
    let here : first + 0 ≡ first = omega arith in
    rw (set_chunk, lowest_odd 63 q, clear_bit_odd, here)
      (ground (arith, set_chunk-double fuel first q (cpu_set first s) h))

order : (x y : ℕ) → (x < y) ⊎ ((x ≡ y) ⊎ (y < x))
order x y = omega arith

lt_pow : (w c : ℕ) → c < 2 ^ w → suc w < 64 → c < 2 ^ 63
lt_pow w c h l = le_trans h (pow-le-pow_right {n = 2} (omega arith) {i = w} {j = 63} (omega arith))

-- Whether CPU x is a bit of the chunk that begins at CPU `first`.
abbrev pub in_chunk : ℕ → ℕ → ℕ → Bool
in_chunk first c x = leb first x && test_bit c (x - first)

in_chunk-double : (first q x : ℕ) → in_chunk first (2 * q) x ≡ in_chunk (first + 1) q x
in_chunk-double first q x = elim (order x first) [
  | inl before ↦ ground arith
  | inr (inl e) ↦ (let none_past : x - first ≡ 0 = omega arith in rw none_past (ground arith))
  | inr (inr h) ↦
      (let past : x - first ≡ suc (x - (first + 1)) = omega arith in
        rw (past, test_bit-double) (ground arith))
]

in_chunk-odd :
    (first q x : ℕ) → in_chunk first (2 * q + 1) x ≡ ((x == first) || in_chunk (first + 1) q x)
in_chunk-odd first q x = elim (order x first) [
  | inl before ↦ ground arith
  | inr (inl e) ↦ (let none_past : x - first ≡ 0 = omega arith in rw none_past (ground arith))
  | inr (inr h) ↦
      (let past : x - first ≡ suc (x - (first + 1)) = omega arith in
        rw (past, test_bit-double_add_one) (ground arith))
]

pub cpu_isset-cpu_set :
    (x y : ℕ) (s : CpuSet)
    → cpu_isset x (cpu_set y s) ≡ (((x == y) && ltb x (length s)) || cpu_isset x s)
cpu_isset-cpu_set x y s = elim (order x y) [
  | inl before ↦ rw (get_or-set_ne s y x true false (omega arith)) (ground arith)
  | inr (inl e) ↦ elim (Bool-cases (ltb x (length s))) [
    | inl room ↦
        rw e (rw (get_or-set_self s y true false (rw e at (ltb→lt _ _ room))) (ground arith))
    | inr full ↦ ground (
      arith,
      get_or_past s x false,
      get_or_past (set s y true) x false,
      length-set s y true,
      ltb→le x (length s) full,
    )
  ]
  | inr (inr h) ↦ rw (get_or-set_ne s y x true false (omega arith)) (ground arith)
]

-- After the loop a CPU is in the set exactly if it was, or if the chunk has its bit (and the set
-- has room for it).
pub cpu_isset-set_chunk :
    (w fuel first c x : ℕ) (s : CpuSet)
    → c < 2 ^ w
    → w < 64
    → w < fuel
    → cpu_isset x (set_chunk fuel first c s)
      ≡ ((in_chunk first c x && ltb x (length s)) || cpu_isset x s)
cpu_isset-set_chunk zero fuel first c x s h l f =
    let e : c ≡ 0 = omega arith in
    rw (e, set_chunk-zero) (ground (arith, test_bit-zero (x - first)))
cpu_isset-set_chunk (suc w) zero first c x s h l f = absurd (omega arith)
cpu_isset-set_chunk (suc w) (suc fuel) first c x s h l f =
    let small : c / 2 < 2 ^ w = omega (arith, pow-suc 2 w) in
    let small' : c / 2 < 2 ^ 63 = lt_pow w (c / 2) small l in
    elim (even_or_odd c) [
      | inl even ↦ rw even (
          rw (set_chunk-double (suc fuel) first (c / 2) s small', in_chunk-double)
            (cpu_isset-set_chunk w (suc fuel) (first + 1) (c / 2) x s small (omega arith)
              (omega arith)))
      | inr odd ↦ rw odd (
          rw
            (
              set_chunk-odd fuel first (c / 2) s small',
              in_chunk-odd,
              cpu_isset-set_chunk w fuel (first + 1) (c / 2) x (cpu_set first s) small (omega arith)
                  (omega arith),
              length-set,
              cpu_isset-cpu_set,
            )
            (ground arith))
    ]

pub length-set_chunk :
    (fuel first c : ℕ) (s : CpuSet) → length (set_chunk fuel first c s) ≡ length s
unfolding set_chunk
length-set_chunk zero first c s = refl
length-set_chunk (suc fuel) first c s = ground (
  arith,
  length-set_chunk fuel first (clear_bit c (lowest 64 c)) (cpu_set (first + lowest 64 c) s),
  length-set s (first + lowest 64 c) true,
)
