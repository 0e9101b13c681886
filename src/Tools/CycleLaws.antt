-- ===== src/Tools/CycleLaws.antt =====
-- What the programs measure with the cycle counters of arch/.
use adaptive_liblitmus.Base.{
  ℕ, zero, suc, ◌+◌, ◌*◌, ◌/◌, ◌%◌, ◌^◌, ◌<◌, ◌≡◌, ap, ◌∙◌, Bool, true, false, List, All, arith,
  if◌then◌else◌,
}
use mathlib.Core.Path.{fun_ext}
use native.Mathlib.Nat.{pow-suc}
use adaptive_liblitmus.Base.Bits.{clear_bit}
use adaptive_liblitmus.Base.Joins.{bit_or-join}
use adaptive_liblitmus.Base.Chars.{Bytes}
use adaptive_liblitmus.Kernel.{Kernel, Log, Outcome, State}
use adaptive_liblitmus.Tools.NullCall.{Sample, sample_keys}
use adaptive_liblitmus.Tools.NullCallLaws.{
  AddsUp, Grows, reading, lines_of, lines_of-AddsUp, sample_keys-lines_of,
}
use adaptive_liblitmus.Tools.Cycles.{
  rdtscll, native_read_tsc, x86_get_cycles, sparc_get_cycles, npt_bit,
}

-- The two halves of a 64-bit counter.
abbrev pub halves : ℕ → ℕ × ℕ
halves c = (c % 2 ^ 32, c / 2 ^ 32)

rdtscll-halves : (c : ℕ) → c < 2 ^ 64 → rdtscll (halves c) ≡ c
unfolding rdtscll
rdtscll-halves c h =
    let fits : c / 2 ^ 32 * 2 ^ 32 % 2 ^ 64 ≡ c / 2 ^ 32 * 2 ^ 32 = omega arith in
    rw fits (bit_or-join 32 (c % 2 ^ 32) (c / 2 ^ 32) (omega arith) ∙ omega arith)

-- A counter below 2 ^ w, with a bit at w in front of it.
abbrev pub with_bit : ℕ → Bool → ℕ → ℕ
with_bit w b c = (if b then 2 ^ w else 0) + c

clear_bit-with_bit : (w : ℕ) (b : Bool) (c : ℕ) → c < 2 ^ w → clear_bit (with_bit w b c) w ≡ c
unfolding clear_bit
clear_bit-with_bit zero true c h = omega arith
clear_bit-with_bit zero false c h = omega arith
clear_bit-with_bit (suc w) b c h =
    let half : with_bit (suc w) b c / 2 ≡ with_bit w b (c / 2) = ground (arith, pow-suc 2 w) in
    let low : with_bit (suc w) b c % 2 ≡ c % 2 = ground (arith, pow-suc 2 w) in
    let ih : clear_bit (with_bit w b (c / 2)) w ≡ c / 2 =
      clear_bit-with_bit w b (c / 2) (omega (arith, pow-suc 2 w)) in
    rw (half, low, ih) (omega arith)

-- One line for each key, made up of the readings around the call and the time stamp of the call, in
-- which the times add up.
abbrev pub Measures : Kernel → (Log → ℕ) → Bytes → Log → Outcome (List Sample) × State → Type 0
Measures k counter keys l r =
    (r.0 ≡ Outcome.value (lines_of k counter keys l)) × All AddsUp (lines_of k counter keys l)

x86_get_cycles-halves :
    (counter : Log → ℕ)
    → ((l : Log) → counter l < 2 ^ 64)
    → x86_get_cycles (λ l. halves (counter l)) ≡ reading counter
unfolding x86_get_cycles native_read_tsc
x86_get_cycles-halves counter fits =
    fun_ext λ s. ap (λ c. (Outcome.value c, s)) (rdtscll-halves (counter s.log) (fits s.log))

sparc_get_cycles-with_bit :
    (counter : Log → ℕ) (npt : Log → Bool)
    → ((l : Log) → counter l < 2 ^ npt_bit)
    → sparc_get_cycles (λ l. with_bit npt_bit (npt l) (counter l)) ≡ reading counter
unfolding sparc_get_cycles
sparc_get_cycles-with_bit counter npt fits = fun_ext λ s.
    ap (λ c. (Outcome.value c, s))
      (clear_bit-with_bit npt_bit (npt s.log) (counter s.log) (fits s.log))

-- With a 64-bit counter that grows and does not overflow, read on x86 from its two halves: null_call
-- prints one line for each key pressed, which has the counter before the call, the kernel's time stamp
-- and the counter after it, the time to enter the kernel, from the first to the second, the time to
-- leave it, from the second to the third, and the total, to which the two add up.
pub x86_get_cycles-Measures :
    (k : Kernel) (counter : Log → ℕ) (keys : Bytes) (s : State)
    → Grows k counter
    → Measures k counter keys s.log
        (sample_keys k (x86_get_cycles (λ l. halves (counter l))) keys s)
x86_get_cycles-Measures k counter keys s g =
    rw (x86_get_cycles-halves counter g.fits)
      (sample_keys-lines_of k counter g keys s, lines_of-AddsUp k counter g keys s.log)

-- With a 63-bit counter that grows, read on sparc with any bit in front of it, null_call prints the
-- same lines.
pub sparc_get_cycles-Measures :
    (k : Kernel) (counter : Log → ℕ) (npt : Log → Bool) (keys : Bytes) (s : State)
    → Grows k counter
    → ((l : Log) → counter l < 2 ^ npt_bit)
    → Measures k counter keys s.log
        (sample_keys k (sparc_get_cycles (λ l. with_bit npt_bit (npt l) (counter l))) keys s)
sparc_get_cycles-Measures k counter npt keys s g short =
    rw (sparc_get_cycles-with_bit counter npt short)
      (sample_keys-lines_of k counter g keys s, lines_of-AddsUp k counter g keys s.log)
