-- ===== src/Tools/Cycles.antt =====
-- The cycle counters of arch/: what get_cycles makes of the registers that the inline assembly reads,
-- which are parameters.
use adaptive_liblitmus.Base.{ℕ, ◌*◌, ◌%◌, ◌^◌}
use adaptive_liblitmus.Base.Bits.{clear_bit}
use Prim.Native.Nat.{bit_or}
use adaptive_liblitmus.Kernel.{Kernel, Log, M, ◌>>=◌, pure, gets}
use adaptive_liblitmus.Syscalls.{null_call}

-- rdtscll( val ), from the registers eax and edx, which are 32 bits wide
unfoldable pub rdtscll : ℕ × ℕ → ℕ
rdtscll (a, d) = bit_or a (d * 2 ^ 32 % 2 ^ 64)

-- The fences around the instruction do nothing to its result.
unfoldable pub native_read_tsc : (Log → ℕ × ℕ) → M ℕ
unfolding rdtscll
native_read_tsc rdtsc = gets (λ s. rdtscll (rdtsc s.log))

-- arch/x86
unfoldable pub x86_get_cycles : (Log → ℕ × ℕ) → M ℕ
unfolding native_read_tsc
x86_get_cycles rdtsc = native_read_tsc rdtsc

abbrev pub npt_bit : ℕ
npt_bit = 63

-- arch/sparc, from what `rd %asr24` reads: cycles & ~(1UL << NPT_BIT)
unfoldable pub sparc_get_cycles : (Log → ℕ) → M ℕ
unfolding clear_bit
sparc_get_cycles asr24 = gets (λ s. clear_bit (asr24 s.log) npt_bit)

-- arch/arm, where the kernel reads the counter
unfoldable pub arm_get_cycles : Kernel → M ℕ
unfolding null_call
arm_get_cycles k = do (ret, c) ← null_call k; pure c
