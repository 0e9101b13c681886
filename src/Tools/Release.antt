-- ===== src/Tools/Release.antt =====
-- bin/release_ts.c.
use adaptive_liblitmus.Base.{
  ℕ, zero, suc, ◌-◌, ◌*◌, ◌%◌, ◌^◌, ◌==◌, Bool, true, false, ◌||◌, ◌&&◌, List, [], ◌∷◌,
  if◌then◌else◌,
}
use adaptive_liblitmus.Base.Int.{ℤ, pos, is_neg, is_zero, ltb_ℤ}
use adaptive_liblitmus.Base.Chars.{Bytes, atoi}
use adaptive_liblitmus.Kernel.{Kernel, Call, M, ◌>>=◌, ◌>>◌, pure, exit, crash, call}
use adaptive_liblitmus.Syscalls.{release_ts}
use adaptive_liblitmus.KernelIface.Stats.{read_litmus_stats}
use adaptive_liblitmus.Tools.Common.{Opt, usage}

pub record ReleaseOptions : Type 0 where
  pub delay : ℕ
  pub wait : Bool
  pub expected : ℤ

-- ms2ns of an int, which becomes an unsigned 64-bit number
abbrev pub ms2ns_int : ℤ → ℕ
ms2ns_int (pos n) = n * 1_000_000 % 2 ^ 64
ms2ns_int (ℤ.negsuc n) = 2 ^ 64 - 1 - (suc n * 1_000_000 - 1) % 2 ^ 64

abbrev pub default_release_options : ReleaseOptions
default_release_options = record { delay = ms2ns_int (pos 1000); wait = false; expected = pos 0 }

unfoldable pub release_option : Opt → ReleaseOptions → M ReleaseOptions
release_option (opt, optarg) o =
    if opt == b'd'
    then pure (record o { delay = ms2ns_int (atoi optarg) })
    else if opt == b'w'
    then pure (record o { wait = true })
    else if opt == b'f'
    then pure (record o { wait = true; expected = atoi optarg })
    else usage

unfoldable pub release_options : List Opt → ReleaseOptions → M ReleaseOptions
release_options [] o = pure o
release_options (opt ∷ opts) o = release_option opt o >>= release_options opts

-- `expected > ready || (!expected && ready < all)`
abbrev pub is_waiting : ℤ → ℤ → ℤ → Bool
is_waiting expected ready all = ltb_ℤ ready expected || (is_zero expected && ltb_ℤ ready all)

-- The rounds of wait_until_ready, of which only the first does not sleep; `stack` is what the buffer
-- of read_litmus_stats holds. What the counters are at the end is returned.
unfoldable pub wait_rounds : Kernel → Bytes → ℕ → Bool → ℤ → ℤ → ℤ → M (ℤ × ℤ)
unfolding call
wait_rounds k stack zero later expected ready all = crash
wait_rounds k stack (suc rounds) later expected ready all = do
  if later then (call k (Call.sleep 1) >> pure tt) else pure tt
  (ok, ready', all') ← read_litmus_stats k stack ready all
  if is_waiting expected ready' all'
      then wait_rounds k stack rounds true expected ready' all'
      else pure (ready', all')

unfoldable pub wait_until_ready : Kernel → Bytes → ℕ → ℤ → M (ℤ × ℤ)
unfolding wait_rounds
wait_until_ready k stack rounds expected = wait_rounds k stack rounds false expected (pos 0) (pos 0)

unfoldable pub release_main : Kernel → Bytes → ℕ → List Opt → M ℤ
unfolding release_options release_ts
release_main k stack rounds opts = do
  o ← release_options opts default_release_options
  if o.wait then (wait_until_ready k stack rounds o.expected >> pure tt) else pure tt
  released ← release_ts k o.delay
  if is_neg released then exit (pos 1) else pure (pos 0)
