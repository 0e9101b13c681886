-- ===== src/KernelIface/Stats.antt =====
-- read_litmus_stats and get_nr_ts_release_waiters, with the part of sscanf that they use.
use adaptive_liblitmus.Base.{
  ℕ, ◌≡◌, refl, ◌==◌, Bool, true, false, List, [], ◌∷◌, ◌++◌, length, drop, none, some,
  if◌then◌else◌,
}
use adaptive_liblitmus.Base.Int.{ℤ, minus_one}
use adaptive_liblitmus.Base.Chars.{Bytes, codes, c_string, is_space, skip_space, read_int}
use adaptive_liblitmus.Kernel.{Kernel, M, ◌>>=◌, pure}
use adaptive_liblitmus.KernelIface.Files.{read_file}

-- A directive of a format: any white space, one byte, or %d.
pub data Directive : Type 0 where
  space : Directive
  literal : ℕ → Directive
  int : Directive

unfoldable pub format : Bytes → List Directive
unfolding is_space
format [] = []
format (c ∷ []) = (if is_space c then space else literal c) ∷ []
format (c ∷ d ∷ s) =
    let rest = format s in
    let more = format (d ∷ s) in
    if c == b'%' then int ∷ rest else (if is_space c then space else literal c) ∷ more

-- The numbers that sscanf stores, in order; it stops at the first directive that fails.
unfoldable pub sscanf : List Directive → Bytes → List ℤ
unfolding skip_space is_space read_int
sscanf [] s = []
sscanf (space ∷ f) s = sscanf f (skip_space s)
sscanf (literal c ∷ f) [] = []
sscanf (literal c ∷ f) (d ∷ s) = if d == c then sscanf f s else []
sscanf (int ∷ f) s = elim (read_int (skip_space s)) [
  | none ↦ []
  | some (n, rest) ↦ n ∷ sscanf f rest
]

abbrev pub stats_file : Bytes
stats_file = codes "/proc/litmus/stats"

unfoldable pub stats_format : List Directive
unfolding format
stats_format = format (codes "real-time tasks   = %d\nready for release = %d\n")

-- `all` and `ready` as sscanf leaves them, and whether it stored both.
unfoldable pub store_stats : List ℤ → ℤ → ℤ → Bool × ℤ × ℤ
store_stats [] ready all = (false, ready, all)
store_stats (a ∷ []) ready all = (false, ready, a)
store_stats (a ∷ r ∷ []) ready all = (true, r, a)
store_stats (a ∷ r ∷ x ∷ xs) ready all = (false, r, a)

-- `stack` is what the 100 bytes of the buffer, and the memory behind them, hold on entry.
unfoldable pub read_litmus_stats : Kernel → Bytes → ℤ → ℤ → M (Bool × ℤ × ℤ)
unfolding read_file sscanf c_string store_stats stats_format
read_litmus_stats k stack ready all = do
  got ← read_file k stats_file 99
  pure (elim got [
    | none ↦ (false, ready, all)
    | some buf ↦
        store_stats (sscanf stats_format (c_string (buf ++ drop (length buf) stack))) ready all
  ])

-- The locals `ready` and `all` are not initialised.
unfoldable pub get_nr_ts_release_waiters : Kernel → Bytes → ℤ → ℤ → M ℤ
unfolding read_litmus_stats
get_nr_ts_release_waiters k stack ready all = do
  stats ← read_litmus_stats k stack ready all
  pure (if stats.0 then stats.1 else minus_one)

scan_example :
    sscanf stats_format (codes "real-time tasks   = 12\nready for release = 7\n")
    ≡ ℤ.pos 12 ∷ ℤ.pos 7 ∷ []
unfolding sscanf stats_format
scan_example = refl
