-- ===== src/Tools/ReleaseLaws.antt =====
-- bin/release_ts.c: waiting ends when the tasks are ready, and the release follows.
use adaptive_liblitmus.Base.{ℕ, suc, ◌≤◌, ◌≡◌, Bool, true, false, [], ◌∷◌, if◌then◌else◌}
use adaptive_liblitmus.Base.Int.{ℤ, pos, is_neg}
use adaptive_liblitmus.Base.Chars.{Bytes}
use adaptive_liblitmus.Kernel.{Kernel, Call, Log, M, Outcome, State, ◌>>=◌, pure, exit}
use adaptive_liblitmus.Syscalls.{release_ts}
use adaptive_liblitmus.KernelIface.StatsRound.{Reports}
use adaptive_liblitmus.Finishing.{Since}
use adaptive_liblitmus.Tools.Release.{is_waiting}

-- How often the program has slept.
abbrev pub sleeps : Log → ℕ
sleeps [] = 0
sleeps (Call.sleep n ∷ l) = suc (sleeps l)
sleeps (c ∷ l) = sleeps l

-- The tasks are ready at the latest when the program has slept N times.
abbrev pub Settles : ℤ → ℕ → (Log → ℕ) → (Log → ℕ) → Type 0
Settles expected N all ready =
    (l : Log) → N ≤ sleeps l → is_waiting expected (pos (ready l)) (pos (all l)) ≡ false

-- After a look at the counters for which no more waiting is asked for, and without another sleep.
abbrev pub HasSettled : ℤ → (Log → ℕ) → (Log → ℕ) → Log → Log → Type 0
HasSettled expected all ready seen l =
    (is_waiting expected (pos (ready seen)) (pos (all seen)) ≡ false)
    × Since seen l
    × (sleeps l ≡ sleeps seen)

-- If the options ask for waiting, the tasks were seen to be ready.
abbrev pub HasWaited : ℤ → (Log → ℕ) → (Log → ℕ) → Bool → Log → Type 0
HasWaited expected all ready wait l =
    wait ≡ true → (seen : Log) × HasSettled expected all ready seen l

-- The counters that were read last, for which the loop does not go on.
abbrev pub Ready : ℤ → (Log → ℕ) → (Log → ℕ) → Outcome (ℤ × ℤ) × State → Type 0
Ready expected all ready r =
    (seen : Log) × (r.0 ≡ Outcome.value (pos (ready seen), pos (all seen)))
    × HasSettled expected all ready seen r.1.log

-- The system was released by the last call, and the exit code tells whether the kernel did it;
-- before it P held of the calls.
abbrev pub IsReleased : Kernel → ℕ → (Log → Type 0) → Outcome ℤ × State → Type 0
IsReleased k delay P r =
    (l : Log) × P l
    × (r.1.log ≡ Call.release_ts delay ∷ l)
    × (r.0 ≡ (
        if is_neg (k.answer l (Call.release_ts delay))
        then Outcome.exited (pos 1)
        else Outcome.value (pos 0)))

module _ (k : Kernel) (stack : Bytes) (expected : ℤ) (N : ℕ) (all ready : Log → ℕ)
    (reports : Reports k all ready) (settles : Settles expected N all ready) where
  -- What follows the wait.
  abbrev releasing : ℕ → M ℤ
  releasing delay =
      release_ts k delay >>= λ released. if is_neg released then exit (pos 1) else pure (pos 0)
