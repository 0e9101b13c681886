-- ===== src/TestRunner/Verdict.antt =====
-- The exit code of tests/runner.c, from its arguments on.
use adaptive_liblitmus.Base.{◌≡◌, ◌⊎◌, true, false, List, [], ◌∷◌, All, Option, none, some}
use adaptive_liblitmus.Base.Int.{ℤ, pos}
use adaptive_liblitmus.Base.Chars.{Bytes, streq}
use adaptive_liblitmus.Kernel.{Kernel, Log, Outcome}
use adaptive_liblitmus.TestRunner.{Suite, get_active_plugin}
use adaptive_liblitmus.TestRunner.Counts.{IsParent, AllPass}

-- The first suite for a plugin.
pub data FirstFor (name : Bytes) : List Suite → Suite → Type 0 where
  here : {x : Suite} {xs : List Suite} → streq x.plugin name ≡ true → FirstFor name (x ∷ xs) x
  there :
      {x y : Suite} {xs : List Suite}
      → streq x.plugin name ≡ false
      → FirstFor name xs y
      → FirstFor name (x ∷ xs) y

-- The plugin that is tested: the one argument, or else the one that is active.
abbrev pub chosen : Option Bytes → List Bytes → Option Bytes
chosen active (name ∷ []) = some name
chosen active args = get_active_plugin active 256

module _ (k : Kernel) (p : IsParent k) where
  -- 0 where every test's child exits with 0, and 3 otherwise.
  abbrev pub Judges : Suite → Log → Outcome ℤ → Type 0
  Judges suite l r =
      ((r ≡ Outcome.value (pos 0)) × AllPass k p suite.testcases l)
      ⊎ ((r ≡ Outcome.value (pos 3)) × ¬ AllPass k p suite.testcases l)

  -- The verdict on the first suite for the plugin, or exit code 1 where there is none.
  abbrev pub Finds : Bytes → List Suite → Log → Outcome ℤ → Type 0
  Finds name suites l r =
      ((suite : Suite) × FirstFor name suites suite × Judges suite l r)
      ⊎ (All (λ suite. streq suite.plugin name ≡ false) suites × (r ≡ Outcome.exited (pos 1)))

  -- The verdict for the chosen plugin, or exit code 1 where none is known.
  abbrev pub Concludes : Option Bytes → List Suite → Log → Outcome ℤ → Type 0
  Concludes none suites l r = r ≡ Outcome.exited (pos 1)
  Concludes (some name) suites l r = Finds name suites l r
