-- ===== src/TestRunner.antt =====
-- tests/runner.c: every test of a plugin runs in a child process of its own.
use adaptive_liblitmus.Base.{
  ℕ, zero, suc, ◌+◌, ◌-◌, ◌==◌, Bool, true, false, List, [], ◌∷◌, ◌++◌, length, ltb, take, Option,
  none, some, if◌then◌else◌,
}
use adaptive_liblitmus.Base.Int.{ℤ, pos, is_neg, is_zero, pos_part}
use adaptive_liblitmus.Base.Chars.{Bytes, c_string, streq}
use adaptive_liblitmus.Kernel.{Kernel, Call, M, ◌>>=◌, ◌>>◌, pure, gets, exit, crash, call}
use adaptive_liblitmus.Litmus.Sporadic.{init_litmus}
pub mod Counts
pub mod Verdict

-- A test case is its function. Those of tests/ are generated into a catalogue.
abbrev pub TestCase : Type 0
TestCase = M (Unit {0})

pub record Suite : Type 0 where
  pub plugin : Bytes
  pub testcases : List ℕ

-- SYSCALL(ret): a negative result fails the test that runs, with exit(200).
unfoldable pub syscall : ℤ → M (Unit {0})
syscall ret = if is_neg ret then exit (pos 200) else pure tt

abbrev pub is_ok : Option ℕ → Bool
is_ok none = false
is_ok (some code) = code == 0

-- fork answers 0 in the child, which ends here.
unfoldable pub run_test : Kernel → TestCase → M Bool
unfolding syscall call
run_test k tc = do
  pid ← call k Call.spawn
  syscall pid
  if is_zero pid then (do ret ← init_litmus k; syscall ret; tc; exit (pos 0)) else (do
    status ← gets (λ s. k.child_status s.log pid)
    ret ← call k (Call.wait_child pid)
    syscall ret
    pure (is_ok status))

-- An index past the catalogue is an access out of bounds.
abbrev pub test_at : List TestCase → ℕ → TestCase
test_at [] i = crash
test_at (t ∷ ts) zero = t
test_at (t ∷ ts) (suc i) = test_at ts i

-- The loop of run_tests, with the number of tests that were ok so far.
unfoldable pub run_each : Kernel → List TestCase → List ℕ → ℕ → M ℕ
unfolding run_test
run_each k catalog [] ok = pure ok
run_each k catalog (idx ∷ rest) ok = do
  passed ← run_test k (test_at catalog idx)
  run_each k catalog rest (if passed then ok + 1 else ok)

unfoldable pub run_tests : Kernel → List TestCase → List ℕ → M ℕ
unfolding run_each
run_tests k catalog testidx = run_each k catalog testidx 0

-- The name in the file, without a newline at its end; `none` for an empty one or an error.
unfoldable pub trim_newline : Bytes → Bytes
trim_newline [] = []
trim_newline (c ∷ []) = if c == b'\n' then [] else c ∷ []
trim_newline (c ∷ d ∷ s) = c ∷ trim_newline (d ∷ s)

-- fread gets `size - 1` bytes at most of what the file holds.
unfoldable pub get_active_plugin : Option Bytes → ℕ → Option Bytes
unfolding trim_newline c_string
get_active_plugin none size = none
get_active_plugin (some content) size =
    let name = trim_newline (take (size - 1) content) in
    if length name == 0 then none else some (c_string name)

-- The suite of the plugin; usage exits with 1 where there is none.
unfoldable pub run_plugin : Kernel → List TestCase → Bytes → List Suite → M ℤ
unfolding run_tests
run_plugin k catalog plugin_name [] = exit (pos 1)
run_plugin k catalog plugin_name (suite ∷ suites) =
    let others = run_plugin k catalog plugin_name suites in
    if streq suite.plugin plugin_name
    then (do
      ok ← run_tests k catalog suite.testcases
      pure (if ok == length suite.testcases then pos 0 else pos 3))
    else others

-- `args` are the arguments behind the options, `active` what the file of the active plugin holds.
unfoldable pub runner_main :
    Kernel → List TestCase → List Suite → List ℕ → Option Bytes → List Bytes → M ℤ
unfolding run_plugin
runner_main k catalog suites (c ∷ opts) active args =
    let rest = runner_main k catalog suites opts active args in
    if c == b'v' then rest else exit (pos 1)
runner_main k catalog suites [] active (name ∷ []) = run_plugin k catalog name suites
runner_main k catalog suites [] active args = elim (get_active_plugin active 256) [
  | none ↦ exit (pos 1)
  | some name ↦ run_plugin k catalog name suites
]
