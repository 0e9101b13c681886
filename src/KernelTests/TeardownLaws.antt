-- ===== src/KernelTests/TeardownLaws.antt =====
-- What the teardown tests of tests/locks.c do: they end before they have begun.
use adaptive_liblitmus.Base.{◌≡◌, refl, [], ◌∷◌, All, Bool-cases, inl, inr, if◌then◌else◌}
use adaptive_liblitmus.Base.Int.{ℤ, pos, is_neg}
use adaptive_liblitmus.Base.Chars.{codes}
use adaptive_liblitmus.Kernel.{Kernel, Call, OpenMode, M, Outcome, State, call}
use adaptive_liblitmus.Syscalls.{open_fmlp_sem, open_srp_sem, open_dflp_sem}
use adaptive_liblitmus.TestRunner.{syscall}
use adaptive_liblitmus.KernelTests.{checked}
use adaptive_liblitmus.KernelTests.LockCases.{open_locks}
use adaptive_liblitmus.KernelTests.ForkCases.{
  lock_teardown, srp_lock_teardown, fmlp_lock_teardown, dflp_lock_teardown,
}

module _ (k : Kernel) (s : State) where
  abbrev opening : Call
  opening = Call.open_file (codes ".locks") OpenMode.create

  -- The file of the locks has been opened, and nothing else was called: the exit code is 0, or 200
  -- where the file could not be opened.
  abbrev pub HasSkipped : M (Unit {0}) → Type 0
  HasSkipped test =
      ((test s).0 ≡ Outcome.exited (if is_neg (k.answer s.log opening) then pos 200 else pos 0))
      × ((test s).1.log ≡ opening ∷ s.log)

  lock_teardown-HasSkipped :
      (cpu : ℤ) (open_sem : ℤ → M ℤ) → HasSkipped (lock_teardown k cpu open_sem)
  unfolding lock_teardown open_locks checked syscall call
  lock_teardown-HasSkipped cpu open_sem = elim (Bool-cases (is_neg (k.answer s.log opening))) [
    | inl fails ↦ rw fails (refl, refl)
    | inr opens ↦ rw opens (refl, refl)
  ]

  -- Whatever the kernel does with locks: each of the tests srp_lock_teardown, fmlp_lock_teardown and
  -- dflp_lock_teardown opens the file of the locks and ends with exit(0), or with exit(200) where the
  -- file cannot be opened; no process is forked, and no lock is opened or taken.
  pub teardown_tests-HasSkipped :
      All HasSkipped (srp_lock_teardown k ∷ fmlp_lock_teardown k ∷ dflp_lock_teardown k ∷ [])
  unfolding srp_lock_teardown fmlp_lock_teardown dflp_lock_teardown
  teardown_tests-HasSkipped = (
    lock_teardown-HasSkipped (pos 0) (λ fd. open_srp_sem k fd (pos 0)),
    (
      lock_teardown-HasSkipped (pos 0) (λ fd. open_fmlp_sem k fd (pos 0)),
      (lock_teardown-HasSkipped (pos 1) (λ fd. open_dflp_sem k fd (pos 0) (pos 0)), tt),
    ),
  )
