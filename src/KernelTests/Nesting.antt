-- ===== src/KernelTests/Nesting.antt =====
-- tests/nesting.c: which locks may be asked for by a task that holds another. The test cases differ
-- in the way the two locks are opened, and in what is expected of the second.
use adaptive_liblitmus.Base.{ℕ, Bool, true, false, Option, none, some}
use adaptive_liblitmus.Base.Int.{ℤ, pos}
use adaptive_liblitmus.Base.Chars.{Bytes, codes}
use adaptive_liblitmus.Kernel.{Kernel, Call, OpenMode, M, ◌>>=◌, ◌>>◌, pure, call}
use adaptive_liblitmus.Syscalls.{
  fmlp_sem, srp_sem, mpcp_sem, mpcp_vs_sem, dpcp_sem, pcp_sem, dflp_sem, od_close, litmus_lock,
  litmus_unlock, open_fmlp_sem, open_srp_sem,
}
use adaptive_liblitmus.Litmus.Locks.{litmus_open_lock}
use adaptive_liblitmus.Litmus.Mode.{task_mode, litmus_rt_task}
use adaptive_liblitmus.Litmus.Sporadic.{sporadic_partitioned}
use adaptive_liblitmus.KernelTests.{checked, syscall_fails, ebusy}

module _ (k : Kernel) where
  -- Each lock by itself.
  unfoldable pub take_lock : ℤ → M ℤ
  unfolding checked litmus_lock litmus_unlock
  take_lock od = do checked (litmus_lock k od); checked (litmus_unlock k od)

  -- The second lock is refused while the first is held.
  unfoldable pub refused_in : ℤ → ℤ → M ℤ
  unfolding checked syscall_fails litmus_lock litmus_unlock
  refused_in od od2 = do
    checked (litmus_lock k od)
    syscall_fails ebusy (litmus_lock k od2)
    checked (litmus_unlock k od)

  -- The second lock is taken and released while the first is held.
  unfoldable pub nested_in : ℤ → ℤ → M ℤ
  unfolding checked litmus_lock litmus_unlock
  nested_in od od2 = do
    checked (litmus_lock k od)
    checked (litmus_lock k od2)
    checked (litmus_unlock k od2)
    checked (litmus_unlock k od)

  unfoldable pub in_turn : Bool → ℤ → ℤ → M ℤ
  unfolding refused_in nested_in
  in_turn false od od2 = refused_in od od2
  in_turn true od od2 = nested_in od od2

  -- With both locks open, until both are closed.
  unfoldable pub use_locks : Bool → ℤ → ℤ → M ℤ
  unfolding take_lock in_turn checked od_close
  use_locks may_nest od od2 = do
    take_lock od
    take_lock od2
    in_turn may_nest od od2
    in_turn may_nest od2 od
    checked (od_close k od)
    checked (od_close k od2)

  unfoldable pub become_real_time : ℕ → ℕ → M ℤ
  unfolding checked
  become_real_time e_ns p_ns = do
    checked (sporadic_partitioned k e_ns p_ns (pos 0))
    checked (task_mode k litmus_rt_task)

  -- The tests that name the file for litmus_open_lock.
  unfoldable pub in_namespace : Bool → Bytes → ℤ → Option ℤ → ℤ → Option ℤ → M (Unit {0})
  unfolding become_real_time checked use_locks call
  in_namespace may_nest namespace protocol config protocol2 config2 = do
    become_real_time 10 100
    od ← checked (litmus_open_lock k protocol (pos 0) namespace config)
    od2 ← checked (litmus_open_lock k protocol2 (pos 1) namespace config2)
    use_locks may_nest od od2
    checked (call k (Call.remove_file namespace))
    pure tt

  -- The tests that open the file themselves.
  unfoldable pub in_file : Bool → (ℤ → ℤ → M ℤ) → (ℤ → ℤ → M ℤ) → M (Unit {0})
  unfolding become_real_time checked use_locks call
  in_file may_nest open_first open_second = do
    fd ← checked (call k (Call.open_file (codes ".fmlp_locks") OpenMode.create))
    become_real_time 10 100
    od ← checked (open_first fd (pos 0))
    od2 ← checked (open_second fd (pos 1))
    use_locks may_nest od od2
    checked (call k (Call.close_file fd))
    checked (call k (Call.remove_file (codes ".fmlp_locks")))
    pure tt

  unfoldable pub lock_fmlp_nesting : M (Unit {0})
  unfolding in_file open_fmlp_sem
  lock_fmlp_nesting = in_file false (open_fmlp_sem k) (open_fmlp_sem k)

  unfoldable pub lock_fmlp_srp_nesting : M (Unit {0})
  unfolding in_file open_fmlp_sem open_srp_sem
  lock_fmlp_srp_nesting = in_file false (open_fmlp_sem k) (open_srp_sem k)

  unfoldable pub lock_srp_nesting : M (Unit {0})
  unfolding in_file open_srp_sem
  lock_srp_nesting = in_file true (open_srp_sem k) (open_srp_sem k)

  unfoldable pub lock_pcp_nesting : M (Unit {0})
  unfolding in_namespace
  lock_pcp_nesting = in_namespace true (codes ".pcp_locks") pcp_sem none pcp_sem none

  unfoldable pub lock_mpcp_pcp_no_nesting : M (Unit {0})
  unfolding in_namespace
  lock_mpcp_pcp_no_nesting = in_namespace false (codes ".pcp_locks") pcp_sem none mpcp_sem none

  unfoldable pub lock_fmlp_pcp_no_nesting : M (Unit {0})
  unfolding in_namespace
  lock_fmlp_pcp_no_nesting = in_namespace false (codes ".pcp_locks") pcp_sem none fmlp_sem none

  unfoldable pub lock_dpcp_pcp_no_nesting : M (Unit {0})
  unfolding in_namespace
  lock_dpcp_pcp_no_nesting =
      in_namespace false (codes ".pcp_locks") pcp_sem none dpcp_sem (some (pos 0))

  unfoldable pub lock_mpcp_srp_no_nesting : M (Unit {0})
  unfolding in_namespace
  lock_mpcp_srp_no_nesting = in_namespace false (codes ".pcp_locks") srp_sem none mpcp_sem none

  unfoldable pub lock_dpcp_srp_no_nesting : M (Unit {0})
  unfolding in_namespace
  lock_dpcp_srp_no_nesting =
      in_namespace false (codes ".pcp_locks") srp_sem none dpcp_sem (some (pos 0))

  unfoldable pub lock_fmlp_mpcp_no_nesting : M (Unit {0})
  unfolding in_namespace
  lock_fmlp_mpcp_no_nesting = in_namespace false (codes ".pcp_locks") mpcp_sem none fmlp_sem none

  unfoldable pub lock_fmlp_dpcp_no_nesting : M (Unit {0})
  unfolding in_namespace
  lock_fmlp_dpcp_no_nesting =
      in_namespace false (codes ".pcp_locks") dpcp_sem (some (pos 0)) fmlp_sem none

  unfoldable pub mpcp_nesting : M (Unit {0})
  unfolding in_namespace
  mpcp_nesting = in_namespace false (codes ".mpcp_locks") mpcp_sem none mpcp_sem none

  unfoldable pub mpcpvs_nesting : M (Unit {0})
  unfolding in_namespace
  mpcpvs_nesting = in_namespace false (codes ".mpcp_locks") mpcp_vs_sem none mpcp_vs_sem none

  unfoldable pub dpcp_nesting : M (Unit {0})
  unfolding in_namespace
  dpcp_nesting =
      in_namespace false (codes ".dpcp_locks") dpcp_sem (some (pos 0)) dpcp_sem (some (pos 0))

  unfoldable pub dflp_nesting : M (Unit {0})
  unfolding in_namespace
  dflp_nesting =
      in_namespace false (codes ".dflp_locks") dflp_sem (some (pos 0)) dflp_sem (some (pos 0))

  unfoldable pub lock_fmlp_dflp_no_nesting : M (Unit {0})
  unfolding in_namespace
  lock_fmlp_dflp_no_nesting =
      in_namespace false (codes ".locks") dflp_sem (some (pos 0)) fmlp_sem none

  unfoldable pub lock_dflp_pcp_no_nesting : M (Unit {0})
  unfolding in_namespace
  lock_dflp_pcp_no_nesting =
      in_namespace false (codes ".locks") pcp_sem none dflp_sem (some (pos 0))
