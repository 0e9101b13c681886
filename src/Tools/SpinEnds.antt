-- ===== src/Tools/SpinEnds.antt =====
-- The loops and jobs of bin/rtspin.c, and the time of day from which on they end.
use adaptive_liblitmus.Base.{
  ℕ, zero, suc, ◌+◌, ◌<◌, ◌≤◌, ◌≡◌, refl, inl, inr, Bool-cases, Bool, true, false, ◌∷◌, arith,
  if◌then◌else◌,
}
use adaptive_liblitmus.Base.Int.{ℤ, pos, is_neg}
use adaptive_liblitmus.Kernel.{Kernel, Call, Log, M, State, ◌>>◌, pure}
use adaptive_liblitmus.Syscalls.{litmus_lock, litmus_unlock, sleep_next_period}
use adaptive_liblitmus.Finishing.{
  Finishes, Finishes-weaken, IsStable, Safe, Safe-then, Safe-if, safe_rules,
}
use adaptive_liblitmus.Tools.Common.{Double}
use adaptive_liblitmus.Tools.Spin.{
  Clocks, read_clock, is_emergency, spin_loop, loop_for, critical_job, spin_job,
}
use adaptive_liblitmus.Tools.SpinTime.{readings}

-- At least so many readings of clocks were made.
abbrev pub AtLeast : ℕ → Log → Type 0
AtLeast n l = n ≤ readings l

pub AtLeast-IsStable : (n : ℕ) → IsStable (AtLeast n)
AtLeast-IsStable n Call.read_clock l h = omega arith
AtLeast-IsStable n c l h = h

module _ {D : Type 0} (k : Kernel) (fl : Double D) (clocks : Clocks D) where
  pub read_clock-Safe : (n : ℕ) (clock : Log → D) → Safe (AtLeast n) (read_clock k fl clocks clock)
  unfolding read_clock
  read_clock-Safe n clock = record { run = λ s h. Finishes.returns (omega arith) }

  -- From the E-th reading on the time of day is past a limit.
  abbrev pub IsPast : ℕ → D → Type 0
  IsPast E limit = (l : Log) → E ≤ readings l → fl.is_less limit (clocks.wctime l) ≡ true

  -- An emergency exit that is set, and passed from the E-th reading on.
  pub record Limits (E : ℕ) (emergency_exit : D) : Type 0 where
    pub is_set : fl.is_zero emergency_exit ≡ false
    pub is_past : IsPast E emergency_exit

  spin_loop-Finishes :
      (E rounds n : ℕ) (end_time emergency_exit now last : D) (s : State)
      → Limits E emergency_exit
      → 0 < rounds
      → E < n + rounds
      → n ≤ readings s.log
      → Finishes (λ _. AtLeast n) (spin_loop k fl clocks rounds end_time emergency_exit now last s)
  unfolding spin_loop read_clock is_emergency
  spin_loop-Finishes E zero n end_time emergency_exit now last s lim p h a = absurd (omega arith)
  spin_loop-Finishes E (suc rounds) n end_time emergency_exit now last s lim p h a =
      elim (Bool-cases (fl.is_less (fl.plus now last) end_time)) [
        | inr over ↦ rw over (Finishes.returns a)
        | inl more ↦
            rw (more, lim.is_set)
              (elim (Bool-cases
                (fl.is_less emergency_exit (clocks.wctime (Call.read_clock ∷ s.log)))) [
                  | inl stop ↦ rw stop (Finishes.returns (omega arith))
                  | inr go_on ↦
                      let early : suc (readings s.log) < E =
                        ground (arith, lim.is_past (Call.read_clock ∷ s.log)) in
                      rw go_on (
                        Finishes-weaken (λ _. AtLeast (n + 2)) (λ _. AtLeast n)
                          (spin_loop-Finishes E rounds (n + 2) end_time emergency_exit _ _ _ lim
                            (omega arith) (omega arith) (omega arith))
                          (λ u l b. omega arith))
                ])
      ]

  pub loop_for-Safe :
      (E rounds n : ℕ) (exec_time emergency_exit : D)
      → Limits E emergency_exit
      → 0 < rounds
      → E < n + rounds
      → Safe (AtLeast n) (loop_for k fl clocks rounds exec_time emergency_exit)
  unfolding loop_for read_clock
  loop_for-Safe E rounds n exec_time emergency_exit lim p h = record {
    run = λ s a.
        spin_loop-Finishes E rounds n (fl.plus (clocks.cputime s.log) exec_time) emergency_exit _ _
          _ lim p h (omega arith);
  }

  -- The end of the program, and the two limits behind it.
  pub record Ending (E : ℕ) (program_end : D) : Type 0 where
    pub is_over : IsPast E program_end
    pub soon : Limits E (fl.plus program_end (fl.of_int (pos 1)))
    pub later : Limits E (fl.plus program_end (fl.of_int (pos 2)))

  module _ (E : ℕ) (program_end : D) (ending : Ending E program_end) where
    critical_job-Safe :
        (rounds n : ℕ) (exec_time : D) (od : ℤ) (cs_length : D)
        → 0 < rounds
        → E < n + rounds
        → Safe (AtLeast n) (critical_job k fl clocks rounds exec_time program_end od cs_length)
    unfolding critical_job litmus_lock litmus_unlock
    critical_job-Safe rounds n exec_time od cs_length p h =
        search
          (
            safe_rules,
            AtLeast-IsStable n,
            read_clock-Safe,
            λ (time : D). loop_for-Safe E rounds n time _ ending.soon p h,
            λ (time : D). loop_for-Safe E rounds n time _ ending.later p h,
          )
          depth 12

    work-Safe :
        (rounds n : ℕ) (exec_time : D) (od : ℤ) (cs_length : D)
        → 0 < rounds
        → E < n + rounds
        → Safe (AtLeast n) (
            (if is_neg od
              then loop_for k fl clocks rounds exec_time (fl.plus program_end (fl.of_int (pos 1)))
              else critical_job k fl clocks rounds exec_time program_end od cs_length)
            >> (sleep_next_period k >> pure true))
    unfolding sleep_next_period
    work-Safe rounds n exec_time od cs_length p h =
        let plain : M (Unit {0}) =
          loop_for k fl clocks rounds exec_time (fl.plus program_end (fl.of_int (pos 1))) in
        let locked : M (Unit {0}) =
          critical_job k fl clocks rounds exec_time program_end od cs_length in
        let complete : M Bool = sleep_next_period k >> pure true in
        Safe-then (if is_neg od then plain else locked) complete
          (Safe-if (is_neg od) plain locked
            (λ _. loop_for-Safe E rounds n exec_time _ ending.soon p h)
            (λ _. critical_job-Safe rounds n exec_time od cs_length p h))
          (search (safe_rules, AtLeast-IsStable n))

    -- A job reads a clock, and asks for no further one when the program is over.
    abbrev pub Done : ℕ → Bool → Log → Type 0
    Done n more l = (suc n ≤ readings l) × (E ≤ n → more ≡ false)

    pub spin_job-Finishes :
        (rounds n : ℕ) (exec_time : D) (od : ℤ) (cs_length : D) (s : State)
        → 0 < rounds
        → E < n + rounds
        → n ≤ readings s.log
        → Finishes (Done n) (spin_job k fl clocks rounds exec_time program_end od cs_length s)
    unfolding spin_job read_clock
    spin_job-Finishes rounds n exec_time od cs_length s p h a =
        elim (Bool-cases (fl.is_less program_end (clocks.wctime s.log))) [
          | inl over ↦ rw over (Finishes.returns (omega arith, λ _. refl))
          | inr going ↦
              let early : readings s.log < E = ground (arith, ending.is_over s.log) in
              rw going (
                Finishes-weaken (λ _. AtLeast (suc n)) (Done n)
                  ((work-Safe rounds (suc n) exec_time od cs_length p (omega arith)).run _
                    (omega arith))
                  (λ more l b. (b, λ e. absurd (omega arith))))
        ]
