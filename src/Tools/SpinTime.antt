-- ===== src/Tools/SpinTime.antt =====
-- The busy loop of bin/rtspin.c ends when the clock has reached the end.
use adaptive_liblitmus.Base.{
  ℕ, zero, suc, ◌+◌, ◌<◌, ◌≤◌, ◌≡◌, refl, inl, inr, Bool-cases, true, false, [], ◌∷◌, arith,
}
use adaptive_liblitmus.Base.Int.{pos}
use adaptive_liblitmus.Kernel.{Kernel, Call, Log, Outcome, State}
use adaptive_liblitmus.Tools.Common.{Double}
use adaptive_liblitmus.Tools.Spin.{Clocks, read_clock, is_emergency, spin_loop, loop_for}

-- How often a clock was read.
abbrev pub readings : Log → ℕ
readings [] = 0
readings (Call.read_clock ∷ l) = suc (readings l)
readings (c ∷ l) = readings l

module _ {D : Type 0} (k : Kernel) (fl : Double D) (clocks : Clocks D) where
  -- The rounds of the loop as steps: `Rounds end emergency start at log last` holds where the loop,
  -- begun after the calls `start`, stands at its guard, has read the thread's clock last after the
  -- calls `at`, has made the calls `log` by now, and takes `last` for the length of its last round:
  -- zero before the first one, then how far its last two readings are apart. A round is made where
  -- the clock, with that length added, has not reached the end, and the emergency exit is not set or
  -- not passed.
  pub data Rounds (end_time emergency_exit : D) (start : Log) : Log → Log → D → Type 0 where
    begun :
        Rounds end_time emergency_exit start
          (Call.read_clock ∷ start)
          (Call.read_clock ∷ Call.read_clock ∷ start)
          (fl.of_int (pos 0))
    round :
        {at log : Log} {last : D}
        → Rounds end_time emergency_exit start at log last
        → fl.is_less (fl.plus (clocks.cputime at) last) end_time ≡ true
        → fl.is_zero emergency_exit ≡ true
        → Rounds end_time emergency_exit start log
            (Call.read_clock ∷ log)
            (fl.minus (clocks.cputime log) (clocks.cputime at))
    round_in_time :
        {at log : Log} {last : D}
        → Rounds end_time emergency_exit start at log last
        → fl.is_less (fl.plus (clocks.cputime at) last) end_time ≡ true
        → fl.is_zero emergency_exit ≡ false
        → fl.is_less emergency_exit (clocks.wctime (Call.read_clock ∷ log)) ≡ false
        → Rounds end_time emergency_exit start log
            (Call.read_clock ∷ Call.read_clock ∷ log)
            (fl.minus (clocks.cputime log) (clocks.cputime at))

  -- Once clocks were read N times, the thread's, with the length of the last round added, has reached
  -- the end.
  abbrev pub Reaches : ℕ → D → D → Log → Type 0
  Reaches N end_time emergency_exit start =
      (at log : Log) (last : D)
      → Rounds end_time emergency_exit start at log last
      → N ≤ readings at
      → fl.is_less (fl.plus (clocks.cputime at) last) end_time ≡ false

  -- After which calls the loop ends, and why: at its guard, where the clock, with the length of the
  -- last round added, has reached the end, or within a round that finds the emergency exit passed.
  pub data Spent (end_time emergency_exit : D) (start : Log) : Log → Type 0 where
    has_spent :
        {at log : Log} {last : D}
        → Rounds end_time emergency_exit start at log last
        → fl.is_less (fl.plus (clocks.cputime at) last) end_time ≡ false
        → Spent end_time emergency_exit start log
    has_stopped :
        {at log : Log} {last : D}
        → Rounds end_time emergency_exit start at log last
        → fl.is_less (fl.plus (clocks.cputime at) last) end_time ≡ true
        → fl.is_zero emergency_exit ≡ false
        → fl.is_less emergency_exit (clocks.wctime (Call.read_clock ∷ log)) ≡ true
        → Spent end_time emergency_exit start (Call.read_clock ∷ Call.read_clock ∷ log)

  abbrev Returned : D → D → Log → Outcome (Unit {0}) × State → Type 0
  Returned end_time emergency_exit start r =
      (r.0 ≡ Outcome.value tt) × Spent end_time emergency_exit start r.1.log

  module _ (end_time emergency_exit : D) (start : Log) where
    -- The clock is read once more in each round.
    Rounds-reads :
        {at log : Log} {last : D}
        → Rounds end_time emergency_exit start at log last
        → readings at < readings log
    Rounds-reads begun = omega arith
    Rounds-reads (round r more never) = omega arith
    Rounds-reads (round_in_time r more set go_on) = omega arith

    spin_loop-ends :
        (N rounds : ℕ) (at : Log) (last : D) (s : State)
        → Reaches N end_time emergency_exit start
        → Rounds end_time emergency_exit start at s.log last
        → N ≤ readings at + rounds
        → Returned end_time emergency_exit start
            (spin_loop k fl clocks rounds end_time emergency_exit (clocks.cputime at) last s)
    unfolding spin_loop read_clock is_emergency
    spin_loop-ends N zero at last s late r h =
        let over = late at s.log last r (omega arith) in rw over (refl, Spent.has_spent r over)
    spin_loop-ends N (suc rounds) at last s late r h =
        let last' : D = fl.minus (clocks.cputime s.log) (clocks.cputime at) in
        let enough : N ≤ readings s.log + rounds = omega (arith, Rounds-reads r) in
        elim (Bool-cases (fl.is_less (fl.plus (clocks.cputime at) last) end_time)) [
          | inr over ↦ rw over (refl, Spent.has_spent r over)
          | inl more ↦ rw more (elim (Bool-cases (fl.is_zero emergency_exit)) [
            | inl never ↦
                rw never
                  (spin_loop-ends N rounds s.log last' _ late (Rounds.round r more never) enough)
            | inr set ↦
                rw set
                  (elim (Bool-cases
                    (fl.is_less emergency_exit (clocks.wctime (Call.read_clock ∷ s.log)))) [
                      | inl stop ↦ rw stop (refl, Spent.has_stopped r more set stop)
                      | inr go_on ↦ rw go_on (
                          spin_loop-ends N rounds s.log last' _ late
                            (Rounds.round_in_time r more set go_on) enough)
                    ])
          ])
        ]

  -- If the thread's clock, with the length of the last round added, has reached the end once clocks
  -- were read N times, N rounds are enough: loop_for returns, also where the emergency exit is never
  -- taken. Its calls are those of a run in which each round is begun while the thread's clock, with
  -- the time between its own last two readings added (zero before the first round), is short of
  -- exec_time after the start, and is completed where the emergency exit is not set or not passed;
  -- the run ends where the clock, with that time added, has reached the end, or in a round that finds
  -- the emergency exit passed.
  pub loop_for-ends :
      (N rounds : ℕ) (exec_time emergency_exit : D) (s : State)
      → Reaches N (fl.plus (clocks.cputime s.log) exec_time) emergency_exit s.log
      → N ≤ rounds
      → ((loop_for k fl clocks rounds exec_time emergency_exit s).0 ≡ Outcome.value tt)
        × Spent
            (fl.plus (clocks.cputime s.log) exec_time)
            emergency_exit
            s.log
            (loop_for k fl clocks rounds exec_time emergency_exit s).1.log
  unfolding loop_for read_clock
  loop_for-ends N rounds exec_time emergency_exit s late h =
      spin_loop-ends (fl.plus (clocks.cputime s.log) exec_time) emergency_exit s.log N rounds
        (Call.read_clock ∷ s.log) (fl.of_int (pos 0)) _ late Rounds.begun (omega arith)
