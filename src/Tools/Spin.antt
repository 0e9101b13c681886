-- ===== src/Tools/Spin.antt =====
-- bin/rtspin.c: the busy loops, the jobs, and the program around them. What loop_once adds up is
-- used by nobody, and is left out; a loop that waits for time to pass gets a number of rounds, and
-- is a fault where they do not suffice.
use adaptive_liblitmus.Base.{
  ℕ, zero, suc, ◌==◌, Bool, true, false, not, ◌||◌, ◌&&◌, List, [], ◌∷◌, Option, none, some,
  if◌then◌else◌,
}
use adaptive_liblitmus.Base.Int.{ℤ, pos, minus_one, eqb_ℤ, is_neg, is_zero}
use adaptive_liblitmus.Base.Chars.{Bytes, codes, atoi, streq}
use adaptive_liblitmus.Kernel.{
  Kernel, Call, Log, M, ◌>>=◌, ◌>>◌, pure, gets, modify, crash, record_call,
}
use adaptive_liblitmus.Syscalls.{litmus_lock, litmus_unlock, sleep_next_period}
use adaptive_liblitmus.Litmus.Locks.{lock_protocol_for_name}
use adaptive_liblitmus.Litmus.Params.{str2class}
use adaptive_liblitmus.Tools.Common.{Double, Opt, to_unsigned, usage}

-- The clocks of src/clocks.c and drand48, which answer by what was called before.
pub record Clocks (D : Type 0) : Type 0 where
  pub cputime : Log → D
  pub wctime : Log → D
  pub drand48 : Log → D

pub record SpinOptions (D : Type 0) : Type 0 where
  pub priority : ℕ
  pub migrate : Bool
  pub cluster : ℤ
  pub reservation : ℤ
  pub wait : Bool
  pub test_loop : Bool
  pub column : ℤ
  pub file : Option Bytes
  pub want_enforcement : Bool
  pub scale : D
  pub cls : ℤ
  pub verbose : Bool
  pub resource_id : ℤ
  pub protocol : ℤ
  pub cs_length : D

module _ {D : Type 0} (k : Kernel) (fl : Double D) (clocks : Clocks D) where
  abbrev zero_time : D
  zero_time = fl.of_int (pos 0)

  unfoldable pub read_clock : (Log → D) → M D
  read_clock clock = do
    now ← gets (λ s. clock s.log)
    modify (record_call Call.read_clock)
    pure now

  -- `emergency_exit && wctime() > emergency_exit`
  unfoldable pub is_emergency : D → M Bool
  unfolding read_clock
  is_emergency emergency_exit =
      if fl.is_zero emergency_exit
      then pure false
      else (do now ← read_clock clocks.wctime; pure (fl.is_less emergency_exit now))

  -- The loop of loop_for, with the variables now and last_loop.
  unfoldable pub spin_loop : ℕ → D → D → D → D → M (Unit {0})
  unfolding is_emergency
  spin_loop zero end_time emergency_exit now last_loop =
      if fl.is_less (fl.plus now last_loop) end_time then crash else pure tt
  spin_loop (suc rounds) end_time emergency_exit now last_loop =
      let round = (do
        now' ← read_clock clocks.cputime
        stop ← is_emergency emergency_exit
        if stop
            then pure tt
            else spin_loop rounds end_time emergency_exit now' (fl.minus now' now)) in
      if fl.is_less (fl.plus now last_loop) end_time then round else pure tt

  unfoldable pub loop_for : ℕ → D → D → M (Unit {0})
  unfolding spin_loop
  loop_for rounds exec_time emergency_exit = do
    start ← read_clock clocks.cputime
    now ← read_clock clocks.cputime
    spin_loop rounds (fl.plus start exec_time) emergency_exit now zero_time

  -- The delays of debug_delay_loop, which go from 0.5 down to 0.01 and start again.
  unfoldable pub debug_delay_loop : ℕ → D → M (Unit {0})
  unfolding loop_for
  debug_delay_loop zero delay = crash
  debug_delay_loop (suc rounds) delay =
      let down = debug_delay_loop rounds (fl.minus delay (fl.of_text (codes "0.01"))) in
      let again = debug_delay_loop rounds (fl.of_text (codes "0.5")) in
      if fl.is_less (fl.of_text (codes "0.01")) delay
      then (do
        read_clock clocks.wctime
        loop_for rounds delay zero_time
        read_clock clocks.wctime
        down)
      else again

  -- The body of a job that has a lock, with its critical section in the middle.
  unfoldable pub critical_job : ℕ → D → D → ℤ → D → M (Unit {0})
  unfolding loop_for litmus_lock litmus_unlock
  critical_job rounds exec_time program_end lock_od cs_length = do
    r ← read_clock clocks.drand48
    let chunk1 = fl.times r (fl.minus exec_time cs_length)
    let chunk2 = fl.minus (fl.minus exec_time cs_length) chunk1
    loop_for rounds chunk1 (fl.plus program_end (fl.of_int (pos 1)))
    litmus_lock k lock_od
    loop_for rounds cs_length (fl.plus program_end (fl.of_int (pos 1)))
    litmus_unlock k lock_od
    loop_for rounds chunk2 (fl.plus program_end (fl.of_int (pos 2)))

  -- Whether the program goes on.
  unfoldable pub spin_job : ℕ → D → D → ℤ → D → M Bool
  unfolding critical_job loop_for sleep_next_period
  spin_job rounds exec_time program_end lock_od cs_length = do
    now ← read_clock clocks.wctime
    if fl.is_less program_end now then pure false else (do
      if is_neg lock_od
          then loop_for rounds exec_time (fl.plus program_end (fl.of_int (pos 1)))
          else critical_job rounds exec_time program_end lock_od cs_length
      sleep_next_period k
      pure true)

  unfoldable pub default_spin_options : SpinOptions D
  default_spin_options = record {
    priority = k.lowest_priority;
    migrate = false;
    cluster = pos 0;
    reservation = minus_one;
    wait = false;
    test_loop = false;
    column = pos 1;
    file = none;
    want_enforcement = false;
    scale = fl.of_int (pos 1);
    cls = k.class_hard;
    verbose = false;
    resource_id = pos 0;
    protocol = minus_one;
    cs_length = fl.of_int (pos 1);
  }

  -- One round of the `while` over getopt.
  unfoldable pub spin_option : Opt → SpinOptions D → M (SpinOptions D)
  spin_option (opt, optarg) o =
      if opt == b'w'
      then pure (record o { wait = true })
      else if opt == b'p'
      then pure (record o { cluster = atoi optarg; migrate = true })
      else if opt == b'r'
      then pure (record o { reservation = atoi optarg })
      else if opt == b'q'
      then (if k.is_valid_fixed_prio (to_unsigned (atoi optarg))
          then pure (record o { priority = to_unsigned (atoi optarg) })
          else usage)
      else if opt == b'c'
      then (if eqb_ℤ (str2class k optarg) minus_one
          then usage
          else pure (record o { cls = str2class k optarg }))
      else if opt == b'e'
      then pure (record o { want_enforcement = true })
      else if opt == b'l'
      then pure (record o { test_loop = true })
      else if opt == b'o'
      then pure (record o { column = atoi optarg })
      else if opt == b'f'
      then pure (record o { file = some optarg })
      else if opt == b's'
      then pure (record o { scale = fl.of_text optarg })
      else if opt == b'X'
      then (if is_neg (lock_protocol_for_name optarg)
          then usage
          else pure (record o { protocol = lock_protocol_for_name optarg }))
      else if opt == b'L'
      then (if fl.is_less (fl.of_text optarg) zero_time || fl.is_zero (fl.of_text optarg)
          then usage
          else pure (record o { cs_length = fl.of_text optarg }))
      else if opt == b'Q'
      then (if (is_neg (atoi optarg) || is_zero (atoi optarg)) && not (streq optarg (codes "0"))
          then usage
          else pure (record o { resource_id = atoi optarg }))
      else if opt == b'v'
      then pure (record o { verbose = true })
      else usage

  unfoldable pub spin_options : List Opt → SpinOptions D → M (SpinOptions D)
  spin_options [] o = pure o
  spin_options (opt ∷ opts) o = spin_option opt o >>= spin_options opts
