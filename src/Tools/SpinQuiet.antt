-- ===== src/Tools/SpinQuiet.antt =====
-- The parts of bin/rtspin.c that take no part in the life of a task: the busy loops, the options,
-- and what is read from a file.
use adaptive_liblitmus.Base.{
  ℕ, zero, suc, ◌-◌, ◌==◌, refl, Bool, List, [], ◌∷◌, arith, Option, none, some, if◌then◌else◌,
}
use adaptive_liblitmus.Base.Int.{ℤ, pos, pos_part, minus_one, eqb_ℤ, is_neg}
use adaptive_liblitmus.Base.Chars.{Bytes}
use adaptive_liblitmus.Kernel.{Kernel, Call, OpenMode, Log, M, ◌>>=◌, ◌>>◌, pure, exit, crash, call}
use adaptive_liblitmus.Migration.Domains.{be_migrate_to_domain, domain_to_first_cpu}
use adaptive_liblitmus.Tools.Common.{Double, Opt, bail_out}
use adaptive_liblitmus.Tools.ExecTimes.{
  Scanner, skip_to_next_line, skip_columns, skip_comments, count_jobs, read_jobs, get_exec_times,
}
use adaptive_liblitmus.Lifecycle.Events.{IsBlind}
use adaptive_liblitmus.Lifecycle.Quiet.{Keeps, Keeps-bind, Keeps-if, Keeps-call}
use adaptive_liblitmus.Lifecycle.Library.{be_migrate_to_domain-Keeps, domain_to_first_cpu-Keeps}
use adaptive_liblitmus.Tools.Spin.{
  Clocks, SpinOptions, read_clock, is_emergency, spin_loop, loop_for, spin_option, spin_options,
}
use adaptive_liblitmus.Tools.SpinMain.{spin_migrate, spin_cpu}

module _ {D B : Type 0} (obs : Log → B) (blind : IsBlind obs) (k : Kernel) (fl : Double D)
    (clocks : Clocks D) where
  pub read_clock-Keeps : (clock : Log → D) → Keeps obs (read_clock k fl clocks clock)
  unfolding read_clock
  read_clock-Keeps clock s = blind Call.read_clock s.log refl

  is_emergency-Keeps : (emergency_exit : D) → Keeps obs (is_emergency k fl clocks emergency_exit)
  unfolding is_emergency
  is_emergency-Keeps emergency_exit =
      let late : D → M Bool = λ now. pure (fl.is_less emergency_exit now) in
      Keeps-if obs (fl.is_zero emergency_exit) (pure Bool.false)
        (read_clock k fl clocks clocks.wctime >>= late) (λ s. refl)
        (Keeps-bind obs (read_clock k fl clocks clocks.wctime) late (read_clock-Keeps clocks.wctime)
          (λ now s. refl))

  spin_loop-Keeps :
      (rounds : ℕ) (end_time emergency_exit now last_loop : D)
      → Keeps obs (spin_loop k fl clocks rounds end_time emergency_exit now last_loop)
  unfolding spin_loop
  spin_loop-Keeps zero end_time emergency_exit now last_loop =
      Keeps-if obs (fl.is_less (fl.plus now last_loop) end_time) crash (pure tt) (λ s. refl)
        (λ s. refl)
  spin_loop-Keeps (suc rounds) end_time emergency_exit now last_loop =
      let again : D → M (Unit {0}) =
        λ now'. spin_loop k fl clocks rounds end_time emergency_exit now' (fl.minus now' now) in
      let test : D → Bool → M (Unit {0}) = λ now' stop. if stop then pure tt else again now' in
      let round : D → M (Unit {0}) =
        λ now'. is_emergency k fl clocks emergency_exit >>= test now' in
      Keeps-if obs (fl.is_less (fl.plus now last_loop) end_time)
        (read_clock k fl clocks clocks.cputime >>= round) (pure tt)
        (Keeps-bind obs (read_clock k fl clocks clocks.cputime) round
          (read_clock-Keeps clocks.cputime)
          λ now'.
            Keeps-bind obs (is_emergency k fl clocks emergency_exit) (test now')
              (is_emergency-Keeps emergency_exit)
              λ stop.
                Keeps-if obs stop (pure tt) (again now') (λ s. refl)
                  (spin_loop-Keeps rounds end_time emergency_exit now' (fl.minus now' now)))
        (λ s. refl)

  pub loop_for-Keeps :
      (rounds : ℕ) (exec_time emergency_exit : D)
      → Keeps obs (loop_for k fl clocks rounds exec_time emergency_exit)
  unfolding loop_for
  loop_for-Keeps rounds exec_time emergency_exit =
      let spin : D → D → M (Unit {0}) = λ start now.
        spin_loop k fl clocks rounds (fl.plus start exec_time) emergency_exit now
          (fl.of_int (pos 0)) in
      Keeps-bind obs (read_clock k fl clocks clocks.cputime)
        (λ start. read_clock k fl clocks clocks.cputime >>= spin start)
        (read_clock-Keeps clocks.cputime)
        λ start.
          Keeps-bind obs (read_clock k fl clocks clocks.cputime) (spin start)
            (read_clock-Keeps clocks.cputime)
            λ now.
              spin_loop-Keeps rounds (fl.plus start exec_time) emergency_exit now
                (fl.of_int (pos 0))

  spin_option-Keeps : (opt : Opt) (o : SpinOptions D) → Keeps obs (spin_option k fl clocks opt o)
  unfolding spin_option
  spin_option-Keeps opt o s = ground arith

  pub spin_options-Keeps :
      (opts : List Opt) (o : SpinOptions D) → Keeps obs (spin_options k fl clocks opts o)
  unfolding spin_options
  spin_options-Keeps [] o = λ s. refl
  spin_options-Keeps (opt ∷ opts) o =
      Keeps-bind obs (spin_option k fl clocks opt o) (spin_options k fl clocks opts)
        (spin_option-Keeps opt o) (spin_options-Keeps opts)

module _ {D B : Type 0} (obs : Log → B) (blind : IsBlind obs) (k : Kernel) (fl : Double D)
    (clocks : Clocks D) (scan : Scanner D) where
  pub spin_migrate-Keeps : (o : SpinOptions D) → Keeps obs (spin_migrate k fl clocks scan o)
  unfolding spin_migrate bail_out
  spin_migrate-Keeps o =
      let rest : ℤ → M (Unit {0}) = λ ret. if is_neg ret then bail_out else pure tt in
      Keeps-if obs o.migrate (be_migrate_to_domain k o.cluster >>= rest) (pure tt)
        (Keeps-bind obs (be_migrate_to_domain k o.cluster) rest
          (be_migrate_to_domain-Keeps obs blind k o.cluster)
          λ ret. Keeps-if obs (is_neg ret) bail_out (pure tt) (λ s. refl) (λ s. refl))
        (λ s. refl)

  pub spin_cpu-Keeps : (o : SpinOptions D) → Keeps obs (spin_cpu k fl clocks scan o)
  unfolding spin_cpu
  spin_cpu-Keeps o =
      Keeps-if obs o.migrate
        (if is_neg o.reservation then domain_to_first_cpu k o.cluster else pure o.reservation)
        (pure (pos 0))
        (Keeps-if obs (is_neg o.reservation) (domain_to_first_cpu k o.cluster) (pure o.reservation)
          (domain_to_first_cpu-Keeps obs blind k o.cluster) (λ s. refl))
        (λ s. refl)

  -- A round of read_jobs, with what fscanf has found.
  abbrev round_with : (Bytes → M (List D)) → ℕ → Option (D × Bytes) → M (List D)
  round_with again n i = elim i [
    | none ↦ exit (pos 1)
    | some (x, rest) ↦ (do
      let line = skip_to_next_line rest
      xs ← if line.0 then again line.1 else (if n == 0 then pure [] else crash)
      pure (x ∷ xs))
  ]

  round_with-Keeps :
      (again : Bytes → M (List D)) (n : ℕ) (i : Option (D × Bytes))
      → ((s : Bytes) → Keeps obs (again s))
      → Keeps obs (round_with again n i)
  round_with-Keeps again n none h = λ t. refl
  round_with-Keeps again n (some (x, rest)) h =
      let line : Bool × Bytes = skip_to_next_line rest in
      let stop : M (List D) = if n == 0 then pure [] else crash in
      Keeps-bind obs (if line.0 then again line.1 else stop) (λ xs. pure (x ∷ xs))
        (Keeps-if obs line.0 (again line.1) stop (h line.1)
          (Keeps-if obs (n == 0) (pure []) crash (λ t. refl) (λ t. refl)))
        (λ xs t. refl)

  read_jobs-Keeps : (column n : ℕ) (s : Bytes) → Keeps obs (read_jobs k scan column n s)
  unfolding read_jobs
  read_jobs-Keeps column zero s = λ t. refl
  read_jobs-Keeps column (suc n) s =
      round_with-Keeps (read_jobs k scan column n) n
        (scan.number (skip_columns k scan (column - 1) (skip_comments s)))
        (read_jobs-Keeps column n)

  pub get_exec_times-Keeps :
      (file : Bytes) (column : ℤ) → Keeps obs (get_exec_times k scan file column)
  unfolding get_exec_times bail_out
  get_exec_times-Keeps file column =
      let close : ℤ → List D → M (List D) = λ fd times. call k (Call.close_file fd) >> pure times in
      let load : ℤ → M (List D) = λ fd.
        read_jobs k scan (pos_part column) (count_jobs (scan.content file)) (scan.content file)
        >>= close fd in
      let check : ℤ → M (Unit {0}) = λ ret. if eqb_ℤ ret minus_one then bail_out else pure tt in
      let opened : ℤ → M (Unit {0}) = λ fd. if is_neg fd then bail_out else pure tt in
      let rewind : ℤ → M (List D) =
        λ fd. call k (Call.rewind_stream fd) >>= λ ret. check ret >> load fd in
      Keeps-bind obs (call k (Call.open_file file OpenMode.read_only))
        (λ fd. opened fd >> rewind fd)
        (Keeps-call obs k (Call.open_file file OpenMode.read_only) blind refl)
        λ fd.
          Keeps-bind obs (opened fd) (λ _. rewind fd)
            (Keeps-if obs (is_neg fd) bail_out (pure tt) (λ s. refl) (λ s. refl))
            λ _.
              Keeps-bind obs (call k (Call.rewind_stream fd)) (λ ret. check ret >> load fd)
                (Keeps-call obs k (Call.rewind_stream fd) blind refl)
                λ ret.
                  Keeps-bind obs (check ret) (λ _. load fd)
                    (Keeps-if obs (eqb_ℤ ret minus_one) bail_out (pure tt) (λ s. refl) (λ s. refl))
                    λ _.
                      Keeps-bind obs
                        (read_jobs k scan (pos_part column) (count_jobs (scan.content file))
                          (scan.content file))
                        (close fd)
                        (read_jobs-Keeps (pos_part column) (count_jobs (scan.content file))
                          (scan.content file))
                        λ times.
                          Keeps-bind obs (call k (Call.close_file fd)) (λ _. pure times)
                            (Keeps-call obs k (Call.close_file fd) blind refl) (λ _ s. refl)
