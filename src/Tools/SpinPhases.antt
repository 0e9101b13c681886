-- ===== src/Tools/SpinPhases.antt =====
-- bin/rtspin.c keeps to the life cycle of a real-time task: its jobs lock and unlock in real-time
-- mode only, and main returns as a background task.
use adaptive_liblitmus.Base.{
  ℕ, zero, suc, ◌≡◌, refl, Bool, true, false, List, [], ◌∷◌, some, if◌then◌else◌,
}
use adaptive_liblitmus.Base.Int.{ℤ, pos, minus_one, eqb_ℤ_refl, is_neg}
use adaptive_liblitmus.Base.Chars.{Bytes, codes}
use adaptive_liblitmus.Kernel.{Kernel, Call, Log, OpenMode, M, ◌>>=◌, ◌>>◌, pure, call}
use adaptive_liblitmus.Syscalls.{
  gettid, litmus_lock, litmus_unlock, sleep_next_period, od_openx, get_job_no,
}
use adaptive_liblitmus.Litmus.Locks.{litmus_open_lock}
use adaptive_liblitmus.Lifecycle.Quiet.{Keeps, Keeps-call, Keeps-bind, Keeps-if}
use adaptive_liblitmus.Lifecycle.Library.{gettid-Keeps}
use adaptive_liblitmus.Lifecycle.Phase.{Phase, phase_of, phase_of-IsBlind}
use adaptive_liblitmus.Lifecycle.Runs.{
  Ends, Runs, Runs-bind, Runs-after, Runs-event, Runs-quiet, Runs-if, Runs-pure, Runs-exit,
}
use adaptive_liblitmus.Tools.Common.{Double, usage}
use adaptive_liblitmus.Tools.ExecTimes.{Scanner}
use adaptive_liblitmus.Tools.Spin.{
  Clocks, SpinOptions, read_clock, loop_for, critical_job, spin_job,
}
use adaptive_liblitmus.Tools.SpinMain.{spin_lock, seconds, file_jobs, periodic_jobs}
use adaptive_liblitmus.Tools.SpinQuiet.{read_clock-Keeps, loop_for-Keeps}

-- Still in real-time mode, with nothing locked.
abbrev pub InRealTime : {A : Type 0} → A → Phase → Type 0
InRealTime a q = q ≡ Phase.real_time

module _ {D : Type 0} (k : Kernel) (fl : Double D) (clocks : Clocks D) where
  -- A busy loop, before code that goes on in the same phase.
  pub loop_for-then :
      {B : Type 0} {p : Phase} {R : B → Phase → Type 0} (rounds : ℕ) (time emergency : D)
      (f : Unit {0} → M B)
      → Runs k p (f tt) R
      → Runs k p (loop_for k fl clocks rounds time emergency >>= f) R
  loop_for-then rounds time emergency f h =
      Runs-after k (loop_for k fl clocks rounds time emergency) f
        (loop_for-Keeps (phase_of k) (phase_of-IsBlind k) k fl clocks rounds time emergency)
        (λ _. h)

  pub read_clock-then :
      {B : Type 0} {p : Phase} {R : B → Phase → Type 0} (clock : Log → D) (f : D → M B)
      → ((now : D) → Runs k p (f now) R)
      → Runs k p (read_clock k fl clocks clock >>= f) R
  read_clock-then clock f h =
      Runs-after k (read_clock k fl clocks clock) f
        (read_clock-Keeps (phase_of k) (phase_of-IsBlind k) k fl clocks clock) h

  loop_for-Runs :
      {p : Phase} (rounds : ℕ) (time emergency : D)
      → Runs k p (loop_for k fl clocks rounds time emergency) (λ _ q. q ≡ p)
  loop_for-Runs rounds time emergency =
      Runs-quiet k (loop_for k fl clocks rounds time emergency)
        (loop_for-Keeps (phase_of k) (phase_of-IsBlind k) k fl clocks rounds time emergency)

  -- The lock is taken and given back, whatever the answers are.
  critical_job-Runs :
      (rounds : ℕ) (exec_time program_end : D) (od : ℤ) (cs_length : D)
      → Runs k Phase.real_time
          (critical_job k fl clocks rounds exec_time program_end od cs_length)
          InRealTime
  unfolding critical_job litmus_lock litmus_unlock
  critical_job-Runs rounds exec_time program_end od cs_length =
      let soon : D = fl.plus program_end (fl.of_int (pos 1)) in
      let later : D = fl.plus program_end (fl.of_int (pos 2)) in
      let chunk1 : D → D = λ r. fl.times r (fl.minus exec_time cs_length) in
      let chunk2 : D → D = λ r. fl.minus (fl.minus exec_time cs_length) (chunk1 r) in
      let last : D → M (Unit {0}) = λ r. loop_for k fl clocks rounds (chunk2 r) later in
      let inside : D → M (Unit {0}) =
        λ r. loop_for k fl clocks rounds cs_length soon >> (litmus_unlock k od >> last r) in
      read_clock-then clocks.drand48
        (λ r. loop_for k fl clocks rounds (chunk1 r) soon >> (litmus_lock k od >> inside r))
        λ r.
          loop_for-then rounds (chunk1 r) soon (λ _. litmus_lock k od >> inside r)
            (Runs-event k (Call.litmus_lock od) (λ _. inside r) refl
              λ a. (
                Phase.critical od,
                refl,
                loop_for-then rounds cs_length soon (λ _. litmus_unlock k od >> last r)
                    (Runs-event k (Call.litmus_unlock od) (λ _. last r) refl
                      λ a. (
                        Phase.real_time,
                        rw (eqb_ℤ_refl od) refl,
                        loop_for-Runs rounds (chunk2 r) later,
                      )),
              ))

  pub spin_job-Runs :
      (rounds : ℕ) (exec_time program_end : D) (od : ℤ) (cs_length : D)
      → Runs k Phase.real_time
          (spin_job k fl clocks rounds exec_time program_end od cs_length)
          InRealTime
  unfolding spin_job sleep_next_period
  spin_job-Runs rounds exec_time program_end od cs_length =
      let soon : D = fl.plus program_end (fl.of_int (pos 1)) in
      let plain : M (Unit {0}) = loop_for k fl clocks rounds exec_time soon in
      let locked : M (Unit {0}) =
        critical_job k fl clocks rounds exec_time program_end od cs_length in
      let complete : M Bool = sleep_next_period k >> pure true in
      read_clock-then clocks.wctime
        (λ now.
          if fl.is_less program_end now
          then pure false
          else ((if is_neg od then plain else locked) >> complete))
        λ now.
          Runs-if k (fl.is_less program_end now) (pure false)
            ((if is_neg od then plain else locked) >> complete) (λ _. Runs-pure k false refl)
            λ _.
              Runs-bind k InRealTime (if is_neg od then plain else locked) (λ _. complete)
                (Runs-if k (is_neg od) plain locked (λ _. loop_for-Runs rounds exec_time soon)
                  (λ _. critical_job-Runs rounds exec_time program_end od cs_length))
                λ _ q same. rw same (
                  Runs-event k Call.complete_job (λ _. pure true) refl
                    (λ a. (Phase.real_time, refl, Runs-pure k true refl)))

module _ {D : Type 0} (k : Kernel) (fl : Double D) (clocks : Clocks D) (scan : Scanner D) where
  pub spin_lock-Runs :
      (o : SpinOptions D) → Runs k Phase.real_time (spin_lock k fl clocks scan o) InRealTime
  unfolding spin_lock litmus_open_lock od_openx
  spin_lock-Runs o =
      let space : Bytes = codes "./rtspin-locks" in
      let close : ℤ → ℤ → M ℤ = λ fd od. call k (Call.close_file fd) >> pure od in
      let open_od : ℤ → M ℤ =
        λ fd. od_openx k fd o.protocol o.resource_id (some o.cluster) >>= close fd in
      let check : ℤ → M ℤ = λ od. if is_neg od then usage else pure od in
      Runs-if k (is_neg o.protocol) (pure minus_one)
        (litmus_open_lock k o.protocol o.resource_id space (some o.cluster) >>= check)
        (λ _. Runs-pure k minus_one refl)
        λ _.
          Runs-bind k InRealTime
            (litmus_open_lock k o.protocol o.resource_id space (some o.cluster)) check
            (Runs-after k (call k (Call.open_file space OpenMode.create))
              (λ fd. if is_neg fd then pure minus_one else open_od fd)
              (Keeps-call (phase_of k) k (Call.open_file space OpenMode.create) (phase_of-IsBlind k)
                refl)
              λ fd.
                Runs-if k (is_neg fd) (pure minus_one) (open_od fd)
                  (λ _. Runs-pure k minus_one refl)
                  λ _.
                    Runs-event k (Call.od_open fd o.protocol o.resource_id (some o.cluster))
                      (close fd) refl
                      λ od. (
                        Phase.real_time,
                        refl,
                        Runs-after k (call k (Call.close_file fd)) (λ _. pure od)
                            (Keeps-call (phase_of k) k (Call.close_file fd) (phase_of-IsBlind k)
                              refl)
                            (λ _. Runs-pure k od refl),
                      ))
            λ od q same. rw same (
              Runs-if k (is_neg od) usage (pure od) (λ _. Runs-exit k (pos 1))
                (λ _. Runs-pure k od refl))

  pub file_jobs-Runs :
      (o : SpinOptions D) (rounds : ℕ) (program_end : D) (od : ℤ) (xs : List D)
      → Runs k Phase.real_time (file_jobs k fl clocks scan o rounds program_end od xs) InRealTime
  unfolding file_jobs
  file_jobs-Runs o rounds program_end od [] = Runs-pure k tt refl
  file_jobs-Runs o rounds program_end od (x ∷ xs) =
      let time : D = seconds k fl clocks scan o x in
      let cs : D = fl.times o.cs_length fl.milli in
      Runs-bind k InRealTime (spin_job k fl clocks rounds time program_end od cs)
        (λ _. file_jobs k fl clocks scan o rounds program_end od xs)
        (spin_job-Runs k fl clocks rounds time program_end od cs)
        (λ _ q same. rw same (file_jobs-Runs o rounds program_end od xs))

  report-Keeps :
      (o : SpinOptions D)
      → Keeps (phase_of k) (
          if o.verbose
          then (get_job_no k >> (gettid k >> (read_clock k fl clocks clocks.wctime >> pure tt)))
          else pure tt)
  unfolding get_job_no call
  report-Keeps o =
      let blind = phase_of-IsBlind k in
      let clock : M (Unit {0}) = read_clock k fl clocks clocks.wctime >> pure tt in
      Keeps-if (phase_of k) o.verbose (get_job_no k >> (gettid k >> clock)) (pure tt)
        (Keeps-bind (phase_of k) (get_job_no k) (λ _. gettid k >> clock)
          (λ s. blind Call.query_job_no s.log refl)
          λ _.
            Keeps-bind (phase_of k) (gettid k) (λ _. clock) (gettid-Keeps (phase_of k) blind k)
              λ _.
                Keeps-bind (phase_of k) (read_clock k fl clocks clocks.wctime) (λ _. pure tt)
                  (read_clock-Keeps (phase_of k) blind k fl clocks clocks.wctime) (λ _ s. refl))
        (λ s. refl)

  pub periodic_jobs-Runs :
      (o : SpinOptions D) (jobs rounds : ℕ) (wcet_ms program_end : D) (od : ℤ)
      → Runs k Phase.real_time
          (periodic_jobs k fl clocks scan o jobs rounds wcet_ms program_end od)
          InRealTime
  unfolding periodic_jobs
  periodic_jobs-Runs o zero rounds wcet_ms program_end od = λ s e. Ends.faults e
  periodic_jobs-Runs o (suc jobs) rounds wcet_ms program_end od =
      let time : D = seconds k fl clocks scan o wcet_ms in
      let cs : D = fl.times o.cs_length fl.milli in
      let again : M (Unit {0}) =
        periodic_jobs k fl clocks scan o jobs rounds wcet_ms program_end od in
      let next : Bool → M (Unit {0}) = λ more. if more then again else pure tt in
      let report : M (Unit {0}) =
        if o.verbose
        then (get_job_no k >> (gettid k >> (read_clock k fl clocks clocks.wctime >> pure tt)))
        else pure tt in
      Runs-after k report (λ _. spin_job k fl clocks rounds time program_end od cs >>= next)
        (report-Keeps o)
        λ _.
          Runs-bind k InRealTime (spin_job k fl clocks rounds time program_end od cs) next
            (spin_job-Runs k fl clocks rounds time program_end od cs)
            λ more q same. rw same (
              Runs-if k more again (pure tt)
                (λ _. periodic_jobs-Runs o jobs rounds wcet_ms program_end od)
                (λ _. Runs-pure k tt refl))
