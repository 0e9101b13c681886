-- ===== src/Tools/NullCallLaws.antt =====
-- What bin/null_call.c prints of a measurement.
use adaptive_liblitmus.Base.{
  ℕ, ◌+◌, ◌-◌, ◌^◌, ◌<◌, ◌≤◌, ◌≡◌, refl, ap, ◌∙◌, List, [], ◌∷◌, All, arith,
}
use adaptive_liblitmus.Base.Chars.{Bytes}
use adaptive_liblitmus.Kernel.{
  Kernel, Call, Log, M, Outcome, State, gets, pure, continue-value, call,
}
use adaptive_liblitmus.Syscalls.{null_call}
use adaptive_liblitmus.Tools.NullCall.{Sample, cycles_between, sample, sample_keys}

-- The ways into the kernel and out of it add up to the whole, for readings in order.
abbrev pub AddsUp : Sample → Type 0
AddsUp x = x.entry + x.exit ≡ x.total

-- The counter grows from call to call, also in the kernel, and does not overflow.
pub record Grows (k : Kernel) (counter : Log → ℕ) : Type 0 where
  pub enters : (l : Log) → counter l ≤ k.timestamp l
  pub leaves : (l : Log) → k.timestamp l ≤ counter (Call.null_call ∷ l)
  pub fits : (l : Log) → counter l < 2 ^ 64

-- A counter that is read without a call.
abbrev pub reading : (Log → ℕ) → M ℕ
reading counter = gets (λ s. counter s.log)

between : (a b : ℕ) → a ≤ b → b < 2 ^ 64 → cycles_between a b ≡ b - a
between a b h h' = omega arith

-- The line of a call that is made after the calls `l`: the counter before it, the kernel's time stamp
-- of it, the counter after it, and how far these three are apart.
abbrev pub line_of : Kernel → (Log → ℕ) → Log → Sample
line_of k counter l = record {
  pre = counter l;
  in_kernel = k.timestamp l;
  post = counter (Call.null_call ∷ l);
  entry = k.timestamp l - counter l;
  exit = counter (Call.null_call ∷ l) - k.timestamp l;
  total = counter (Call.null_call ∷ l) - counter l;
}

-- The lines for some keys, one call after the other.
abbrev pub lines_of : Kernel → (Log → ℕ) → Bytes → Log → List Sample
lines_of k counter [] l = []
lines_of k counter (c ∷ cs) l = line_of k counter l ∷ lines_of k counter cs (Call.null_call ∷ l)

module _ (k : Kernel) (counter : Log → ℕ) (g : Grows k counter) where
  sample-line_of :
      (l : Log)
      → sample (counter l) (k.timestamp l) (counter (Call.null_call ∷ l)) ≡ line_of k counter l
  sample-line_of l =
      let after = Call.null_call ∷ l in
      let entry =
        between (counter l) (k.timestamp l) (g.enters l)
          (omega (arith, g.leaves l, g.fits after)) in
      let exit = between (k.timestamp l) (counter after) (g.leaves l) (g.fits after) in
      let total =
        between (counter l) (counter after) (omega (arith, g.enters l, g.leaves l))
          (g.fits after) in
      simp (entry, exit, total)

  pub lines_of-AddsUp : (keys : Bytes) (l : Log) → All AddsUp (lines_of k counter keys l)
  lines_of-AddsUp [] l = tt
  lines_of-AddsUp (c ∷ cs) l =
      (omega (arith, g.enters l, g.leaves l), lines_of-AddsUp cs (Call.null_call ∷ l))

  -- With a counter that grows and does not overflow, one line is printed for each key pressed: that
  -- of the call made for it.
  pub sample_keys-lines_of :
      (keys : Bytes) (s : State)
      → (sample_keys k (reading counter) keys s).0 ≡ Outcome.value (lines_of k counter keys s.log)
  unfolding sample_keys call
  sample_keys-lines_of [] s = refl
  sample_keys-lines_of (c ∷ cs) s =
      let now : State = (null_call k s).1 in
      let x : Sample =
        sample (counter s.log) (k.timestamp s.log) (counter (Call.null_call ∷ s.log)) in
      let rest : List Sample = lines_of k counter cs (Call.null_call ∷ s.log) in
      continue-value (λ xs. pure (x ∷ xs)) (sample_keys k (reading counter) cs now)
        (λ r. r.0 ≡ Outcome.value (x ∷ rest)) (sample_keys-lines_of cs now) (λ t. refl)
      ∙ ap (λ y. Outcome.value (y ∷ rest)) (sample-line_of s.log)
