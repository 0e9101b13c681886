-- ===== src/Uncache/TimespecLaws.antt =====
-- Normalising keeps the time and ends with nanoseconds between 0 and a full second.
use adaptive_liblitmus.Base.{
  ℕ, zero, suc, ◌+◌, ◌*◌, ◌/◌, ◌-◌, ◌<◌, ◌≤◌, ◌≡◌, refl, true, arith, Bool-cases, inl, inr,
}
use adaptive_liblitmus.Base.Int.{
  ℤ, pos, negsuc, pos_part, neg_part, ltb_ℤ, is_neg, ◌+ℤ◌, ◌-ℤ◌, ◌≤ℤ◌, +ℤ_parts, -ℤ_parts,
}
use adaptive_liblitmus.Uncache.Timespec.{
  Timespec, giga, while_above, while_below, timespec_normalize, timespec_sub, timespec_add,
  timespec_to_us,
}

-- Two pairs of seconds and nanoseconds that are the same time.
abbrev pub SameTime : ℤ → ℤ → Timespec → Type 0
SameTime sec nsec t =
    pos_part t.tv_sec * giga + pos_part t.tv_nsec + (neg_part sec * giga + neg_part nsec)
    ≡ pos_part sec * giga + pos_part nsec + (neg_part t.tv_sec * giga + neg_part t.tv_nsec)

record Above (sec nsec : ℤ) (t : Timespec) : Type 0 where
  same : SameTime sec nsec t
  high : t.tv_nsec ≤ℤ pos giga
  low : pos_part t.tv_nsec ≤ pos_part nsec
  kept : neg_part t.tv_nsec ≡ neg_part nsec

Above-step :
    (sec nsec : ℤ) (t : Timespec)
    → ltb_ℤ (pos giga) nsec ≡ true
    → Above (sec +ℤ pos 1) (nsec -ℤ pos giga) t
    → Above sec nsec t
unfolding ◌+ℤ◌ ◌-ℤ◌
Above-step (pos a) (pos n) t h r = ground arith
Above-step (negsuc a) (pos n) t h r = ground arith
Above-step sec (negsuc n) t h r = absurd (ground arith)

-- With a round for each whole second in the nanoseconds the first loop ends by its test.
while_above-Above :
    (fuel : ℕ) (sec nsec : ℤ)
    → pos_part nsec < fuel * giga + 1
    → Above sec nsec (while_above fuel sec nsec)
unfolding while_above
while_above-Above zero sec nsec h = ground arith
while_above-Above (suc fuel) sec nsec h = elim (Bool-cases (ltb_ℤ (pos giga) nsec)) [
  | inl more ↦
      rw (more, while_above)
        (Above-step sec nsec (while_above fuel (sec +ℤ pos 1) (nsec -ℤ pos giga)) more
          (while_above-Above fuel (sec +ℤ pos 1) (nsec -ℤ pos giga) (fewer nsec fuel h more)))
  | inr done ↦ rw (done, while_above) (ground arith)
]
  where
    fewer :
        (n : ℤ) (f : ℕ)
        → pos_part n < suc f * giga + 1
        → ltb_ℤ (pos giga) n ≡ true
        → pos_part (n -ℤ pos giga) < f * giga + 1
    fewer (pos n) f h more = unfold ◌-ℤ◌ in ground arith
    fewer (negsuc n) f h more = unfold ◌-ℤ◌ in ground arith

record Below (sec nsec : ℤ) (t : Timespec) : Type 0 where
  same : SameTime sec nsec t
  high : t.tv_nsec ≤ℤ pos giga
  nonneg : neg_part t.tv_nsec ≡ 0

Below-step :
    (sec nsec : ℤ) (t : Timespec)
    → is_neg nsec ≡ true
    → Below (sec -ℤ pos 1) (nsec +ℤ pos giga) t
    → Below sec nsec t
unfolding ◌+ℤ◌ ◌-ℤ◌
Below-step sec (pos n) t h r = cc
Below-step (pos a) (negsuc n) t h r = ground arith
Below-step (negsuc a) (negsuc n) t h r = ground arith

while_below-Below :
    (fuel : ℕ) (sec nsec : ℤ)
    → nsec ≤ℤ pos giga
    → neg_part nsec + giga < fuel * giga + 1
    → Below sec nsec (while_below fuel sec nsec)
unfolding while_below
while_below-Below zero sec nsec u h = absurd (omega arith)
while_below-Below (suc fuel) sec (pos n) u h = ground arith
while_below-Below (suc fuel) sec (negsuc n) u h =
    Below-step sec (negsuc n) (while_below fuel (sec -ℤ pos 1) (negsuc n +ℤ pos giga)) refl (
      while_below-Below fuel (sec -ℤ pos 1) (negsuc n +ℤ pos giga) (nearer n refl).0
        (nearer n refl).1)
  where
    nearer :
        (x : ℕ)
        → x ≡ n
        → ((negsuc x +ℤ pos giga) ≤ℤ pos giga)
          × (neg_part (negsuc x +ℤ pos giga) + giga < fuel * giga + 1)
    nearer x e = unfold ◌+ℤ◌ in ground arith

-- timespec_normalize returns the time that it is given, with at least 0 and at most 10^9
-- nanoseconds: the tests of its two loops end them.
pub timespec_normalize_lem :
    (sec nsec : ℤ)
    → let t = timespec_normalize sec nsec in
      SameTime sec nsec t × (neg_part t.tv_nsec ≡ 0) × (t.tv_nsec ≤ℤ pos giga)
unfolding timespec_normalize
timespec_normalize_lem sec nsec =
    let up : Above sec nsec (while_above (pos_part nsec / giga + 1) sec nsec) =
      while_above-Above (pos_part nsec / giga + 1) sec nsec (omega arith) in
    let t : Timespec = while_above (pos_part nsec / giga + 1) sec nsec in
    let down : Below t.tv_sec t.tv_nsec
        (while_below (neg_part t.tv_nsec / giga + 2) t.tv_sec t.tv_nsec) =
      while_below-Below (neg_part t.tv_nsec / giga + 2) t.tv_sec t.tv_nsec up.high (omega arith) in
    (omega (arith, up.same, down.same), down.nonneg, down.high)

while_above_whole :
    (fuel n : ℕ) (sec : ℤ)
    → n < fuel
    → (while_above fuel sec (pos (suc n * giga))).tv_nsec ≡ pos giga
unfolding while_above ◌-ℤ◌
while_above_whole zero n sec h = absurd (omega arith)
while_above_whole (suc fuel) zero sec h = refl
while_above_whole (suc fuel) (suc n) sec h =
    let less : pos (suc (suc n) * giga) -ℤ pos giga ≡ pos (suc n * giga) = ground arith in
    let more : ltb_ℤ (pos giga) (pos (suc (suc n) * giga)) ≡ true = ground arith in
    rw (more, while_above, less) (while_above_whole fuel n (sec +ℤ pos 1) (omega arith))

-- Where the nanoseconds are a whole number of seconds, one or more, timespec_normalize leaves a
-- full second of nanoseconds behind: a tv_nsec of 10^9.
pub timespec_normalize_whole :
    (sec : ℤ) (n : ℕ) → (timespec_normalize sec (pos (suc n * giga))).tv_nsec ≡ pos giga
unfolding timespec_normalize
timespec_normalize_whole sec n =
    stays (while_above (suc n * giga / giga + 1) sec (pos (suc n * giga)))
      (while_above_whole (suc n * giga / giga + 1) n sec (omega arith))
  where
    stays :
        (t : Timespec)
        → t.tv_nsec ≡ pos giga
        → (while_below (neg_part t.tv_nsec / giga + 2) t.tv_sec t.tv_nsec).tv_nsec ≡ pos giga
    stays t e = rw e (unfold while_below in refl)

-- The nanoseconds of a time, as the two parts of an integer.
abbrev pub plus : Timespec → ℕ
plus t = pos_part t.tv_sec * giga + pos_part t.tv_nsec

abbrev pub minus : Timespec → ℕ
minus t = neg_part t.tv_sec * giga + neg_part t.tv_nsec

-- timespec_sub and timespec_add are exact: adding what was subtracted, or subtracting what was
-- added, gives the first time again, for times of either sign.
pub timespec_sub-exact :
    (lhs rhs : Timespec)
    → let d = timespec_sub lhs rhs in
      let a = timespec_add lhs rhs in
      (plus d + plus rhs + minus lhs ≡ plus lhs + minus d + minus rhs)
      × (plus a + minus lhs + minus rhs ≡ plus lhs + plus rhs + minus a)
unfolding timespec_sub timespec_add
timespec_sub-exact lhs rhs = (
  omega (
    arith,
    (timespec_normalize_lem (lhs.tv_sec -ℤ rhs.tv_sec) (lhs.tv_nsec -ℤ rhs.tv_nsec)).0,
    -ℤ_parts,
  ),
  omega (
    arith,
    (timespec_normalize_lem (lhs.tv_sec +ℤ rhs.tv_sec) (lhs.tv_nsec +ℤ rhs.tv_nsec)).0,
    +ℤ_parts,
  ),
)

timespec_sub-nonneg : (lhs rhs : Timespec) → neg_part (timespec_sub lhs rhs).tv_nsec ≡ 0
unfolding timespec_sub
timespec_sub-nonneg lhs rhs =
    (timespec_normalize_lem (lhs.tv_sec -ℤ rhs.tv_sec) (lhs.tv_nsec -ℤ rhs.tv_nsec)).1

parts_nonneg : (x : ℤ) → neg_part x ≡ 0 → x ≡ pos (pos_part x)
parts_nonneg (pos n) h = refl
parts_nonneg (negsuc n) h = absurd (omega arith)

microseconds_of :
    (now before : ℕ) (sec : ℤ) (nsec : ℕ)
    → before ≤ now
    → pos_part sec * giga + nsec + before ≡ now + neg_part sec * giga
    → timespec_to_us (record { tv_sec = sec; tv_nsec = pos nsec }) ≡ pos ((now - before) / 1000)
unfolding timespec_to_us ◌+ℤ◌
microseconds_of now before (pos a) nsec h e = ground arith
microseconds_of now before (negsuc a) nsec h e = ground arith

microseconds :
    (now before : ℕ) (t : Timespec)
    → before ≤ now
    → plus t + before ≡ now + minus t
    → neg_part t.tv_nsec ≡ 0
    → timespec_to_us t ≡ pos ((now - before) / 1000)
microseconds now before t h e z =
    let whole : t.tv_nsec ≡ pos (pos_part t.tv_nsec) = parts_nonneg t.tv_nsec z in
    let same : t ≡ record { tv_sec = t.tv_sec; tv_nsec = pos (pos_part t.tv_nsec) } =
      ground arith in
    rw same (microseconds_of now before t.tv_sec (pos_part t.tv_nsec) h (omega (arith, e, z)))

abbrev pub at_time : ℕ → ℕ → Timespec
at_time sec nsec = record { tv_sec = pos sec; tv_nsec = pos nsec }

-- Between two clock readings, the second not before the first, do_data reports the elapsed time in
-- whole microseconds, rounded down.
pub elapsed_us :
    (s n s' n' : ℕ)
    → s * giga + n ≤ s' * giga + n'
    → timespec_to_us (timespec_sub (at_time s' n') (at_time s n))
      ≡ pos ((s' * giga + n' - (s * giga + n)) / 1000)
elapsed_us s n s' n' h =
    microseconds (s' * giga + n') (s * giga + n) (timespec_sub (at_time s' n') (at_time s n)) h
      (omega (arith, (timespec_sub-exact (at_time s' n') (at_time s n)).0))
      (timespec_sub-nonneg (at_time s' n') (at_time s n))
