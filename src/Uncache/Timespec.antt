-- ===== src/Uncache/Timespec.antt =====
-- The arithmetic on timespecs of bin/uncache.c, over unbounded integers.
use adaptive_liblitmus.Base.{ℕ, zero, suc, ◌+◌, ◌*◌, ◌/◌, if◌then◌else◌}
use adaptive_liblitmus.Base.Int.{
  ℤ, pos, negsuc, pos_part, neg_part, ltb_ℤ, is_neg, sub_ℕ, ◌+ℤ◌, ◌-ℤ◌,
}

pub record Timespec : Type 0 where
  pub tv_sec : ℤ
  pub tv_nsec : ℤ

abbrev pub giga : ℕ
giga = 1_000_000_000

-- The two loops of timespec_normalize, with the number of rounds that they can need.
unfoldable pub while_above : ℕ → ℤ → ℤ → Timespec
while_above zero sec nsec = record { tv_sec = sec; tv_nsec = nsec }
while_above (suc fuel) sec nsec =
    let rest = while_above fuel (sec +ℤ pos 1) (nsec -ℤ pos giga) in
    if ltb_ℤ (pos giga) nsec then rest else record { tv_sec = sec; tv_nsec = nsec }

unfoldable pub while_below : ℕ → ℤ → ℤ → Timespec
while_below zero sec nsec = record { tv_sec = sec; tv_nsec = nsec }
while_below (suc fuel) sec nsec =
    let rest = while_below fuel (sec -ℤ pos 1) (nsec +ℤ pos giga) in
    if is_neg nsec then rest else record { tv_sec = sec; tv_nsec = nsec }

unfoldable pub timespec_normalize : ℤ → ℤ → Timespec
unfolding while_above while_below
timespec_normalize sec nsec =
    let t = while_above (pos_part nsec / giga + 1) sec nsec in
    while_below (neg_part t.tv_nsec / giga + 2) t.tv_sec t.tv_nsec

unfoldable pub timespec_sub : Timespec → Timespec → Timespec
unfolding timespec_normalize
timespec_sub lhs rhs = timespec_normalize (lhs.tv_sec -ℤ rhs.tv_sec) (lhs.tv_nsec -ℤ rhs.tv_nsec)

unfoldable pub timespec_add : Timespec → Timespec → Timespec
unfolding timespec_normalize
timespec_add lhs rhs = timespec_normalize (lhs.tv_sec +ℤ rhs.tv_sec) (lhs.tv_nsec +ℤ rhs.tv_nsec)

-- C's division of a signed number rounds towards zero.
abbrev pub quot_1000 : ℤ → ℤ
quot_1000 (pos n) = pos (n / 1000)
quot_1000 (negsuc n) = sub_ℕ 0 (suc n / 1000)

abbrev pub times_million : ℤ → ℤ
times_million (pos n) = pos (n * 1_000_000)
times_million (negsuc n) = sub_ℕ 0 (suc n * 1_000_000)

unfoldable pub timespec_to_us : Timespec → ℤ
timespec_to_us ts = times_million ts.tv_sec +ℤ quot_1000 ts.tv_nsec
