-- ===== src/Tests/Times.antt =====
-- Instances for the arithmetic on times.
use adaptive_liblitmus.Base.{◌+◌, ◌*◌, ◌≡◌}
use adaptive_liblitmus.Base.Int.{pos, negsuc, neg_part, ◌≤ℤ◌}
use adaptive_liblitmus.Uncache.Timespec.{giga, timespec_normalize, timespec_sub, timespec_add}
use adaptive_liblitmus.Uncache.TimespecLaws.{
  SameTime, plus, minus, at_time, timespec_normalize_lem, timespec_normalize_whole,
  timespec_sub-exact,
}

timespec_normalize_lem_example :
    SameTime (pos 5) (negsuc 0) (timespec_normalize (pos 5) (negsuc 0))
    × (neg_part (timespec_normalize (pos 5) (negsuc 0)).tv_nsec ≡ 0)
    × ((timespec_normalize (pos 5) (negsuc 0)).tv_nsec ≤ℤ pos giga)
timespec_normalize_lem_example = timespec_normalize_lem (pos 5) (negsuc 0)

timespec_normalize_whole_example : (timespec_normalize (pos 5) (pos (1 * giga))).tv_nsec ≡ pos giga
timespec_normalize_whole_example = timespec_normalize_whole (pos 5) 0

timespec_sub-exact_example :
    let d = timespec_sub (at_time 3 1) (at_time 2 5) in
    let a = timespec_add (at_time 3 1) (at_time 2 5) in
    (plus d + plus (at_time 2 5) + minus (at_time 3 1)
      ≡ plus (at_time 3 1) + minus d + minus (at_time 2 5))
    × (plus a + minus (at_time 3 1) + minus (at_time 2 5)
        ≡ plus (at_time 3 1) + plus (at_time 2 5) + minus a)
timespec_sub-exact_example = timespec_sub-exact (at_time 3 1) (at_time 2 5)
