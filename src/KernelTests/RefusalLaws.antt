-- ===== src/KernelTests/RefusalLaws.antt =====
-- What the test cases invalid_od, invalid_obj_type and job_control_non_rt find out about a kernel.
use adaptive_liblitmus.Base.{
  ◌≡◌, ◌⊎◌, inl, inr, refl, ◌&&◌, Bool, true, Bool-cases, List, [], ◌∷◌, All, none,
}
use adaptive_liblitmus.Base.Int.{ℤ, pos, minus_one, eqb_ℤ}
use adaptive_liblitmus.Kernel.{Kernel, Call, Log, M, State, ◌>>◌, pure, call}
use adaptive_liblitmus.Syscalls.{
  litmus_lock, litmus_unlock, od_close, od_open, od_openx, sleep_next_period, wait_for_job_release,
  get_job_no,
}
use adaptive_liblitmus.KernelTests.{syscall_fails, einval, eperm}
use adaptive_liblitmus.KernelTests.Judging.{outcome}
use adaptive_liblitmus.KernelTests.ObjectCases.{invalid_od, invalid_obj_type}
use adaptive_liblitmus.KernelTests.ParamCases.{job_control_non_rt}

-- Calls, each with the error that is expected of it.
abbrev pub Refusals : Type 0
Refusals = List (ℤ × Call)

-- Made one after the other, all are refused with the error expected.
abbrev pub refuses : Kernel → Log → Refusals → Bool
refuses k l [] = true
refuses k l ((e, c) ∷ cs) =
    (eqb_ℤ (k.answer l c) minus_one && eqb_ℤ (k.errno_of l c) e) && refuses k (c ∷ l) cs

-- The answer to each is 0 or -1, whatever was called before.
abbrev pub IsBinary : Kernel → Refusals → Type 0
IsBinary k cs = All (λ x. (l : Log) → (k.answer l x.1 ≡ pos 0) ⊎ (k.answer l x.1 ≡ minus_one)) cs

abbrev pub refuse_all : Kernel → Refusals → M (Unit {0})
refuse_all k [] = pure tt
refuse_all k ((e, c) ∷ cs) = syscall_fails e (call k c) >> refuse_all k cs

refuse_all-refuses :
    (k : Kernel) (cs : Refusals) (s : State)
    → IsBinary k cs
    → (refuse_all k cs s).0 ≡ outcome (refuses k s.log cs)
unfolding syscall_fails call
refuse_all-refuses k [] s b = refl
refuse_all-refuses k ((e, c) ∷ cs) s (b, b') = elim (b s.log) [
  | inl done ↦ rw done refl
  | inr refused ↦ elim (Bool-cases (eqb_ℤ (k.errno_of s.log c) e)) [
    | inl same ↦ rw (refused, same) (refuse_all-refuses k cs _ b')
    | inr other ↦ rw (refused, other) refl
  ]
]

-- The calls of the three tests.
abbrev od_calls : Refusals
od_calls =
    (einval, Call.litmus_lock (pos 3))
    ∷ (einval, Call.litmus_unlock (pos 3))
    ∷ (einval, Call.od_close (pos 3))
    ∷ (einval, Call.litmus_lock minus_one)
    ∷ (einval, Call.litmus_unlock minus_one)
    ∷ (einval, Call.od_close minus_one)
    ∷ []

abbrev obj_type_calls : Refusals
obj_type_calls =
    (einval, Call.od_open (pos 0) minus_one (pos 0) none)
    ∷ (einval, Call.od_open (pos 0) (pos 10) (pos 0) none)
    ∷ []

abbrev job_calls : Refusals
job_calls =
    (einval, Call.complete_job)
    ∷ (einval, Call.wait_for_job_release 0)
    ∷ (eperm, Call.query_job_no)
    ∷ []

-- A test, and the calls that it wants refused.
abbrev pub refusal_tests : Kernel → List (M (Unit {0}) × Refusals)
refusal_tests k =
    (invalid_od k, od_calls)
    ∷ (invalid_obj_type k, obj_type_calls)
    ∷ (job_control_non_rt k, job_calls)
    ∷ []

-- On a kernel that answers the calls of a test with 0 or -1: each of the tests invalid_od,
-- invalid_obj_type and job_control_non_rt ends without a failure exactly where each of its calls,
-- one after the other, is refused with the error that is expected of it; otherwise it ends with
-- exit(200).
pub refusal_tests-refuses :
    (k : Kernel) (s : State)
    → All (λ x. IsBinary k x.1) (refusal_tests k)
    → All (λ x. (x.0 s).0 ≡ outcome (refuses k s.log x.1)) (refusal_tests k)
unfolding invalid_od invalid_obj_type job_control_non_rt litmus_lock litmus_unlock od_close od_open
    od_openx sleep_next_period wait_for_job_release get_job_no call
refusal_tests-refuses k s (b, (b', (b'', _))) = (
  refuse_all-refuses k od_calls s b,
  (refuse_all-refuses k obj_type_calls s b', (refuse_all-refuses k job_calls s b'', tt)),
)
