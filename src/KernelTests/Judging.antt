-- ===== src/KernelTests/Judging.antt =====
-- Test code whose verdict is known: it goes on with a value where a condition holds, and ends the
-- test with exit(200) where it does not. One rule for each way to build test code.
use adaptive_liblitmus.Base.{◌≡◌, refl, ◌&&◌, not, Bool, true, false, ◌∷◌, arith, if◌then◌else◌}
use adaptive_liblitmus.Base.Int.{ℤ, pos, minus_one, eqb_ℤ_refl, is_neg}
use adaptive_liblitmus.Kernel.{
  Kernel, Call, Log, M, Outcome, State, ◌>>=◌, ◌>>◌, pure, continue, call,
}
use adaptive_liblitmus.TestRunner.{syscall}
use adaptive_liblitmus.KernelTests.{checked, syscall_fails}

-- A run that goes on, with J of its value and its calls, or that has failed the test.
pub data Verdict {A : Type 0} (J : A → Log → Type 0) : Bool → Outcome A × State → Type 0 where
  passes : {a : A} {t : State} → J a t.log → Verdict J true (Outcome.value a, t)
  fails : {t : State} → Verdict J false (Outcome.exited (pos 200), t)

Verdict-continue :
    {A B : Type 0} (J : A → Log → Type 0) (K : B → Log → Type 0) (f : A → M B) {b b' : Bool}
    {r : Outcome A × State}
    → Verdict J b r
    → ((a : A) (t : State) → J a t.log → Verdict K b' (f a t))
    → Verdict K (b && b') (continue f r)
Verdict-continue J K f (passes h) next = next _ _ h
Verdict-continue J K f fails next = fails

pub record Judges {A : Type 0} (I : Log → Type 0) (b : Bool) (m : M A) (J : A → Log → Type 0)
    : Type 0 where
  pub run : (s : State) → I s.log → Verdict J b (m s)

pub Judges-bind :
    {A B : Type 0} {I : Log → Type 0} {J : A → Log → Type 0} {K : B → Log → Type 0} {b b' : Bool}
    (m : M A) (f : A → M B)
    → Judges I b m J
    → ((a : A) → Judges (J a) b' (f a) K)
    → Judges I (b && b') (m >>= f) K
Judges-bind {J = J} {K = K} m f h next = record {
  run = λ s i. Verdict-continue J K f (h.run s i) (λ a t j. (next a).run t j);
}

pub Judges-then :
    {A B : Type 0} {I J : Log → Type 0} {K : B → Log → Type 0} {b b' : Bool} (m : M A) (n : M B)
    → Judges I b m (λ _. J)
    → Judges J b' n K
    → Judges I (b && b') (m >> n) K
Judges-then m n h next = Judges-bind m (λ _. n) h (λ _. next)

-- Where what follows never fails the test.
pub Judges-bind_sure :
    {A B : Type 0} {I : Log → Type 0} {J : A → Log → Type 0} {K : B → Log → Type 0} {b : Bool}
    (m : M A) (f : A → M B)
    → Judges I b m J
    → ((a : A) → Judges (J a) true (f a) K)
    → Judges I b (m >>= f) K
Judges-bind_sure {b = b} m f h next =
    let same : (b && true) ≡ b = ground arith in rw same at (Judges-bind m f h next)

pub Judges-then_sure :
    {A B : Type 0} {I J : Log → Type 0} {K : B → Log → Type 0} {b : Bool} (m : M A) (n : M B)
    → Judges I b m (λ _. J)
    → Judges J true n K
    → Judges I b (m >> n) K
Judges-then_sure m n h next = Judges-bind_sure m (λ _. n) h (λ _. next)

-- A weaker fact before, and a stronger one behind.
pub Judges-adapt :
    {A : Type 0} {I I' J J' : Log → Type 0} {b : Bool} (m : M A)
    → Judges I b m (λ _. J)
    → ((l : Log) → I' l → I l)
    → ((l : Log) → J l → J' l)
    → Judges I' b m (λ _. J')
Judges-adapt {A} {J = J} {J' = J'} m h before after = record {
  run = λ s i. adapted (h.run s (before s.log i));
}
  where
    adapted : {b : Bool} {r : Outcome A × State} → Verdict (λ _. J) b r → Verdict (λ _. J') b r
    adapted (passes j) = passes (after _ j)
    adapted fails = fails

pub Judges-pure : {A : Type 0} {J : A → Log → Type 0} (a : A) → Judges (J a) true (pure a) J
Judges-pure a = record { run = λ s h. passes h }

-- A result that is known not to be negative.
pub Judges-checked :
    {I : Log → Type 0} {J : ℤ → Log → Type 0} (m : M ℤ)
    → ((s : State)
        → I s.log
        → (a : ℤ) × ((m s).0 ≡ Outcome.value a) × (is_neg a ≡ false) × J a (m s).1.log)
    → Judges I true (checked m) J
unfolding checked syscall
Judges-checked {I} {J} m h = record { run = λ s i. judged (m s) (h s i) }
  where
    judged :
        (r : Outcome ℤ × State)
        → (a : ℤ) × (r.0 ≡ Outcome.value a) × (is_neg a ≡ false) × J a r.1.log
        → Verdict J true (continue (λ ret. syscall ret >> pure ret) r)
    judged (Outcome.value x, t) (a, e, ok, j) = let same : x ≡ a = cc in rw same (rw ok (passes j))
    judged (Outcome.exited c, t) (a, e, ok, j) = absurd (cc)
    judged (Outcome.fault, t) (a, e, ok, j) = absurd (cc)

-- SYSCALL of one call, whose answer is negative or not.
pub Judges-call :
    {I : Log → Type 0} {J : ℤ → Log → Type 0} (k : Kernel) (c : Call) (b : Bool)
    → ((l : Log) → I l → (is_neg (k.answer l c) ≡ not b) × (b ≡ true → J (k.answer l c) (c ∷ l)))
    → Judges I b (checked (call k c)) J
unfolding checked syscall call
Judges-call {I} k c true h = record {
  run = λ s i. let (ok, j) = h s.log i in rw ok (passes (j refl));
}
Judges-call {I} k c false h = record { run = λ s i. let (bad, j) = h s.log i in rw bad fails }

-- SYSCALL_FAILS of one call, which is refused with the expected error, or answered with 0.
pub Judges-refused :
    {I J : Log → Type 0} (k : Kernel) (expected : ℤ) (c : Call) (b : Bool)
    → ((l : Log)
        → I l
        → (k.answer l c ≡ (if b then minus_one else pos 0))
          × (k.errno_of l c ≡ expected)
          × (b ≡ true → J (c ∷ l)))
    → Judges I b (syscall_fails expected (call k c)) (λ _. J)
unfolding syscall_fails call
Judges-refused {I} k expected c true h = record {
  run = λ s i.
      let (refused, why, j) = h s.log i in rw (refused, why, eqb_ℤ_refl expected) (passes (j refl));
}
Judges-refused {I} k expected c false h = record {
  run = λ s i. let (done, why, j) = h s.log i in rw done fails;
}

-- How a test that passes ends, and one that fails.
abbrev pub outcome : Bool → Outcome (Unit {0})
outcome b = if b then Outcome.value tt else Outcome.exited (pos 200)

pub Verdict-outcome :
    {J : Unit {0} → Log → Type 0} {b : Bool} {r : Outcome (Unit {0}) × State}
    → Verdict J b r
    → r.0 ≡ outcome b
Verdict-outcome (passes h) = refl
Verdict-outcome fails = refl
