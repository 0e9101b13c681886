-- ===== src/Finishing.antt =====
-- Code that ends with a value or by exit, and never in a fault: neither for want of rounds nor by
-- an access out of bounds. One rule for each way to build code.
pub mod Library
use adaptive_liblitmus.Base.{◌≡◌, refl, Bool, true, false, ◌∷◌, if◌then◌else◌}
use adaptive_liblitmus.Base.Int.{ℤ}
use adaptive_liblitmus.Kernel.{
  Kernel, Call, Log, M, Outcome, State, ◌>>=◌, ◌>>◌, pure, gets, modify, exit, continue, call,
}

-- A run that has ended with a value of which Q holds, or by exit.
pub data Finishes {A : Type 0} (Q : A → Log → Type 0) : Outcome A × State → Type 0 where
  returns : {a : A} {t : State} → Q a t.log → Finishes Q (Outcome.value a, t)
  exits : {c : ℤ} {t : State} → Finishes Q (Outcome.exited c, t)

pub Finishes-continue :
    {A B : Type 0} (Q : A → Log → Type 0) (R : B → Log → Type 0) (f : A → M B)
    {r : Outcome A × State}
    → Finishes Q r
    → ((a : A) (t : State) → Q a t.log → Finishes R (f a t))
    → Finishes R (continue f r)
Finishes-continue Q R f (returns h) next = next _ _ h
Finishes-continue Q R f exits next = exits

pub Finishes-weaken :
    {A : Type 0} (Q R : A → Log → Type 0) {r : Outcome A × State}
    → Finishes Q r
    → ((a : A) (l : Log) → Q a l → R a l)
    → Finishes R r
Finishes-weaken Q R (returns h) weaker = returns (weaker _ _ h)
Finishes-weaken Q R exits weaker = exits

pub Finishes-ne-fault :
    {A : Type 0} (Q : A → Log → Type 0) {r : Outcome A × State}
    → Finishes Q r
    → ¬ (r.0 ≡ Outcome.fault)
Finishes-ne-fault Q (returns h) e = cc e
Finishes-ne-fault Q exits e = cc e

pub Finishes-at :
    {A : Type 0} (Q : A → Log → Type 0) {r : Outcome A × State} {a : A}
    → Finishes Q r
    → r.0 ≡ Outcome.value a
    → Q a r.1.log
Finishes-at Q {a = a} (returns {a = b} h) e = let same : b ≡ a = cc in rw same at h
Finishes-at Q exits e = absurd (cc)

-- With what is known of the value otherwise.
pub Finishes-and :
    {A : Type 0} (Q : A → Log → Type 0) (P : A → Type 0) (r : Outcome A × State)
    → Finishes Q r
    → ((a : A) → r.0 ≡ Outcome.value a → P a)
    → Finishes (λ a l. P a) r
Finishes-and Q P (Outcome.value a, t) h p = returns (p a refl)
Finishes-and Q P (Outcome.exited c, t) h p = exits
Finishes-and Q P (Outcome.fault, t) h p = absurd (Finishes-ne-fault Q h refl)

-- A fact about the calls made so far that further calls leave true.
abbrev pub IsStable : (Log → Type 0) → Type 0
IsStable I = (c : Call) (l : Log) → I l → I (c ∷ l)

pub always : IsStable (λ _. Unit {0})
always c l h = tt

-- A point in the log that was reached before, or just now.
pub data Since (seen : Log) : Log → Type 0 where
  now : Since seen seen
  later : {c : Call} {l : Log} → Since seen l → Since seen (c ∷ l)

pub Since-trans : {a b c : Log} → Since a b → Since b c → Since a c
Since-trans h now = h
Since-trans h (later h') = later (Since-trans h h')

pub Since-IsStable : (seen : Log) → IsStable (Since seen)
Since-IsStable seen c l h = later h

-- Code that finishes wherever the fact holds, which holds after it too.
pub record Safe {A : Type 0} (I : Log → Type 0) (m : M A) : Type 0 where
  pub run : (s : State) → I s.log → Finishes (λ _. I) (m s)

module _ {I : Log → Type 0} where
  pub Safe-pure : {A : Type 0} (a : A) → Safe I (pure a)
  Safe-pure a = record { run = λ s h. Finishes.returns h }

  pub Safe-exit : {A : Type 0} (c : ℤ) → Safe I (exit {A = A} c)
  Safe-exit c = record { run = λ s h. Finishes.exits }

  pub Safe-gets : {A : Type 0} (f : State → A) → Safe I (gets f)
  Safe-gets f = record { run = λ s h. Finishes.returns h }

  pub Safe-modify : (f : State → State) → ((s : State) → (f s).log ≡ s.log) → Safe I (modify f)
  Safe-modify f same = record { run = λ s h. Finishes.returns (rw (same s) h) }

  pub Safe-bind :
      {A B : Type 0} (m : M A) (f : A → M B)
      → Safe I m
      → ((a : A) → Safe I (f a))
      → Safe I (m >>= f)
  Safe-bind m f h k = record {
    run = λ s i. Finishes-continue (λ _. I) (λ _. I) f (h.run s i) (λ a t j. (k a).run t j);
  }

  pub Safe-then : {A B : Type 0} (m : M A) (n : M B) → Safe I m → Safe I n → Safe I (m >> n)
  Safe-then m n h k = Safe-bind m (λ _. n) h (λ _. k)

  pub Safe-if :
      {A : Type 0} (b : Bool) (m n : M A)
      → (b ≡ true → Safe I m)
      → (b ≡ false → Safe I n)
      → Safe I (if b then m else n)
  Safe-if true m n h k = h refl
  Safe-if false m n h k = k refl

pub Safe-call : {I : Log → Type 0} → IsStable I → (k : Kernel) (c : Call) → Safe I (call k c)
unfolding call
Safe-call stable k c = record { run = λ s h. Finishes.returns (stable c s.log h) }

pub ruleset safe_rules = (Safe-pure, Safe-exit, Safe-gets, Safe-bind, Safe-then, Safe-if, Safe-call)
