-- ===== src/Lifecycle/Runs.antt =====
-- Code that keeps to the life cycle, from one phase to those of a postcondition.
use adaptive_liblitmus.Base.{◌≡◌, refl, ◌∙◌, Bool, true, false, some, if◌then◌else◌}
use adaptive_liblitmus.Base.Int.{ℤ}
use adaptive_liblitmus.Kernel.{Kernel, Call, M, Outcome, State, ◌>>=◌, pure, exit, continue, call}
use adaptive_liblitmus.Lifecycle.Quiet.{Keeps}
use adaptive_liblitmus.Lifecycle.Phase.{Phase, is_step, advance, phase_of}

module _ (k : Kernel) where
  -- Code that has ended in a phase, with a value that Q allows there, or stopped in some phase.
  pub data Ends {A : Type 0} (Q : A → Phase → Type 0) : Outcome A × State → Type 0 where
    ends :
        {a : A} {t : State} {q : Phase}
        → phase_of k t.log ≡ some q
        → Q a q
        → Ends Q (Outcome.value a, t)
    exits :
        {c : ℤ} {t : State} {q : Phase} → phase_of k t.log ≡ some q → Ends Q (Outcome.exited c, t)
    faults : {t : State} {q : Phase} → phase_of k t.log ≡ some q → Ends Q (Outcome.fault, t)

  abbrev pub Runs : {A : Type 0} → Phase → M A → (A → Phase → Type 0) → Type 0
  Runs p m Q = (s : State) → phase_of k s.log ≡ some p → Ends Q (m s)

  Ends-continue :
      {A B : Type 0} {Q : A → Phase → Type 0} (R : B → Phase → Type 0) (f : A → M B)
      {r : Outcome A × State}
      → Ends Q r
      → ((a : A) (q : Phase) → Q a q → Runs q (f a) R)
      → Ends R (continue f r)
  Ends-continue R f (ends e h) next = next _ _ h _ e
  Ends-continue R f (exits e) next = exits e
  Ends-continue R f (faults e) next = faults e

  pub Runs-bind :
      {A B : Type 0} {p : Phase} (Q : A → Phase → Type 0) {R : B → Phase → Type 0} (m : M A)
      (f : A → M B)
      → Runs p m Q
      → ((a : A) (q : Phase) → Q a q → Runs q (f a) R)
      → Runs p (m >>= f) R
  Runs-bind Q {R} m f h next s e = Ends-continue R f (h s e) next

  -- Quiet code, before code that goes on in the same phase.
  pub Runs-after :
      {A B : Type 0} {p : Phase} {R : B → Phase → Type 0} (m : M A) (f : A → M B)
      → Keeps (phase_of k) m
      → ((a : A) → Runs p (f a) R)
      → Runs p (m >>= f) R
  Runs-after {A = A} {p = p} {R = R} m f h next s e = after (m s) (h s ∙ e)
    where
      after : (r : Outcome A × State) → phase_of k r.1.log ≡ some p → Ends R (continue f r)
      after (Outcome.value a, t) e' = next a t e'
      after (Outcome.exited c, t) e' = exits e'
      after (Outcome.fault, t) e' = faults e'

  -- An event, before code that goes on in the phase to which its answer leads.
  pub Runs-event :
      {B : Type 0} {p : Phase} {R : B → Phase → Type 0} (c : Call) (f : ℤ → M B)
      → is_step c ≡ true
      → ((a : ℤ) → (q : Phase) × (advance a c p ≡ some q) × Runs q (f a) R)
      → Runs p (call k c >>= f) R
  unfolding call
  Runs-event c f e next s h =
      let (q, moves, rest) = next (k.answer s.log c) in rest _ (rw (e, h) moves)

  pub Runs-if :
      {A : Type 0} {p : Phase} {Q : A → Phase → Type 0} (b : Bool) (m n : M A)
      → (b ≡ true → Runs p m Q)
      → (b ≡ false → Runs p n Q)
      → Runs p (if b then m else n) Q
  Runs-if true m n h h' = h refl
  Runs-if false m n h h' = h' refl

  -- An event at the end.
  pub Runs-call :
      {p : Phase} {Q : ℤ → Phase → Type 0} (c : Call)
      → is_step c ≡ true
      → ((a : ℤ) → (q : Phase) × (advance a c p ≡ some q) × Q a q)
      → Runs p (call k c) Q
  unfolding call
  Runs-call c e next s h =
      let (q, moves, holds) = next (k.answer s.log c) in ends (rw (e, h) moves) holds

  pub Runs-pure :
      {A : Type 0} {p : Phase} {Q : A → Phase → Type 0} (a : A) → Q a p → Runs p (pure a) Q
  Runs-pure a h s e = ends e h

  pub Runs-exit :
      {A : Type 0} {p : Phase} {Q : A → Phase → Type 0} (code : ℤ) → Runs p (exit code) Q
  Runs-exit code s e = exits e

  pub Runs-quiet :
      {A : Type 0} {p : Phase} (m : M A) → Keeps (phase_of k) m → Runs p m (λ _ q. q ≡ p)
  Runs-quiet {A = A} {p = p} m h s e = quiet (m s) (h s ∙ e)
    where
      quiet : (r : Outcome A × State) → phase_of k r.1.log ≡ some p → Ends (λ _ q. q ≡ p) r
      quiet (Outcome.value a, t) e' = ends e' refl
      quiet (Outcome.exited c, t) e' = exits e'
      quiet (Outcome.fault, t) e' = faults e'
