-- ===== src/Lifecycle/Quiet.antt =====
-- Code that leaves an observation of the log as it is: one rule for each way to build code.
use adaptive_liblitmus.Base.{◌≡◌, ◌∙◌, Bool, true, false, if◌then◌else◌}
use adaptive_liblitmus.Kernel.{Kernel, Call, Log, M, Outcome, State, ◌>>=◌, continue, call}
use adaptive_liblitmus.Lifecycle.Events.{is_event, IsBlind}

module _ {B : Type 0} (obs : Log → B) where
  abbrev pub Keeps : {A : Type 0} → M A → Type 0
  Keeps m = (s : State) → obs (m s).1.log ≡ obs s.log

  Keeps-continue :
      {A C : Type 0} (f : A → M C) (r : Outcome A × State) {b : B}
      → obs r.1.log ≡ b
      → ((a : A) → Keeps (f a))
      → obs (continue f r).1.log ≡ b
  Keeps-continue f (Outcome.value a, t) e h = h a t ∙ e
  Keeps-continue f (Outcome.exited c, t) e h = e
  Keeps-continue f (Outcome.fault, t) e h = e

  pub Keeps-bind :
      {A C : Type 0} (m : M A) (f : A → M C) → Keeps m → ((a : A) → Keeps (f a)) → Keeps (m >>= f)
  Keeps-bind m f h k s = Keeps-continue f (m s) (h s) k

  pub Keeps-if :
      {A : Type 0} (b : Bool) (m n : M A) → Keeps m → Keeps n → Keeps (if b then m else n)
  Keeps-if true m n h h' = h
  Keeps-if false m n h h' = h'

  pub Keeps-call : (k : Kernel) (c : Call) → IsBlind obs → is_event c ≡ false → Keeps (call k c)
  unfolding call
  Keeps-call k c blind e s = blind c s.log e
