-- ===== src/Tools/Params.antt =====
-- Which task parameters the calls of a log have set.
use adaptive_liblitmus.Base.{
  ◌≡◌, refl, sym, ◌⊎◌, inl, inr, Bool, true, false, List, [], ◌∷◌, arith, if◌then◌else◌,
}
use adaptive_liblitmus.Base.Int.{ℤ}
use adaptive_liblitmus.Kernel.{Kernel, RtTask, Call, Log, M, Outcome, State, ◌>>=◌, continue, call}
use adaptive_liblitmus.Syscalls.{set_rt_task_param}
use adaptive_liblitmus.Litmus.Mode.{task_mode}
use adaptive_liblitmus.Lifecycle.Events.{IsBlind}
use adaptive_liblitmus.Lifecycle.Quiet.{Keeps}

-- The parameters that were set, the newest first.
abbrev pub params : Log → List RtTask
params [] = []
params (Call.set_rt_task_param pid p ∷ l) = p ∷ params l
params (c ∷ l) = params l

pub params-IsBlind : IsBlind params
params-IsBlind (Call.set_rt_task_param pid p) l e = cc e
params-IsBlind c l e = refl

-- Code that sets parameters at most once, and then such that satisfy P.
abbrev pub Adds : {A : Type 0} → (RtTask → Type 0) → M A → Type 0
Adds P m =
    (s : State)
    → (params (m s).1.log ≡ params s.log)
      ⊎ ((p : RtTask) × (params (m s).1.log ≡ p ∷ params s.log) × P p)

pub Adds-of_Keeps : {A : Type 0} (P : RtTask → Type 0) (m : M A) → Keeps params m → Adds P m
Adds-of_Keeps P m h s = inl (h s)

Adds-continue :
    {A B : Type 0} (P : RtTask → Type 0) (f : A → M B) (r : Outcome A × State) {ps : List RtTask}
    → params r.1.log ≡ ps
    → ((a : A) → Adds P (f a))
    → (params (continue f r).1.log ≡ ps)
      ⊎ ((p : RtTask) × (params (continue f r).1.log ≡ p ∷ ps) × P p)
Adds-continue P f (Outcome.value a, t) e h = rw (sym e) (h a t)
Adds-continue P f (Outcome.exited c, t) e h = inl e
Adds-continue P f (Outcome.fault, t) e h = inl e

-- First code that sets none, then code that may.
pub Adds-bind :
    {A B : Type 0} (P : RtTask → Type 0) (m : M A) (f : A → M B)
    → Keeps params m
    → ((a : A) → Adds P (f a))
    → Adds P (m >>= f)
Adds-bind P m f h k s = Adds-continue P f (m s) (h s) k

-- Setting parameters, and then code that sets none.
pub Adds-set :
    {A : Type 0} (P : RtTask → Type 0) (k : Kernel) (pid : ℤ) (p : RtTask) (f : ℤ → M A)
    → P p
    → ((a : ℤ) → Keeps params (f a))
    → Adds P (set_rt_task_param k pid p >>= f)
unfolding set_rt_task_param call
Adds-set P k pid p f h h' s =
    inr (p, h' (k.answer s.log (Call.set_rt_task_param pid p)) (set_rt_task_param k pid p s).1, h)

-- A test whose failure is known where the code goes on.
pub if-Adds :
    {A : Type 0} (P : RtTask → Type 0) (b : Bool) (m n : M A)
    → Keeps params m
    → (b ≡ false → Adds P n)
    → Adds P (if b then m else n)
if-Adds P true m n h h' = λ s. inl (h s)
if-Adds P false m n h h' = h' refl

pub task_mode-Keeps : (k : Kernel) (mode : ℤ) → Keeps params (task_mode k mode)
unfolding task_mode call
task_mode-Keeps k mode s = ground arith
