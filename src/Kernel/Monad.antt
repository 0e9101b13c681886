-- ===== src/Kernel/Monad.antt =====
-- Code that runs on a kernel: it changes the state of the thread, and ends with a value, by
-- exit(3), or in a fault such as an access through a bad pointer.
use adaptive_liblitmus.Base.{ℕ, ◌≡◌, [], ◌∷◌, if◌then◌else◌}
use adaptive_liblitmus.Base.Int.{ℤ, pos, minus_one, eqb_ℤ}
use adaptive_liblitmus.Kernel.Calls.{Call, Log, Kernel}

-- What the thread-local `ctrl_page` points at.
pub data Page : Type 0 where
  null : Page
  map_failed : Page
  mapped : Page

pub record State : Type 0 where
  pub log : Log
  pub ctrl_page : Page
  pub np_flag : ℕ  -- ctrl_page->sched.np.flag
  pub errno : ℤ

pub data Outcome (A : Type 0) : Type 0 where
  value : A → Outcome A
  exited : ℤ → Outcome A
  fault : Outcome A

abbrev pub M : Type 0 → Type 0
M A = State → Outcome A × State

abbrev pub pure : {A : Type 0} → A → M A
pure a s = (value a, s)

abbrev pub exit : {A : Type 0} → ℤ → M A
exit code s = (exited code, s)

abbrev pub crash : {A : Type 0} → M A
crash s = (fault, s)

abbrev pub continue : {A B : Type 0} → (A → M B) → Outcome A × State → Outcome B × State
continue f (value a, s) = f a s
continue f (exited c, s) = (exited c, s)
continue f (fault, s) = (fault, s)

infixl 5 ◌>>=◌ ◌>>◌
abbrev pub ◌>>=◌ : {A B : Type 0} → M A → (A → M B) → M B
◌>>=◌ m f s = continue f (m s)

abbrev pub ◌>>◌ : {A B : Type 0} → M A → M B → M B
m >> k = m >>= λ _. k

abbrev pub gets : {A : Type 0} → (State → A) → M A
gets f s = (value (f s), s)

abbrev pub modify : (State → State) → M (Unit {0})
modify f s = (value tt, f s)

abbrev pub record_call : Call → State → State
record_call c s = record s { log = c ∷ s.log }

-- The state of a thread that has called nothing yet.
abbrev pub start : State
start = record { log = []; ctrl_page = null; np_flag = 0; errno = pos 0 }

-- A call whose answer is an integer. One that fails, with -1, sets errno.
unfoldable pub call : Kernel → Call → M ℤ
call k c s = (
  value (k.answer s.log c),
  record (record_call c s) {
    errno = if eqb_ℤ (k.answer s.log c) minus_one then k.errno_of s.log c else s.errno;
  },
)

-- Of code that goes on with the value of a part, what holds is what holds of it after that value.
pub continue-value :
    {A B : Type 0} (f : A → M B) (r : Outcome A × State) {a : A} (P : Outcome B × State → Type 0)
    → r.0 ≡ value a
    → ((t : State) → P (f a t))
    → P (continue f r)
continue-value f (value x, t) {a} P e h = let same : x ≡ a = cc in rw same (h t)
continue-value f (exited c, t) P e h = absurd (cc)
continue-value f (fault, t) P e h = absurd (cc)

-- The same where something is known of the state that the part leaves.
pub continue-value_at :
    {A B : Type 0} (f : A → M B) (r : Outcome A × State) {a : A} (Q : State → Type 0)
    (P : Outcome B × State → Type 0)
    → r.0 ≡ value a
    → Q r.1
    → ((t : State) → Q t → P (f a t))
    → P (continue f r)
continue-value_at f (value x, t) {a} Q P e q h = let same : x ≡ a = cc in rw same (h t q)
continue-value_at f (exited c, t) Q P e q h = absurd (cc)
continue-value_at f (fault, t) Q P e q h = absurd (cc)
