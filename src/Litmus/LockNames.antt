-- ===== src/Litmus/LockNames.antt =====
-- The two lookups of locking protocols against the table and against each other; opening a lock
-- leaves no descriptor behind.
use adaptive_liblitmus.Base.{
  ◌≡◌, refl, sym, ◌⊎◌, inl, inr, List, [], ◌∷◌, All, Bool-cases, false, Option, if◌then◌else◌, ◌≢◌,
}
use mathlib.Core.Path.{subst}
use adaptive_liblitmus.Base.Int.{ℤ, pos, negsuc, minus_one, is_neg}
use adaptive_liblitmus.Base.Chars.{Bytes, streq, streq→eq}
use adaptive_liblitmus.Kernel.{Kernel, Call, OpenMode, Outcome, State}
use adaptive_liblitmus.Kernel.Descriptors.{open_fds, erase_self}
use adaptive_liblitmus.Litmus.Locks.{
  Protocol, protocol, id_of_name, lock_protocol_for_name, name_for_lock_protocol, litmus_open_lock,
}

-- The entry of a list that a search for a name has found.
pub data Entry (name : Bytes) (id : ℤ) : List Protocol → Type 0 where
  here : {p : Protocol} {ps : List Protocol} → p.name ≡ name → p.id ≡ id → Entry name id (p ∷ ps)
  there : {p : Protocol} {ps : List Protocol} → Entry name id ps → Entry name id (p ∷ ps)

id_of_name-Entry :
    (name : Bytes) (ps : List Protocol)
    → Entry name (id_of_name name ps) ps
      ⊎ ((id_of_name name ps ≡ minus_one) × All (λ p. streq name p.name ≡ false) ps)
unfolding id_of_name
id_of_name-Entry name [] = inr (refl, tt)
id_of_name-Entry name (p ∷ ps) = elim (Bool-cases (streq name p.name)) [
  | inl same ↦ rw (same, id_of_name) (inl (here (sym (streq→eq name p.name same)) refl))
  | inr other ↦ rw (other, id_of_name) (later (id_of_name-Entry name ps))
]
  where
    later :
        Entry name (id_of_name name ps) ps
          ⊎ ((id_of_name name ps ≡ minus_one) × All (λ q. streq name q.name ≡ false) ps)
        → Entry name (id_of_name name ps) (p ∷ ps)
          ⊎ ((id_of_name name ps ≡ minus_one)
              × ((false ≡ false) × All (λ q. streq name q.name ≡ false) ps))
    later (inl e) = inl (there e)
    later (inr (e, none)) = inr (e, (refl, none))

-- A name that lock_protocol_for_name looks up stands in the table, beside the id that is returned;
-- or -1 is returned and the name is none of the table's.
pub lock_protocol_for_name-Entry :
    (name : Bytes)
    → Entry name (lock_protocol_for_name name) protocol
      ⊎ ((lock_protocol_for_name name ≡ minus_one) × All (λ p. streq name p.name ≡ false) protocol)
unfolding lock_protocol_for_name
lock_protocol_for_name-Entry name = id_of_name-Entry name protocol

-- Each id of the table has a name under which it is found again.
ids_return : All (λ p. lock_protocol_for_name (name_for_lock_protocol p.id) ≡ p.id) protocol
unfolding lock_protocol_for_name name_for_lock_protocol streq
ids_return = (refl, (refl, (refl, (refl, (refl, (refl, (refl, (refl, tt))))))))

Entry-All :
    {name : Bytes} {id : ℤ} {ps : List Protocol} (P : ℤ → Type 0)
    → Entry name id ps
    → All (λ p. P p.id) ps
    → P id
Entry-All P (here n e) a = subst P e a.0
Entry-All P (there e) a = Entry-All P e a.1

-- The name that name_for_lock_protocol gives for the id of a known name, which may be another
-- spelling, has the same id again.
pub lock_protocol_for_name-round :
    (name : Bytes)
    → lock_protocol_for_name name ≢ minus_one
    → lock_protocol_for_name (name_for_lock_protocol (lock_protocol_for_name name))
      ≡ lock_protocol_for_name name
lock_protocol_for_name-round name known = elim (lock_protocol_for_name-Entry name) [
  | inl e ↦ Entry-All (λ id. lock_protocol_for_name (name_for_lock_protocol id) ≡ id) e ids_return
  | inr (unknown, none) ↦ absurd (known unknown)
]

-- Whatever open and od_open answer, litmus_open_lock returns with the descriptors open that were
-- open before: it returns -1 if the file cannot be opened, and the answer of od_open otherwise.
pub litmus_open_lock-descriptors :
    (k : Kernel) (protocol_id lock_id : ℤ) (name_space : Bytes) (config : Option ℤ) (s : State)
    → let c = Call.open_file name_space OpenMode.create in
      let fd = k.answer s.log c in
      let r = litmus_open_lock k protocol_id lock_id name_space config s in
      (open_fds k r.1.log ≡ open_fds k s.log)
      × (r.0
          ≡ Outcome.value (
              if is_neg fd
              then minus_one
              else k.answer (c ∷ s.log) (Call.od_open fd protocol_id lock_id config)))
unfolding litmus_open_lock
litmus_open_lock-descriptors k protocol_id lock_id name_space config s =
    by_answer (k.answer s.log (Call.open_file name_space OpenMode.create)) refl
  where
    by_answer :
        (a : ℤ)
        → k.answer s.log (Call.open_file name_space OpenMode.create) ≡ a
        → (open_fds k (litmus_open_lock k protocol_id lock_id name_space config s).1.log
            ≡ open_fds k s.log)
          × ((litmus_open_lock k protocol_id lock_id name_space config s).0
              ≡ Outcome.value (
                  if is_neg (k.answer s.log (Call.open_file name_space OpenMode.create))
                  then minus_one
                  else k.answer (Call.open_file name_space OpenMode.create ∷ s.log) (
                      Call.od_open
                        (k.answer s.log (Call.open_file name_space OpenMode.create))
                        protocol_id
                        lock_id
                        config)))
    by_answer (pos fd) e = rw e (rw e (erase_self (pos fd) (open_fds k s.log)), refl)
    by_answer (negsuc n) e = rw e (rw e refl, refl)
