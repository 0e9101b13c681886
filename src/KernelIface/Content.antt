-- ===== src/KernelIface/Content.antt =====
-- What read_file returns: the beginning of the file, put together from reads of any size.
use adaptive_liblitmus.Base.{
  ℕ, zero, suc, ◌+◌, ◌-◌, ◌<◌, ◌≤◌, ◌≡◌, refl, [], ◌∷◌, ◌++◌, arith, length, length-append, take,
  take-nil, take-append, ltb, some, Option, Bool-cases, inl, inr, ltb→le, ltb→lt,
}
use mathlib.Core.List.{append-nil, append_assoc}
use adaptive_liblitmus.Base.Int.{ℤ, pos}
use adaptive_liblitmus.Base.Chars.{Bytes}
use adaptive_liblitmus.Kernel.{
  Kernel, Call, OpenMode, Log, M, Outcome, State, ◌>>◌, pure, continue, call,
}
use adaptive_liblitmus.KernelIface.Files.{after_read, read_loop, read_file}

-- One read of a file of which `left l` is unread after the calls of `l`: it hands over some of
-- that, and nothing only at the end of the file.
pub record Hands (k : Kernel) (fd : ℤ) (left : Log → Bytes) (l : Log) (n : ℕ) : Type 0 where
  pub chunk : Bytes
  pub rest : Bytes
  pub handed : k.input l fd n ≡ some chunk
  pub split : left l ≡ chunk ++ rest
  pub fits : length chunk ≤ n
  pub after : left (Call.read_bytes fd n ∷ l) ≡ rest
  pub at_end : 0 < n → length chunk ≡ 0 → rest ≡ []

module _ (k : Kernel) (fd : ℤ) (left : Log → Bytes)
    (serves : (l : Log) (n : ℕ) → 0 < n → Hands k fd left l n) where
  after_read-content :
      (again : Bytes → M (Option Bytes)) (maxlen : ℕ) (buf : Bytes) (t : State) (chunk rest : Bytes)
      → length buf < maxlen
      → length chunk ≤ maxlen - length buf
      → (length chunk ≡ 0 → rest ≡ [])
      → left t.log ≡ rest
      → ((more : Bytes)
          → 0 < length more
          → length more ≤ maxlen - length buf
          → (again (buf ++ more) t).0
            ≡ Outcome.value
                (some ((buf ++ more) ++ take (maxlen - length (buf ++ more)) (left t.log))))
      → (after_read again buf (some chunk) t).0
        ≡ Outcome.value (some (buf ++ take (maxlen - length buf) (chunk ++ rest)))
  unfolding after_read
  after_read-content again maxlen buf t [] rest l f at_end e ih =
      rw (at_end refl, take-nil (maxlen - length buf), append-nil)
  after_read-content again maxlen buf t (c ∷ cs) rest l f at_end e ih =
      let go : maxlen - length (buf ++ (c ∷ cs)) ≡ maxlen - length buf - length (c ∷ cs) =
        omega (arith, length-append buf (c ∷ cs)) in
      rw (ih (c ∷ cs) (omega arith) f, take-append (c ∷ cs) rest (maxlen - length buf) f, go, e)
        (rw append_assoc)

  read_loop-content :
      (fuel maxlen : ℕ) (buf : Bytes) (s : State)
      → length buf ≤ maxlen
      → maxlen - length buf < fuel
      → (read_loop k fuel fd maxlen buf s).0
        ≡ Outcome.value (some (buf ++ take (maxlen - length buf) (left s.log)))
  unfolding read_loop
  read_loop-content zero maxlen buf s l h = absurd (omega arith)
  read_loop-content (suc fuel) maxlen buf s l h = elim (Bool-cases (ltb (length buf) maxlen)) [
    | inr full ↦
        let none_left : maxlen - length buf ≡ 0 = omega (arith, ltb→le (length buf) maxlen full) in
        rw (full, read_loop, none_left, append-nil)
    | inl more ↦
        let room : length buf < maxlen = ltb→lt _ _ more in
        let r : Hands k fd left s.log (maxlen - length buf) =
          serves s.log (maxlen - length buf) (omega arith) in
        let after : State = record s { log = Call.read_bytes fd (maxlen - length buf) ∷ s.log } in
        rw (more, read_loop, r.handed, r.split)
          (after_read-content (read_loop k fuel fd maxlen) maxlen buf after r.chunk r.rest room
            r.fits (r.at_end (omega arith)) r.after
            (λ new p q.
              read_loop-content fuel maxlen (buf ++ new) after
                (omega (arith, length-append buf new)) (omega (arith, length-append buf new))))
  ]

call-after :
    (k : Kernel) (c : Call) (r : Outcome (Option Bytes) × State) {o : Option Bytes}
    → r.0 ≡ Outcome.value o
    → (continue (λ got. call k c >> pure got) r).0 ≡ Outcome.value o
unfolding call
call-after k c (Outcome.value o, t) e = e
call-after k c (Outcome.exited x, t) e = cc
call-after k c (Outcome.fault, t) e = cc

-- A file of the kernel, whose content may change from one opening to the next: it can be opened for
-- reading at any time, under a descriptor, and is then served from its beginning, as it was when it
-- was opened, in pieces of any size.
pub record Shows (k : Kernel) (f : Bytes) (content : Log → Bytes) : Type 0 where
  pub fd : ℕ
  pub left : Log → Bytes
  pub opens : (l : Log) → k.answer l (Call.open_file f OpenMode.read_only) ≡ pos fd
  pub whole : (l : Log) → left (Call.open_file f OpenMode.read_only ∷ l) ≡ content l
  pub serves : (l : Log) (n : ℕ) → 0 < n → Hands k (pos fd) left l n

-- A file whose content does not change.
abbrev pub Holds : Kernel → Bytes → Bytes → Type 0
Holds k f content = Shows k f (λ l. content)

-- Of a file that the kernel shows, read_file returns the first `maxlen` bytes of what it holds when
-- it is opened, or all of them where it is shorter, whatever the sizes of the pieces.
pub read_file-content :
    (k : Kernel) (fname : Bytes) (content : Log → Bytes) (maxlen : ℕ) (s : State)
    → Shows k fname content
    → (read_file k fname maxlen s).0 ≡ Outcome.value (some (take maxlen (content s.log)))
unfolding read_file call
read_file-content k fname content maxlen s f =
    let all : maxlen - 0 ≡ maxlen = omega arith in
    let opened : State = record s { log = Call.open_file fname OpenMode.read_only ∷ s.log } in
    rw (f.opens s.log) (
      call-after k (Call.close_file (pos f.fd))
        (read_loop k (maxlen + 1) (pos f.fd) maxlen [] opened)
        (rw (all, f.whole s.log) at
          (read_loop-content k (pos f.fd) f.left f.serves (maxlen + 1) maxlen [] opened
            (omega arith) (omega arith))))
