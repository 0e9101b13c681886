-- ===== src/KernelIface/Reading.antt =====
-- read_file returns, whatever the sizes of the reads, with at most the bytes asked for, and leaves
-- no descriptor open; of a file it returns the beginning.
use adaptive_liblitmus.Base.{
  ℕ, zero, suc, ◌+◌, ◌-◌, ◌<◌, ◌≤◌, ◌≡◌, refl, ap, ◌∙◌, List, [], ◌∷◌, ◌++◌, arith, length,
  length-append, ltb, Option, none, some, Bool-cases, inl, inr,
}
use adaptive_liblitmus.Base.Int.{ℤ, pos, negsuc}
use adaptive_liblitmus.Base.Chars.{Bytes}
use adaptive_liblitmus.Kernel.{
  Kernel, Call, OpenMode, Log, M, Outcome, State, ◌>>◌, pure, continue, call,
}
use adaptive_liblitmus.Kernel.Descriptors.{open_fds, erase, OpensDocumented, erase_self}
use adaptive_liblitmus.KernelIface.Files.{read, after_read, read_loop, read_file}

-- read(2) hands over at most as many bytes as it was asked for.
abbrev pub ReadsBounded : Kernel → Type 0
ReadsBounded k = (l : Log) (fd : ℤ) (n : ℕ) (bs : Bytes) → k.input l fd n ≡ some bs → length bs ≤ n

abbrev AtMost : ℕ → Option Bytes → Type 0
AtMost n none = Unit {0}
AtMost n (some bs) = length bs ≤ n

-- The code returns at most `n` bytes, and the descriptors `fds` are open afterwards.
pub record Delivers (k : Kernel) (n : ℕ) (fds : List ℤ) (r : Outcome (Option Bytes) × State)
    : Type 0 where
  pub result : Option Bytes
  pub returns : r.0 ≡ Outcome.value result
  pub at_most : AtMost n result
  pub descriptors : open_fds k r.1.log ≡ fds

after_read-Delivers :
    (k : Kernel) (again : Bytes → M (Option Bytes)) (maxlen : ℕ) (buf : Bytes) (i : Option Bytes)
    (t : State)
    → length buf ≤ maxlen
    → AtMost (maxlen - length buf) i
    → ((more : Bytes)
        → 0 < length more
        → length more ≤ maxlen - length buf
        → Delivers k maxlen (open_fds k t.log) (again (buf ++ more) t))
    → Delivers k maxlen (open_fds k t.log) (after_read again buf i t)
unfolding after_read
after_read-Delivers k again maxlen buf none t l a h = record {
  result = none;
  returns = refl;
  at_most = tt;
  descriptors = refl;
}
after_read-Delivers k again maxlen buf (some []) t l a h = record {
  result = some buf;
  returns = refl;
  at_most = l;
  descriptors = refl;
}
after_read-Delivers k again maxlen buf (some (x ∷ xs)) t l a h = h (x ∷ xs) (omega arith) a

AtMost-of : (i : Option Bytes) (n : ℕ) → ((bs : Bytes) → i ≡ some bs → length bs ≤ n) → AtMost n i
AtMost-of none n h = tt
AtMost-of (some bs) n h = h bs refl

read_loop-Delivers :
    (k : Kernel)
    → ReadsBounded k
    → (fuel : ℕ) (fd : ℤ) (maxlen : ℕ) (buf : Bytes) (s : State) → length buf ≤ maxlen
    → maxlen - length buf < fuel
    → Delivers k maxlen (open_fds k s.log) (read_loop k fuel fd maxlen buf s)
unfolding read_loop
read_loop-Delivers k b zero fd maxlen buf s l h = absurd (omega arith)
read_loop-Delivers k b (suc fuel) fd maxlen buf s l h =
    elim (Bool-cases (ltb (length buf) maxlen)) [
      | inr full ↦
          rw (full, read_loop)
            (record { result = some buf; returns = refl; at_most = l; descriptors = refl })
      | inl more ↦
          rw (more, read_loop)
            (after_read-Delivers k (read_loop k fuel fd maxlen) maxlen buf
              (k.input s.log fd (maxlen - length buf)) (read k fd (maxlen - length buf) s).1 l
              (AtMost-of _ _ (b s.log fd (maxlen - length buf)))
              (λ new p q.
                read_loop-Delivers k b fuel fd maxlen (buf ++ new)
                  (read k fd (maxlen - length buf) s).1 (omega (arith, length-append buf new))
                  (omega (arith, length-append buf new))))
    ]

Delivers-then :
    (k : Kernel) (n : ℕ) {fds fds' : List ℤ} (r : Outcome (Option Bytes) × State) (fd : ℤ)
    → Delivers k n fds r
    → erase fd fds ≡ fds'
    → Delivers k n fds' (continue (λ got. call k (Call.close_file fd) >> pure got) r)
unfolding call
Delivers-then k n (Outcome.value o, t) fd d e = record {
  result = d.result;
  returns = d.returns;
  at_most = d.at_most;
  descriptors = ap (erase fd) d.descriptors ∙ e;
}
Delivers-then k n (Outcome.exited c, t) fd d e = cc d.returns
Delivers-then k n (Outcome.fault, t) fd d e = cc d.returns

-- With a kernel whose open answers a descriptor or -1, and whose reads hand over at most the bytes
-- asked for, read_file returns after finitely many reads of any size, with an error or with at
-- most `maxlen` bytes, and the descriptors that are open afterwards are those of before.
pub read_file-Delivers :
    (k : Kernel) (fname : Bytes) (maxlen : ℕ) (s : State)
    → OpensDocumented k
    → ReadsBounded k
    → Delivers k maxlen (open_fds k s.log) (read_file k fname maxlen s)
unfolding read_file call
read_file-Delivers k fname maxlen s opens b =
    by_answer (k.answer s.log (Call.open_file fname OpenMode.read_only)) refl
  where
    by_answer :
        (a : ℤ)
        → k.answer s.log (Call.open_file fname OpenMode.read_only) ≡ a
        → Delivers k maxlen (open_fds k s.log) (read_file k fname maxlen s)
    by_answer (pos fd) e =
        let opened : erase (pos fd) (open_fds k (Call.open_file fname OpenMode.read_only ∷ s.log))
            ≡ open_fds k s.log =
          rw e (erase_self (pos fd) (open_fds k s.log)) in
        rw e (
          Delivers-then k maxlen _ (pos fd)
            (read_loop-Delivers k b (maxlen + 1) (pos fd) maxlen [] _ (omega arith) (omega arith))
            opened)
    by_answer (negsuc zero) e =
        rw e (record { result = none; returns = refl; at_most = tt; descriptors = rw e })
    by_answer (negsuc (suc n)) e =
        absurd (omega (arith, rw e at (opens s.log fname OpenMode.read_only)))
