-- ===== src/Kernel/Descriptors.antt =====
-- The file descriptors that the calls of a log have opened and not closed again.
use adaptive_liblitmus.Base.{◌≡◌, List, [], ◌∷◌, arith, if◌then◌else◌}
use adaptive_liblitmus.Base.Int.{ℤ, minus_one, eqb_ℤ, eqb_ℤ_refl, is_neg, ◌≤ℤ◌}
use adaptive_liblitmus.Base.Chars.{Bytes}
use adaptive_liblitmus.Kernel.Calls.{Kernel, Call, OpenMode, Log}

abbrev pub erase : ℤ → List ℤ → List ℤ
erase fd [] = []
erase fd (x ∷ xs) = if eqb_ℤ x fd then xs else x ∷ erase fd xs

-- The newest first. An open that fails, with a negative answer, opens nothing.
abbrev pub open_fds : Kernel → Log → List ℤ
open_fds k [] = []
open_fds k (Call.open_file f m ∷ l) =
    if is_neg (k.answer l (Call.open_file f m))
    then open_fds k l
    else k.answer l (Call.open_file f m) ∷ open_fds k l
open_fds k (Call.close_file fd ∷ l) = erase fd (open_fds k l)
open_fds k (c ∷ l) = open_fds k l

-- open(2) answers with a descriptor or with -1.
abbrev pub OpensDocumented : Kernel → Type 0
OpensDocumented k =
    (l : Log) (f : Bytes) (m : OpenMode) → minus_one ≤ℤ k.answer l (Call.open_file f m)

pub erase_self : (fd : ℤ) (xs : List ℤ) → erase fd (fd ∷ xs) ≡ xs
erase_self fd xs = ground (arith, eqb_ℤ_refl fd)
