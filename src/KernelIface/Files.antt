-- ===== src/KernelIface/Files.antt =====
-- map_file, read_file and read_litmus_stats.
use adaptive_liblitmus.Base.{
  ℕ, zero, suc, ◌+◌, ◌-◌, [], ◌∷◌, ◌++◌, length, ltb, Option, none, some, if◌then◌else◌,
}
use adaptive_liblitmus.Base.Int.{ℤ, pos, minus_one, eqb_ℤ, is_neg}
use adaptive_liblitmus.Base.Chars.{Bytes}
use adaptive_liblitmus.Kernel.{
  Kernel, Call, OpenMode, M, Page, null, mapped, map_failed, ◌>>=◌, ◌>>◌, pure, gets, modify, crash,
  call, record_call,
}

-- mmap(NULL, size, PROT_READ | PROT_WRITE, MAP_PRIVATE, fd, 0)
unfoldable pub mmap : Kernel → ℕ → ℤ → M Page
mmap k size fd = do
  ok ← gets (λ s. k.maps s.log size fd)
  modify (record_call (Call.map_memory size fd))
  pure (if ok then mapped else map_failed)

-- The error and what is stored in *addr, which stays as it was where the file cannot be opened.
unfoldable pub map_file : Kernel → Bytes → Page → ℕ → M (ℤ × Page)
unfolding call mmap
map_file k filename addr zero = pure (pos 0, null)
map_file k filename addr (suc n) = do
  fd ← call k (Call.open_file filename OpenMode.read_write)
  if is_neg fd then pure (fd, addr) else (do
    page ← mmap k (suc n) fd
    call k (Call.close_file fd)
    pure ((elim page [ map_failed ↦ minus_one | _ ↦ pos 0 ]), page))

-- read(fd, buf, count): the bytes stored in the buffer, or `none` for -1, which sets errno.
unfoldable pub read : Kernel → ℤ → ℕ → M (Option Bytes)
read k fd count = do
  got ← gets (λ s. k.input s.log fd count)
  failure ← gets (λ s. k.errno_of s.log (Call.read_bytes fd count))
  modify (record_call (Call.read_bytes fd count))
  modify (λ s. record s { errno = elim got [ none ↦ failure | some _ ↦ s.errno ] })
  pure got

-- What the loop of read_file does with the result of a read: end with an error, end at the end of
-- the file, or go on with the longer buffer.
unfoldable pub after_read : (Bytes → M (Option Bytes)) → Bytes → Option Bytes → M (Option Bytes)
after_read again buf none = pure none
after_read again buf (some []) = pure (some buf)
after_read again buf (some (b ∷ bs)) = again (buf ++ (b ∷ bs))

-- The loop of read_file: `buf` holds what was got so far.
unfoldable pub read_loop : Kernel → ℕ → ℤ → ℕ → Bytes → M (Option Bytes)
unfolding read after_read
read_loop k zero fd maxlen buf = crash
read_loop k (suc fuel) fd maxlen buf =
    let again = read_loop k fuel fd maxlen in
    let more = read k fd (maxlen - length buf) >>= after_read again buf in
    if ltb (length buf) maxlen then more else pure (some buf)

-- The bytes read, as many as the function returns, or `none` for its -1.
unfoldable pub read_file : Kernel → Bytes → ℕ → M (Option Bytes)
unfolding call read_loop
read_file k fname maxlen = do
  fd ← call k (Call.open_file fname OpenMode.read_only)
  if eqb_ℤ fd minus_one
      then pure none
      else (do got ← read_loop k (maxlen + 1) fd maxlen []; call k (Call.close_file fd); pure got)
