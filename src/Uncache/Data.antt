-- ===== src/Uncache/Data.antt =====
-- The tests of bin/uncache.c: hammering at a page, comparing cached and uncached pages, and mapping
-- as many pages as possible.
use adaptive_liblitmus.Base.{
  ℕ, zero, suc, ◌+◌, ◌*◌, ◌%◌, ◌^◌, ◌==◌, Bool, true, false, ◌&&◌, List, [], ◌∷◌, if◌then◌else◌,
}
use adaptive_liblitmus.Base.Int.{ℤ, pos, minus_one, is_zero}
use adaptive_liblitmus.Base.Chars.{Bytes, codes}
use adaptive_liblitmus.Kernel.{
  Kernel, Call, Log, OpenMode, M, Page, map_failed, ◌>>=◌, ◌>>◌, pure, gets, modify, exit, crash,
  call, record_call,
}
use adaptive_liblitmus.KernelIface.ControlPage.{to_size}
use adaptive_liblitmus.KernelIface.Files.{mmap}
use adaptive_liblitmus.Uncache.Timespec.{Timespec, timespec_sub, timespec_to_us}

-- What the mapped memory does with a store to and a load of its first byte.
pub record Memory (A : Type 0) : Type 0 where
  pub store : ℕ → A → A
  pub load : A → ℕ

module _ {A : Type 0} (mem : Memory A) where
  -- A store to the first byte of every page.
  unfoldable pub touch_pages : ℕ → List A → List A
  touch_pages val [] = []
  touch_pages val (p ∷ ps) = mem.store val p ∷ touch_pages val ps

  -- `times` rounds of stores; the function is called with as many as the pages have bytes.
  unfoldable pub linear_write : ℕ → ℕ → List A → List A
  unfolding touch_pages
  linear_write val zero pages = pages
  linear_write val (suc times) pages = linear_write val times (touch_pages val pages)

  -- Whether the first byte of every page is the value.
  unfoldable pub pages_hold : ℕ → List A → Bool
  pages_hold val [] = true
  pages_hold val (p ∷ ps) = mem.load p == val && pages_hold val ps

  unfoldable pub linear_read : ℕ → ℕ → List A → ℤ
  unfolding pages_hold
  linear_read val zero pages = pos 0
  linear_read val (suc times) pages =
      let rest = linear_read val times pages in if pages_hold val pages then rest else minus_one

  unfoldable pub hammer_write : ℕ → ℕ → A → A
  hammer_write val zero data_ = data_
  hammer_write val (suc nr) data_ = hammer_write val nr (mem.store val data_)

  unfoldable pub hammer_read : ℕ → ℕ → A → ℤ
  hammer_read val zero data_ = pos 0
  hammer_read val (suc nr) data_ =
      let rest = hammer_read val nr data_ in if mem.load data_ == val then rest else minus_one

  -- The loop over the trials; hammer_write always returns 0.
  unfoldable pub test : ℕ → A → ℤ
  test zero data_ = pos 0
  test (suc trials) data_ =
      let written = hammer_write 0x55 10_000 data_ in
      let rest = test trials written in
      if is_zero (hammer_read 0x55 10_000 written) then rest else minus_one

abbrev pub uncache_dev : Bytes
uncache_dev = codes "/dev/litmus/uncache"

-- What a mapping holds when it is made, and the thread's clock.
pub record Machine (A : Type 0) : Type 0 where
  pub memory : Memory A
  pub fresh : A
  pub thread_time : Log → Timespec

module _ {A : Type 0} (k : Kernel) (machine : Machine A) (page_size : ℤ) where
  unfoldable pub clock_gettime : M Timespec
  clock_gettime = do
    now ← gets (λ s. machine.thread_time s.log)
    modify (record_call Call.read_clock)
    pure now

  -- The 16 pages, of the device or anonymous.
  unfoldable pub map_pages : Bool → ℕ → M Page
  unfolding call mmap
  map_pages do_uncache size =
      if do_uncache
      then (do
        fd ← call k (Call.open_file uncache_dev OpenMode.read_write)
        page ← mmap k size fd
        call k (Call.close_file fd)
        pure page)
      else mmap k size minus_one

  -- From the first reading of the clock on, with the result and the time.
  unfoldable pub timed_test : ℕ → M (ℤ × ℤ)
  unfolding clock_gettime timespec_sub timespec_to_us call
  timed_test size = do
    start ← clock_gettime
    if is_zero (test machine.memory 1000 machine.fresh)
        then (do
          end ← clock_gettime
          call k (Call.unmap_memory size)
          pure (pos 0, timespec_to_us (timespec_sub end start)))
        else (call k (Call.unmap_memory size) >> pure (minus_one, pos 0))

  -- The result, and what is stored in *time where it is 0. SCHED_FIFO is 1.
  unfoldable pub do_data : Bool → M (ℤ × ℤ)
  unfolding map_pages call
  do_data do_uncache = do
    call k Call.lock_memory
    page ← map_pages do_uncache (to_size page_size * 16 % 2 ^ 64)
    elim page [
      | map_failed ↦ pure (minus_one, pos 0)
      | _ ↦ (do
        me ← call k Call.get_pid
        call k (Call.set_scheduler me 1)
        timed_test (to_size page_size * 16 % 2 ^ 64))
    ]

  -- The ratio is a quotient of doubles, which `is_small` compares with 1.3.
  unfoldable pub do_data_compare : (ℤ → ℤ → Bool) → M ℤ
  unfolding do_data
  do_data_compare is_small = do
    (ret, cache_time) ← do_data false
    if is_zero ret
        then (do
          (ret', uncache_time) ← do_data true
          pure (
              if is_zero ret'
              then (if is_small uncache_time cache_time then minus_one else pos 0)
              else ret'))
        else pure ret

  -- One round of do_max_alloc's loop of maps, with `left` of them to go: how many were made, and
  -- whether all were.
  unfoldable pub map_many : ℕ → ℤ → ℕ → ℕ → M (ℕ × Bool)
  unfolding mmap
  map_many zero fd size count = pure (count, true)
  map_many (suc left) fd size count = do
    page ← mmap k size fd
    elim page [ map_failed ↦ pure (count, false) | _ ↦ map_many left fd size (count + 1) ]

  unfoldable pub unmap_many : ℕ → ℕ → M (Unit {0})
  unfolding call
  unmap_many zero size = pure tt
  unmap_many (suc n) size = call k (Call.unmap_memory size) >> unmap_many n size

  -- The `do` loop, whose size becomes 0, which mmap refuses, when it has been doubled 64 times.
  unfoldable pub max_rounds : ℕ → ℤ → ℕ → M (Unit {0})
  unfolding map_many unmap_many
  max_rounds zero fd size = crash
  max_rounds (suc rounds) fd size = do
    (count, good) ← map_many 32_765 fd size 0
    unmap_many count size
    if good then max_rounds rounds fd (size * 2 % 2 ^ 64) else pure tt

  -- With a table for the mappings, which calloc has made.
  unfoldable pub do_max_alloc : M ℤ
  unfolding max_rounds call
  do_max_alloc = do
    fd ← call k (Call.open_file uncache_dev OpenMode.read_write)
    max_rounds 65 fd (to_size page_size)
    call k (Call.close_file fd)
    pure (pos 0)

pub data Test : Type 0 where
  uncache cache compare max_alloc : Test

-- The last option wins; an unknown one exits.
unfoldable pub choose : List ℕ → Test → M Test
choose [] t = pure t
choose (c ∷ cs) t =
    if c == b'c'
    then choose cs Test.cache
    else if c == b'u'
    then choose cs Test.uncache
    else if c == b'x'
    then choose cs Test.compare
    else if c == b'a'
    then choose cs Test.max_alloc
    else exit minus_one

unfoldable pub uncache_main : {A : Type 0} → Kernel → Machine A → (ℤ → ℤ → Bool) → List ℕ → M ℤ
unfolding choose do_data do_data_compare do_max_alloc call
uncache_main k machine is_small opts = do
  page_size ← call k Call.page_size
  t ← choose opts Test.uncache
  elim t [
    | uncache ↦ (do r ← do_data k machine page_size true; pure r.0)
    | cache ↦ (do r ← do_data k machine page_size false; pure r.0)
    | compare ↦ do_data_compare k machine page_size is_small
    | max_alloc ↦ do_max_alloc k machine page_size
  ]
