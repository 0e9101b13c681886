-- ===== src/Uncache/DataLaws.antt =====
-- The data test passes on memory that works.
use adaptive_liblitmus.Base.{ℕ, zero, suc, ◌==◌, ◌≡◌, List, [], ◌∷◌, true, refl, arith}
use adaptive_liblitmus.Base.Int.{pos}
use adaptive_liblitmus.Uncache.Data.{
  Memory, touch_pages, pages_hold, linear_write, linear_read, hammer_write, hammer_read, test,
}

-- A load finds what was stored.
abbrev pub Works : {A : Type 0} → Memory A → Type 0
Works {A} mem = (v : ℕ) (m : A) → mem.load (mem.store v m) ≡ v

module _ {A : Type 0} (mem : Memory A) (works : Works mem) where
  hammer_write-kept :
      (val nr : ℕ) (m : A) → mem.load m ≡ val → mem.load (hammer_write mem val nr m) ≡ val
  unfolding hammer_write
  hammer_write-kept val zero m h = h
  hammer_write-kept val (suc nr) m h = hammer_write-kept val nr (mem.store val m) (works val m)

  -- One write or more leaves the value in the memory.
  hammer_write-load : (val nr : ℕ) (m : A) → mem.load (hammer_write mem val (suc nr) m) ≡ val
  unfolding hammer_write
  hammer_write-load val nr m = hammer_write-kept val nr (mem.store val m) (works val m)

  hammer_read-same : (val nr : ℕ) (m : A) → mem.load m ≡ val → hammer_read mem val nr m ≡ pos 0
  unfolding hammer_read
  hammer_read-same val zero m h = refl
  hammer_read-same val (suc nr) m h =
      let same : (mem.load m == val) ≡ true = ground arith in
      rw (same, hammer_read) (hammer_read-same val nr m h)

  -- On memory in which a load finds what was stored, the test returns 0 for any number of trials.
  pub test_passes : (trials : ℕ) (m : A) → test mem trials m ≡ pos 0
  unfolding test
  test_passes zero m = refl
  test_passes (suc trials) m =
      rw
        (hammer_read-same 0x55 10_000 (hammer_write mem 0x55 10_000 m)
          (hammer_write-load 0x55 9_999 m))
        (test_passes trials (hammer_write mem 0x55 10_000 m))

  touch_pages-hold : (val : ℕ) (ps : List A) → pages_hold mem val (touch_pages mem val ps) ≡ true
  unfolding touch_pages pages_hold
  touch_pages-hold val [] = refl
  touch_pages-hold val (p ∷ ps) = ground (arith, works val p, touch_pages-hold val ps)

  linear_write-hold :
      (val times : ℕ) (ps : List A)
      → pages_hold mem val ps ≡ true
      → pages_hold mem val (linear_write mem val times ps) ≡ true
  unfolding linear_write
  linear_write-hold val zero ps h = h
  linear_write-hold val (suc times) ps h =
      linear_write-hold val times (touch_pages mem val ps) (touch_pages-hold val ps)

  linear_read-hold :
      (val times : ℕ) (ps : List A)
      → pages_hold mem val ps ≡ true
      → linear_read mem val times ps ≡ pos 0
  unfolding linear_read
  linear_read-hold val zero ps h = refl
  linear_read-hold val (suc times) ps h = rw (h, linear_read) (linear_read-hold val times ps h)

  -- On memory in which a load finds what was stored, linear_read finds what a linear_write of one
  -- round or more has stored in the first bytes of any number of pages, as often as it looks.
  pub linear_read-linear_write :
      (val n m : ℕ) (ps : List A) → linear_read mem val m (linear_write mem val (suc n) ps) ≡ pos 0
  unfolding linear_write
  linear_read-linear_write val n m ps =
      linear_read-hold val m (linear_write mem val n (touch_pages mem val ps))
        (linear_write-hold val n (touch_pages mem val ps) (touch_pages-hold val ps))
