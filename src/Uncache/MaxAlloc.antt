-- ===== src/Uncache/MaxAlloc.antt =====
-- The largest allocation of bin/uncache.c comes to an end.
use adaptive_liblitmus.Base.{
  ℕ, zero, suc, ◌+◌, ◌*◌, ◌-◌, ◌%◌, ◌^◌, ◌<◌, ◌≡◌, refl, ap, inl, inr, Bool, true, false,
  Bool-cases, arith, ltb, if◌then◌else◌,
}
use adaptive_liblitmus.Base.Int.{ℤ, pos, negsuc}
use adaptive_liblitmus.Kernel.{
  Kernel, Call, OpenMode, Log, M, Outcome, State, ◌>>◌, pure, continue-value, call,
}
use adaptive_liblitmus.KernelIface.ControlPage.{to_size}
use adaptive_liblitmus.KernelIface.Files.{mmap}
use adaptive_liblitmus.Uncache.Data.{
  Machine, uncache_dev, map_many, unmap_many, max_rounds, do_max_alloc,
}

abbrev two_pow : ℕ → ℕ
two_pow zero = 1
two_pow (suc i) = 2 * two_pow i

-- A size that is a multiple of 2^64 when it has been doubled r times more.
record Vanishes (r size : ℕ) : Type 0 where
  times : ℕ
  is_product : size * two_pow r ≡ times * 2 ^ 64
  fits : size < 2 ^ 64

Vanishes-small :
    (r size q : ℕ) → size * two_pow (suc r) ≡ q * 2 ^ 64 → size * 2 * two_pow r ≡ q * 2 ^ 64
Vanishes-small r size q e = omega (arith, e)

Vanishes-wraps :
    (r size next q : ℕ)
    → next + 2 ^ 64 ≡ size * 2
    → size * two_pow (suc r) ≡ q * 2 ^ 64
    → next * two_pow r ≡ (q - two_pow r) * 2 ^ 64
Vanishes-wraps r size next q w e = omega (arith, e, ap (λ (t : ℕ). t * two_pow r) w)

Vanishes-double : (r size : ℕ) → Vanishes (suc r) size → Vanishes r (size * 2 % 2 ^ 64)
Vanishes-double r size v = elim (Bool-cases (ltb (size * 2) (2 ^ 64))) [
  | inl small ↦
      let same : size * 2 % 2 ^ 64 ≡ size * 2 = ground (arith, small) in
      record {
        times = v.times;
        is_product = rw same (Vanishes-small r size v.times v.is_product);
        fits = omega arith;
      }
  | inr big ↦
      let wraps : size * 2 % 2 ^ 64 + 2 ^ 64 ≡ size * 2 = ground (arith, big, v.fits) in
      record {
        times = v.times - two_pow r;
        is_product = Vanishes-wraps r size (size * 2 % 2 ^ 64) v.times wraps v.is_product;
        fits = omega arith;
      }
]

Vanishes-empty : (size : ℕ) → Vanishes 0 size → size ≡ 0
Vanishes-empty size v = omega (arith, v.is_product, v.fits)

Vanishes-word : (size : ℤ) → Vanishes 64 (to_size size)
Vanishes-word size = record { times = to_size size; is_product = refl; fits = below size }
  where
    below : (x : ℤ) → to_size x < 2 ^ 64
    below (pos n) = omega arith
    below (negsuc n) = omega arith

-- mmap refuses a length of 0.
abbrev pub RefusesEmpty : Kernel → Type 0
RefusesEmpty k = (l : Log) (fd : ℤ) → k.maps l 0 fd ≡ false

module _ (k : Kernel) {A : Type 0} (machine : Machine A) (page_size : ℤ)
    (refuses : RefusesEmpty k) where
  map_many-returns :
      (left : ℕ) (fd : ℤ) (size count : ℕ) (s : State)
      → (r : ℕ × Bool) × ((map_many k machine page_size left fd size count s).0 ≡ Outcome.value r)
  unfolding map_many mmap
  map_many-returns zero fd size count s = ((count, true), refl)
  map_many-returns (suc left) fd size count s = elim (Bool-cases (k.maps s.log size fd)) [
    | inl ok ↦ rw ok (map_many-returns left fd size (count + 1) _)
    | inr not_ok ↦ ((count, false), rw not_ok refl)
  ]

  map_many-empty :
      (left : ℕ) (fd : ℤ) (size : ℕ) (s : State)
      → size ≡ 0
      → (map_many k machine page_size (suc left) fd size 0 s).0 ≡ Outcome.value (0, false)
  unfolding map_many mmap
  map_many-empty left fd size s e = rw (e, refuses s.log fd) refl

  unmap_many-returns :
      (n size : ℕ) (s : State) → (unmap_many k machine page_size n size s).0 ≡ Outcome.value tt
  unfolding unmap_many call
  unmap_many-returns zero size s = refl
  unmap_many-returns (suc n) size s = unmap_many-returns n size _

  -- What follows the maps of a round.
  abbrev again : ℕ → ℤ → ℕ → ℕ × Bool → M (Unit {0})
  again rounds fd size r =
      unmap_many k machine page_size r.0 size
      >> (if r.1 then max_rounds k machine page_size rounds fd (size * 2 % 2 ^ 64) else pure tt)

  again-returns :
      (rounds : ℕ) (fd : ℤ) (size n : ℕ) (good : Bool) (s : State)
      → (good ≡ true
          → (t : State)
          → (max_rounds k machine page_size rounds fd (size * 2 % 2 ^ 64) t).0 ≡ Outcome.value tt)
      → (again rounds fd size (n, good) s).0 ≡ Outcome.value tt
  again-returns rounds fd size n good s more =
      continue-value
        (λ _.
          if good then max_rounds k machine page_size rounds fd (size * 2 % 2 ^ 64) else pure tt)
        (unmap_many k machine page_size n size s) (λ r. r.0 ≡ Outcome.value tt)
        (unmap_many-returns n size s)
        λ t. elim (Bool-cases good) [ inl y ↦ rw y (more y t) | inr n ↦ rw n refl ]

  max_rounds-ends :
      (r : ℕ) (fd : ℤ) (size : ℕ) (s : State)
      → Vanishes r size
      → (max_rounds k machine page_size (suc r) fd size s).0 ≡ Outcome.value tt
  unfolding max_rounds
  max_rounds-ends zero fd size s v =
      continue-value (again 0 fd size) (map_many k machine page_size 32_765 fd size 0 s)
        (λ t. t.0 ≡ Outcome.value tt) (map_many-empty 32_764 fd size s (Vanishes-empty size v))
        (λ t. again-returns 0 fd size 0 false t (λ n. absurd (ground (arith, n))))
  max_rounds-ends (suc r) fd size s v =
      let (x, e) = map_many-returns 32_765 fd size 0 s in
      continue-value (again (suc r) fd size) (map_many k machine page_size 32_765 fd size 0 s)
        (λ t. t.0 ≡ Outcome.value tt) e
        λ t.
          again-returns (suc r) fd size x.0 x.1 t
            (λ _ u. max_rounds-ends r fd (size * 2 % 2 ^ 64) u (Vanishes-double r size v))

  closes :
      (rounds : ℕ) (fd : ℤ) (size : ℕ) (s : State)
      → ((u : State) → (max_rounds k machine page_size rounds fd size u).0 ≡ Outcome.value tt)
      → ((max_rounds k machine page_size rounds fd size
            >> (call k (Call.close_file fd) >> pure (pos 0)))
          s).0
        ≡ Outcome.value (pos 0)
  unfolding call
  closes rounds fd size s h =
      continue-value (λ _. call k (Call.close_file fd) >> pure (pos 0))
        (max_rounds k machine page_size rounds fd size s) (λ r. r.0 ≡ Outcome.value (pos 0)) (h s)
        (λ t. refl)

  -- On a kernel whose mmap refuses an empty mapping, the largest allocation ends and returns 0,
  -- also where every other mapping succeeds: the size becomes 0 with the 64th doubling.
  pub do_max_alloc-ends :
      (s : State) → (do_max_alloc k machine page_size s).0 ≡ Outcome.value (pos 0)
  unfolding do_max_alloc call
  do_max_alloc-ends s =
      let opened : State = (call k (Call.open_file uncache_dev OpenMode.read_write) s).1 in
      let fd : ℤ = k.answer s.log (Call.open_file uncache_dev OpenMode.read_write) in
      closes 65 fd (to_size page_size) opened
        (λ u. max_rounds-ends 64 fd (to_size page_size) u (Vanishes-word page_size))
