-- ===== src/KernelIface/NonPreempt.antt =====
-- Non-preemptive sections: the flag counts how deep a thread is nested, the thread gives up the
-- CPU only outside, and what happens at the first use, when the page is not mapped yet.
use adaptive_liblitmus.Base.{
  ℕ, suc, ◌+◌, ◌-◌, ◌%◌, ◌^◌, ◌<◌, ◌≡◌, refl, true, false, List, [], ◌∷◌, arith, Option, none, some,
  if◌then◌else◌,
}
use native.Mathlib.Nat.{mod-eq_of_lt, one-le-pow}
use adaptive_liblitmus.Base.Int.{pos}
use adaptive_liblitmus.Kernel.{
  Kernel, Call, OpenMode, Log, M, Outcome, null, mapped, map_failed, State, ◌>>◌, pure, continue,
  call,
}
use adaptive_liblitmus.KernelIface.Files.{mmap, map_file}
use adaptive_liblitmus.KernelIface.ControlPage.{ctrl_device, init_kernel_iface, enter_np, exit_np}

-- What a thread does with the two functions, in order.
pub data Bracket : Type 0 where
  enter leave : Bracket

pub run_brackets : Kernel → List Bracket → M (Unit {0})
run_brackets k [] = pure tt
run_brackets k (enter ∷ bs) = enter_np k >> run_brackets k bs
run_brackets k (leave ∷ bs) = exit_np k >> run_brackets k bs

-- The nesting depth after them; leaving where nothing was entered changes nothing.
pub depth : List Bracket → ℕ → ℕ
depth [] d = d
depth (enter ∷ bs) d = depth bs (d + 1)
depth (leave ∷ bs) d = depth bs (d - 1)

-- No prefix nests deeper than the flag can count.
abbrev pub Fits : ℕ → List Bracket → ℕ → Type 0
Fits bound [] d = d < bound
Fits bound (enter ∷ bs) d = (d < bound) × Fits bound bs (d + 1)
Fits bound (leave ∷ bs) d = (d < bound) × Fits bound bs (d - 1)

Fits-lt : (bound : ℕ) (bs : List Bracket) (d : ℕ) → Fits bound bs d → d < bound
Fits-lt bound [] d h = h
Fits-lt bound (enter ∷ bs) d h = h.0
Fits-lt bound (leave ∷ bs) d h = h.0

pow_pos : (n : ℕ) → 0 < 2 ^ n
pow_pos n = one-le-pow n 2 (omega arith)

-- What the flag of the control page was last set to, after the calls of a log.
abbrev pub last_flag : Log → Option ℕ
last_flag [] = none
last_flag (Call.store_flag v ∷ l) = some v
last_flag (c ∷ l) = last_flag l

-- Every sched_yield of a log was made with the flag at 0.
abbrev pub YieldsOutside : Log → Type 0
YieldsOutside [] = Unit {0}
YieldsOutside (Call.yield_cpu ∷ l) = (last_flag l ≡ some 0) × YieldsOutside l
YieldsOutside (c ∷ l) = YieldsOutside l

-- The thread is `d` sections deep, and has not given up the CPU inside any.
pub record IsNested (d : ℕ) (s : State) : Type 0 where
  pub page : s.ctrl_page ≡ mapped
  pub flag : s.np_flag ≡ d
  pub outside : YieldsOutside s.log

-- The code returns, in a state that is `d` sections deep.
pub record Nests (d : ℕ) (r : Outcome (Unit {0}) × State) : Type 0 where
  pub returns : r.0 ≡ Outcome.value tt
  pub nested : IsNested d r.1

enter_np-Nests :
    (k : Kernel) {d : ℕ} (s : State)
    → IsNested d s
    → d + 1 < 2 ^ k.flag_bits
    → Nests (d + 1) (enter_np k s)
unfolding enter_np
enter_np-Nests k s n h = ground (arith, mod-eq_of_lt h)

exit_np-Nests :
    (k : Kernel) {d : ℕ} (s : State)
    → IsNested d s
    → d < 2 ^ k.flag_bits
    → Nests (d - 1) (exit_np k s)
unfolding exit_np call
exit_np-Nests k {d} s n h =
    let small : (d - 1) % 2 ^ k.flag_bits ≡ d - 1 = mod-eq_of_lt (omega arith) in ground arith

Nests-then :
    {d d' : ℕ} (r : Outcome (Unit {0}) × State) (f : M (Unit {0}))
    → Nests d r
    → ((t : State) → IsNested d t → Nests d' (f t))
    → Nests d' (continue (λ _. f) r)
Nests-then (Outcome.value tt, t) f n h = h t n.nested
Nests-then (Outcome.exited c, t) f n h = cc n.returns
Nests-then (Outcome.fault, t) f n h = cc n.returns

-- Whatever brackets a thread calls on a mapped page, as long as they never nest deeper than the
-- flag can count: all the calls return, the flag ends at the nesting depth, and sched_yield was
-- called only while the flag was 0.
pub run_brackets-Nests :
    (k : Kernel) (bs : List Bracket) (d : ℕ) (s : State)
    → IsNested d s
    → Fits (2 ^ k.flag_bits) bs d
    → Nests (depth bs d) (run_brackets k bs s)
unfolding run_brackets depth
run_brackets-Nests k [] d s n h = record { returns = refl; nested = n }
run_brackets-Nests k (enter ∷ bs) d s n h =
    Nests-then (enter_np k s) (run_brackets k bs) (enter_np-Nests k s n (Fits-lt _ bs _ h.1))
      (λ t nt. run_brackets-Nests k bs (d + 1) t nt h.1)
run_brackets-Nests k (leave ∷ bs) d s n h =
    Nests-then (exit_np k s) (run_brackets k bs) (exit_np-Nests k s n h.0)
      (λ t nt. run_brackets-Nests k bs (d - 1) t nt h.1)

-- Leaving the outermost section: the flag is cleared first, then `preempt` is read, and the CPU is
-- given up exactly when the kernel had asked for it.
pub exit_np-outermost :
    (k : Kernel) (s : State)
    → s.ctrl_page ≡ mapped
    → s.np_flag ≡ 1
    → ((exit_np k s).1.np_flag ≡ 0)
      × ((exit_np k s).1.log ≡ (
          if k.preempt (Call.store_flag 0 ∷ s.log)
          then Call.yield_cpu ∷ Call.load_preempt ∷ Call.store_flag 0 ∷ s.log
          else Call.load_preempt ∷ Call.store_flag 0 ∷ s.log))
unfolding exit_np call
exit_np-outermost k s m one =
    let clear : (1 - 1) % 2 ^ k.flag_bits ≡ 0 = mod-eq_of_lt (pow_pos k.flag_bits) in ground arith

-- The calls of a first use up to the one that maps the page of suc n bytes.
abbrev pub mapping_log : State → ℕ → ℕ → Log
mapping_log s n fd =
    Call.map_memory (suc n) (pos fd)
    ∷ Call.open_file ctrl_device OpenMode.read_write
    ∷ Call.page_size
    ∷ s.log

-- The first use, where the device can be opened.
module _ (k : Kernel) (s : State) (n fd : ℕ) (unmapped : s.ctrl_page ≡ null)
    (size : k.answer s.log Call.page_size ≡ pos (suc n)) (small : suc n < 2 ^ 64)
    (opened : k.answer (Call.page_size ∷ s.log) (Call.open_file ctrl_device OpenMode.read_write)
      ≡ pos fd) where
  -- If the control device can be opened and mapped, with a flag that has room for one more, the
  -- first enter_np of a thread maps the page, closes the device, and enters by raising the flag
  -- by one.
  pub enter_np-first :
      k.maps
          (Call.open_file ctrl_device OpenMode.read_write ∷ Call.page_size ∷ s.log)
          (suc n)
          (pos fd)
        ≡ true
      → k.fresh_flag + 1 < 2 ^ k.flag_bits
      → ((enter_np k s).0 ≡ Outcome.value tt)
        × ((enter_np k s).1.ctrl_page ≡ mapped)
        × ((enter_np k s).1.np_flag ≡ k.fresh_flag + 1)
        × ((enter_np k s).1.log
            ≡ Call.store_flag (k.fresh_flag + 1) ∷ Call.close_file (pos fd) ∷ mapping_log s n fd)
  unfolding enter_np init_kernel_iface map_file mmap call
  enter_np-first maps fits =
      let whole : suc n % 2 ^ 64 ≡ suc n = mod-eq_of_lt small in ground (arith, mod-eq_of_lt fits)

  -- If the control device can be opened but mmap fails, `ctrl_page` is left at MAP_FAILED: the
  -- first enter_np of a thread returns without having entered, and the second one writes through
  -- that pointer.
  pub enter_np-map_failed :
      k.maps
          (Call.open_file ctrl_device OpenMode.read_write ∷ Call.page_size ∷ s.log)
          (suc n)
          (pos fd)
        ≡ false
      → ((enter_np k s).0 ≡ Outcome.value tt)
        × ((enter_np k s).1.ctrl_page ≡ map_failed)
        × ((enter_np k (enter_np k s).1).0 ≡ Outcome.fault)
  unfolding enter_np init_kernel_iface map_file mmap call
  enter_np-map_failed fails =
      let whole : suc n % 2 ^ 64 ≡ suc n = mod-eq_of_lt small in ground arith
