-- ===== src/Lifecycle/Returning.antt =====
-- Code that always ends with a value: one rule for each way to build code, and the parts of the
-- library that initialise.
use adaptive_liblitmus.Base.{ℕ, zero, suc, ◌≡◌, refl, Bool, true, false, ◌&&◌, if◌then◌else◌}
use adaptive_liblitmus.Base.Int.{ℤ, pos, minus_one, is_neg, is_zero}
use adaptive_liblitmus.Base.Chars.{Bytes}
use adaptive_liblitmus.Kernel.{
  Kernel, Call, OpenMode, M, Page, Outcome, State, map_failed, ◌>>=◌, ◌>>◌, pure, modify, continue,
  call,
}
use adaptive_liblitmus.KernelIface.Files.{map_file, mmap}
use adaptive_liblitmus.KernelIface.ControlPage.{init_kernel_iface, ctrl_device, to_size}
use adaptive_liblitmus.Litmus.Sporadic.{init_rt_thread, init_litmus}

abbrev pub Returns : {A : Type 0} → M A → Type 0
Returns {A} m = (s : State) → (a : A) × ((m s).0 ≡ Outcome.value a)

Returns-continue :
    {A B : Type 0} (f : A → M B) (r : Outcome A × State) {a : A}
    → r.0 ≡ Outcome.value a
    → ((x : A) → Returns (f x))
    → (b : B) × ((continue f r).0 ≡ Outcome.value b)
Returns-continue f (Outcome.value x, t) e h = h x t
Returns-continue f (Outcome.exited c, t) e h = absurd (cc)
Returns-continue f (Outcome.fault, t) e h = absurd (cc)

pub Returns-bind :
    {A B : Type 0} (m : M A) (f : A → M B)
    → Returns m
    → ((x : A) → Returns (f x))
    → Returns (m >>= f)
Returns-bind m f h k s = let (a, e) = h s in Returns-continue f (m s) e k

Returns-if :
    {A : Type 0} (b : Bool) (m n : M A) → Returns m → Returns n → Returns (if b then m else n)
Returns-if true m n h h' = h
Returns-if false m n h h' = h'

module _ (k : Kernel) where
  pub Returns-call : (c : Call) → Returns (call k c)
  unfolding call
  Returns-call c s = (_, refl)

  map_file-Returns : (f : Bytes) (addr : Page) (n : ℕ) → Returns (map_file k f addr n)
  unfolding map_file mmap
  map_file-Returns f addr zero = λ s. (_, refl)
  map_file-Returns f addr (suc n) =
      let result : Page → M (ℤ × Page) =
        λ page. pure ((elim page [ map_failed ↦ minus_one | _ ↦ pos 0 ]), page) in
      let close : ℤ → Page → M (ℤ × Page) = λ fd page. call k (Call.close_file fd) >> result page in
      Returns-bind (call k (Call.open_file f OpenMode.read_write))
        (λ fd. if is_neg fd then pure (fd, addr) else (mmap k (suc n) fd >>= close fd))
        (Returns-call (Call.open_file f OpenMode.read_write))
        λ fd.
          Returns-if (is_neg fd) (pure (fd, addr)) (mmap k (suc n) fd >>= close fd) (λ s. (_, refl))
            (Returns-bind (mmap k (suc n) fd) (close fd) (λ s. (_, refl))
              λ page.
                Returns-bind (call k (Call.close_file fd)) (λ _. result page)
                  (Returns-call (Call.close_file fd)) (λ _ s. (_, refl)))

  init_kernel_iface-Returns : Returns (init_kernel_iface k)
  unfolding init_kernel_iface
  init_kernel_iface-Returns =
      let store : ℤ × Page → M ℤ =
        λ x. modify (λ s. record s { ctrl_page = x.1; np_flag = k.fresh_flag }) >> pure x.0 in
      let map_it : ℤ → M ℤ = λ size. map_file k ctrl_device Page.null (to_size size) >>= store in
      Returns-bind (call k Call.page_size) map_it (Returns-call Call.page_size) λ size.
        Returns-bind (map_file k ctrl_device Page.null (to_size size)) store
          (map_file-Returns ctrl_device Page.null (to_size size)) (λ x s. (_, refl))

  pub init_rt_thread-Returns : Returns (init_rt_thread k)
  unfolding init_rt_thread
  init_rt_thread-Returns = init_kernel_iface-Returns

  pub init_litmus-Returns : Returns (init_litmus k)
  unfolding init_litmus
  init_litmus-Returns =
      let result : ℤ → ℤ → M ℤ =
        λ ret ret2. pure (if is_zero ret && is_zero ret2 then pos 0 else minus_one) in
      Returns-bind (call k Call.lock_memory) (λ ret. init_rt_thread k >>= result ret)
        (Returns-call Call.lock_memory)
        λ ret.
          Returns-bind (init_rt_thread k) (result ret) init_rt_thread-Returns (λ ret2 s. (_, refl))
