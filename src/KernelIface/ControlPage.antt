-- ===== src/KernelIface/ControlPage.antt =====
-- The thread-local control page: mapping it, and the flag by which a thread asks not to be
-- preempted. Accesses through `ctrl_page` fault where it points at no mapping.
use adaptive_liblitmus.Base.{ℕ, ◌+◌, ◌-◌, ◌%◌, ◌^◌, ◌==◌, Bool, false, if◌then◌else◌}
use adaptive_liblitmus.Base.Int.{ℤ, pos, negsuc, is_zero}
use adaptive_liblitmus.Base.Chars.{Bytes, codes}
use adaptive_liblitmus.Kernel.{
  Kernel, Call, M, Page, null, mapped, map_failed, State, ◌>>=◌, ◌>>◌, pure, gets, modify, crash,
  call, record_call,
}
use adaptive_liblitmus.KernelIface.Files.{map_file}

abbrev pub ctrl_device : Bytes
ctrl_device = codes "/dev/litmus/ctrl"

-- CTRL_PAGES * page_size as a size_t
abbrev pub to_size : ℤ → ℕ
to_size (pos n) = n % 2 ^ 64
to_size (negsuc n) = (2 ^ 64 - 1 - n) % 2 ^ 64

-- `ctrl_page` is assigned on the error path too.
unfoldable pub init_kernel_iface : Kernel → M ℤ
unfolding call map_file
init_kernel_iface k = do
  page_size ← call k Call.page_size
  (err, mapped_at) ← map_file k ctrl_device null (to_size page_size)
  modify (λ s. record s { ctrl_page = mapped_at; np_flag = k.fresh_flag })
  pure err

-- ctrl_page->sched.np.flag = v, for a page that is mapped
abbrev pub store_flag : Kernel → ℕ → State → State
store_flag k v s = record (record_call (Call.store_flag (v % 2 ^ k.flag_bits)) s) {
  np_flag = v % 2 ^ k.flag_bits;
}

-- ctrl_page->sched.np.flag++
unfoldable pub raise_flag : Kernel → M (Unit {0})
raise_flag k = do
  page ← gets (λ s. s.ctrl_page)
  elim page [ mapped ↦ modify (λ s. store_flag k (s.np_flag + 1) s) | _ ↦ crash ]

unfoldable pub enter_np : Kernel → M (Unit {0})
unfolding init_kernel_iface raise_flag
enter_np k = do
  page ← gets (λ s. s.ctrl_page)
  elim page [
    | null ↦ (do err ← init_kernel_iface k; if is_zero err then raise_flag k else pure tt)
    | _ ↦ raise_flag k
  ]

-- The read of ctrl_page->sched.np.preempt, which the kernel writes.
unfoldable pub load_preempt : Kernel → M Bool
load_preempt k = do
  asked ← gets (λ s. k.preempt s.log)
  modify (record_call Call.load_preempt)
  pure asked

unfoldable pub check_delayed : Kernel → M (Unit {0})
unfolding load_preempt call
check_delayed k = do
  asked ← load_preempt k
  if asked then (do call k Call.yield_cpu; pure tt) else pure tt

unfoldable pub lower_flag : Kernel → M (Unit {0})
unfolding check_delayed
lower_flag k = do
  flag ← gets (λ s. s.np_flag)
  if flag == 0 then pure tt else (do
    modify (store_flag k (flag - 1))
    left ← gets (λ s. s.np_flag)
    if left == 0 then check_delayed k else pure tt)

unfoldable pub exit_np : Kernel → M (Unit {0})
unfolding lower_flag
exit_np k = do
  page ← gets (λ s. s.ctrl_page)
  elim page [ null ↦ pure tt | mapped ↦ lower_flag k | map_failed ↦ crash ]

unfoldable pub requested_to_preempt : Kernel → M Bool
unfolding load_preempt
requested_to_preempt k = do
  page ← gets (λ s. s.ctrl_page)
  elim page [ null ↦ pure false | mapped ↦ load_preempt k | map_failed ↦ crash ]

-- The pointer that the function returns.
unfoldable pub get_ctrl_page : Kernel → M Page
unfolding init_kernel_iface
get_ctrl_page k = do
  page ← gets (λ s. s.ctrl_page)
  elim page [
    | null ↦ (do
      err ← init_kernel_iface k
      now ← gets (λ s. s.ctrl_page)
      pure (if is_zero err then now else null))
    | other ↦ pure other
  ]
