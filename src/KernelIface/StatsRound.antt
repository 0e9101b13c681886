-- ===== src/KernelIface/StatsRound.antt =====
-- The statistics that the kernel prints are what read_litmus_stats returns.
use adaptive_liblitmus.Base.{
  ℕ, ◌<◌, ◌^◌, ◌≤◌, ◌≡◌, refl, ap, ◌∙◌, Bool, true, false, List, [], ◌∷◌, ◌++◌, arith, length, drop,
  take_all, none, some,
}
use adaptive_liblitmus.Base.Int.{ℤ, pos}
use adaptive_liblitmus.Base.Chars.{
  Bytes, codes, c_string, is_space, skip_space, read_int, show_digits,
}
use adaptive_liblitmus.Kernel.{Kernel, Log, Outcome, State, continue-value, pure}
use adaptive_liblitmus.KernelIface.Files.{read_file}
use adaptive_liblitmus.KernelIface.Stats.{
  Directive, space, int, format, sscanf, stats_file, stats_format, store_stats, read_litmus_stats,
}
use adaptive_liblitmus.KernelIface.Content.{Shows, read_file-content}
use adaptive_liblitmus.KernelIface.Decimal.{
  ten_pow, read_int-show, skip_space-show, c_string-show, length-show, show_digits-append,
}

-- /proc/litmus/stats, for numbers of at most 10 digits, before other bytes.
abbrev pub stats_text : ℕ → ℕ → Bytes → Bytes
stats_text all ready r =
    codes "real-time tasks   = "
    ++ show_digits 10 all (codes "\nready for release = " ++ show_digits 10 ready (b'\n' ∷ r))

-- The formats behind the two numbers.
abbrev after_all : List Directive
after_all = format (codes "\nready for release = %d\n")

sscanf-tasks :
    (x : Bytes)
    → sscanf stats_format (codes "real-time tasks   = " ++ x)
      ≡ sscanf (int ∷ after_all) (skip_space x)
unfolding sscanf stats_format skip_space is_space
sscanf-tasks x = refl

sscanf-ready :
    (x : Bytes)
    → sscanf after_all (codes "\nready for release = " ++ x)
      ≡ sscanf (int ∷ space ∷ []) (skip_space x)
unfolding sscanf format skip_space is_space
sscanf-ready x = refl

sscanf-int :
    (f : List Directive) (w : Bytes) (n : ℤ) (rest : Bytes)
    → read_int (skip_space w) ≡ some (n, rest)
    → sscanf (int ∷ f) w ≡ n ∷ sscanf f rest
unfolding sscanf
sscanf-int f w n rest e = ground (arith, e)

sscanf-number :
    (f : List Directive) (n : ℕ) (r : Bytes)
    → n < ten_pow 10
    → sscanf (int ∷ f) (skip_space (show_digits 10 n (b'\n' ∷ r))) ≡ pos n ∷ sscanf f (b'\n' ∷ r)
sscanf-number f n r h =
    let skips : skip_space (show_digits 10 n (b'\n' ∷ r)) ≡ show_digits 10 n (b'\n' ∷ r) =
      skip_space-show 9 n (b'\n' ∷ r) in
    sscanf-int f (skip_space (show_digits 10 n (b'\n' ∷ r))) (pos n) (b'\n' ∷ r)
      (ap (λ x. read_int (skip_space x)) skips ∙ ap read_int skips ∙ read_int-show 9 n r h)

sscanf-stats :
    (all ready : ℕ) (r : Bytes)
    → all < ten_pow 10
    → ready < ten_pow 10
    → sscanf stats_format (stats_text all ready r) ≡ pos all ∷ pos ready ∷ []
sscanf-stats all ready r a b =
    let line : Bytes = codes "ready for release = " ++ show_digits 10 ready (b'\n' ∷ r) in
    sscanf-tasks (show_digits 10 all (b'\n' ∷ line))
    ∙ sscanf-number after_all all line a
    ∙ ap (λ x. pos all ∷ x)
        (sscanf-ready (show_digits 10 ready (b'\n' ∷ r))
          ∙ sscanf-number (space ∷ []) ready r b
          ∙ ap (λ x. pos ready ∷ x) (unfold sscanf in refl))

c_string-stats :
    (all ready : ℕ) (r : Bytes)
    → c_string (stats_text all ready r) ≡ stats_text all ready (c_string r)
unfolding c_string
c_string-stats all ready r =
    rw
      (
        c_string-show 10 all (codes "\nready for release = " ++ show_digits 10 ready (b'\n' ∷ r)),
        c_string-show 10 ready (b'\n' ∷ r),
      )
      refl

stats_text-append :
    (all ready : ℕ) (x : Bytes) → stats_text all ready [] ++ x ≡ stats_text all ready x
stats_text-append all ready x =
    rw
      (
        show_digits-append 10 all
            (codes "\nready for release = " ++ show_digits 10 ready (b'\n' ∷ [])) x,
        show_digits-append 10 ready (b'\n' ∷ []) x,
      )
      refl

length-stats : (all ready : ℕ) → length (stats_text all ready []) ≤ 99
length-stats all ready = omega (
  arith,
  length-show 10 all (codes "\nready for release = " ++ show_digits 10 ready (b'\n' ∷ [])),
  length-show 10 ready (b'\n' ∷ []),
)

-- A kernel that prints two numbers, each of which an int can hold, in the file of the statistics
-- at any time.
pub record Reports (k : Kernel) (all ready : Log → ℕ) : Type 0 where
  pub shows : Shows k stats_file (λ l. stats_text (all l) (ready l) [])
  pub all_fits : (l : Log) → all l < 2 ^ 31
  pub ready_fits : (l : Log) → ready l < 2 ^ 31

-- What a kernel reports when the file is opened, in numbers that an int can hold, is what
-- read_litmus_stats stores, and it returns success, whatever the buffer held behind the text, which
-- is not terminated.
pub read_litmus_stats-round :
    (k : Kernel) (all ready : Log → ℕ) (stack : Bytes) (r a : ℤ) (s : State)
    → Reports k all ready
    → (read_litmus_stats k stack r a s).0 ≡ Outcome.value (true, pos (ready s.log), pos (all s.log))
unfolding read_litmus_stats
read_litmus_stats-round k all ready stack r a s h =
    let text : Bytes = stats_text (all s.log) (ready s.log) [] in
    let behind : Bytes = drop (length text) stack in
    let ends : text ++ behind ≡ stats_text (all s.log) (ready s.log) behind =
      stats_text-append (all s.log) (ready s.log) behind in
    let scanned : sscanf stats_format (c_string (text ++ behind))
        ≡ pos (all s.log) ∷ pos (ready s.log) ∷ [] =
      ap (λ x. sscanf stats_format (c_string x)) ends
      ∙ ap (sscanf stats_format) (c_string-stats (all s.log) (ready s.log) behind)
      ∙ sscanf-stats (all s.log) (ready s.log) (c_string behind) (omega (arith, h.all_fits s.log))
          (omega (arith, h.ready_fits s.log)) in
    let got : (read_file k stats_file 99 s).0 ≡ Outcome.value (some text) =
      rw (take_all 99 text (length-stats (all s.log) (ready s.log))) at
        (read_file-content k stats_file (λ l. stats_text (all l) (ready l) []) 99 s h.shows) in
    continue-value {B = Bool × ℤ × ℤ}
      (λ o. pure (elim o [
        | none ↦ (false, r, a)
        | some buf ↦
            store_stats (sscanf stats_format (c_string (buf ++ drop (length buf) stack))) r a
      ]))
      (read_file k stats_file 99 s)
      (λ t. t.0 ≡ Outcome.value (true, pos (ready s.log), pos (all s.log))) got
      (λ t. ap (λ ns. Outcome.value (store_stats ns r a)) scanned)
