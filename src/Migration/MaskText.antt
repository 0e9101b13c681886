-- ===== src/Migration/MaskText.antt =====
-- The text of a mask, and the CPUs that parse_mask finds in it: those whose bit the number has.
use adaptive_liblitmus.Base.{
  ℕ, zero, suc, ◌+◌, ◌-◌, ◌*◌, ◌/◌, ◌^◌, ◌<◌, ◌≤◌, ◌≡◌, refl, ap, ◌∙◌, false, ◌&&◌, ◌||◌, List, [],
  ◌∷◌, ◌++◌, All, arith, length, length-append, drop, ltb, le→ltb, ltb→le, some, if◌then◌else◌,
  get_or-replicate, length-replicate, Bool-cases, inl, inr,
}
use mathlib.Core.List.{append-nil, append_assoc}
use adaptive_liblitmus.Base.Bits.{test_bit, test_bit_high, test_bit-join}
use adaptive_liblitmus.Base.Chars.{Bytes, c_string, strtoul_hex}
use adaptive_liblitmus.Migration.CpuSet.{
  CpuSet, cpu_alloc, cpu_isset, set_chunk, in_chunk, cpu_isset-set_chunk, length-set_chunk,
}
use adaptive_liblitmus.Migration.Mask.{read_chunks, bits_of, parse_mask}
use adaptive_liblitmus.Migration.HexText.{
  hex_char, hex_text, hex_value, AreNibbles, Stops, hex_value_bound, strtoul_hex-hex_text,
}

-- The groups of a mask, the lowest last: a first one of 1 to 8 digits, then groups of 8.
pub data Masks : Type 0 where
  top : (d : ℕ) → (ds : List ℕ) → Masks
  more : Masks → (d : ℕ) → (ds : List ℕ) → Masks

abbrev pub IsMask : Masks → Type 0
IsMask (top d ds) = AreNibbles (d ∷ ds) × (length (d ∷ ds) ≤ 8)
IsMask (more m d ds) = IsMask m × AreNibbles (d ∷ ds) × (length (d ∷ ds) ≡ 8)

-- <mask>[,<mask>]*
unfoldable pub render : Masks → Bytes
render (top d ds) = hex_text (d ∷ ds)
render (more m d ds) = render m ++ b',' ∷ hex_text (d ∷ ds)

unfoldable pub value_of : Masks → ℕ
value_of (top d ds) = hex_value 0 (d ∷ ds)
value_of (more m d ds) = value_of m * 2 ^ 32 + hex_value 0 (d ∷ ds)

-- What the loop does from chunk i on.
set_masks : Masks → ℕ → CpuSet → CpuSet
set_masks (top d ds) i s = set_chunk 65 (i * 32) (hex_value 0 (d ∷ ds)) s
set_masks (more m d ds) i s = set_masks m (i + 1) (set_chunk 65 (i * 32) (hex_value 0 (d ∷ ds)) s)

length-hex_text : (ds : List ℕ) → length (hex_text ds) ≡ length ds
unfolding hex_text
length-hex_text [] = refl
length-hex_text (d ∷ ds) = ap suc (length-hex_text ds)

pub chunks : Masks → ℕ
chunks (top d ds) = 1
chunks (more m d ds) = chunks m + 1

drop-past : (xs : Bytes) (c : ℕ) (ys : Bytes) → drop (length xs + 1) (xs ++ c ∷ ys) ≡ ys
drop-past [] c ys = refl
drop-past (x ∷ xs) c ys =
    let next : suc (length xs) + 1 ≡ suc (length xs + 1) = omega arith in
    rw next (drop-past xs c ys)

-- One round at a chunk that begins at `b` in the buffer.
round :
    (fuel : ℕ) (buf : Bytes) (at i b : ℕ) (s : CpuSet) (v : ℕ)
    → (if ltb at 9 then 9 else at) ≡ b + 9
    → strtoul_hex (drop b buf) ≡ v
    → read_chunks (suc fuel) buf at i s ≡ (
        if ltb b 1
        then some (set_chunk 65 (i * 32) v s)
        else read_chunks fuel buf b (i + 1) (set_chunk 65 (i * 32) v s))
unfolding read_chunks
round fuel buf at i b s v start e =
    let here : b + 9 - 9 ≡ b = omega arith in rw (start, read_chunks, here, e)

read_chunks-render :
    (m : Masks) (fuel : ℕ) (tail : Bytes) (i : ℕ) (s : CpuSet)
    → IsMask m
    → Stops tail
    → chunks m ≤ fuel
    → read_chunks fuel (render m ++ tail) (length (render m) + 1) i s ≡ some (set_masks m i s)
unfolding chunks render set_masks
read_chunks-render (top d ds) zero tail i s h t f = absurd (omega arith)
read_chunks-render (top d ds) (suc fuel) tail i s h t f = rw (
    round fuel (hex_text (d ∷ ds) ++ tail) (length (hex_text (d ∷ ds)) + 1) i 0 s
      (hex_value 0 (d ∷ ds)) (ground (arith, length-hex_text (d ∷ ds)))
      (strtoul_hex-hex_text d ds tail h.0 h.1 t))
read_chunks-render (more m d ds) zero tail i s h t f = absurd (omega arith)
read_chunks-render (more m d ds) (suc fuel) tail i s h t f =
    let text : (render m ++ b',' ∷ hex_text (d ∷ ds)) ++ tail
        ≡ render m ++ b',' ∷ (hex_text (d ∷ ds) ++ tail) =
      append_assoc (render m) (b',' ∷ hex_text (d ∷ ds)) tail in
    rw text (
      round fuel (render m ++ b',' ∷ (hex_text (d ∷ ds) ++ tail))
        (length (render m ++ b',' ∷ hex_text (d ∷ ds)) + 1) i (length (render m) + 1) s
        (hex_value 0 (d ∷ ds))
        (ground
          (arith, length-hex_text (d ∷ ds), length-append (render m) (b',' ∷ hex_text (d ∷ ds))))
        (rw (drop-past (render m) b',' (hex_text (d ∷ ds) ++ tail))
          (strtoul_hex-hex_text d ds tail h.1 (omega arith) t))
      ∙ rw (le→ltb (length (render m) + 1) 1 (omega arith)) (
          read_chunks-render m fuel (b',' ∷ (hex_text (d ∷ ds) ++ tail)) (i + 1)
            (set_chunk 65 (i * 32) (hex_value 0 (d ∷ ds)) s) h.0 refl (omega arith)))

set_masks-length : (m : Masks) (i : ℕ) (s : CpuSet) → length (set_masks m i s) ≡ length s
unfolding set_masks
set_masks-length (top d ds) i s = length-set_chunk 65 (i * 32) (hex_value 0 (d ∷ ds)) s
set_masks-length (more m d ds) i s =
    set_masks-length m (i + 1) (set_chunk 65 (i * 32) (hex_value 0 (d ∷ ds)) s)
    ∙ length-set_chunk 65 (i * 32) (hex_value 0 (d ∷ ds)) s

-- A word of two parts has the CPUs of both.
in_chunk-join :
    (first a b x : ℕ)
    → b < 2 ^ 32
    → in_chunk first (a * 2 ^ 32 + b) x ≡ (in_chunk (first + 32) a x || in_chunk first b x)
in_chunk-join first a b x h =
    rw (test_bit-join 32 a b (x - first) h) (elim (Bool-cases (ltb (x - first) 32)) [
      | inl low ↦ ground arith
      | inr high ↦
          (let past : x - first - 32 ≡ x - (first + 32) = omega arith in
            rw past (ground (arith, test_bit_high 32 b (x - first) h (ltb→le _ _ high))))
    ])

cpu_isset-set_masks :
    (m : Masks) (i x : ℕ) (s : CpuSet)
    → IsMask m
    → cpu_isset x (set_masks m i s)
      ≡ ((in_chunk (i * 32) (value_of m) x && ltb x (length s)) || cpu_isset x s)
unfolding set_masks value_of
cpu_isset-set_masks (top d ds) i x s h =
    cpu_isset-set_chunk 32 65 (i * 32) (hex_value 0 (d ∷ ds)) x s (hex_value_bound (d ∷ ds) h.0 h.1)
      (omega arith) (omega arith)
cpu_isset-set_masks (more m d ds) i x s h =
    let v : ℕ = hex_value 0 (d ∷ ds) in
    let small : v < 2 ^ 32 = hex_value_bound (d ∷ ds) h.1 (omega (arith, h.2)) in
    let next : (i + 1) * 32 ≡ i * 32 + 32 = omega arith in
    rw
      (
        cpu_isset-set_masks m (i + 1) x (set_chunk 65 (i * 32) v s) h.0,
        cpu_isset-set_chunk 32 65 (i * 32) v x s small (omega arith) (omega arith),
        length-set_chunk,
        in_chunk-join (i * 32) (value_of m) v x small,
        next,
      )
      (ground arith)

pub chunks_bounds :
    (m : Masks)
    → IsMask m
    → (length (render m) < 9 * chunks m) × (9 * chunks m ≤ length (render m) + 8)
unfolding chunks render
chunks_bounds (top d ds) h = omega (arith, length-hex_text (d ∷ ds), h.1)
chunks_bounds (more m d ds) h = omega (
  arith,
  chunks_bounds m h.0,
  length-append (render m) (b',' ∷ hex_text (d ∷ ds)),
  length-hex_text (d ∷ ds),
  h.2,
)

-- The set that is allocated has room for every bit of the mask.
chunks_fit : (m : Masks) → IsMask m → 32 * chunks m ≤ (bits_of (length (render m)) + 63) / 64 * 64
chunks_fit m h = omega (arith, chunks_bounds m h)

test_bit-value_of_high :
    (m : Masks) (x : ℕ) → IsMask m → 32 * chunks m ≤ x → test_bit (value_of m) x ≡ false
unfolding chunks value_of
test_bit-value_of_high (top d ds) x h l =
    test_bit_high 32 (hex_value 0 (d ∷ ds)) x (hex_value_bound (d ∷ ds) h.0 h.1) (omega arith)
test_bit-value_of_high (more m d ds) x h l =
    let v : ℕ = hex_value 0 (d ∷ ds) in
    let small : v < 2 ^ 32 = hex_value_bound (d ∷ ds) h.1 (omega (arith, h.2)) in
    rw (test_bit-join 32 (value_of m) v x small, le→ltb x 32 (omega arith))
      (test_bit-value_of_high m (x - 32) h.0 (omega arith))

abbrev NoNul : Bytes → Type 0
NoNul = All (λ c. 0 < c)

c_string_whole : (s : Bytes) → NoNul s → c_string s ≡ s
unfolding c_string
c_string_whole [] h = refl
c_string_whole (c ∷ s) h = ground (arith, c_string_whole s h.1)

NoNul-append : (s t : Bytes) → NoNul s → NoNul t → NoNul (s ++ t)
NoNul-append [] t h k = k
NoNul-append (c ∷ s) t h k = (h.0, NoNul-append s t h.1 k)

NoNul-hex_text : (ds : List ℕ) → NoNul (hex_text ds)
unfolding hex_text hex_char
NoNul-hex_text [] = tt
NoNul-hex_text (d ∷ ds) = (ground arith, NoNul-hex_text ds)

NoNul-render : (m : Masks) → NoNul (render m)
unfolding render
NoNul-render (top d ds) = NoNul-hex_text (d ∷ ds)
NoNul-render (more m d ds) =
    NoNul-append (render m) (b',' ∷ hex_text (d ∷ ds)) (NoNul-render m)
      (omega arith, NoNul-hex_text (d ∷ ds))

chunks-le : (m : Masks) → IsMask m → chunks m ≤ length (render m) + 1
chunks-le m h = omega (arith, chunks_bounds m h)

-- The text of a mask parses, with the fuel that is given, into a CPU set; a CPU is in it exactly
-- if the number that the mask writes in base 16 has its bit, for every CPU number.
pub parse_mask-render :
    (m : Masks)
    → IsMask m
    → (s : CpuSet) × (parse_mask (render m) ≡ some s)
      × ((x : ℕ) → cpu_isset x s ≡ test_bit (value_of m) x)
unfolding parse_mask
parse_mask-render m h = (set_masks m 0 empty, parses, has)
  where
    empty : CpuSet
    empty = cpu_alloc (bits_of (length (render m)))

    parses : parse_mask (render m) ≡ some (set_masks m 0 empty)
    parses = rw (c_string_whole (render m) (NoNul-render m)) (
        rw append-nil at
          (read_chunks-render m (length (render m) + 1) [] 0 empty h tt (chunks-le m h)))

    has : (x : ℕ) → cpu_isset x (set_masks m 0 empty) ≡ test_bit (value_of m) x
    has x =
        let size : length empty ≡ (bits_of (length (render m)) + 63) / 64 * 64 =
          length-replicate _ false in
        let clear : cpu_isset x empty ≡ false = get_or-replicate _ x false in
        let at0 : x - 0 ≡ x = omega arith in
        rw (cpu_isset-set_masks m 0 x empty h, size, clear, at0)
          (elim (Bool-cases (ltb x (32 * chunks m))) [
            | inl low ↦ ground (arith, chunks_fit m h)
            | inr high ↦ rw (test_bit-value_of_high m x h (ltb→le _ _ high)) (ground arith)
          ])
