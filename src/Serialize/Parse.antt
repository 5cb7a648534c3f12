-- ===== src/Serialize/Parse.antt =====
-- The rounds of io_parse_size() (src/io/src/io_serialize.c) as arithmetic, and its answer on a code.
use native.Mathlib.Nat.{pow-le-pow_right}
use native.Mathlib.Numerals.{towards_suc}
use tcp_striper.Base.{
  ℕ, zero, suc, ◌+◌, ◌*◌, ◌/◌, ◌%◌, ◌^◌, ◌≤◌, ◌<◌, ◌≡◌, refl, ◌∙◌, ap, ap₂, true, not, ◌∷◌, ◌++◌,
  arith, ltb, ◌==◌, length, bit_or, bit_and, bit_and-128, bit_and_ones, bit_or_disjoint, Bool-cases,
  inl, inr,
}
use tcp_striper.Serialize.{Bytes, has_bits, done, shl, io_parse_loop, io_parse_size}
use tcp_striper.Serialize.Store.{groups, size_code}

pub low_seven : (b : ℕ) → bit_and b 0x7F ≡ b % 128
low_seven b = bit_and_ones 7 b

pub goes_on : (b : ℕ) → has_bits b 0x80 ≡ not (b / 128 % 2 == 0)
goes_on b = ground (arith, bit_and-128 b)

pow-add-seven : (off : ℕ) → 2 ^ (off + 7) ≡ 128 * 2 ^ off
pow-add-seven off = simp towards_suc (omega arith)

-- `val |= x << off` for a `val` below bit `off`: nothing is lost and nothing overlaps.
pub or_shifted :
    (val x off : ℕ)
    → val < 2 ^ off
    → x < 128
    → off ≤ 28
    → bit_or val (shl x off) ≡ val + x * 2 ^ off
or_shifted val x off hv hx ho =
    ap (bit_or val) (grind (arith, pow-le-pow_right {n = 2} (omega arith) ho))
    ∙ bit_or_disjoint off val x hv

-- One round of the loop.
last_byte :
    (w : ℕ) (rest : Bytes) (r off val : ℕ)
    → w < 128
    → off ≤ 21
    → val < 2 ^ off
    → io_parse_loop (w ∷ rest) r off val ≡ done (r + 1) (val + w * 2 ^ off)
unfolding io_parse_loop
last_byte w rest r off val hw ho hv =
    ground (arith, goes_on w, or_shifted val w off hv hw (omega arith))

inner_byte :
    (g : ℕ) (rest : Bytes) (r off val : ℕ)
    → g < 128
    → off ≤ 21
    → val < 2 ^ off
    → io_parse_loop ((g + 128) ∷ rest) r off val
      ≡ io_parse_loop rest (r + 1) (off + 7) (val + g * 2 ^ off)
unfolding io_parse_loop
inner_byte g rest r off val hg ho hv = rw (cut, or_shifted val g off hv hg (omega arith), top) refl
  where
    cut : bit_and (g + 128) 0x7F ≡ g
    cut = low_seven (g + 128) ∙ omega arith

    top : has_bits (g + 128) 0x80 ≡ true
    top = goes_on (g + 128) ∙ ground arith

pub next_bound : (val g off : ℕ) → val < 2 ^ off → g < 128 → val + g * 2 ^ off < 2 ^ (off + 7)
next_bound val g off hv hg = rw pow-add-seven (grind arith)

-- The lowest group of `w` and the rest of it, both shifted.
split_group : (w off : ℕ) → w * 2 ^ off ≡ w % 128 * 2 ^ off + w / 128 * 2 ^ (off + 7)
split_group w off =
    rw pow-add-seven (
      ap (λ (t : ℕ). t * 2 ^ off) {x = w} {y = w % 128 + w / 128 * 128} (omega arith) ∙ omega arith)

io_parse_loop-groups :
    (k w : ℕ) (rest : Bytes) (r off val : ℕ)
    → w < 128 ^ suc k
    → off + 7 * k ≤ 21
    → val < 2 ^ off
    → io_parse_loop (groups k w ++ rest) r off val
      ≡ done (r + length (groups k w)) (val + w * 2 ^ off)
unfolding groups
io_parse_loop-groups zero w rest r off val hw ho hv =
    last_byte w rest r off val (omega arith) (omega arith) hv
io_parse_loop-groups (suc k) w rest r off val hw ho hv = elim (Bool-cases (ltb w 128)) [
  | inl small ↦ rw small (last_byte w rest r off val (ground arith) (omega arith) hv)
  | inr large ↦ rw large (
      inner_byte (w % 128) (groups k (w / 128) ++ rest) r off val (omega arith) (omega arith) hv
      ∙ io_parse_loop-groups k (w / 128) rest (r + 1) (off + 7) (val + w % 128 * 2 ^ off)
          (omega arith) (omega arith) (next_bound val (w % 128) off hv (omega arith))
      ∙ ap₂ done (omega arith) (omega (arith, split_group w off)))
]

-- io_parse_size() reads the code of a size below 2 ^ 28 off the front of a buffer.
pub io_parse_size-size_code :
    (v : ℕ) (rest : Bytes)
    → v < 2 ^ 28
    → io_parse_size (size_code v ++ rest) ≡ done (length (size_code v)) v
unfolding io_parse_size size_code
io_parse_size-size_code v rest h =
    io_parse_loop-groups 3 v rest 0 0 0 h (omega arith) (omega arith)
    ∙ ap₂ done (omega arith) (omega arith)
