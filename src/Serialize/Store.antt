-- ===== src/Serialize/Store.antt =====
-- What io_store_size() writes, against the groups of seven bits of the value.
use tcp_striper.Base.{
  ℕ, zero, suc, ◌+◌, ◌/◌, ◌%◌, ◌^◌, ◌≤◌, ◌<◌, ◌≡◌, ◌∙◌, sym, ◌≢◌, ap, ap₂, not, Option, none, some,
  [], ◌∷◌, arith, ltb, ◌==◌, if◌then◌else◌, length, bit_or, bit_or-128, All,
}
use tcp_striper.Serialize.{
  Bytes, has_bits, one_byte, two_bytes, three_bytes, four_bytes, u8, io_store_size_unrolled,
  io_store_size_generic,
}
use tcp_striper.Serialize.Masks.{has_top, has_fourth, has_third, has_second, has_above}

-- The groups of seven bits of `v`, the lowest first, at most `k + 1` of them, with bit 7 set on
-- all but the last.
unfoldable pub groups : ℕ → ℕ → Bytes
groups zero v = v ∷ []
groups (suc k) v =
    let rest = groups k (v / 128) in if ltb v 128 then v ∷ [] else (v % 128 + 128) ∷ rest

-- The code of a size below 2 ^ 28.
unfoldable pub size_code : ℕ → Bytes
unfolding groups
size_code v = groups 3 v

-- The code `bs`, if `len` bytes hold it.
abbrev pub fitting : ℕ → Bytes → Option Bytes
fitting len bs = if ltb len (length bs) then none else some bs

inner_byte : (v : ℕ) → u8 (bit_or v 0x80) ≡ v % 128 + 128
inner_byte v = omega (arith, bit_or-128 v)

pub size_code-one : (v : ℕ) → v < 2 ^ 7 → size_code v ≡ one_byte v
unfolding size_code
size_code-one v h = ground arith

pub size_code-two : (v : ℕ) → 2 ^ 7 ≤ v → v < 2 ^ 14 → size_code v ≡ two_bytes v
unfolding size_code
size_code-two v h k = ground (arith, inner_byte v)

pub size_code-three : (v : ℕ) → 2 ^ 14 ≤ v → v < 2 ^ 21 → size_code v ≡ three_bytes v
unfolding size_code
size_code-three v h k = ground (arith, inner_byte v, inner_byte (v / 128))

pub size_code-four : (v : ℕ) → 2 ^ 21 ≤ v → v < 2 ^ 28 → size_code v ≡ four_bytes v
unfolding size_code
size_code-four v h k =
    ground (arith, inner_byte v, inner_byte (v / 128), inner_byte (v / 128 / 128))

pub length-groups : (k v : ℕ) → (1 ≤ length (groups k v)) × (length (groups k v) ≤ k + 1)
unfolding groups
length-groups zero v = omega arith
length-groups (suc k) v = ground (arith, length-groups k (v / 128))

pub length-size_code : (v : ℕ) → (1 ≤ length (size_code v)) × (length (size_code v) ≤ 4)
unfolding size_code
length-size_code v = length-groups 3 v

-- A value below 2 ^ 28 is stored as its code if `len` bytes hold it, and -1 is returned if not.
pub io_store_size_unrolled-fitting :
    (len v : ℕ) → v < 2 ^ 28 → io_store_size_unrolled len v ≡ fitting len (size_code v)
unfolding io_store_size_unrolled
io_store_size_unrolled-fitting len v h = ground (
  arith,
  has_top v,
  has_fourth v,
  has_third v,
  has_second v,
  size_code-one v,
  size_code-two v,
  size_code-three v,
  size_code-four v,
)

-- Bits 28 to 31 make io_store_size() fail, whatever the space.
pub io_store_size_unrolled-none :
    (len v : ℕ) → v / 2 ^ 28 % 16 ≢ 0 → io_store_size_unrolled len v ≡ none
unfolding io_store_size_unrolled
io_store_size_unrolled-none len v h = ground (arith, has_top v)

-- What the masks and the stores see of a value whose bits 28 to 31 are clear.
module _ (v : ℕ) (clear : v / 2 ^ 28 % 16 ≡ 0) where
  cut_tests :
      (has_bits v 0xF000_0000 ≡ has_bits (v % 2 ^ 28) 0xF000_0000)
      × (has_bits v 0x0FE0_0000 ≡ has_bits (v % 2 ^ 28) 0x0FE0_0000)
      × (has_bits v 0x001F_C000 ≡ has_bits (v % 2 ^ 28) 0x001F_C000)
      × (has_bits v 0x3F80 ≡ has_bits (v % 2 ^ 28) 0x3F80)
  cut_tests = (
    has_top v ∙ ap (λ (t : ℕ). not (t == 0)) (omega arith) ∙ sym (has_top (v % 2 ^ 28)),
    has_fourth v ∙ ap (λ (t : ℕ). not (t == 0)) (omega arith) ∙ sym (has_fourth (v % 2 ^ 28)),
    has_third v ∙ ap (λ (t : ℕ). not (t == 0)) (omega arith) ∙ sym (has_third (v % 2 ^ 28)),
    has_second v ∙ ap (λ (t : ℕ). not (t == 0)) (omega arith) ∙ sym (has_second (v % 2 ^ 28)),
  )

  cut_bytes :
      (four_bytes v ≡ four_bytes (v % 2 ^ 28))
      × (three_bytes v ≡ three_bytes (v % 2 ^ 28))
      × (two_bytes v ≡ two_bytes (v % 2 ^ 28))
      × (one_byte v ≡ one_byte (v % 2 ^ 28))
  cut_bytes = (
    ap₂ ◌∷◌ first (ap₂ ◌∷◌ second (ap₂ ◌∷◌ third (ap (λ (b : ℕ). b ∷ []) (omega arith)))),
    ap₂ ◌∷◌ first (ap₂ ◌∷◌ second (ap (λ (b : ℕ). b ∷ []) (omega arith))),
    ap₂ ◌∷◌ first (ap (λ (b : ℕ). b ∷ []) (omega arith)),
    ap (λ (b : ℕ). b ∷ []) (omega arith),
  )
    where
      first : u8 (bit_or v 0x80) ≡ u8 (bit_or (v % 2 ^ 28) 0x80)
      first = inner_byte v ∙ omega arith ∙ sym (inner_byte (v % 2 ^ 28))

      second : u8 (bit_or (v / 128) 0x80) ≡ u8 (bit_or (v % 2 ^ 28 / 128) 0x80)
      second = inner_byte (v / 128) ∙ omega arith ∙ sym (inner_byte (v % 2 ^ 28 / 128))

      third : u8 (bit_or (v / 128 / 128) 0x80) ≡ u8 (bit_or (v % 2 ^ 28 / 128 / 128) 0x80)
      third = inner_byte (v / 128 / 128) ∙ omega arith ∙ sym (inner_byte (v % 2 ^ 28 / 128 / 128))

-- Bits 32 to 63 are not tested and not stored: the value is cut to its 28 lowest bits.
pub io_store_size_unrolled-cut :
    (len v : ℕ)
    → v / 2 ^ 28 % 16 ≡ 0
    → io_store_size_unrolled len v ≡ io_store_size_unrolled len (v % 2 ^ 28)
unfolding io_store_size_unrolled
io_store_size_unrolled-cut len v h = rw (
  (cut_tests v h).0,
  (cut_tests v h).1,
  (cut_tests v h).2,
  (cut_tests v h).3,
  (cut_bytes v h).0,
  (cut_bytes v h).1,
  (cut_bytes v h).2,
  (cut_bytes v h).3,
)

io_store_size_generic-fitting :
    (k len v : ℕ)
    → v < 2 ^ 64
    → v < 128 ^ suc k
    → io_store_size_generic len v ≡ fitting len (groups k v)
unfolding io_store_size_generic groups
io_store_size_generic-fitting k zero v w h = ground (arith, length-groups k v)
io_store_size_generic-fitting zero (suc len) v w h = ground (arith, has_above v)
io_store_size_generic-fitting (suc k) (suc len) v w h =
    ground (arith, has_above v, inner_byte v, io_store_size_generic-fitting k len (v / 128))

-- The unrolled store agrees with the generic loop on every value below 2 ^ 28, whatever the
-- space: the same bytes, or -1 from both.
pub io_store_size_unrolled-generic :
    (len v : ℕ) → v < 2 ^ 28 → io_store_size_unrolled len v ≡ io_store_size_generic len v
unfolding size_code
io_store_size_unrolled-generic len v h =
    io_store_size_unrolled-fitting len v h
    ∙ sym (io_store_size_generic-fitting 3 len v (omega arith) (omega arith))

groups-IsByte : (k v : ℕ) → v < 128 ^ suc k → All (λ b. b < 256) (groups k v)
unfolding groups
groups-IsByte zero v h = omega arith
groups-IsByte (suc k) v h = ground (arith, groups-IsByte k (v / 128))
