-- ===== src/Serialize/Masks.antt =====
-- The masks of src/io/src/io_serialize.c as arithmetic.
use tcp_striper.Base.{
  ℕ, ◌+◌, ◌-◌, ◌*◌, ◌/◌, ◌%◌, ◌^◌, ◌<◌, ◌≡◌, ap, ◌∙◌, not, bit_and, arith, ◌==◌, bit_and_ones,
  bit_and-shifted, bit_and_even, bit_and_step, ◌&&◌, min,
}
use tcp_striper.Serialize.{has_bits}

-- Digits `k` to `k + w - 1` of a number, read by the mask with ones there.
bit_and_field :
    (k w a hi lo : ℕ)
    → a ≡ hi * 2 ^ k + lo
    → lo < 2 ^ k
    → bit_and a ((2 ^ w - 1) * 2 ^ k) ≡ hi % 2 ^ w * 2 ^ k
bit_and_field k w a hi lo e h =
    ap (λ (t : ℕ). bit_and t ((2 ^ w - 1) * 2 ^ k)) e
    ∙ bit_and-shifted k hi lo (2 ^ w - 1) h
    ∙ ap (λ (t : ℕ). t * 2 ^ k) (bit_and_ones w hi)

module _ (v : ℕ) where
  top : bit_and v 0xF000_0000 ≡ v / 2 ^ 28 % 16 * 2 ^ 28
  top = bit_and_field 28 4 v (v / 2 ^ 28) (v % 2 ^ 28) (omega arith) (omega arith)

  fourth : bit_and v 0x0FE0_0000 ≡ v / 2 ^ 21 % 128 * 2 ^ 21
  fourth = bit_and_field 21 7 v (v / 2 ^ 21) (v % 2 ^ 21) (omega arith) (omega arith)

  third : bit_and v 0x001F_C000 ≡ v / 2 ^ 14 % 128 * 2 ^ 14
  third = bit_and_field 14 7 v (v / 2 ^ 14) (v % 2 ^ 14) (omega arith) (omega arith)

  second : bit_and v 0x3F80 ≡ v / 2 ^ 7 % 128 * 2 ^ 7
  second = bit_and_field 7 7 v (v / 2 ^ 7) (v % 2 ^ 7) (omega arith) (omega arith)

  above : bit_and v (2 ^ 64 - 0x80) ≡ v / 2 ^ 7 % 2 ^ 57 * 2 ^ 7
  above = bit_and_field 7 57 v (v / 2 ^ 7) (v % 2 ^ 7) (omega arith) (omega arith)

  pub has_top : has_bits v 0xF000_0000 ≡ not (v / 2 ^ 28 % 16 == 0)
  has_top = ground (arith, top)

  pub has_fourth : has_bits v 0x0FE0_0000 ≡ not (v / 2 ^ 21 % 128 == 0)
  has_fourth = ground (arith, fourth)

  pub has_third : has_bits v 0x001F_C000 ≡ not (v / 2 ^ 14 % 128 == 0)
  has_third = ground (arith, third)

  pub has_second : has_bits v 0x3F80 ≡ not (v / 2 ^ 7 % 128 == 0)
  has_second = ground (arith, second)

  pub has_above : has_bits v (2 ^ 64 - 0x80) ≡ not (v / 2 ^ 7 % 2 ^ 57 == 0)
  has_above = ground (arith, above)

  query_second : bit_and v 0x3F10 ≡ v / 2 ^ 8 % 64 * 2 ^ 8 + v / 16 % 2 * 16
  query_second = omega (
    arith,
    bit_and_even v 0x1F88,
    bit_and_even (v / 2) 0xFC4,
    bit_and_even (v / 2 / 2) 0x7E2,
    bit_and_even (v / 2 / 2 / 2) 0x3F1,
    odd (v / 2 / 2 / 2 / 2),
    bit_and_field 3 6 (v / 2 / 2 / 2 / 2 / 2) (v / 2 ^ 8) (v / 2 ^ 5 % 8) (omega arith)
        (omega arith),
  )
    where
      odd : (w : ℕ) → bit_and w 0x3F1 ≡ bit_and (w / 2) 0x1F8 * 2 + min (w % 2) 1
      odd w = bit_and_step w 0x3F1

  pub has_query_second : has_bits v 0x3F10 ≡ not ((v / 2 ^ 8 % 64 == 0) && (v / 16 % 2 == 0))
  has_query_second = ground (arith, query_second)
