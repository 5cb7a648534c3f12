-- ===== src/Serialize.antt =====
-- src/io/src/io_serialize.c: sizes in 7-bit groups, the lowest group first, bit 7 set on every
-- byte but the last. `size_t` has 64 bits, `int` results that are no error are lengths, and
-- `none` is the result -1.
pub mod Masks
pub mod Store
pub mod Parse
pub mod Answers
pub mod RoundTrip
mod Tests
use mathlib.Core.Option
use tcp_striper.Base.{
  ℕ, zero, suc, ◌+◌, ◌-◌, ◌*◌, ◌/◌, ◌%◌, ◌^◌, Bool, not, ◌&&◌, ◌||◌, Option, none, some, List, [],
  ◌∷◌, ◌++◌, bit_and, bit_or, ltb, ◌==◌, if◌then◌else◌, length, drop,
}

abbrev pub Bytes : Type 0
Bytes = List ℕ

-- `val & mask` as a condition.
abbrev pub has_bits : ℕ → ℕ → Bool
has_bits val mask = not (bit_and val mask == 0)

-- The store into a `uint8_t`.
abbrev pub u8 : ℕ → ℕ
u8 x = x % 256

-- `val >>= 7`
abbrev pub shr7 : ℕ → ℕ
shr7 val = val / 128

-- The bytes that the branches of the unrolled version store.
abbrev pub one_byte : ℕ → Bytes
one_byte val = u8 val ∷ []

abbrev pub two_bytes : ℕ → Bytes
two_bytes val = u8 (bit_or val 0x80) ∷ u8 (shr7 val) ∷ []

abbrev pub three_bytes : ℕ → Bytes
three_bytes val = u8 (bit_or val 0x80) ∷ u8 (bit_or (shr7 val) 0x80) ∷ u8 (shr7 (shr7 val)) ∷ []

abbrev pub four_bytes : ℕ → Bytes
four_bytes val =
    u8 (bit_or val 0x80)
    ∷ u8 (bit_or (shr7 val) 0x80)
    ∷ u8 (bit_or (shr7 (shr7 val)) 0x80)
    ∷ u8 (shr7 (shr7 (shr7 val)))
    ∷ []

-- What is written from `buf` on; the result of the function is its length.
pub io_store_size_unrolled : ℕ → ℕ → Option Bytes
io_store_size_unrolled len val =
    if has_bits val 0xF000_0000
    then none
    else (if has_bits val 0x0FE0_0000
        then (if ltb len 4 then none else some (four_bytes val))
        else (if has_bits val 0x001F_C000
            then (if ltb len 3 then none else some (three_bytes val))
            else (if has_bits val 0x0000_3F80
                then (if ltb len 2 then none else some (two_bytes val))
                else (if ltb len 1 then none else some (one_byte val)))))

-- The loop of the generic version with `len - r` rounds left. `~0x7F` is an `int`, widened.
-- On a result of -1 it has written into `buf` too, which is left out.
pub io_store_size_generic : ℕ → ℕ → Option Bytes
io_store_size_generic zero val = none
io_store_size_generic (suc left) val =
    let rest =
      Option.map (λ bs. u8 (bit_or val 0x80) ∷ bs) (io_store_size_generic left (shr7 val)) in
    if has_bits val (2 ^ 64 - 0x80) then rest else some (one_byte val)

-- The branch for a NULL `buf`: the space required.
pub io_store_size_query : ℕ → Option ℕ
io_store_size_query val =
    if has_bits val 0xF000_0000
    then none
    else some (
        if has_bits val 0x0FE0_0000
        then 4
        else (if has_bits val 0x001F_C000 then 3 else (if has_bits val 0x0000_3F10 then 2 else 1)))

-- The stores of the unrolled version, done in the memory at `buf`.
abbrev pub stored : Bytes → Option Bytes → Option ℕ × Option Bytes
stored buf none = (none, some buf)
stored buf (some bs) = (some (length bs), some (bs ++ drop (length bs) buf))

-- The result, and the memory at `buf` afterwards. A `buf` of `none` is NULL.
pub io_store_size : Option Bytes → ℕ → ℕ → Option ℕ × Option Bytes
io_store_size none len val = (io_store_size_query val, none)
io_store_size (some buf) len val = stored buf (io_store_size_unrolled len val)

-- `bad` is -1, `more` is 0, and `done n val` is `n` with `*ret = val`.
pub data Parsed : Type 0 where
  done : ℕ → ℕ → Parsed
  more bad : Parsed

-- `x << off` on a `size_t`. C leaves `off` from 64 on undefined; the value shifted so is never
-- returned.
abbrev pub shl : ℕ → ℕ → ℕ
shl x off = x * 2 ^ off % 2 ^ 64

-- The list is `buf[r .. len)`.
pub io_parse_loop : Bytes → ℕ → ℕ → ℕ → Parsed
io_parse_loop [] r off val = if ltb off 28 then more else bad
io_parse_loop (oct ∷ rest) r off val =
    let next = io_parse_loop rest (r + 1) (off + 7) (bit_or val (shl (bit_and oct 0x7F) off)) in
    if has_bits oct 0x80
    then next
    else (if ltb off 28 || (off == 28 && ltb oct 0x10)
        then done (r + 1) (bit_or val (shl oct off))
        else bad)

-- The argument is `buf[0 .. len)`.
pub io_parse_size : Bytes → Parsed
unfolding io_parse_loop
io_parse_size buf = io_parse_loop buf 0 0 0
