-- ===== src/Serialize/RoundTrip.antt =====
-- io_store_size() as it is called: into a buffer, or with NULL to ask for the space.
use tcp_striper.Base.{
  ℕ, ◌/◌, ◌%◌, ◌^◌, ◌≤◌, ◌<◌, ◌≡◌, refl, ◌∙◌, ap, ◌≢◌, ◌↔◌, ◌⊎◌, none, some, ◌++◌, arith, length,
  length-append, length-drop, drop, drop-append_exact,
}
use tcp_striper.Serialize.{Bytes, done, stored, io_store_size_query, io_store_size, io_parse_size}
use tcp_striper.Serialize.Masks.{has_top, has_fourth, has_third, has_query_second}
use tcp_striper.Serialize.Store.{
  size_code, length-size_code, fitting, io_store_size_unrolled-fitting, io_store_size_unrolled-cut,
  size_code-one, size_code-two, size_code-three, size_code-four,
}
use tcp_striper.Serialize.Parse.{io_parse_size-size_code}

-- The branch that is taken on a value below 2 ^ 28.
pub io_store_size-fits :
    (buf : Bytes) (len v : ℕ)
    → v < 2 ^ 28
    → length (size_code v) ≤ len
    → io_store_size (some buf) len v
      ≡ (some (length (size_code v)), some (size_code v ++ drop (length (size_code v)) buf))
unfolding io_store_size
io_store_size-fits buf len v h fits =
    ap (stored buf) (io_store_size_unrolled-fitting len v h ∙ not_less)
  where
    not_less : fitting len (size_code v) ≡ some (size_code v)
    not_less = ground arith

-- A size below 2 ^ 28 that io_store_size() stores into a buffer of at least 4 bytes, told so,
-- is read back by io_parse_size() from there with the same number of bytes, however the buffer
-- goes on; the buffer keeps its length and what lies behind the size.
pub io_parse_size-io_store_size :
    (buf : Bytes) (len v : ℕ)
    → v < 2 ^ 28
    → 4 ≤ len
    → len ≤ length buf
    → (n : ℕ) × (buf' : Bytes) × (io_store_size (some buf) len v ≡ (some n, some buf'))
      × (io_parse_size buf' ≡ done n v)
      × (length buf' ≡ length buf)
      × (drop n buf' ≡ drop n buf)
io_parse_size-io_store_size buf len v h room within =
    let code = size_code v in
    let n = length code in
    (
      n,
      code ++ drop n buf,
      io_store_size-fits buf len v h (omega (arith, length-size_code v)),
      io_parse_size-size_code v (drop n buf) h,
      omega (arith, length-append code (drop n buf), length-drop n buf, length-size_code v),
      drop-append_exact n code (drop n buf) refl,
    )

-- A value from 2 ^ 32 on whose bits 28 to 31 are clear is stored into 4 bytes without an
-- error, and what io_parse_size() reads back is its lowest 28 bits, another value.
pub io_store_size-wraps :
    (buf : Bytes) (v : ℕ)
    → 2 ^ 32 ≤ v
    → v / 2 ^ 28 % 16 ≡ 0
    → (n : ℕ) × (buf' : Bytes) × (io_store_size (some buf) 4 v ≡ (some n, some buf'))
      × (io_parse_size buf' ≡ done n (v % 2 ^ 28))
      × (v % 2 ^ 28 ≢ v)
unfolding io_store_size
io_store_size-wraps buf v big clear =
    let low = v % 2 ^ 28 in
    let code = size_code low in
    let n = length code in
    (
      n,
      code ++ drop n buf,
      ap (stored buf) (io_store_size_unrolled-cut 4 v clear)
          ∙ io_store_size-fits buf 4 low (omega arith) (omega (arith, length-size_code low)),
      io_parse_size-size_code low (drop n buf) (omega arith),
      omega arith,
    )

-- The values for which the space that is asked for by a NULL buffer is the space that is used.
abbrev pub IsJudged : ℕ → Type 0
IsJudged v = (256 ≤ v) ⊎ ((v < 128) × (v / 16 % 2 ≡ 0) ⊎ (128 ≤ v) × (v / 16 % 2 ≡ 1))

-- Below 2 ^ 28, io_store_size() with a NULL buffer returns the number of bytes of the code of
-- a value exactly for the values from 256 on, those below 128 whose bit 4 is clear and those
-- from 128 to 255 whose bit 4 is set.
pub io_store_size_query-eq_iff :
    (v : ℕ) → v < 2 ^ 28 → ((io_store_size none 0 v).0 ≡ some (length (size_code v))) ↔ IsJudged v
unfolding io_store_size io_store_size_query
io_store_size_query-eq_iff v h = ground (
  arith,
  has_top v,
  has_fourth v,
  has_third v,
  has_query_second v,
  size_code-one v,
  size_code-two v,
  size_code-three v,
  size_code-four v,
)
