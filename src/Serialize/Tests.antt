-- ===== src/Serialize/Tests.antt =====
-- Runs of io_store_size() and io_parse_size().
use tcp_striper.Base.{
  ℕ, ◌+◌, ◌*◌, ◌%◌, ◌^◌, ◌≤◌, ◌<◌, ◌≡◌, refl, ◌≢◌, ◌↔◌, none, some, [], ◌∷◌, arith, length, drop,
}
use tcp_striper.Serialize.{
  Bytes, done, bad, io_store_size, io_store_size_unrolled, io_store_size_generic, io_parse_size,
}
use tcp_striper.Serialize.Store.{size_code, io_store_size_unrolled-generic}
use tcp_striper.Serialize.Answers.{io_parse_size_bounds, io_parse_size-four}
use tcp_striper.Serialize.RoundTrip.{
  io_parse_size-io_store_size, io_store_size-wraps, IsJudged, io_store_size_query-eq_iff,
}

abbrev six : Bytes
six = 1 ∷ 2 ∷ 3 ∷ 4 ∷ 5 ∷ 6 ∷ []

stores_300 : (io_store_size (some six) 6 300).1 ≡ some (172 ∷ 2 ∷ 3 ∷ 4 ∷ 5 ∷ 6 ∷ [])
unfolding io_store_size io_store_size_unrolled
stores_300 = refl

parses_300 : io_parse_size (172 ∷ 2 ∷ 9 ∷ []) ≡ done 2 300
unfolding io_parse_size
parses_300 = refl

io_parse_size-io_store_size_example :
    (n : ℕ) × (buf' : Bytes) × (io_store_size (some six) 6 300 ≡ (some n, some buf'))
    × (io_parse_size buf' ≡ done n 300)
    × (length buf' ≡ length six)
    × (drop n buf' ≡ drop n six)
io_parse_size-io_store_size_example =
    io_parse_size-io_store_size six 6 300 (omega arith) (omega arith) (omega arith)

io_store_size_unrolled-generic_example : io_store_size_unrolled 1 300 ≡ io_store_size_generic 1 300
io_store_size_unrolled-generic_example = io_store_size_unrolled-generic 1 300 (omega arith)

io_parse_size_bounds_example : (300 < 2 ^ 32) × (1 ≤ 2) × (2 ≤ 3) × (2 ≤ 5)
io_parse_size_bounds_example =
    io_parse_size_bounds (172 ∷ 2 ∷ 9 ∷ []) 2 300 (omega arith) parses_300

io_parse_size-four_example :
    (io_parse_size (128 ∷ 129 ∷ 130 ∷ 131 ∷ []) ≡ bad)
    × (io_parse_size (128 ∷ 129 ∷ 130 ∷ 131 ∷ 15 ∷ [])
        ≡ done 5
            (128 % 128 + 129 % 128 * 2 ^ 7 + 130 % 128 * 2 ^ 14 + 131 % 128 * 2 ^ 21 + 15 * 2 ^ 28))
io_parse_size-four_example = io_parse_size-four 128 129 130 131 15 (omega arith) (omega arith)

io_store_size-wraps_example :
    (n : ℕ) × (buf' : Bytes) × (io_store_size (some six) 4 (2 ^ 32 + 300) ≡ (some n, some buf'))
    × (io_parse_size buf' ≡ done n ((2 ^ 32 + 300) % 2 ^ 28))
    × ((2 ^ 32 + 300) % 2 ^ 28 ≢ 2 ^ 32 + 300)
io_store_size-wraps_example = io_store_size-wraps six (2 ^ 32 + 300) (omega arith) refl

io_store_size_query-eq_iff_example :
    ((io_store_size none 0 160).0 ≡ some (length (size_code 160))) ↔ IsJudged 160
io_store_size_query-eq_iff_example = io_store_size_query-eq_iff 160 (omega arith)
