-- ===== src/Serialize/Answers.antt =====
-- The answers of io_parse_size() on buffers of any content.
use native.Mathlib.Nat.{pow-le-pow_right}
use tcp_striper.Base.{
  ℕ, zero, suc, ◌+◌, ◌*◌, ◌/◌, ◌%◌, ◌^◌, ◌≤◌, ◌<◌, ◌≡◌, refl, ◌∙◌, ap, ◌≢◌, ◌↔◌, [], ◌∷◌, ◌++◌,
  arith, ltb, ◌==◌, length, bit_or, bit_and, All, length-append, Bool-cases, inl, inr,
}
use tcp_striper.Serialize.{Bytes, done, more, bad, shl, io_parse_loop, io_parse_size}
use tcp_striper.Serialize.Store.{groups, size_code}
use tcp_striper.Serialize.Parse.{goes_on, low_seven, or_shifted, next_bound}

abbrev pub IsByte : ℕ → Type 0
IsByte b = b < 256

-- Bit 7 is set: the number goes on behind the byte.
abbrev pub GoesOn : ℕ → Type 0
GoesOn b = b / 128 % 2 ≡ 1

-- Past bit 28 nothing is accepted.
io_parse_loop_past :
    (buf : Bytes) (r off val n v : ℕ) → 28 < off → io_parse_loop buf r off val ≢ done n v
unfolding io_parse_loop
io_parse_loop_past [] r off val n v h e = ground arith
io_parse_loop_past (b ∷ bs) r off val n v h e =
    ground
      (arith, io_parse_loop_past bs (r + 1) (off + 7) (bit_or val (shl (bit_and b 0x7F) off)) n v)

last_bound_low : (val x off : ℕ) → val < 2 ^ off → x < 128 → off ≤ 21 → val + x * 2 ^ off < 2 ^ 32
last_bound_low val x off hv hx ho = grind (arith, pow-le-pow_right {n = 2} (omega arith) ho)

last_bound_high : (val x off : ℕ) → val < 2 ^ off → x < 16 → off ≡ 28 → val + x * 2 ^ off < 2 ^ 32
last_bound_high val x off hv hx ho = grind (arith, ap (λ (t : ℕ). 2 ^ t) ho)

io_parse_loop_bounds :
    (buf : Bytes) (j r off val n v : ℕ)
    → All IsByte buf
    → off ≡ 7 * j
    → j ≤ 4
    → val < 2 ^ off
    → io_parse_loop buf r off val ≡ done n v
    → (v < 2 ^ 32) × (r + 1 ≤ n) × (n ≤ r + length buf) × (n + j ≤ r + 5)
unfolding io_parse_loop
io_parse_loop_bounds [] j r off val n v bytes ho hj hv e = ground arith
io_parse_loop_bounds (b ∷ bs) j r off val n v bytes ho hj hv e =
    elim (Bool-cases (b / 128 % 2 == 0)) [
      | inl last ↦ ground (
        arith,
        goes_on b,
        or_shifted val b off hv,
        last_bound_low val b off hv,
        last_bound_high val b off hv,
      )
      | inr inner ↦ ground (
        arith,
        goes_on b,
        low_seven b,
        or_shifted val (b % 128) off hv (omega arith) (omega arith),
        next_bound val (b % 128) off hv (omega arith),
        io_parse_loop_past bs (r + 1) (off + 7) (bit_or val (shl (bit_and b 0x7F) off)) n v,
        io_parse_loop_bounds bs (j + 1) (r + 1) (off + 7) (bit_or val (shl (bit_and b 0x7F) off)) n
            v,
      )
    ]

-- A size that io_parse_size() reads from bytes (values below 256) is below 2 ^ 32, and takes
-- at least 1 and at most 5 of the bytes at hand.
pub io_parse_size_bounds :
    (buf : Bytes) (n v : ℕ)
    → All IsByte buf
    → io_parse_size buf ≡ done n v
    → (v < 2 ^ 32) × (1 ≤ n) × (n ≤ length buf) × (n ≤ 5)
unfolding io_parse_size
io_parse_size_bounds buf n v bytes e =
    omega (
      arith,
      io_parse_loop_bounds buf 0 0 0 0 n v bytes (omega arith) (omega arith) (omega arith) e,
    )

io_parse_loop_taken :
    (buf : Bytes) (j r off val n v : ℕ)
    → off ≡ 7 * j
    → io_parse_loop buf r off val ≡ done n v
    → (r + 1 ≤ n) × (n ≤ r + length buf) × (n + j ≤ r + 5)
unfolding io_parse_loop
io_parse_loop_taken [] j r off val n v ho e = ground arith
io_parse_loop_taken (b ∷ bs) j r off val n v ho e = ground (
  arith,
  io_parse_loop_taken bs (j + 1) (r + 1) (off + 7) (bit_or val (shl (bit_and b 0x7F) off)) n v,
)

-- What a size takes of a buffer of any content.
pub io_parse_size_taken :
    (buf : Bytes) (n v : ℕ) → io_parse_size buf ≡ done n v → (1 ≤ n) × (n ≤ length buf) × (n ≤ 5)
unfolding io_parse_size
io_parse_size_taken buf n v e = omega (arith, io_parse_loop_taken buf 0 0 0 0 n v refl e)

io_parse_loop-append :
    (buf rest : Bytes) (r off val n v : ℕ)
    → io_parse_loop buf r off val ≡ done n v
    → io_parse_loop (buf ++ rest) r off val ≡ done n v
unfolding io_parse_loop
io_parse_loop-append [] rest r off val n v e = ground arith
io_parse_loop-append (b ∷ bs) rest r off val n v e = ground (
  arith,
  io_parse_loop-append bs rest (r + 1) (off + 7) (bit_or val (shl (bit_and b 0x7F) off)) n v,
)

-- What follows a size in the buffer does not change how io_parse_size() reads it.
pub io_parse_size-append :
    (buf rest : Bytes) (n v : ℕ)
    → io_parse_size buf ≡ done n v
    → io_parse_size (buf ++ rest) ≡ done n v
unfolding io_parse_size
io_parse_size-append buf rest n v e = io_parse_loop-append buf rest 0 0 0 n v e

io_parse_loop-more :
    (buf : Bytes) (r off val : ℕ)
    → All GoesOn buf
    → off + 7 * length buf < 28
    → io_parse_loop buf r off val ≡ more
unfolding io_parse_loop
io_parse_loop-more [] r off val g h = ground arith
io_parse_loop-more (b ∷ bs) r off val g h = ground (
  arith,
  goes_on b,
  io_parse_loop-more bs (r + 1) (off + 7) (bit_or val (shl (bit_and b 0x7F) off)),
)

io_parse_loop-more_only :
    (buf : Bytes) (r off val : ℕ)
    → io_parse_loop buf r off val ≡ more
    → All GoesOn buf × (off + 7 * length buf < 28)
unfolding io_parse_loop
io_parse_loop-more_only [] r off val e = ground arith
io_parse_loop-more_only (b ∷ bs) r off val e = ground (
  arith,
  goes_on b,
  io_parse_loop-more_only bs (r + 1) (off + 7) (bit_or val (shl (bit_and b 0x7F) off)),
)

-- io_parse_size() answers 0 exactly when the buffer holds at most three bytes and each of them
-- says that the number goes on.
pub io_parse_size-more :
    (buf : Bytes) → (io_parse_size buf ≡ more) ↔ (All GoesOn buf × (length buf ≤ 3))
unfolding io_parse_size
io_parse_size-more buf = (
  λ e. (
    (io_parse_loop-more_only buf 0 0 0 e).0,
    omega (arith, (io_parse_loop-more_only buf 0 0 0 e).1),
  ),
  λ h. io_parse_loop-more buf 0 0 0 h.0 (omega arith),
)

groups_prefix :
    (k v x : ℕ) (front back : Bytes)
    → v < 128 ^ suc k
    → groups k v ≡ front ++ (x ∷ back)
    → All GoesOn front × (length front ≤ k)
unfolding groups
groups_prefix k v x [] back h e = (tt, omega arith)
groups_prefix zero v x (b ∷ front) back h e =
    absurd (omega (arith, ap length e, length-append front (x ∷ back)))
groups_prefix (suc k) v x (b ∷ front) back h e = elim (Bool-cases (ltb v 128)) [
  | inl small ↦ absurd (omega (arith, ap length (rw small at e), length-append front (x ∷ back)))
  | inr large ↦ ground (arith, rw large at e, groups_prefix k (v / 128) x front back (ground arith))
]

-- io_parse_size() answers 0 on every proper front part of the code of a size below 2 ^ 28.
pub io_parse_size-truncated :
    (v x : ℕ) (front back : Bytes)
    → v < 2 ^ 28
    → size_code v ≡ front ++ (x ∷ back)
    → io_parse_size front ≡ more
unfolding size_code
io_parse_size-truncated v x front back h e =
    (io_parse_size-more front).1 (groups_prefix 3 v x front back h e)

inner_round :
    (b : ℕ) (rest : Bytes) (r off val : ℕ)
    → GoesOn b
    → off ≤ 28
    → val < 2 ^ off
    → io_parse_loop (b ∷ rest) r off val
      ≡ io_parse_loop rest (r + 1) (off + 7) (val + b % 128 * 2 ^ off)
unfolding io_parse_loop
inner_round b rest r off val g ho hv =
    rw (low_seven b, or_shifted val (b % 128) off hv (omega arith) ho) (ground (arith, goes_on b))

fifth_byte :
    (b val : ℕ)
    → b < 16
    → val < 2 ^ 28
    → io_parse_loop (b ∷ []) 4 28 val ≡ done 5 (val + b * 2 ^ 28)
unfolding io_parse_loop
fifth_byte b val h hv = ground (arith, goes_on b, or_shifted val b 28 hv)

-- On four bytes that all say that the number goes on io_parse_size() returns -1, though a
-- fifth byte below 16 behind them makes it a size, the sum of the five groups.
pub io_parse_size-four :
    (a b c d e : ℕ)
    → All GoesOn (a ∷ b ∷ c ∷ d ∷ [])
    → e < 16
    → (io_parse_size (a ∷ b ∷ c ∷ d ∷ []) ≡ bad)
      × (io_parse_size (a ∷ b ∷ c ∷ d ∷ e ∷ [])
          ≡ done 5 (a % 128 + b % 128 * 2 ^ 7 + c % 128 * 2 ^ 14 + d % 128 * 2 ^ 21 + e * 2 ^ 28))
unfolding io_parse_size
io_parse_size-four a b c d e (ga, (gb, (gc, (gd, _)))) h = (
  four_rounds [] ∙ unfold io_parse_loop in refl,
  four_rounds (e ∷ []) ∙ fifth_byte e _ h (omega arith),
)
  where
    four_rounds :
        (rest : Bytes)
        → io_parse_loop (a ∷ b ∷ c ∷ d ∷ rest) 0 0 0
          ≡ io_parse_loop rest 4 28
              (a % 128 + b % 128 * 2 ^ 7 + c % 128 * 2 ^ 14 + d % 128 * 2 ^ 21)
    four_rounds rest =
        inner_round a (b ∷ c ∷ d ∷ rest) 0 0 0 ga (omega arith) (omega arith)
        ∙ inner_round b (c ∷ d ∷ rest) 1 7 (0 + a % 128 * 1) gb (omega arith) (omega arith)
        ∙ inner_round c (d ∷ rest) 2 14 _ gc (omega arith) (omega arith)
        ∙ inner_round d rest 3 21 _ gd (omega arith) (omega arith)
        ∙ ap (io_parse_loop rest 4 28) (omega arith)
