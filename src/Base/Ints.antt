-- ===== src/Base/Ints.antt =====
-- A `size_t` that the code (src/io/src/io_pipe_atx.c, src/io/src/io_pipe_dgm.c) converts to an `int`
-- of 32 bits.
use Prim.Native.Nat.{ℕ, ◌%◌, ◌^◌, ◌<◌}
use mathlib.Core.Path.{◌≡◌, ◌∙◌, ap}
use mathlib.Core.Bool.{Bool, false}
use mathlib.Core.Option.{Option, none, some}
use native.Mathlib.Omega.{arith}
use tcp_striper.Base.Tests.{ltb, if◌then◌else◌, if_true}

-- The number is cut to 32 bits; `none` is a negative one.
unfoldable pub as_int : ℕ → Option ℕ
as_int n = if ltb (n % 2 ^ 32) (2 ^ 31) then some (n % 2 ^ 32) else none

-- `r < i` for an `int` that is not negative.
abbrev pub below_int : ℕ → Option ℕ → Bool
below_int r none = false
below_int r (some n) = ltb r n

pub as_int-small : (n : ℕ) → n < 2 ^ 31 → as_int n ≡ some n
unfolding as_int
as_int-small n h =
    let e : n % 2 ^ 32 ≡ n = omega arith in
    if_true (ltb (n % 2 ^ 32) (2 ^ 31)) _ (ground (arith, e, h)) ∙ ap some e
