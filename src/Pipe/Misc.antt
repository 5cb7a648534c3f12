-- ===== src/Pipe/Misc.antt =====
-- get_pipe_state() (src/io/src/pipe_misc.h) bit by bit.
use tcp_striper.Base.{ℕ, ◌+◌, ◌*◌, ◌≡◌, refl, Bool, true, false, if◌then◌else◌, bit_and, bit_or}
use tcp_striper.Pipe.{Flags, shifted, get_pipe_state}

abbrev pub digit : Bool → ℕ
digit b = if b then 1 else 0

-- The masks of `writable`, `fin_sent` and `fin_rcvd` miss the places that these are shifted to.
missed :
    (b : Bool)
    → (bit_and (shifted b 4) 0x08 ≡ 0)
      × (bit_and (shifted b 8) 0x10 ≡ 0)
      × (bit_and (shifted b 16) 0x20 ≡ 0)
missed true = (refl, refl, refl)
missed false = (refl, refl, refl)

joined :
    (a b c : Bool)
    → bit_or
        (bit_and (shifted a 0) 0x01)
        (bit_or (bit_and (shifted b 1) 0x02) (bit_or (bit_and (shifted c 2) 0x04) 0))
      ≡ digit a + 2 * digit b + 4 * digit c
joined true true true = refl
joined true true false = refl
joined true false true = refl
joined true false false = refl
joined false true true = refl
joined false true false = refl
joined false false true = refl
joined false false false = refl

-- get_pipe_state() shows the bits `ready`, `broken` and `readable` as 1, 2 and 4, and shows no
-- other bit.
pub get_pipe_state-eq :
    (p : Flags) → get_pipe_state p ≡ digit p.ready + 2 * digit p.broken + 4 * digit p.readable
unfolding get_pipe_state
get_pipe_state-eq p =
    rw ((missed p.writable).0, (missed p.fin_sent).1, (missed p.fin_rcvd).2)
      (joined p.ready p.broken p.readable)
