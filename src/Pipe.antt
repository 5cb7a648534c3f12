-- ===== src/Pipe.antt =====
-- src/io/inc/libp/io_pipe.h and src/io/src/pipe_misc.h: the state bits of a pipe, the events of its
-- callback, the operations that every pipe offers, and the helpers on the bits.
pub mod Misc
pub mod Contract
pub mod Sample
use tcp_striper.Base.{
  ℕ, ◌+◌, ◌-◌, ◌*◌, ◌%◌, ◌^◌, Bool, true, false, Option, bit_and, bit_or, if◌then◌else◌,
}
use tcp_striper.Serialize.{Bytes}
use tcp_striper.Run.{Run}

-- The bit fields of `struct io_pipe`.
pub record Flags : Type 0 where
  pub ready : Bool
  pub broken : Bool
  pub readable : Bool
  pub fin_rcvd : Bool
  pub writable : Bool
  pub fin_sent : Bool

-- A mask of `enum io_event`, a field for each of its bits.
pub record IoEvents : Type 0 where
  pub ready : Bool
  pub broken : Bool
  pub readable : Bool
  pub writable : Bool
  pub fin_sent : Bool

abbrev pub no_events : IoEvents
no_events = record {
  ready = false;
  broken = false;
  readable = false;
  writable = false;
  fin_sent = false;
}

abbrev pub no_flags : Flags
no_flags = record {
  ready = false;
  broken = false;
  readable = false;
  fin_rcvd = false;
  writable = false;
  fin_sent = false;
}

-- The function pointers of `struct io_pipe`, over a state `S` that holds the pipe and all that it
-- uses. `recv` is given the length of the buffer and returns what is put there: `none` is -1,
-- and no bytes are a result of 0. `send` returns the number of bytes taken, `none` for -1.
-- `send_fin` returns whether its result is not negative.
pub record IoPipe (S : Type 0) : Type 0 where
  pub flags : S → Flags
  pub init : S → Run S
  pub recv : S → ℕ → Run (S × Option Bytes)
  pub send : S → Bytes → Run (S × Option ℕ)
  pub send_fin : S → Run (S × Bool)

-- `int f : 1` holds 0 or -1, and a shift of it is taken modulo 2 ^ 32.
abbrev pub bit_field : Bool → ℕ
bit_field b = if b then 2 ^ 32 - 1 else 0

abbrev pub shifted : Bool → ℕ → ℕ
shifted b k = bit_field b * 2 ^ k % 2 ^ 32

pub get_pipe_state : Flags → ℕ
get_pipe_state p = bit_or (bit_and (shifted p.ready 0) 0x01) (
    bit_or (bit_and (shifted p.broken 1) 0x02) (
      bit_or (bit_and (shifted p.readable 2) 0x04) (
        bit_or (bit_and (shifted p.writable 4) 0x08)
          (bit_or (bit_and (shifted p.fin_sent 8) 0x10) (bit_and (shifted p.fin_rcvd 16) 0x20)))))

unfoldable pub clone_pipe_state : Flags → Flags → Flags
clone_pipe_state dst src = record dst {
  ready = src.ready;
  broken = src.broken;
  readable = src.readable;
  writable = src.writable;
  fin_sent = src.fin_sent;
  fin_rcvd = src.fin_rcvd;
}

unfoldable pub tag_pipe_as_broken : Flags → Flags
tag_pipe_as_broken p = record p { broken = true; readable = false; writable = false }
