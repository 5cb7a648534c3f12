-- ===== src/Dgm.antt =====
-- src/io/src/io_pipe_dgm.c: a pipe over an atomic carrier that sends datagrams, each behind its size,
-- and puts them together again from the bytes that come in.
pub mod Frames
pub mod Adjust
pub mod Passing
pub mod Receive
pub mod Send
pub mod Faults
pub mod Cut
pub mod Hostile
mod Tests
use tcp_striper.Base.{
  ℕ, ◌+◌, ◌-◌, Bool, true, false, not, ◌&&◌, Option, none, some, List, [], ◌∷◌, as_int, length,
  take, drop, ltb, leb, ◌==◌, if◌then◌else◌,
}
use tcp_striper.Serialize.{Bytes, Parsed, done, more, bad, io_store_size, io_parse_size}
use tcp_striper.Run.{Run, ok, aborted, assert, ◌>>=◌, ◌>>◌}
use tcp_striper.Buffer.{IoBuffer, write_at, alloc_io_buffer, append_bytes, consume}
use tcp_striper.Buffer.Contents.{contents}
use tcp_striper.Pipe.{Flags, IoEvents, no_flags, IoPipe, clone_pipe_state, tag_pipe_as_broken}
use tcp_striper.Atx.{AtxPipe, new_atx_pipe}

-- `io` is the state of the carrier.
pub record DgmPipe (S : Type 0) : Type 0 where
  pub base : Flags
  pub io : S
  pub max_size : ℕ
  pub max_hdr_size : ℕ
  pub rx : Option IoBuffer

abbrev pub new_dgm_pipe : {S : Type 0} → S → ℕ → DgmPipe (AtxPipe S)
new_dgm_pipe s max_size = record {
  base = no_flags;
  io = new_atx_pipe s;
  max_size = max_size;
  max_hdr_size = 5;
  rx = none;
}

-- `int r = dgm_size`, for a datagram of `dgm_size` bytes in `buf`; io_parse_size() reads no size from
-- 2 ^ 32 on, and one from 2 ^ 31 on is a negative result.
abbrev pub as_result : Bytes → Option Bytes
as_result dgm = elim (as_int (length dgm)) [ none ↦ none | some r ↦ some dgm ]

-- The result of process_rx(): -1; or 0, with what it leaves in `*dgm_size`; or a positive number,
-- with the datagram copied to `buf` and the buffer behind it.
pub data Processed : Type 0 where
  malformed : Processed
  short : ℕ → Processed
  extracted : IoBuffer → Bytes → Processed

-- The rest of process_rx() on the result of io_parse_size(). The copy to `buf` is not checked against
-- its length: an overrun is a datagram that is longer than `buf`.
unfoldable pub process_parsed : ℕ → IoBuffer → Parsed → Processed
process_parsed max_size rx bad = malformed
process_parsed max_size rx more = short 0
process_parsed max_size rx (done r dgm_size) =
    if ltb max_size dgm_size
    then malformed
    else (if ltb rx.size (r + dgm_size)
        then short dgm_size
        else extracted (consume rx (r + dgm_size)) (take dgm_size (drop r (contents rx))))

-- The length of `buf` is an argument of process_rx() that it does not use.
unfoldable pub process_rx : ℕ → IoBuffer → Processed
unfolding process_parsed
process_rx max_size rx = process_parsed max_size rx (io_parse_size (contents rx))

-- The branch of adjust_rx() that moves the bytes in use to the front.
unfoldable pub to_front : IoBuffer → IoBuffer
to_front rx = record rx {
  head = 0;
  bytes =
      if not (rx.size == 0) && not (rx.head == 0)
      then write_at 0 (contents rx) rx.bytes
      else rx.bytes;
}

unfoldable pub adjust_rx : IoBuffer → ℕ → Run IoBuffer
unfolding to_front
adjust_rx rx min_cap =
    if ltb rx.capacity min_cap
    then alloc_io_buffer min_cap (some (contents rx))
    else ok (to_front rx)

module _ {S : Type 0} (io : IoPipe S) where
  abbrev pub dgm_pipe_clone_state : DgmPipe S → DgmPipe S
  dgm_pipe_clone_state p = record p { base = clone_pipe_state p.base (io.flags p.io) }

  unfoldable pub dgm_pipe_init : DgmPipe S → Run (DgmPipe S)
  dgm_pipe_init p = do s ← io.init p.io; ok (dgm_pipe_clone_state (record p { io = s }))

  -- The two ends of dgm_pipe_recv().
  abbrev pub pass : DgmPipe S → IoBuffer → Option Bytes → DgmPipe S × Option Bytes
  pass p rx r = (dgm_pipe_clone_state (record p { rx = if rx.size == 0 then none else some rx }), r)

  abbrev pub err : DgmPipe S → DgmPipe S × Option Bytes
  err p = (record p { rx = none; base = tag_pipe_as_broken p.base }, none)

  -- What process_rx() makes of the bytes read.
  unfoldable pub after_read : DgmPipe S → IoBuffer → Processed → DgmPipe S × Option Bytes
  after_read p rx malformed = err p
  after_read p rx (short dgm_size) = pass p rx none
  after_read p rx (extracted rx' dgm) = pass p rx' (as_result dgm)

  -- The result of the carrier's recv().
  unfoldable pub after_recv : DgmPipe S → IoBuffer → Option Bytes → DgmPipe S × Option Bytes
  unfolding after_read
  after_recv p rx none = pass p rx none
  after_recv p rx (some []) = if not (rx.size == 0) then err p else pass p rx (some [])
  after_recv p rx (some (b ∷ bs)) =
      let rx' = append_bytes rx (b ∷ bs) in after_read p rx' (process_rx p.max_size rx')

  -- "OK, read a bit more"
  unfoldable pub read_more : DgmPipe S → IoBuffer → Run (DgmPipe S × Option Bytes)
  unfolding after_recv
  read_more p rx = do
    assert (rx.head == 0)
    assert (ltb rx.size rx.capacity)
    (s, r) ← io.recv p.io (rx.capacity - rx.size)
    ok (after_recv (record p { io = s }) rx r)

  -- What process_rx() makes of the leftovers.
  unfoldable pub after_leftovers :
      DgmPipe S → ℕ → IoBuffer → Processed → Run (DgmPipe S × Option Bytes)
  unfolding read_more
  after_leftovers p len rx malformed = ok (err p)
  after_leftovers p len rx (extracted rx' dgm) = ok (pass p rx' (as_result dgm))
  after_leftovers p len rx (short dgm_size) =
      if not (dgm_size == 0) && ltb len dgm_size
      then ok (err p)
      else (do rx' ← adjust_rx rx (p.max_hdr_size + len); read_more p rx')

  unfoldable pub receive : DgmPipe S → ℕ → Option IoBuffer → Run (DgmPipe S × Option Bytes)
  unfolding read_more after_leftovers
  receive p len none = do rx ← alloc_io_buffer (p.max_hdr_size + len) none; read_more p rx
  receive p len (some rx) = after_leftovers p len rx (process_rx p.max_size rx)

  unfoldable pub dgm_pipe_recv : DgmPipe S → ℕ → Run (DgmPipe S × Option Bytes)
  unfolding receive
  dgm_pipe_recv p len = if p.base.broken then ok (p, none) else receive p len p.rx

  -- `(r > 0) ? len : -1`, and the assertion before it.
  abbrev pub whole_or_none : ℕ → Option ℕ → Bool
  whole_or_none size none = true
  whole_or_none size (some r) = r == size

  abbrev pub send_result : ℕ → Option ℕ → Option ℕ
  send_result len none = none
  send_result len (some r) = if ltb 0 r then as_int len else none

  unfoldable pub send_framed : DgmPipe S → IoBuffer → ℕ → Run (DgmPipe S × Option ℕ)
  send_framed p dgm len = do
    (s, r) ← io.send p.io (contents dgm)
    assert (whole_or_none dgm.size r)
    ok (dgm_pipe_clone_state (record p { io = s }), send_result len r)

  -- The rest of dgm_pipe_send() on what io_store_size() returns and leaves in the memory.
  unfoldable pub after_header :
      DgmPipe S → Bytes → IoBuffer → Option ℕ × Option Bytes → Run (DgmPipe S × Option ℕ)
  unfolding send_framed
  after_header p buf dgm (some r, some bytes) = do
    assert (leb (r + length buf) dgm.capacity)
    send_framed p (record dgm { bytes = write_at r buf bytes; size = r + length buf }) (length buf)
  after_header p buf dgm (none, _) = ok (record p { base = tag_pipe_as_broken p.base }, none)
  after_header p buf dgm (some r, none) = aborted

  unfoldable pub dgm_pipe_send : DgmPipe S → Bytes → Run (DgmPipe S × Option ℕ)
  unfolding after_header
  dgm_pipe_send p buf = if not p.base.writable then ok (p, none) else (do
    dgm ← alloc_io_buffer (length buf + p.max_hdr_size) none
    after_header p buf dgm (io_store_size (some dgm.bytes) dgm.capacity (length buf)))

  unfoldable pub dgm_pipe_send_fin : DgmPipe S → Run (DgmPipe S × Bool)
  dgm_pipe_send_fin p = do
    (s, r) ← io.send_fin p.io
    ok (dgm_pipe_clone_state (record p { io = s }), r)

  -- The carrier's discard() is an argument; what is left of the rest is freed.
  abbrev pub dgm_pipe_discard : {V : Type 0} → (S → V) → DgmPipe S → V
  dgm_pipe_discard discard p = discard p.io

  -- Called by the carrier after its bits have changed; the events are passed on.
  unfoldable pub dgm_pipe_on_activity : IoEvents → DgmPipe S → DgmPipe S × IoEvents
  dgm_pipe_on_activity events p = (dgm_pipe_clone_state p, events)

  abbrev pub dgm_pipe : IoPipe (DgmPipe S)
  dgm_pipe = record {
    flags = λ p. p.base;
    init = dgm_pipe_init;
    recv = dgm_pipe_recv;
    send = dgm_pipe_send;
    send_fin = dgm_pipe_send_fin;
  }
