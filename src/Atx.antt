-- ===== src/Atx.antt =====
-- src/io/src/io_pipe_atx.c: a pipe over a carrier pipe that sends a packet whole or not at all. What
-- the carrier does not take at once is kept, and goes out when the carrier can be written again.
pub mod Atomic
pub mod Flush
pub mod Fin
pub mod Tests
use tcp_striper.Base.{
  ℕ, ◌-◌, Bool, true, false, not, ◌&&◌, ◌||◌, Option, none, some, List, as_int, below_int, length,
  drop, ltb, ◌==◌, if◌then◌else◌, is_some,
}
use tcp_striper.Serialize.{Bytes}
use tcp_striper.Run.{Run, ok, assert, ◌>>=◌, ◌>>◌}
use tcp_striper.Buffer.{IoBuffer, alloc_io_buffer, consume}
use tcp_striper.Buffer.Contents.{contents}
use tcp_striper.Pipe.{Flags, IoEvents, no_flags, IoPipe, clone_pipe_state}

-- `io` is the state of the carrier.
pub record AtxPipe (S : Type 0) : Type 0 where
  pub base : Flags
  pub io : S
  pub pending : Option IoBuffer
  pub want_fin : Bool

pub new_atx_pipe : {S : Type 0} → S → AtxPipe S
new_atx_pipe s = record { base = no_flags; io = s; pending = none; want_fin = false }

-- `if (! events) return;`
abbrev pub has_event : IoEvents → Bool
has_event e = e.ready || (e.broken || (e.readable || (e.writable || e.fin_sent)))

abbrev pub drop_writable : IoEvents → IoEvents
drop_writable e = record e { writable = false }

module _ {S : Type 0} (io : IoPipe S) where
  -- The bits that the pipe shows: those of the carrier, but not writable while bytes are pending.
  abbrev pub shown : Flags → Option IoBuffer → Flags
  shown carrier none = carrier
  shown carrier (some b) = record carrier { writable = false }

  unfoldable pub atx_pipe_clone_state : AtxPipe S → AtxPipe S
  unfolding clone_pipe_state
  atx_pipe_clone_state p = record p {
    base = shown (clone_pipe_state p.base (io.flags p.io)) p.pending;
  }

  unfoldable pub atx_pipe_init : AtxPipe S → Run (AtxPipe S)
  atx_pipe_init p = do s ← io.init p.io; ok (atx_pipe_clone_state (record p { io = s }))

  unfoldable pub atx_pipe_recv : AtxPipe S → ℕ → Run (AtxPipe S × Option Bytes)
  atx_pipe_recv p len = do
    (s, r) ← io.recv p.io len
    ok (atx_pipe_clone_state (record p { io = s }), r)

  -- The rest of atx_pipe_send() on the carrier's result, with the length as an `int` in
  -- `return len` and in the assertion.
  unfoldable pub after_send : AtxPipe S → Bytes → Option ℕ → Run (AtxPipe S × Option ℕ)
  after_send p buf none = ok (p, none)
  after_send p buf (some r) = if r == length buf then ok (p, as_int (length buf)) else (do
    assert (below_int r (as_int (length buf)))
    assert (not p.base.writable)
    pending ← alloc_io_buffer (length buf - r) (some (drop r buf))
    ok (record p { pending = some pending }, as_int (length buf)))

  unfoldable pub atx_pipe_send : AtxPipe S → Bytes → Run (AtxPipe S × Option ℕ)
  unfolding after_send
  atx_pipe_send p buf = if is_some p.pending then ok (p, none) else (do
    (s, r) ← io.send p.io buf
    after_send (atx_pipe_clone_state (record p { io = s })) buf r)

  unfoldable pub atx_pipe_send_fin : AtxPipe S → Run (AtxPipe S × Bool)
  atx_pipe_send_fin p = do
    assert (not p.base.fin_sent && not p.want_fin)
    if is_some p.pending
        then ok (record p { want_fin = true }, true)
        else (do (s, r) ← io.send_fin p.io; ok (atx_pipe_clone_state (record p { io = s }), r))

  -- The result of the carrier's send() on the pending bytes.
  unfoldable pub flushed : AtxPipe S → IoBuffer → IoEvents → Option ℕ → Run (AtxPipe S × IoEvents)
  flushed p buf events none =
      ok (p, record events { broken = events.broken || (io.flags p.io).broken; writable = false })
  flushed p buf events (some r) =
      if ltb r buf.size
      then ok (record p { pending = some (consume buf r) }, drop_writable events)
      else (do
        assert (r == buf.size)
        ok (
          record p { pending = none },
          if (io.flags p.io).writable then events else drop_writable events,
        ))

  -- "execute pending shutdown()"
  unfoldable pub pending_fin : AtxPipe S × IoEvents → Run (AtxPipe S × IoEvents)
  pending_fin (p, events) =
      if not (is_some p.pending) && p.want_fin
      then (do
        (s, r) ← io.send_fin p.io
        ok (
          record p { io = s },
          record events {
            broken = events.broken || (not r && (io.flags s).broken);
            writable = false;
          },
        ))
      else ok (p, events)

  unfoldable pub flush : AtxPipe S → IoBuffer → IoEvents → Run (AtxPipe S × IoEvents)
  unfolding flushed pending_fin
  flush p buf events = do
    (s, r) ← io.send p.io (contents buf)
    q ← flushed (record p { io = s }) buf events r
    pending_fin q

  -- The events for the callback; `none` is no call of it.
  abbrev pub told : AtxPipe S × IoEvents → AtxPipe S × Option IoEvents
  told (p, events) = (atx_pipe_clone_state p, if has_event events then some events else none)

  -- The step of atx_pipe_on_activity() that sends what is pending, if there is anything.
  unfoldable pub flush_pending : AtxPipe S → Option IoBuffer → IoEvents → Run (AtxPipe S × IoEvents)
  flush_pending p none events = ok (p, events)
  flush_pending p (some buf) events = if events.writable then flush p buf events else ok (p, events)

  -- Called by the carrier after its bits have changed.
  unfoldable pub atx_pipe_on_activity : IoEvents → AtxPipe S → Run (AtxPipe S × Option IoEvents)
  unfolding flush_pending
  atx_pipe_on_activity events p = do q ← flush_pending p p.pending events; ok (told q)

  -- The carrier's discard() is an argument; what is left of the rest is freed.
  pub atx_pipe_discard : {V : Type 0} → (S → V) → AtxPipe S → V
  atx_pipe_discard discard p = discard p.io

  abbrev pub atx_pipe : IoPipe (AtxPipe S)
  atx_pipe = record {
    flags = λ p. p.base;
    init = atx_pipe_init;
    recv = atx_pipe_recv;
    send = atx_pipe_send;
    send_fin = atx_pipe_send_fin;
  }
