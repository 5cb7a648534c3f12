-- ===== src/Tcp.antt =====
-- src/io/src/io_pipe_tcp.c: a pipe over a socket. The state holds the pipe and the world, in which
-- are the socket and the event loop. A callback is set before init(), as every caller does, and is
-- returned as the events that it is given.
pub mod Mask
pub mod Events
pub mod Streams
pub mod Fin
pub mod Tests
use tcp_striper.Base.{
  ℕ, Bool, true, false, not, ◌&&◌, ◌||◌, Option, none, some, List, [], ◌∷◌, length, ◌==◌,
  if◌then◌else◌, is_some,
}
use tcp_striper.Serialize.{Bytes}
use tcp_striper.Run.{Run, ok, assert, ◌>>=◌, ◌>>◌}
use tcp_striper.Pipe.{
  Flags, IoEvents, no_events, no_flags, IoPipe, get_pipe_state, tag_pipe_as_broken,
}
use tcp_striper.Socket.{
  Errno, SkEvents, Received, got, recv_failed, Sent, took, send_failed, System, sk_recv_fatal,
  sk_send_fatal, sk_recv, sk_send, sk_shutdown, sk_error,
}

pub record TcpPipe (W : Type 0) : Type 0 where
  pub base : Flags
  -- Whether `evl` is set.
  pub evl : Bool
  pub sk : ℕ
  pub sk_mask : SkEvents
  pub world : W

abbrev pub no_mask : SkEvents
no_mask = record { readable = false; writable = false; error = false }

abbrev pub same_bit : Bool → Bool → Bool
same_bit true b = b
same_bit false b = not b

abbrev pub same_mask : SkEvents → SkEvents → Bool
same_mask a b =
    same_bit a.readable b.readable && same_bit a.writable b.writable && same_bit a.error b.error

-- The events that tcp_pipe_adjust_event_mask() asks for.
abbrev pub wanted : Flags → SkEvents
wanted p =
    if p.ready && not p.broken
    then record {
      readable = not p.readable && not p.fin_rcvd;
      writable = not p.writable && not p.fin_sent;
      error = false;
    }
    else no_mask

pub new_tcp_pipe : {W : Type 0} → ℕ → W → TcpPipe W
new_tcp_pipe sk w = record { base = no_flags; evl = false; sk = sk; sk_mask = no_mask; world = w }

-- The bits of tcp_pipe_recv() after a result of sk_recv().
unfoldable pub after_recv : Flags → Received → Flags
after_recv p (got []) = record p { readable = false; fin_rcvd = true }
after_recv p (got (b ∷ bs)) = record p { readable = true }
after_recv p (recv_failed e) =
    let closed = record p { readable = false } in
    if sk_recv_fatal e then tag_pipe_as_broken closed else closed

abbrev pub recv_result : Received → Option Bytes
recv_result (got bs) = some bs
recv_result (recv_failed e) = none

-- The bits of tcp_pipe_send() after a result of sk_send() on `len` bytes.
unfoldable pub after_send : Flags → ℕ → Sent → Flags
after_send p len (took n) = record p { writable = n == len }
after_send p len (send_failed e) =
    let closed = record p { writable = false } in
    if sk_send_fatal e then tag_pipe_as_broken closed else closed

abbrev pub send_result : Sent → Option ℕ
send_result (took n) = some n
send_result (send_failed e) = none

module _ {W : Type 0} (sys : System W) where
  unfoldable pub tcp_pipe_adjust_event_mask : TcpPipe W → TcpPipe W
  tcp_pipe_adjust_event_mask p =
      let sk_mask = wanted p.base in
      if same_mask p.sk_mask sk_mask
      then p
      else record p { sk_mask = sk_mask; world = sys.mod_socket p.sk sk_mask p.world }

  -- The two steps that raise `readable` and `writable`, with the events gathered so far.
  raise_readable : SkEvents → TcpPipe W × IoEvents → Run (TcpPipe W × IoEvents)
  raise_readable sk_events (p, io_events) =
      if sk_events.readable
      then (assert (not p.base.fin_rcvd)
          >> ok (
            record p { base = record (p.base) { readable = true } },
            record io_events { readable = true },
          ))
      else ok (p, io_events)

  raise_writable : SkEvents → TcpPipe W × IoEvents → Run (TcpPipe W × IoEvents)
  raise_writable sk_events (p, io_events) =
      if sk_events.writable
      then (assert (not p.base.fin_sent)
          >> ok (
            record p { base = record (p.base) { writable = true } },
            record io_events { writable = true },
          ))
      else ok (p, io_events)

  callback : TcpPipe W × IoEvents → TcpPipe W × IoEvents
  callback (p, io_events) = (tcp_pipe_adjust_event_mask p, io_events)

  unfoldable pub raise : SkEvents → TcpPipe W × IoEvents → Run (TcpPipe W × IoEvents)
  unfolding raise_readable raise_writable callback
  raise sk_events q = do
    q' ← raise_readable sk_events q
    q'' ← raise_writable sk_events q'
    ok (callback q'')

  -- The rest of the handler on a pipe that is not ready, with SO_ERROR read.
  unfoldable pub connected : SkEvents → Option Errno → TcpPipe W → Run (TcpPipe W × IoEvents)
  unfolding callback
  connected sk_events err p =
      if sk_events.error || (sk_events.writable && is_some err)
      then ok (
          callback
            (record p { base = tag_pipe_as_broken p.base }, record no_events { broken = true }))
      else raise sk_events
          (record p { base = record (p.base) { ready = true } }, record no_events { ready = true })

  -- The new state, and the events that the callback is given.
  unfoldable pub tcp_pipe_on_activity : SkEvents → TcpPipe W → Run (TcpPipe W × IoEvents)
  tcp_pipe_on_activity sk_events p = if p.base.ready then raise sk_events (p, no_events) else (do
    assert (sk_events.error || sk_events.writable)
    let (w, err) = sk_error sys p.sk p.world
    connected sk_events err (record p { world = w }))

  unfoldable pub tcp_pipe_init : TcpPipe W → Run (TcpPipe W)
  tcp_pipe_init p = do
    assert (not p.evl)
    assert (get_pipe_state p.base == 0)
    let sk_mask : SkEvents = record { readable = false; writable = true; error = false }
    ok (record p { evl = true; sk_mask = sk_mask; world = sys.add_socket p.sk sk_mask p.world })

  unfoldable pub tcp_pipe_recv : TcpPipe W → ℕ → Run (TcpPipe W × Option Bytes)
  tcp_pipe_recv p len = do
    assert p.evl
    let (w, r) = sk_recv sys p.sk len p.world
    ok (
      tcp_pipe_adjust_event_mask (record p { base = after_recv p.base r; world = w }),
      recv_result r,
    )

  unfoldable pub tcp_pipe_send : TcpPipe W → Bytes → Run (TcpPipe W × Option ℕ)
  tcp_pipe_send p buf = do
    assert p.evl
    let (w, r) = sk_send sys p.sk buf p.world
    ok (
      tcp_pipe_adjust_event_mask (record p { base = after_send p.base (length buf) r; world = w }),
      send_result r,
    )

  unfoldable pub tcp_pipe_send_fin : TcpPipe W → Run (TcpPipe W × Bool)
  tcp_pipe_send_fin p = do
    assert p.evl
    assert (not p.base.fin_sent)
    let (w, r) = sk_shutdown sys p.sk p.world
    let base =
        if r
        then record (p.base) { writable = false; fin_sent = true }
        else tag_pipe_as_broken p.base
    ok (tcp_pipe_adjust_event_mask (record p { base = base; world = w }), r)

  -- The pipe is freed; what is left is the world.
  pub tcp_pipe_discard : TcpPipe W → W
  tcp_pipe_discard p = sys.close p.sk (if p.evl then sys.del_socket p.sk p.world else p.world)

  abbrev pub tcp_pipe : IoPipe (TcpPipe W)
  tcp_pipe = record {
    flags = λ p. p.base;
    init = tcp_pipe_init;
    recv = tcp_pipe_recv;
    send = tcp_pipe_send;
    send_fin = tcp_pipe_send_fin;
  }
