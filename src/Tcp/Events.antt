-- ===== src/Tcp/Events.antt =====
-- What the owner of a pipe of src/io/src/io_pipe_tcp.c is told by its callback.
use tcp_striper.Base.{◌≡◌, refl, ap, ◌∙◌, true, false, ◌&&◌, ◌||◌, Option, some, arith, is_some}
use tcp_striper.Run.{Returns}
use tcp_striper.Pipe.{Flags, IoEvents, no_events, tag_pipe_as_broken}
use tcp_striper.Socket.{Errno, SkEvents, System, sk_error}
use tcp_striper.Socket.Laws.{Lawful}
use tcp_striper.Tcp.{TcpPipe, no_mask, tcp_pipe_adjust_event_mask, tcp_pipe_on_activity, connected}
use tcp_striper.Tcp.Mask.{
  IsAdded, IsWatched, WaitsFor-broken, MayRaise, raised, reported, raise-eq,
  tcp_pipe_on_activity-ready, tcp_pipe_on_activity-connecting, tcp_pipe_adjust_event_mask-keeps,
  tcp_pipe_adjust_event_mask-IsWatched,
}

abbrev pub only_broken : IoEvents
only_broken = record no_events { broken = true }

abbrev pub only_error : SkEvents
only_error = record { readable = false; writable = false; error = true }

tag-broken : (f : Flags) → (tag_pipe_as_broken f).broken ≡ true
unfolding tag_pipe_as_broken
tag-broken f = refl

module _ {W : Type 0} {sys : System W} (law : Lawful sys) where
  -- On a ready pipe, and with no event of a direction whose FIN is through,
  -- tcp_pipe_on_activity() raises the bits of the events and no other, and the callback is
  -- told of these bits and of nothing else.
  pub tcp_pipe_on_activity-reports :
      (ev : SkEvents) (p : TcpPipe W)
      → p.base.ready ≡ true
      → MayRaise law ev p.base
      → Returns
          (λ (q : TcpPipe W × IoEvents).
            ((q.0).base ≡ raised law ev p.base) × (q.1 ≡ reported law ev no_events))
          (tcp_pipe_on_activity sys ev p)
  tcp_pipe_on_activity-reports ev p ready may =
      rw (tcp_pipe_on_activity-ready law ev p ready, raise-eq law ev p no_events may)
        ((tcp_pipe_adjust_event_mask-keeps law _).0, refl)

  connected-fails :
      (ev : SkEvents) (err : Option Errno) (p : TcpPipe W)
      → (ev.error || (ev.writable && is_some err)) ≡ true
      → IsAdded law p
      → Returns
          (λ (q : TcpPipe W × IoEvents).
            ((q.0).base ≡ tag_pipe_as_broken p.base)
            × (q.1 ≡ only_broken)
            × (law.monitored (q.0).world (q.0).sk ≡ some no_mask))
          (connected sys ev err p)
  unfolding connected
  connected-fails ev err p failed h = rw failed (same, refl, unwatched)
    where
      p' : TcpPipe W
      p' = record p { base = tag_pipe_as_broken p.base }

      same : (tcp_pipe_adjust_event_mask sys p').base ≡ tag_pipe_as_broken p.base
      same = (tcp_pipe_adjust_event_mask-keeps law p').0

      watched : IsWatched law (tcp_pipe_adjust_event_mask sys p')
      watched =
          tcp_pipe_adjust_event_mask-IsWatched law p'
            (record { added = h.added; registered = h.registered })

      unwatched :
          law.monitored
            (tcp_pipe_adjust_event_mask sys p').world
            (tcp_pipe_adjust_event_mask sys p').sk
          ≡ some no_mask
      unwatched =
          watched.in_loop.registered
          ∙ ap some (
              WaitsFor-broken (tcp_pipe_adjust_event_mask sys p').base
                (tcp_pipe_adjust_event_mask sys p').sk_mask watched.in_step
                (ap (λ (f : Flags). f.broken) same ∙ tag-broken p.base))

  -- A connection that fails, with an error event or an SO_ERROR when the socket becomes
  -- writable, breaks a pipe that is in its event loop and not ready: the callback is told of
  -- IO_EV_broken and of nothing else, and the loop watches for no event of it any more.
  pub tcp_pipe_on_activity-fails :
      (ev : SkEvents) (p : TcpPipe W)
      → IsAdded law p
      → p.base.ready ≡ false
      → (ev.error || (ev.writable && is_some (sk_error sys p.sk p.world).1)) ≡ true
      → Returns
          (λ (q : TcpPipe W × IoEvents).
            ((q.0).base ≡ tag_pipe_as_broken p.base)
            × (q.1 ≡ only_broken)
            × (law.monitored (q.0).world (q.0).sk ≡ some no_mask))
          (tcp_pipe_on_activity sys ev p)
  unfolding sk_error
  tcp_pipe_on_activity-fails ev p h not_ready failed =
      rw (tcp_pipe_on_activity-connecting law ev p not_ready (ground arith)) (
        connected-fails ev _ _ failed
          (record { added = h.added; registered = (law.error_law p.sk p.world).1 ∙ h.registered }))
