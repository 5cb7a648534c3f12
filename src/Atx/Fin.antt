-- ===== src/Atx/Fin.antt =====
-- send_fin() of a pipe of src/io/src/io_pipe_atx.c that still keeps bytes.
use tcp_striper.Base.{
  refl, ◌≡◌, ap, ap₂, ◌∙◌, Bool, true, false, not, ◌&&◌, none, some, is_some, if◌then◌else◌,
  if_true, if_false, ltb, ◌==◌, arith,
}
use tcp_striper.Run.{ok, ◌>>=◌, assert_holds, Returns}
use tcp_striper.Buffer.{IoBuffer}
use tcp_striper.Buffer.Contents.{contents}
use tcp_striper.Pipe.{IoEvents, no_events, IoPipe}
use tcp_striper.Atx.{
  AtxPipe, atx_pipe_clone_state, atx_pipe_send_fin, atx_pipe_on_activity, flush_pending, flush,
  flushed, pending_fin, told,
}

abbrev pub only_writable : IoEvents
only_writable = record no_events { writable = true }

module _ {S : Type 0} (io : IoPipe S) where
  -- The first atx_pipe_send_fin() of a pipe that keeps bytes, and has not sent its FIN, only
  -- records that the FIN is due; its result is that of success, and `fin_sent` is not raised.
  atx_pipe_send_fin-deferred :
      (p : AtxPipe S) (buf : IoBuffer)
      → p.pending ≡ some buf
      → p.base.fin_sent ≡ false
      → p.want_fin ≡ false
      → atx_pipe_send_fin io p ≡ ok (record p { want_fin = true }, true)
  unfolding atx_pipe_send_fin
  atx_pipe_send_fin-deferred p buf holding unsent first =
      assert_holds (not p.base.fin_sent && not p.want_fin) _
        (ap₂ (λ a b. not a && not b) unsent first)
      ∙ if_true (is_some p.pending) _ (ap is_some holding)

  -- The events left after the bytes that are kept have all gone out.
  left_events : Bool → IoEvents
  left_events writable = if writable then only_writable else no_events

  module _ (p : AtxPipe S) (buf : IoBuffer) (s s' : S)
      (sent : io.send p.io (contents buf) ≡ ok (s, some buf.size))
      (fin : io.send_fin s ≡ ok (s', true)) (wanted : p.want_fin ≡ true) where
    flushed-eq :
        flushed io (record p { io = s }) buf only_writable (some buf.size)
        ≡ ok (record p { io = s; pending = none }, left_events (io.flags s).writable)
    unfolding flushed left_events
    flushed-eq =
        if_false (ltb buf.size buf.size) _ (ground arith)
        ∙ assert_holds (buf.size == buf.size) _ (ground arith)

    pending_fin-eq :
        (w : Bool)
        → pending_fin io (record p { io = s; pending = none }, left_events w)
          ≡ ok (record p { io = s'; pending = none }, no_events)
    unfolding pending_fin left_events
    pending_fin-eq true = if_true p.want_fin _ wanted ∙ rw fin
    pending_fin-eq false = if_true p.want_fin _ wanted ∙ rw fin

    flush-eq : flush io p buf only_writable ≡ ok (record p { io = s'; pending = none }, no_events)
    unfolding flush
    flush-eq = rw (sent, flushed-eq) (pending_fin-eq (io.flags s).writable)

  -- When the carrier, told to be writable and nothing else, takes all that is kept, and then
  -- takes the FIN that is due, atx_pipe_on_activity() does not call the owner at all, so that
  -- there is no IO_EV_fin_sent.
  atx_pipe_on_activity-fin_untold :
      (p : AtxPipe S) (buf : IoBuffer) (s s' : S)
      → p.pending ≡ some buf
      → p.want_fin ≡ true
      → io.send p.io (contents buf) ≡ ok (s, some buf.size)
      → io.send_fin s ≡ ok (s', true)
      → atx_pipe_on_activity io only_writable p
        ≡ ok (atx_pipe_clone_state io (record p { io = s'; pending = none }), none)
  unfolding atx_pipe_on_activity flush_pending
  atx_pipe_on_activity-fin_untold p buf s s' holding wanted sent fin =
      ap (λ b. flush_pending io p b only_writable >>= λ q. ok (told io q)) holding
      ∙ ap (λ m. m >>= λ q. ok (told io q)) (flush-eq p buf s s' sent fin wanted)

  -- The first atx_pipe_send_fin() of a pipe that keeps bytes, and has not sent its FIN,
  -- returns success; and when the carrier, told to be writable and nothing else, then takes
  -- all that is kept and the FIN, atx_pipe_on_activity() does not call the owner at all, so
  -- that there is no IO_EV_fin_sent.
  pub atx_pipe_send_fin-untold :
      (p : AtxPipe S) (buf : IoBuffer) (s s' : S)
      → p.pending ≡ some buf
      → p.base.fin_sent ≡ false
      → p.want_fin ≡ false
      → io.send p.io (contents buf) ≡ ok (s, some buf.size)
      → io.send_fin s ≡ ok (s', true)
      → Returns
          (λ (q : AtxPipe S × Bool).
            (q.1 ≡ true)
            × (atx_pipe_on_activity io only_writable q.0
                ≡ ok (
                  atx_pipe_clone_state io (record p { io = s'; pending = none; want_fin = true }),
                  none,
                )))
          (atx_pipe_send_fin io p)
  atx_pipe_send_fin-untold p buf s s' holding unsent first sent fin =
      rw (atx_pipe_send_fin-deferred p buf holding unsent first) (
        refl,
        atx_pipe_on_activity-fin_untold (record p { want_fin = true }) buf s s' holding refl sent
            fin,
      )
