-- ===== src/Tcp/Mask.antt =====
-- The events that a pipe of src/io/src/io_pipe_tcp.c has the event loop watch for, against its bits.
use tcp_striper.Base.{
  ℕ, ◌≡◌, refl, sym, ◌∙◌, ◌<◌, ◌↔◌, not, if◌then◌else◌, Bool, true, false, ◌&&◌, ◌||◌, Option, some,
  arith, Bool-cases, is_some, if_true, if_false, inl, inr,
}
use mathlib.Core.Path.{subst}
use tcp_striper.Serialize.{Bytes}
use tcp_striper.Run.{ok, Returns, assert_holds}
use tcp_striper.Pipe.{Flags, IoEvents, no_events}
use tcp_striper.Socket.{Errno, SkEvents, System, sk_shutdown, sk_error}
use tcp_striper.Socket.Laws.{Lawful, sk_recv_law, sk_send_law, RecvLaw-keeps, SendLaw-keeps}
use tcp_striper.Tcp.{
  TcpPipe, no_mask, same_mask, wanted, tcp_pipe_adjust_event_mask, tcp_pipe_recv, tcp_pipe_send,
  tcp_pipe_send_fin, tcp_pipe_on_activity, raise, connected,
}

same_mask→eq : (a b : SkEvents) → same_mask a b ≡ true → a ≡ b
same_mask→eq a b h = ground arith

-- Which events a pipe waits for: on a connection that is there and not broken, being readable if
-- it is not known to be so and there is more to come, and being writable if it is not known to be
-- so and the FIN is not out; and no others.
pub record WaitsFor (f : Flags) (mask : SkEvents) : Type 0 where
  pub reading :
      (mask.readable ≡ true)
      ↔ ((f.ready ≡ true) × (f.broken ≡ false) × (f.readable ≡ false) × (f.fin_rcvd ≡ false))
  pub writing :
      (mask.writable ≡ true)
      ↔ ((f.ready ≡ true) × (f.broken ≡ false) × (f.writable ≡ false) × (f.fin_sent ≡ false))
  pub errors : mask.error ≡ false

wanted-WaitsFor : (f : Flags) → WaitsFor f (wanted f)
wanted-WaitsFor f = record {
  reading = by_bits_r f.ready f.broken f.readable f.fin_rcvd (not f.writable && not f.fin_sent);
  writing = by_bits_w f.ready f.broken f.writable f.fin_sent (not f.readable && not f.fin_rcvd);
  errors = ground arith;
}
  where
    by_bits_r :
        (ready broken readable fin other : Bool)
        → ((if ready && not broken
              then record { readable = not readable && not fin; writable = other; error = false }
              else no_mask).readable
            ≡ true)
          ↔ ((ready ≡ true) × (broken ≡ false) × (readable ≡ false) × (fin ≡ false))
    by_bits_r ready broken readable fin other = ground arith

    by_bits_w :
        (ready broken writable fin other : Bool)
        → ((if ready && not broken
              then record { readable = other; writable = not writable && not fin; error = false }
              else no_mask).writable
            ≡ true)
          ↔ ((ready ≡ true) × (broken ≡ false) × (writable ≡ false) × (fin ≡ false))
    by_bits_w ready broken writable fin other = ground arith

-- A broken connection waits for nothing.
pub WaitsFor-broken :
    (f : Flags) (mask : SkEvents) → WaitsFor f mask → f.broken ≡ true → mask ≡ no_mask
WaitsFor-broken f mask h e = by_bits mask.readable mask.writable mask.error quiet_r quiet_w h.errors
  where
    no_contradiction : f.broken ≡ false → ⊥
    no_contradiction b = cc

    quiet_r : mask.readable ≡ true → ⊥
    quiet_r r = no_contradiction (h.reading.0 r).1

    quiet_w : mask.writable ≡ true → ⊥
    quiet_w w = no_contradiction (h.writing.0 w).1

    by_bits :
        (r w x : Bool)
        → (r ≡ true → ⊥)
        → (w ≡ true → ⊥)
        → x ≡ false
        → record { readable = r; writable = w; error = x } ≡ no_mask
    by_bits r w x a b c = ground arith

module _ {W : Type 0} {sys : System W} (law : Lawful sys) where
  -- The pipe is in its event loop, which watches for the events of `sk_mask`.
  pub record IsAdded (p : TcpPipe W) : Type 0 where
    pub added : p.evl ≡ true
    pub registered : law.monitored p.world p.sk ≡ some p.sk_mask

  -- And it watches for what the pipe waits for.
  pub record IsWatched (p : TcpPipe W) : Type 0 where
    pub in_loop : IsAdded p
    pub in_step : WaitsFor p.base p.sk_mask

  pub tcp_pipe_adjust_event_mask-IsWatched :
      (p : TcpPipe W) → IsAdded p → IsWatched (tcp_pipe_adjust_event_mask sys p)
  unfolding tcp_pipe_adjust_event_mask
  tcp_pipe_adjust_event_mask-IsWatched p h =
      elim (Bool-cases (same_mask p.sk_mask (wanted p.base))) [
        | inl same ↦ rw same (record {
          in_loop = h;
          in_step =
              subst (λ m. WaitsFor p.base m) (sym (same_mask→eq _ _ same)) (wanted-WaitsFor p.base);
        })
        | inr differ ↦ rw differ (record {
          in_loop = record {
            added = h.added;
            registered = (law.mod_law p.sk (wanted p.base) p.world).1;
          };
          in_step = wanted-WaitsFor p.base;
        })
      ]

  -- The bytes that have gone out on the socket of a pipe, and those that are still to come.
  abbrev pub out_bytes : TcpPipe W → Bytes
  out_bytes p = law.wire p.world p.sk

  abbrev pub in_bytes : TcpPipe W → Bytes
  in_bytes p = law.coming p.world p.sk

  -- The adjustment changes nothing else: not the bits, not the streams.
  pub tcp_pipe_adjust_event_mask-keeps :
      (p : TcpPipe W)
      → ((tcp_pipe_adjust_event_mask sys p).base ≡ p.base)
        × (out_bytes (tcp_pipe_adjust_event_mask sys p) ≡ out_bytes p)
        × (in_bytes (tcp_pipe_adjust_event_mask sys p) ≡ in_bytes p)
  unfolding tcp_pipe_adjust_event_mask
  tcp_pipe_adjust_event_mask-keeps p = elim (Bool-cases (same_mask p.sk_mask (wanted p.base))) [
    | inl same ↦ rw same (refl, refl, refl)
    | inr differ ↦ rw differ (
      refl,
      (law.mod_law p.sk (wanted p.base) p.world).0.0,
      (law.mod_law p.sk (wanted p.base) p.world).0.1,
    )
  ]

  tcp_pipe_recv-IsWatched :
      (p : TcpPipe W) (len : ℕ)
      → IsAdded p
      → 0 < len
      → Returns (λ (q : TcpPipe W × Option Bytes). IsWatched q.0) (tcp_pipe_recv sys p len)
  unfolding tcp_pipe_recv
  tcp_pipe_recv-IsWatched p len h pos =
      let kept =
        RecvLaw-keeps sys law.view p.sk p.world _ len _ (sk_recv_law law p.sk len p.world pos).0 in
      rw h.added (
        tcp_pipe_adjust_event_mask-IsWatched _
          (record { added = refl; registered = kept.1 ∙ h.registered }))

  tcp_pipe_send-IsWatched :
      (p : TcpPipe W) (buf : Bytes)
      → IsAdded p
      → Returns (λ (q : TcpPipe W × Option ℕ). IsWatched q.0) (tcp_pipe_send sys p buf)
  unfolding tcp_pipe_send
  tcp_pipe_send-IsWatched p buf h =
      let kept =
        SendLaw-keeps sys law.view p.sk p.world _ buf _ (sk_send_law law p.sk buf p.world).0 in
      rw h.added (
        tcp_pipe_adjust_event_mask-IsWatched _
          (record { added = refl; registered = kept.1 ∙ h.registered }))

  -- After tcp_pipe_recv() into a positive length, and after tcp_pipe_send(), of a pipe that is
  -- in its event loop, the loop watches for exactly what the pipe waits for: being readable if
  -- the connection is there and not broken, and the pipe neither readable nor at the FIN of
  -- the peer; being writable if the connection is there and not broken, and the pipe neither
  -- writable nor past its own FIN; and no error.
  pub tcp_pipe-IsWatched :
      (p : TcpPipe W) (len : ℕ) (buf : Bytes)
      → IsAdded p
      → 0 < len
      → Returns (λ (q : TcpPipe W × Option Bytes). IsWatched q.0) (tcp_pipe_recv sys p len)
        × Returns (λ (q : TcpPipe W × Option ℕ). IsWatched q.0) (tcp_pipe_send sys p buf)
  tcp_pipe-IsWatched p len buf h pos =
      (tcp_pipe_recv-IsWatched p len h pos, tcp_pipe_send-IsWatched p buf h)

  -- After tcp_pipe_send_fin() of a pipe that is in its event loop and has not sent its FIN,
  -- the loop watches for exactly the events that the state bits call for.
  tcp_pipe_send_fin-IsWatched :
      (p : TcpPipe W)
      → IsAdded p
      → p.base.fin_sent ≡ false
      → Returns (λ (q : TcpPipe W × Bool). IsWatched q.0) (tcp_pipe_send_fin sys p)
  unfolding tcp_pipe_send_fin sk_shutdown
  tcp_pipe_send_fin-IsWatched p h open_end =
      rw (h.added, open_end)
        (tcp_pipe_adjust_event_mask-IsWatched _
          (record { added = refl; registered = (law.shutdown_law p.sk p.world).1 ∙ h.registered }))

  -- Where raising the bits is allowed, it returns.
  abbrev pub MayRaise : SkEvents → Flags → Type 0
  MayRaise ev f = ((ev.readable && f.fin_rcvd) ≡ false) × ((ev.writable && f.fin_sent) ≡ false)

  -- The bits raised by the events, and the events that report them.
  abbrev pub raised : SkEvents → Flags → Flags
  raised ev f = record f {
    readable = ev.readable || f.readable;
    writable = ev.writable || f.writable;
  }

  abbrev pub reported : SkEvents → IoEvents → IoEvents
  reported ev io = record io {
    readable = ev.readable || io.readable;
    writable = ev.writable || io.writable;
  }

  -- The part of the handler that all branches but the failed connection end in.
  pub raise-eq :
      (ev : SkEvents) (p : TcpPipe W) (io : IoEvents)
      → MayRaise ev p.base
      → raise sys ev (p, io)
        ≡ ok (tcp_pipe_adjust_event_mask sys (record p { base = raised ev p.base }), reported ev io)
  unfolding raise
  raise-eq ev p io may = by_bits ev.readable ev.writable ev.error may.0 may.1
    where
      by_bits :
          (r w e : Bool)
          → (r && p.base.fin_rcvd) ≡ false
          → (w && p.base.fin_sent) ≡ false
          → let ev : SkEvents = record { readable = r; writable = w; error = e } in
            raise sys ev (p, io)
            ≡ ok (
              tcp_pipe_adjust_event_mask sys (record p { base = raised ev p.base }),
              reported ev io,
            )
      by_bits true true e a b = rw (a, b) refl
      by_bits true false e a b = rw a refl
      by_bits false true e a b = rw b refl
      by_bits false false e a b = refl

  raise-IsWatched :
      (ev : SkEvents) (p : TcpPipe W) (io : IoEvents)
      → IsAdded p
      → MayRaise ev p.base
      → Returns (λ (q : TcpPipe W × IoEvents). IsWatched q.0) (raise sys ev (p, io))
  raise-IsWatched ev p io h may = rw (raise-eq ev p io may) (
      tcp_pipe_adjust_event_mask-IsWatched _
        (record { added = h.added; registered = h.registered }))

  connected-IsWatched :
      (ev : SkEvents) (err : Option Errno) (p : TcpPipe W)
      → IsAdded p
      → MayRaise ev p.base
      → Returns (λ (q : TcpPipe W × IoEvents). IsWatched q.0) (connected sys ev err p)
  unfolding connected
  connected-IsWatched ev err p h may =
      elim (Bool-cases (ev.error || (ev.writable && is_some err))) [
        | inl failed ↦ rw failed (
            tcp_pipe_adjust_event_mask-IsWatched _
              (record { added = h.added; registered = h.registered }))
        | inr fine ↦
            rw fine
              (raise-IsWatched ev _ _ (record { added = h.added; registered = h.registered }) may)
      ]

  -- The handler by the state of the pipe.
  pub tcp_pipe_on_activity-ready :
      (ev : SkEvents) (p : TcpPipe W)
      → p.base.ready ≡ true
      → tcp_pipe_on_activity sys ev p ≡ raise sys ev (p, no_events)
  unfolding tcp_pipe_on_activity
  tcp_pipe_on_activity-ready ev p e = if_true p.base.ready _ e

  pub tcp_pipe_on_activity-connecting :
      (ev : SkEvents) (p : TcpPipe W)
      → p.base.ready ≡ false
      → (ev.error || ev.writable) ≡ true
      → tcp_pipe_on_activity sys ev p ≡ (
          let (w, err) = sk_error sys p.sk p.world in connected sys ev err (record p { world = w }))
  unfolding tcp_pipe_on_activity
  tcp_pipe_on_activity-connecting ev p e expected =
      if_false p.base.ready _ e ∙ assert_holds (ev.error || ev.writable) _ expected

  -- After tcp_pipe_on_activity() of a pipe that is in its event loop, the loop watches for
  -- exactly what the pipe waits for, and no assertion has failed: being readable if the
  -- connection is there and not broken, and the pipe neither readable nor at the FIN of the
  -- peer; being writable if the connection is there and not broken, and the pipe neither
  -- writable nor past its own FIN; and no error; on condition that no event is of a direction
  -- whose FIN is through, and that a pipe that is not ready is told of an error or of being
  -- writable.
  pub tcp_pipe_on_activity-IsWatched :
      (ev : SkEvents) (p : TcpPipe W)
      → IsAdded p
      → MayRaise ev p.base
      → (p.base.ready || (ev.error || ev.writable)) ≡ true
      → Returns (λ (q : TcpPipe W × IoEvents). IsWatched q.0) (tcp_pipe_on_activity sys ev p)
  unfolding sk_error
  tcp_pipe_on_activity-IsWatched ev p h may expected = elim (Bool-cases p.base.ready) [
    | inl ready ↦ rw (tcp_pipe_on_activity-ready ev p ready) (raise-IsWatched ev p no_events h may)
    | inr not_ready ↦ rw (tcp_pipe_on_activity-connecting ev p not_ready (ground arith)) (
        connected-IsWatched ev _ _
          (record { added = h.added; registered = (law.error_law p.sk p.world).1 ∙ h.registered })
          may)
  ]
