-- ===== src/Dgm/Receive.antt =====
-- dgm_pipe_recv() (src/io/src/io_pipe_dgm.c) on the bytes of a peer that sends datagrams, cut into
-- pieces by the carrier.
use tcp_striper.Base.{
  ℕ, ◌+◌, ◌-◌, ◌≤◌, ◌<◌, ◌≡◌, refl, sym, ap, ◌∙◌, ◌++◌, inr, append_assoc, true, false, not, ◌&&◌,
  Option, none, some, List, [], ◌∷◌, length, length-append, ltb, ◌==◌, arith, lt→ltb, if_false, All,
}
use tcp_striper.Serialize.{Bytes}
use tcp_striper.Serialize.Store.{size_code, length-size_code}
use tcp_striper.Run.{Returns, Returns-value, Returns-bind, assert_holds}
use tcp_striper.Buffer.{IoBuffer, zeroed, append_bytes}
use tcp_striper.Buffer.Contents
use tcp_striper.Buffer.Contents.{
  kept, Holds, contents, length-contents, contents-append_bytes, append_bytes-IsValid,
  zeroed-IsValid, alloc_io_buffer-zeroed,
}
use tcp_striper.Pipe.{IoPipe, clone_pipe_state}
use tcp_striper.Pipe.Contract.{ShortContract, Received, RecvPost}
use tcp_striper.Dgm.{
  DgmPipe, Processed, malformed, short, extracted, process_rx, adjust_rx, after_read, after_recv,
  read_more, after_leftovers, receive, dgm_pipe_recv,
}
use tcp_striper.Dgm.Frames.{frame, frames, Fits, Read, process_rx-frame}
use tcp_striper.Dgm.Adjust.{Ready, adjust_rx-Ready}
use tcp_striper.Dgm.Passing.{
  IsValid, unread, Delivered, Through, pass-Through, unread-pass, Outcome, after_read_lem,
}

module _ {S : Type 0} {io : IoPipe S} (c : ShortContract io) where
  -- The first of the datagrams is not whole in the buffer.
  abbrev Incomplete : ℕ → List Bytes → Type 0
  Incomplete size [] = Unit {0}
  Incomplete size (d ∷ ds) = size < length (frame d)

  -- The carrier's recv() has returned, from `before` the bytes now arriving.
  module _ (p : DgmPipe S) (rx : IoBuffer) (inv : c.Inv p.io) (v : Contents.IsValid rx)
      (header : p.max_hdr_size ≡ 5) (head : rx.head ≡ 0) (before : Bytes) where
    after_some :
        (b : ℕ) (bs : Bytes) (ds : List Bytes)
        → length (b ∷ bs) ≤ rx.capacity - rx.size
        → before ≡ (b ∷ bs) ++ c.arriving p.io
        → All (Fits p.max_size) ds
        → contents rx ++ before ≡ frames ds
        → Outcome c p.max_size (c.sent p.io) ds (after_recv io p rx (some (b ∷ bs)))
    unfolding after_recv
    after_some b bs ds room e fits stream = by_frames ds fits joined
      where
        fits_in : rx.head + rx.size + length (b ∷ bs) ≤ rx.capacity
        fits_in = omega (arith, v.within)

        appended : contents (append_bytes rx (b ∷ bs)) ≡ contents rx ++ (b ∷ bs)
        appended = contents-append_bytes rx v (b ∷ bs) fits_in

        joined : contents (append_bytes rx (b ∷ bs)) ++ c.arriving p.io ≡ frames ds
        joined =
            ap (λ l. l ++ c.arriving p.io) appended
            ∙ append_assoc (contents rx) (b ∷ bs) (c.arriving p.io)
            ∙ ap (λ l. contents rx ++ l) (sym e)
            ∙ stream

        by_frames :
            (ds : List Bytes)
            → All (Fits p.max_size) ds
            → contents (append_bytes rx (b ∷ bs)) ++ c.arriving p.io ≡ frames ds
            → Outcome c p.max_size (c.sent p.io) ds (
                after_read io p
                  (append_bytes rx (b ∷ bs))
                  (process_rx p.max_size (append_bytes rx (b ∷ bs))))
        by_frames [] fits stream' = absurd (
            omega (
              arith,
              ap length stream',
              length-append (contents (append_bytes rx (b ∷ bs))) (c.arriving p.io),
              ap length appended,
              length-append (contents rx) (b ∷ bs),
            ))
        by_frames (d ∷ ds') fits stream' =
            let v' = append_bytes-IsValid rx v (b ∷ bs) fits_in in
            after_read_lem c p (append_bytes rx (b ∷ bs)) inv v' header d ds' stream'
              (omega (arith, fits.0.1)) _
              (process_rx-frame p.max_size (c.arriving p.io) d (frames ds')
                (append_bytes rx (b ∷ bs)) v' stream' fits.0)

    after_fin_empty :
        rx.size ≡ 0
        → (io.flags p.io).fin_rcvd ≡ true
        → Outcome c p.max_size (c.sent p.io) [] (after_recv io p rx (some []))
    unfolding after_recv clone_pipe_state
    after_fin_empty e fin =
        rw (if_false (not (rx.size == 0)) _ (ground arith))
          (pass-Through c p rx inv v header (some []), inr (refl, refl, fin))

    after_fin :
        (ds : List Bytes)
        → before ≡ []
        → (io.flags p.io).fin_rcvd ≡ true
        → contents rx ++ before ≡ frames ds
        → Incomplete rx.size ds
        → Outcome c p.max_size (c.sent p.io) ds (after_recv io p rx (some []))
    after_fin [] e fin stream incomplete =
        after_fin_empty
          (omega
            (arith, ap length stream, length-append (contents rx) before, length-contents rx v))
          fin
    after_fin (d ∷ ds) e fin stream incomplete = absurd (
        omega (
          arith,
          length-append (contents rx) before,
          ap length e,
          length-contents rx v,
          ap length stream,
          length-append (frame d) (frames ds),
        ))

    after_recv_lem :
        (r : Option Bytes) (ds : List Bytes)
        → Received before (c.arriving p.io) (io.flags p.io) (rx.capacity - rx.size) r
        → All (Fits p.max_size) ds
        → contents rx ++ before ≡ frames ds
        → Incomplete rx.size ds
        → Outcome c p.max_size (c.sent p.io) ds (after_recv io p rx r)
    unfolding after_recv
    after_recv_lem none ds h fits stream incomplete = (
      pass-Through c p rx inv v header none,
      unread-pass c p rx inv v header none ∙ ap (λ l. contents rx ++ l) h.0 ∙ stream,
    )
    after_recv_lem (some []) ds h fits stream incomplete = after_fin ds h.0 h.3 stream incomplete
    after_recv_lem (some (b ∷ bs)) ds h fits stream incomplete =
        after_some b bs ds h.0 h.1 fits stream

  module _ (p : DgmPipe S) (inv : c.Inv p.io) (header : p.max_hdr_size ≡ 5) (ds : List Bytes)
      (fits : All (Fits p.max_size) ds) where
    read_more_lem :
        (rx : IoBuffer)
        → Contents.IsValid rx
        → rx.head ≡ 0
        → rx.size < rx.capacity
        → contents rx ++ c.arriving p.io ≡ frames ds
        → Incomplete rx.size ds
        → Returns (Outcome c p.max_size (c.sent p.io) ds) (read_more io p rx)
    unfolding read_more
    read_more_lem rx v head room stream incomplete =
        let len = rx.capacity - rx.size in
        let ((s, r), made, good) =
          Returns-value (RecvPost io c p.io len) (io.recv p.io len)
            (c.recv_law p.io len inv (omega arith)) in
        let p' : DgmPipe S = record p { io = s } in
        let (through, delivered) =
          after_recv_lem p' rx good.0 v header head (c.arriving p.io) r ds good.2 fits stream
            incomplete in
        rw
          (
            assert_holds (rx.head == 0) _ (ground arith),
            assert_holds (ltb rx.size rx.capacity) _ (lt→ltb _ _ room),
            made,
          )
          (
            record {
              valid = through.valid;
              sends = through.sends ∙ good.1;
              bits = through.bits;
              limit = through.limit;
            },
            delivered,
          )

    begin_lem :
        (len : ℕ)
        → c.arriving p.io ≡ frames ds
        → Returns (Outcome c p.max_size (c.sent p.io) ds) (receive io p len none)
    unfolding receive
    begin_lem len stream = rw (alloc_io_buffer-zeroed (p.max_hdr_size + len)) (
        read_more_lem (zeroed (p.max_hdr_size + len)) (zeroed-IsValid _) refl
          (omega (arith, header)) (unfold contents in stream) (incomplete ds))
      where
        incomplete : (ds : List Bytes) → Incomplete 0 ds
        incomplete [] = tt
        incomplete (d ∷ ds) =
            omega (arith, length-size_code (length d), length-append (size_code (length d)) d)

  module _ (p : DgmPipe S) (inv : c.Inv p.io) (header : p.max_hdr_size ≡ 5) (len : ℕ)
      (limit : p.max_size ≤ len) (rx : IoBuffer) (v : Contents.IsValid rx) (d : Bytes)
      (ds : List Bytes) (fits : All (Fits p.max_size) (d ∷ ds))
      (stream : contents rx ++ c.arriving p.io ≡ frames (d ∷ ds)) where
    after_leftovers_lem :
        (r : Processed)
        → Read (c.arriving p.io) d (frames ds) rx r
        → Returns (Outcome c p.max_size (c.sent p.io) (d ∷ ds)) (after_leftovers io p len rx r)
    unfolding after_leftovers after_read
    after_leftovers_lem malformed h = absurd h
    after_leftovers_lem (extracted rx' dgm) h =
        after_read_lem c p rx inv v header d ds stream (omega (arith, fits.0.1)) (extracted rx' dgm)
          h
    after_leftovers_lem (short k) h = rw (if_false (not (k == 0) && ltb len k) _ (ground arith)) (
        Returns-bind (Ready rx (p.max_hdr_size + len)) _ (adjust_rx rx (p.max_hdr_size + len)) _
          (adjust_rx-Ready rx v (p.max_hdr_size + len) (omega (arith, header)))
          (λ b ready.
            read_more_lem p inv header (d ∷ ds) fits b ready.0 ready.1
              (omega (arith, ready.3, ready.4, header))
              (ap (λ l. l ++ c.arriving p.io) ready.2 ∙ stream) (omega (arith, ready.3))))

  go_on_lem :
      (p : DgmPipe S) (len : ℕ) (rx : IoBuffer) (ds : List Bytes)
      → c.Inv p.io
      → p.max_hdr_size ≡ 5
      → p.max_size ≤ len
      → Contents.IsValid rx
      → 0 < rx.size
      → All (Fits p.max_size) ds
      → contents rx ++ c.arriving p.io ≡ frames ds
      → Returns (Outcome c p.max_size (c.sent p.io) ds) (receive io p len (some rx))
  unfolding receive
  go_on_lem p len rx [] inv header limit v some_bytes fits stream = absurd (
      omega (
        arith,
        ap length stream,
        length-append (contents rx) (c.arriving p.io),
        length-contents rx v,
      ))
  go_on_lem p len rx (d ∷ ds) inv header limit v some_bytes fits stream =
      after_leftovers_lem p inv header len limit rx v d ds fits stream _
        (process_rx-frame p.max_size (c.arriving p.io) d (frames ds) rx v stream fits.0)

  receive_lem :
      (p : DgmPipe S) (len : ℕ) (rx : Option IoBuffer) (ds : List Bytes)
      → c.Inv p.io
      → p.max_hdr_size ≡ 5
      → p.max_size ≤ len
      → Holds rx
      → All (Fits p.max_size) ds
      → kept rx ++ c.arriving p.io ≡ frames ds
      → Returns (Outcome c p.max_size (c.sent p.io) ds) (receive io p len rx)
  unfolding kept
  receive_lem p len none ds inv header limit holds fits stream =
      begin_lem p inv header ds fits len stream
  receive_lem p len (some rx) ds inv header limit holds fits stream =
      go_on_lem p len rx ds inv header limit holds.0 holds.1 fits stream

  -- dgm_pipe_recv() of a valid pipe that is not broken, over a carrier that keeps the
  -- contract, into at least `max_size` bytes, when what is unread (in the buffer and arriving
  -- at the carrier, cut into pieces in any way) are the frames of datagrams that fit
  -- `max_size`: no assertion fails and the pipe stays valid with the bits of the carrier; it
  -- returns the first datagram and leaves the frames of the others, or -1 and loses nothing,
  -- or, behind the last, no bytes with `fin_rcvd` set.
  pub dgm_pipe_recv_law :
      (p : DgmPipe S) (len : ℕ) (ds : List Bytes)
      → IsValid c p
      → p.base.broken ≡ false
      → p.max_size ≤ len
      → All (Fits p.max_size) ds
      → unread c p ≡ frames ds
      → Returns
          (λ (q : DgmPipe S × Option Bytes).
            Through c p.max_size (c.sent p.io) q.0 × Delivered c ds q.0 q.1)
          (dgm_pipe_recv io p len)
  unfolding dgm_pipe_recv
  dgm_pipe_recv_law p len ds v sound limit fits stream =
      rw (if_false p.base.broken _ sound)
        (receive_lem p len p.rx ds v.carrier v.header limit v.holds fits stream)
