-- ===== src/Dgm/Hostile.antt =====
-- dgm_pipe_recv() (src/io/src/io_pipe_dgm.c) on bytes of any kind.
use tcp_striper.Base.{
  ℕ, ◌+◌, ◌-◌, ◌≤◌, ◌<◌, ◌^◌, ◌≡◌, refl, sym, ap, ◌∙◌, ◌++◌, ◌⊎◌, inl, inr, append_assoc, true,
  false, not, ◌&&◌, Option, none, some, [], ◌∷◌, length, ltb, ◌==◌, arith, lt→ltb, if_true,
  if_false, Bool-cases,
}
use mathlib.Core.Path.{subst}
use tcp_striper.Serialize.{Bytes}
use tcp_striper.Serialize.Answers.{io_parse_size-append}
use tcp_striper.Run.{Returns, Returns-value, Returns-bind, Returns-imp, assert_holds}
use tcp_striper.Buffer.{IoBuffer, zeroed, append_bytes}
use tcp_striper.Buffer.Contents
use tcp_striper.Buffer.Contents.{
  kept, Holds, contents, length-contents, contents-append_bytes, append_bytes-IsValid,
  zeroed-IsValid, alloc_io_buffer-zeroed, contents-consume, consume-IsValid,
}
use tcp_striper.Pipe.{IoPipe, tag_pipe_as_broken}
use tcp_striper.Pipe.Contract.{ShortContract, Received, RecvPost}
use tcp_striper.Dgm.{
  DgmPipe, Processed, malformed, short, extracted, adjust_rx, pass, err, after_read, after_recv,
  read_more, after_leftovers, receive, dgm_pipe_recv,
}
use tcp_striper.Dgm.Adjust.{Ready, adjust_rx-Ready}
use tcp_striper.Dgm.Passing.{IsValid, as_result-small, unread, pass-Through, unread-pass}
use tcp_striper.Dgm.Cut.{HasDatagram, Cut, process_rx-Cut}

module _ {S : Type 0} {io : IoPipe S} (c : ShortContract io) where
  -- What has become of the bytes `before`: all are still there, or the pipe is broken; or a
  -- datagram at their front is returned; or there were none, and the FIN is returned.
  abbrev pub Accounts : ℕ → Bytes → DgmPipe S → Option Bytes → Type 0
  Accounts max_size before q none = (unread c q ≡ before) ⊎ (q.base.broken ≡ true)
  Accounts max_size before q (some dgm) =
      HasDatagram max_size before dgm (unread c q) ⊎ ((before ≡ []) × (dgm ≡ []))

  -- No more than `len` bytes are returned.
  abbrev pub WithinBuffer : ℕ → Option Bytes → Type 0
  WithinBuffer len none = Unit {0}
  WithinBuffer len (some dgm) = length dgm ≤ len

  within_buffer :
      (max_size len : ℕ) (before : Bytes) (q : DgmPipe S) (r : Option Bytes)
      → max_size ≤ len
      → Accounts max_size before q r
      → WithinBuffer len r
  within_buffer max_size len before q none enough h = tt
  within_buffer max_size len before q (some dgm) enough (inl h) = omega (arith, h.0)
  within_buffer max_size len before q (some dgm) enough (inr h) = omega (arith, ap length h.1)

  abbrev Sound : ℕ → Bytes → Bytes → DgmPipe S × Option Bytes → Type 0
  Sound max_size sent before q =
      IsValid c q.0 × (c.sent (q.0).io ≡ sent) × Accounts max_size before q.0 q.1

  module _ (p : DgmPipe S) (inv : c.Inv p.io) (header : p.max_hdr_size ≡ 5)
      (below : p.max_size < 2 ^ 31) where
    err_lem : (before : Bytes) → Sound p.max_size (c.sent p.io) before (err io p)
    unfolding tag_pipe_as_broken
    err_lem before = (record { carrier = inv; holds = tt; header = header }, refl, inr refl)

    pass_lem :
        (rx : IoBuffer) (before : Bytes) (r : Option Bytes)
        → Contents.IsValid rx
        → Accounts p.max_size before (pass io p rx r).0 r
        → Sound p.max_size (c.sent p.io) before (pass io p rx r)
    pass_lem rx before r v h = let t = pass-Through c p rx inv v header r in (t.valid, t.sends, h)

    after_read-Sound :
        (rx : IoBuffer) (r : Processed)
        → Contents.IsValid rx
        → Cut p.max_size rx r
        → Sound p.max_size (c.sent p.io) (contents rx ++ c.arriving p.io) (after_read io p rx r)
    unfolding after_read
    after_read-Sound rx malformed v h = err_lem _
    after_read-Sound rx (short k) v h =
        pass_lem rx _ none v (inl (unread-pass c p rx inv v header none))
    after_read-Sound rx (extracted rx' dgm) v (v', (small, (hdr, cut, e))) =
        let whole = as_result-small dgm (omega (arith, small, below)) in
        let after = unread-pass c p rx' inv v' header (some dgm) in
        rw whole (
          pass_lem rx' _ (some dgm) v' (
            inl (
              small,
              (
                hdr,
                ap (λ l. l ++ c.arriving p.io) cut
                    ∙ append_assoc hdr (dgm ++ contents rx') (c.arriving p.io)
                    ∙ ap (λ l. hdr ++ l)
                        (append_assoc dgm (contents rx') (c.arriving p.io)
                          ∙ ap (λ l. dgm ++ l) (sym after)),
                io_parse_size-append (contents rx) (c.arriving p.io) _ _ e,
              ),
            )))

    after_recv-Sound :
        (rx : IoBuffer) (before : Bytes) (r : Option Bytes)
        → Contents.IsValid rx
        → rx.head ≡ 0
        → Received before (c.arriving p.io) (io.flags p.io) (rx.capacity - rx.size) r
        → Sound p.max_size (c.sent p.io) (contents rx ++ before) (after_recv io p rx r)
    unfolding after_recv
    after_recv-Sound rx before none v head h =
        pass_lem rx _ none v
          (inl (unread-pass c p rx inv v header none ∙ ap (λ l. contents rx ++ l) h.0))
    after_recv-Sound rx before (some []) v head h = elim (Bool-cases (not (rx.size == 0))) [
      | inl e ↦ rw e (err_lem _)
      | inr e ↦ rw e (pass_lem rx _ (some []) v (inr (nothing e, refl)))
    ]
      where
        empty : (b : Bytes) → length b ≡ 0 → b ≡ []
        empty [] e = refl
        empty (x ∷ xs) e = absurd (omega arith)

        nothing : not (rx.size == 0) ≡ false → contents rx ++ before ≡ []
        nothing e =
            ap (λ l. l ++ before) (empty (contents rx) (ground (arith, length-contents rx v))) ∙ h.0
    after_recv-Sound rx before (some (b ∷ bs)) v head h =
        let fits_in : rx.head + rx.size + length (b ∷ bs) ≤ rx.capacity =
          omega (arith, h.0, v.within) in
        let v' = append_bytes-IsValid rx v (b ∷ bs) fits_in in
        let joined : contents (append_bytes rx (b ∷ bs)) ++ c.arriving p.io
            ≡ contents rx ++ before =
          ap (λ l. l ++ c.arriving p.io) (contents-append_bytes rx v (b ∷ bs) fits_in)
          ∙ append_assoc (contents rx) (b ∷ bs) (c.arriving p.io)
          ∙ ap (λ l. contents rx ++ l) (sym h.1) in
        rw⁻¹ joined (
          after_read-Sound (append_bytes rx (b ∷ bs)) _ v'
            (process_rx-Cut p.max_size (append_bytes rx (b ∷ bs)) v'))

  module _ (p : DgmPipe S) (inv : c.Inv p.io) (header : p.max_hdr_size ≡ 5)
      (below : p.max_size < 2 ^ 31) where
    read_more-Sound :
        (rx : IoBuffer)
        → Contents.IsValid rx
        → rx.head ≡ 0
        → rx.size < rx.capacity
        → Returns
            (Sound p.max_size (c.sent p.io) (contents rx ++ c.arriving p.io))
            (read_more io p rx)
    unfolding read_more
    read_more-Sound rx v head room =
        let len = rx.capacity - rx.size in
        let ((s, r), made, good) =
          Returns-value (RecvPost io c p.io len) (io.recv p.io len)
            (c.recv_law p.io len inv (omega arith)) in
        let (valid, sends, accounts) =
          after_recv-Sound (record p { io = s }) good.0 header below rx (c.arriving p.io) r v head
            good.2 in
        rw
          (
            assert_holds (rx.head == 0) _ (ground arith),
            assert_holds (ltb rx.size rx.capacity) _ (lt→ltb _ _ room),
            made,
          )
          (valid, sends ∙ good.1, accounts)

    after_short :
        (len k : ℕ) (rx : IoBuffer)
        → Contents.IsValid rx
        → rx.size < 5 + k
        → Returns
            (Sound p.max_size (c.sent p.io) (contents rx ++ c.arriving p.io))
            (after_leftovers io p len rx (short k))
    unfolding after_leftovers
    after_short len k rx v lt = elim (Bool-cases (not (k == 0) && ltb len k)) [
      | inl e ↦ rw e (err_lem p inv header below _)
      | inr e ↦ rw e (
          Returns-bind (Ready rx (p.max_hdr_size + len)) _ (adjust_rx rx (p.max_hdr_size + len)) _
            (adjust_rx-Ready rx v (p.max_hdr_size + len) (ground (arith, header)))
            (λ b ready.
              subst
                (λ l.
                  Returns (Sound p.max_size (c.sent p.io) (l ++ c.arriving p.io))
                    (read_more io p b))
                ready.2
                (read_more-Sound b ready.0 ready.1 (ground (arith, ready.3, ready.4, header)))))
    ]

    after_leftovers-Sound :
        (len : ℕ) (rx : IoBuffer) (r : Processed)
        → Contents.IsValid rx
        → Cut p.max_size rx r
        → Returns
            (Sound p.max_size (c.sent p.io) (contents rx ++ c.arriving p.io))
            (after_leftovers io p len rx r)
    unfolding after_leftovers after_read
    after_leftovers-Sound len rx malformed v h = err_lem p inv header below _
    after_leftovers-Sound len rx (extracted rx' dgm) v h =
        after_read-Sound p inv header below rx (extracted rx' dgm) v h
    after_leftovers-Sound len rx (short k) v h = after_short len k rx v h

    receive-Sound :
        (len : ℕ) (rx : Option IoBuffer)
        → Holds rx
        → Returns
            (Sound p.max_size (c.sent p.io) (kept rx ++ c.arriving p.io))
            (receive io p len rx)
    unfolding receive kept
    receive-Sound len none h = rw (alloc_io_buffer-zeroed (p.max_hdr_size + len)) (
        unfold contents in
        read_more-Sound (zeroed (p.max_hdr_size + len)) (zeroed-IsValid _) refl
          (omega (arith, header)))
    receive-Sound len (some rx) h =
        after_leftovers-Sound len rx _ h.0 (process_rx-Cut p.max_size rx h.0)

  -- dgm_pipe_recv() of a valid pipe, over a carrier that keeps the contract, into a buffer of
  -- at least `max_size` bytes, with `max_size` below 2 ^ 31, whatever bytes the peer sends: no
  -- assertion fails and the pipe stays valid; on -1 nothing is lost or the pipe is broken;
  -- otherwise the bytes returned are at most `max_size`, and so no more than the buffer holds,
  -- and stand at the front of what was unread behind a header that io_parse_size() reads as
  -- their length, or the result is the FIN behind the last byte; what was sent stays.
  pub dgm_pipe_recv-IsValid :
      (p : DgmPipe S) (len : ℕ)
      → IsValid c p
      → p.max_size ≤ len
      → p.max_size < 2 ^ 31
      → Returns
          (λ (q : DgmPipe S × Option Bytes).
            IsValid c q.0
            × (c.sent (q.0).io ≡ c.sent p.io)
            × Accounts p.max_size (unread c p) q.0 q.1
            × WithinBuffer len q.1)
          (dgm_pipe_recv io p len)
  unfolding dgm_pipe_recv
  dgm_pipe_recv-IsValid p len v enough below = elim (Bool-cases p.base.broken) [
    | inl e ↦ rw (if_true p.base.broken _ e) (v, refl, inl refl, tt)
    | inr e ↦ rw (if_false p.base.broken _ e) (
        Returns-imp _ _ (receive io p len p.rx)
          (receive-Sound p v.carrier v.header below len p.rx v.holds)
          (λ q h. (h.0, h.1, h.2, within_buffer p.max_size len (unread c p) q.0 q.1 enough h.2)))
  ]
