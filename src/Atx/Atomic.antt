-- ===== src/Atx/Atomic.antt =====
-- recv() and send() of the pipe of src/io/src/io_pipe_atx.c, against the contract of its carrier.
use tcp_striper.Base.{
  ℕ, ◌-◌, ◌<◌, ◌≡◌, refl, ap, ◌∙◌, ◌++◌, ◌^◌, as_int, below_int, as_int-small, ◌⊎◌, inl, inr,
  append-nil, append_assoc, false, not, Option, none, some, [], ◌∷◌, length, take, drop,
  length-drop, take_all, take-append-drop, is_some, ◌==◌, arith, Option-cases, if_true, if_false,
  lt→ltb,
}
use native.Mathlib.Decide.{dec_lt}
use tcp_striper.Serialize.{Bytes}
use tcp_striper.Run.{ok, ◌>>=◌, Returns, Returns-value, assert_holds, Returns-imp}
use tcp_striper.Buffer.{IoBuffer, alloc_io_buffer}
use tcp_striper.Buffer.Contents.{kept, Holds, contents, alloc_io_buffer-contents}
use tcp_striper.Pipe.{Flags, IoPipe, clone_pipe_state}
use tcp_striper.Pipe.Contract.{
  Contract, ShortContract, Sent, Received, SendPost, RecvPost, IsAtomic,
}
use tcp_striper.Atx.{
  AtxPipe, shown, atx_pipe_clone_state, after_send, atx_pipe_send, atx_pipe_recv, atx_pipe,
}

module _ {S : Type 0} {io : IoPipe S} (c : Contract io) where
  -- Between calls: the carrier may be used, and the bits are those that clone_state() shows.
  pub record IsValid (p : AtxPipe S) : Type 0 where
    pub carrier : c.Inv p.io
    pub holds : Holds p.pending
    pub in_step : p.base ≡ shown io (io.flags p.io) p.pending

  -- What the peer will have: what the carrier has taken, and then what is kept.
  abbrev pub taken : AtxPipe S → Bytes
  taken p = c.sent p.io ++ kept p.pending

  pub atx_pipe_clone_state-IsValid :
      (p : AtxPipe S) → c.Inv p.io → Holds p.pending → IsValid (atx_pipe_clone_state io p)
  unfolding atx_pipe_clone_state clone_pipe_state
  atx_pipe_clone_state-IsValid p h b = record { carrier = h; holds = b; in_step = refl }

  -- What is promised of send() in state `q`, for the bytes `before` that were taken earlier.
  abbrev pub SendOk : Bytes → S → Bytes → AtxPipe S × Option ℕ → Type 0
  SendOk before s buf q =
      IsValid q.0
      × ((q.0).io ≡ s)
      × Sent before (taken q.0) (q.0).base buf q.1
      × ((q.1 ≡ none) ⊎ (q.1 ≡ some (length buf)))

  -- The carrier has been asked, and nothing is kept yet.
  module _ (before : Bytes) (p : AtxPipe S) (buf : Bytes) (v : IsValid p)
      (short : length buf < 2 ^ 31) (e : p.pending ≡ none) where
    nothing_kept : taken p ≡ c.sent p.io
    unfolding kept
    nothing_kept = ap (λ b. c.sent p.io ++ kept b) e ∙ append-nil (c.sent p.io)

    bits : p.base ≡ io.flags p.io
    bits = v.in_step ∙ ap (shown io (io.flags p.io)) e

    module _ (n : ℕ) (s : Sent before (c.sent p.io) (io.flags p.io) buf (some n)) where
      closed : n < length buf → p.base ≡ record (io.flags p.io) { writable = false }
      closed lt = bits ∙ ap (λ w. record (io.flags p.io) { writable = w }) (s.2 lt)

      rest_kept :
          (b : IoBuffer)
          → contents b ≡ drop n buf
          → c.sent p.io ++ contents b ≡ before ++ take (length buf) buf
      rest_kept b holds =
          rw
            (
              holds,
              s.1,
              append_assoc before (take n buf) (drop n buf),
              take-append-drop n buf,
              take_all (length buf) buf (omega arith),
            )
            refl

      keep_rest :
          n < length buf
          → Returns (SendOk before p.io buf) (
              alloc_io_buffer (length buf - n) (some (drop n buf)) >>= λ b.
              ok (record p { pending = some b }, some (length buf)))
      unfolding kept
      keep_rest lt =
          let (b, made, valid, holds, size, capacity, head) =
            alloc_io_buffer-contents (length buf - n) (drop n buf)
              (omega (arith, length-drop n buf)) in
          rw made (
            record {
              carrier = v.carrier;
              holds = (valid, omega (arith, length-drop n buf));
              in_step = closed lt;
            },
            refl,
            (omega arith, rest_kept b holds, λ less. absurd (omega arith)),
            inr refl,
          )

      partial : n < length buf → Returns (SendOk before p.io buf) (after_send io p buf (some n))
      unfolding after_send
      partial lt =
          rw
            (
              if_false (n == length buf) _ (ground arith),
              assert_holds (below_int n (as_int (length buf))) _
                  (ap (below_int n) (as_int-small (length buf) short) ∙ lt→ltb n _ lt),
              assert_holds (not p.base.writable) _
                  (ap (λ (f : Flags). not f.writable) bits ∙ ap not (s.2 lt)),
              as_int-small (length buf) short,
            )
            (keep_rest lt)

      whole : n ≡ length buf → Returns (SendOk before p.io buf) (after_send io p buf (some n))
      unfolding after_send
      whole eq =
          rw (if_true (n == length buf) _ (ground arith), as_int-small (length buf) short)
            (
              v,
              refl,
              (
                omega arith,
                nothing_kept ∙ s.1 ∙ ap (λ k. before ++ take k buf) eq,
                λ less. absurd (omega arith),
              ),
              inr refl,
            )

    after_send_lem :
        (r : Option ℕ)
        → Sent before (c.sent p.io) (io.flags p.io) buf r
        → Returns (SendOk before p.io buf) (after_send io p buf r)
    unfolding after_send
    after_send_lem none s =
        (v, refl, (nothing_kept ∙ s.0, ap (λ (f : Flags). f.writable) bits ∙ s.1), inl refl)
    after_send_lem (some n) s = elim (dec_lt n (length buf)) [
      | yes lt ↦ unfold after_send in partial n s lt
      | no not_lt ↦ unfold after_send in whole n s (omega arith)
    ]

  abbrev SendPromise : AtxPipe S → Bytes → AtxPipe S × Option ℕ → Type 0
  SendPromise p buf q =
      IsValid q.0
      × (c.arriving (q.0).io ≡ c.arriving p.io)
      × Sent (taken p) (taken q.0) (q.0).base buf q.1
      × ((q.1 ≡ none) ⊎ (q.1 ≡ some (length buf)))

  send_busy :
      (p : AtxPipe S) (buf : Bytes) (b : IoBuffer)
      → IsValid p
      → p.pending ≡ some b
      → Returns (SendPromise p buf) (atx_pipe_send io p buf)
  unfolding atx_pipe_send
  send_busy p buf b v e = rw (if_true (is_some p.pending) _ (ap is_some e)) (
    v,
    refl,
    (refl, ap (λ (f : Flags). f.writable) (v.in_step ∙ ap (shown io (io.flags p.io)) e)),
    inl refl,
  )

  send_idle :
      (p : AtxPipe S) (buf : Bytes)
      → IsValid p
      → length buf < 2 ^ 31
      → p.pending ≡ none
      → Returns (SendPromise p buf) (atx_pipe_send io p buf)
  unfolding atx_pipe_send atx_pipe_clone_state kept
  send_idle p buf v short e =
      let ((s, r), sent, good) =
        Returns-value (SendPost io c p.io buf) (io.send p.io buf)
          (c.send_law p.io buf v.carrier tt) in
      let p' = atx_pipe_clone_state io (record p { io = s }) in
      let v' = atx_pipe_clone_state-IsValid (record p { io = s }) good.0 v.holds in
      rw (if_false (is_some p.pending) _ (ap is_some e), sent)
        (Returns-imp (SendOk (c.sent p.io) s buf) (SendPromise p buf) (after_send io p' buf r)
          (after_send_lem (c.sent p.io) p' buf v' short e r good.2)
          (λ q h. (h.0, ap c.arriving h.1 ∙ good.1, rw (nothing_kept [] p buf v short e) h.2, h.3)))

  -- atx_pipe_send() of fewer than 2 ^ 31 bytes over any carrier that keeps the contract, in a
  -- valid state: no assertion fails and the state stays valid; the result is -1 or the whole
  -- length; what the peer will have (taken by the carrier, then kept) grows by exactly the
  -- bytes of the call, or not at all on -1; `writable` is clear on -1; and what is to arrive
  -- stays.
  pub atx_pipe_send_law :
      (p : AtxPipe S) (buf : Bytes)
      → IsValid p
      → length buf < 2 ^ 31
      → Returns
          (λ (q : AtxPipe S × Option ℕ).
            IsValid q.0
            × (c.arriving (q.0).io ≡ c.arriving p.io)
            × Sent (taken p) (taken q.0) (q.0).base buf q.1
            × ((q.1 ≡ none) ⊎ (q.1 ≡ some (length buf))))
          (atx_pipe_send io p buf)
  atx_pipe_send_law p buf v short = elim (Option-cases p.pending) [
    | inl e ↦ send_idle p buf v short e
    | inr (b, e) ↦ send_busy p buf b v e
  ]

  shown-Received :
      (before after : Bytes) (f : Flags) (b : Option IoBuffer) (len : ℕ) (r : Option Bytes)
      → Received before after f len r
      → Received before after (shown io f b) len r
  shown-Received before after f none len r h = h
  shown-Received before after f (some b) len none h = h
  shown-Received before after f (some b) len (some []) h = h
  shown-Received before after f (some b) len (some (x ∷ xs)) h = h

  -- atx_pipe_recv() into a positive length, in a valid state, over a carrier that keeps the
  -- contract: the state stays valid, the result is what the contract promises of the bytes
  -- that are to arrive at the carrier, with the bits of the contract on the pipe itself, and
  -- what was taken for the peer stays.
  pub atx_pipe_recv_law :
      (p : AtxPipe S) (len : ℕ)
      → IsValid p
      → 0 < len
      → Returns
          (λ (q : AtxPipe S × Option Bytes).
            IsValid q.0
            × (taken q.0 ≡ taken p)
            × Received (c.arriving p.io) (c.arriving (q.0).io) (q.0).base len q.1)
          (atx_pipe_recv io p len)
  unfolding atx_pipe_recv atx_pipe_clone_state clone_pipe_state
  atx_pipe_recv_law p len v pos =
      let ((s, r), received, good) =
        Returns-value (RecvPost io c p.io len) (io.recv p.io len)
          (c.recv_law p.io len v.carrier pos) in
      rw received (
        atx_pipe_clone_state-IsValid (record p { io = s }) good.0 v.holds,
        ap (λ b. b ++ kept p.pending) good.1,
        shown-Received _ _ (io.flags s) p.pending len r good.2,
      )

  pub send_part :
      (p : AtxPipe S) (buf : Bytes)
      → IsValid p
      → length buf < 2 ^ 31
      → Returns
          (λ (q : AtxPipe S × Option ℕ).
            IsValid q.0
            × (c.arriving (q.0).io ≡ c.arriving p.io)
            × Sent (taken p) (taken q.0) (q.0).base buf q.1)
          (atx_pipe_send io p buf)
  send_part p buf v short =
      Returns-imp (SendPromise p buf) _ (atx_pipe_send io p buf) (atx_pipe_send_law p buf v short)
        (λ q h. (h.0, h.1, h.2))

  -- The pipe as an implementation of the contract that its carrier implements.
  abbrev pub atx_pipe_contract : ShortContract (atx_pipe io)
  atx_pipe_contract = record {
    Inv = IsValid;
    sent = taken;
    arriving = λ p. c.arriving p.io;
    send_law = send_part;
    recv_law = atx_pipe_recv_law;
  }

  pub atx_pipe-IsAtomic : IsAtomic (atx_pipe io) IsValid
  atx_pipe-IsAtomic p buf v short =
      Returns-imp (SendPromise p buf) _ (atx_pipe_send io p buf) (atx_pipe_send_law p buf v short)
        (λ q h. h.3)
