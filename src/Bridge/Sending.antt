-- ===== src/Bridge/Sending.antt =====
-- The side of a bridge that sends: the second half of br_bridge_rx_tx() (src/io/src/io_bridge.c).
use tcp_striper.Base.{
  ℕ, ◌+◌, ◌≤◌, ◌<◌, ◌≡◌, refl, sym, ap, ap₂, ◌∙◌, ◌++◌, append_assoc, append-nil, Bool, true, false,
  not, Option, none, some, ◌∷◌, length, take, drop, length-append, length-drop, take_all,
  take-append-drop, take-append_exact, is_some, ltb, ◌==◌, arith, lt→ltb, if_true, if_false,
  Bool-cases, inl, inr,
}
use mathlib.Core.Path.{subst}
use native.Mathlib.Decide.{dec_lt}
use tcp_striper.Serialize.{Bytes}
use tcp_striper.Run.{Returns, Returns-value, assert_holds}
use tcp_striper.Buffer.{IoBuffer, write_at}
use tcp_striper.Buffer.Contents
use tcp_striper.Buffer.Contents.{
  kept, Holds, contents, length-contents, contents-consume, consume-IsValid, size-consume,
}
use tcp_striper.Pipe.{IoPipe}
use tcp_striper.Pipe.Contract.{Contract, Sent, SendPost, FinPost, FinLaw}
use tcp_striper.Bridge.{
  BrStream, is_congested, count_congestion, keep_rest, received_into, after_tx, send_received,
  pass_fin,
}

-- A buffer that may be received into.
abbrev pub Spare : ℕ → Option IoBuffer → Type 0
Spare capacity none = ⊥
Spare capacity (some b) = Contents.IsValid b × (b.head ≡ 0) × (b.capacity ≡ capacity)

module _ {T : Type 0} {io : IoPipe T} (c : Contract io) where
  pub record IsValid (dst : BrStream T) : Type 0 where
    pub carrier : c.Inv dst.pipe
    pub holds : Holds dst.pending

  -- What the peer will have: what the pipe has taken, and then what is pending.
  abbrev pub passed : BrStream T → Bytes
  passed dst = c.sent dst.pipe ++ kept dst.pending

  -- After a round of sending: `before` is what the peer will have if it went well, and if the pipe
  -- is still writable, then nothing is pending and the buffer is left to the caller.
  pub record Sending (before coming : Bytes) (capacity recv_size : ℕ)
      (q : BrStream T × Option IoBuffer × Bool) : Type 0 where
    pub valid : IsValid q.0
    pub coming_in : c.arriving (q.0).pipe ≡ coming
    pub size : (q.0).recv_size ≡ recv_size
    pub in_order : q.2 ≡ true → passed q.0 ≡ before
    pub going_on :
        q.2 ≡ true
        → (io.flags (q.0).pipe).writable ≡ true
        → ((q.0).pending ≡ none) × Spare capacity q.1

  module _ (before : Bytes) (dst : BrStream T) (buf : IoBuffer) (inv : c.Inv dst.pipe)
      (v : Contents.IsValid buf) (some_bytes : 0 < buf.size) where
    keep_rest_lem :
        (n : ℕ)
        → n < buf.size
        → c.sent dst.pipe ≡ before ++ take n (contents buf)
        → (io.flags dst.pipe).writable ≡ false
        → Returns
            (Sending (before ++ contents buf) (c.arriving dst.pipe) buf.capacity dst.recv_size)
            (keep_rest io dst buf n)
    unfolding keep_rest kept
    keep_rest_lem n lt sent closed =
        rw
          (
            assert_holds (ltb n buf.size) _ (lt→ltb _ _ lt),
            assert_holds (not (io.flags dst.pipe).writable) _ (ap not closed),
          )
          (record {
            valid = record {
              carrier = inv;
              holds = (consume-IsValid buf v n (omega arith), omega (arith, size-consume buf v n));
            };
            coming_in = refl;
            size = refl;
            in_order = λ e.
                ap₂ ◌++◌ sent (contents-consume buf v n (omega arith))
                ∙ append_assoc before (take n (contents buf)) (drop n (contents buf))
                ∙ ap (λ l. before ++ l) (take-append-drop n (contents buf));
            going_on = λ e w. cc;
          })

  module _ (before : Bytes) (dst : BrStream T) (buf : IoBuffer) (inv : c.Inv dst.pipe)
      (v : Contents.IsValid buf) (head : buf.head ≡ 0) (some_bytes : 0 < buf.size)
      (free : dst.pending ≡ none) where
    abbrev Goal : BrStream T × Option IoBuffer × Bool → Type 0
    Goal = Sending (before ++ contents buf) (c.arriving dst.pipe) buf.capacity dst.recv_size

    refused_tx :
        Sent before (c.sent dst.pipe) (io.flags dst.pipe) (contents buf) none
        → Returns Goal (after_tx io dst buf none)
    unfolding after_tx
    refused_tx sent = elim (Bool-cases (io.flags dst.pipe).broken) [
      | inl e ↦ rw (if_true (io.flags dst.pipe).broken _ e) (record {
        valid = record { carrier = inv; holds = rw free tt };
        coming_in = refl;
        size = refl;
        in_order = λ x. cc;
        going_on = λ x w. cc;
      })
      | inr e ↦ rw (if_false (io.flags dst.pipe).broken _ e) (
          keep_rest_lem before dst buf inv v some_bytes 0 some_bytes
            (sent.0 ∙ sym (append-nil before)) sent.1)
    ]

    taken_tx :
        (n : ℕ)
        → Sent before (c.sent dst.pipe) (io.flags dst.pipe) (contents buf) (some n)
        → Returns Goal (after_tx io dst buf (some n))
    unfolding after_tx kept
    taken_tx n sent = elim (dec_lt n buf.size) [
      | yes lt ↦ rw (if_false (n == buf.size) _ (ground arith)) (
          keep_rest_lem before (record dst { tx = _ }) buf inv v some_bytes n lt sent.1
            (sent.2 (omega (arith, length-contents buf v))))
      | no not_lt ↦
          rw (if_true (n == buf.size) _ (ground (arith, sent.0, length-contents buf v))) (record {
            valid = record { carrier = inv; holds = rw free tt };
            coming_in = refl;
            size = refl;
            in_order = λ x.
                ap (λ b. c.sent dst.pipe ++ kept b) free
                ∙ append-nil (c.sent dst.pipe)
                ∙ sent.1
                ∙ ap (λ l. before ++ l)
                    (take_all n (contents buf) (omega (arith, length-contents buf v)));
            going_on = λ x w. (free, (v, head, refl));
          })
    ]

    after_tx_lem :
        (r : Option ℕ)
        → Sent before (c.sent dst.pipe) (io.flags dst.pipe) (contents buf) r
        → Returns Goal (after_tx io dst buf r)
    after_tx_lem none sent = refused_tx sent
    after_tx_lem (some n) sent = taken_tx n sent

  module _ (dst : BrStream T) (inv : c.Inv dst.pipe) (free : dst.pending ≡ none) (buf : IoBuffer)
      (v : Contents.IsValid buf) (head : buf.head ≡ 0) where
    counted_lem :
        (before : Bytes) (b : IoBuffer) (r : Option ℕ)
        → Contents.IsValid b
        → b.head ≡ 0
        → 0 < b.size
        → Sent before (c.sent dst.pipe) (io.flags dst.pipe) (contents b) r
        → Returns
            (Sending (before ++ contents b) (c.arriving dst.pipe) b.capacity dst.recv_size)
            (after_tx io (count_congestion io dst r b.size) b r)
    counted_lem before b r vb hb some_bytes sent =
        elim (Bool-cases (is_congested io dst.pipe r b.size)) [
          | inl e ↦ rw (if_true (is_congested io dst.pipe r b.size) _ e) (
              after_tx_lem before (record dst { congestions = _ }) b inv vb hb some_bytes free r
                sent)
          | inr e ↦
              rw (if_false (is_congested io dst.pipe r b.size) _ e)
                (after_tx_lem before dst b inv vb hb some_bytes free r sent)
        ]

    pub pass_fin_lem :
        FinLaw io c
        → (io.flags dst.pipe).fin_sent ≡ false
        → Returns
            (λ (q : BrStream T × Option IoBuffer × Bool).
              IsValid q.0
              × (c.arriving (q.0).pipe ≡ c.arriving dst.pipe)
              × (passed q.0 ≡ passed dst)
              × ((q.0).recv_size ≡ dst.recv_size)
              × (is_some q.1 ≡ true)
              × ((q.0).pending ≡ none))
            (pass_fin io dst buf)
    unfolding pass_fin
    pass_fin_lem fin unsent =
        let ((t, r), made, good) =
          Returns-value (FinPost io c dst.pipe) (io.send_fin dst.pipe) (fin dst.pipe inv unsent) in
        rw (assert_holds (not (io.flags dst.pipe).fin_sent) _ (ap not unsent), made)
          (
            record { carrier = good.0; holds = rw free tt },
            good.2,
            ap (λ l. l ++ kept dst.pending) good.1,
            refl,
            refl,
            free,
          )

  module _ (dst : BrStream T) (inv : c.Inv dst.pipe) (free : dst.pending ≡ none) (buf : IoBuffer)
      (v : Contents.IsValid buf) (head : buf.head ≡ 0) (b : ℕ) (bs : Bytes)
      (fits : length (b ∷ bs) ≤ buf.capacity) where
    abbrev pub filled : IoBuffer
    filled = received_into io buf (b ∷ bs)

    contents-filled : contents filled ≡ b ∷ bs
    unfolding contents
    contents-filled =
        ap (λ (h : ℕ). take (length (b ∷ bs)) (drop h (write_at 0 (b ∷ bs) buf.bytes))) head
        ∙ take-append_exact (length (b ∷ bs)) (b ∷ bs) (drop (0 + length (b ∷ bs)) buf.bytes) refl

    filled-IsValid : Contents.IsValid filled
    filled-IsValid = omega (
      arith,
      v.backed,
      length-append (b ∷ bs) (drop (0 + length (b ∷ bs)) buf.bytes),
      length-drop (0 + length (b ∷ bs)) buf.bytes,
    )

    data-filled : take filled.size filled.bytes ≡ b ∷ bs
    data-filled =
        take-append_exact (length (b ∷ bs)) (b ∷ bs) (drop (0 + length (b ∷ bs)) buf.bytes) refl

    pub send_received_lem :
        Returns
          (Sending (c.sent dst.pipe ++ (b ∷ bs)) (c.arriving dst.pipe) buf.capacity dst.recv_size)
          (send_received io dst filled)
    unfolding send_received
    send_received_lem =
        let ((t, r), made, good) =
          Returns-value (SendPost io c dst.pipe (b ∷ bs)) (io.send dst.pipe (b ∷ bs))
            (c.send_law dst.pipe (b ∷ bs) inv tt) in
        let before = c.sent dst.pipe in
        let dst' : BrStream T = record dst { pipe = t } in
        rw (data-filled, made)
          (subst
            (λ a.
              Returns (Sending (before ++ (b ∷ bs)) a buf.capacity dst.recv_size)
                (after_tx io (count_congestion io dst' r (length (b ∷ bs))) filled r))
            good.1
            (subst
              (λ l.
                Sent before (c.sent t) (io.flags t) l r
                → Returns (Sending (before ++ l) (c.arriving t) buf.capacity dst.recv_size)
                    (after_tx io (count_congestion io dst' r (length (b ∷ bs))) filled r))
              contents-filled
              (counted_lem dst' good.0 free buf v head before filled r filled-IsValid head
                (omega arith))
              good.2))
