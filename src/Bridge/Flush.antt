-- ===== src/Bridge/Flush.antt =====
-- br_stream_flush() (src/io/src/io_bridge.c) and the order of what is pending.
use mathlib.Core.Path.{subst}
use native.Mathlib.Decide.{dec_lt}
use tcp_striper.Base.{
  ℕ, ◌<◌, ◌≡◌, refl, sym, ap, ap₂, ◌∙◌, ◌++◌, append_assoc, append-nil, Bool, true, not, Option,
  none, some, take, drop, take_all, take-append-drop, ltb, arith, lt→ltb, if_true, if_false,
  Bool-cases, inl, inr,
}
use tcp_striper.Serialize.{Bytes}
use tcp_striper.Run.{Returns, Returns-value, Returns-imp, assert_holds}
use tcp_striper.Buffer.{IoBuffer}
use tcp_striper.Buffer.Contents
use tcp_striper.Buffer.Contents.{
  kept, Holds, contents, length-contents, contents-consume, consume-IsValid, size-consume,
}
use tcp_striper.Pipe.{IoPipe}
use tcp_striper.Pipe.Contract.{Contract, Sent, SendPost}
use tcp_striper.Bridge.{
  BrStream, is_congested, count_congestion, after_flush, flush_buffer, br_stream_flush,
}
use tcp_striper.Bridge.Sending.{IsValid, passed}

module _ {T : Type 0} {io : IoPipe T} (c : Contract io) where
  -- The stream after a flush: valid, with nothing lost, and with nothing pending if it is writable.
  pub record Flushed (total coming : Bytes) (recv_size : ℕ) (q : BrStream T × Bool) : Type 0 where
    pub valid : IsValid c q.0
    pub in_order : passed c q.0 ≡ total
    pub coming_in : c.arriving (q.0).pipe ≡ coming
    pub size : (q.0).recv_size ≡ recv_size
    pub calm : (io.flags (q.0).pipe).writable ≡ true → (q.0).pending ≡ none

  module _ (before : Bytes) (dst : BrStream T) (buf : IoBuffer) (inv : c.Inv dst.pipe)
      (v : Contents.IsValid buf) (some_bytes : 0 < buf.size) (e : dst.pending ≡ some buf) where
    abbrev Goal : BrStream T × Bool → Type 0
    Goal = Flushed (before ++ contents buf) (c.arriving dst.pipe) dst.recv_size

    refused_flush :
        Sent before (c.sent dst.pipe) (io.flags dst.pipe) (contents buf) none
        → Returns Goal (after_flush io dst buf none)
    unfolding after_flush kept
    refused_flush sent =
        rw (assert_holds (not (io.flags dst.pipe).writable) _ (ap not sent.1)) (record {
          valid = record { carrier = inv; holds = rw e (v, some_bytes) };
          in_order = ap₂ ◌++◌ sent.0 (ap kept e);
          coming_in = refl;
          size = refl;
          calm = λ w. ground (arith, sent.1);
        })

    taken_flush :
        (n : ℕ)
        → Sent before (c.sent dst.pipe) (io.flags dst.pipe) (contents buf) (some n)
        → Returns Goal (after_flush io dst buf (some n))
    unfolding after_flush kept
    taken_flush n sent = elim (dec_lt n buf.size) [
      | yes lt ↦
          let closed = sent.2 (omega (arith, length-contents buf v)) in
          rw
            (
              if_true (ltb n buf.size) _ (lt→ltb _ _ lt),
              assert_holds (not (io.flags dst.pipe).writable) _ (ap not closed),
            )
            (record {
              valid = record {
                carrier = inv;
                holds =
                    (consume-IsValid buf v n (omega arith), omega (arith, size-consume buf v n));
              };
              in_order =
                  ap₂ ◌++◌ sent.1 (contents-consume buf v n (omega arith))
                  ∙ append_assoc before (take n (contents buf)) (drop n (contents buf))
                  ∙ ap (λ l. before ++ l) (take-append-drop n (contents buf));
              coming_in = refl;
              size = refl;
              calm = λ w. ground (arith, closed);
            })
      | no not_lt ↦ rw (if_false (ltb n buf.size) _ (ground arith)) (record {
        valid = record { carrier = inv; holds = tt };
        in_order =
            append-nil (c.sent dst.pipe)
            ∙ sent.1
            ∙ ap (λ l. before ++ l)
                (take_all n (contents buf) (omega (arith, length-contents buf v)));
        coming_in = refl;
        size = refl;
        calm = λ w. refl;
      })
    ]

    after_flush_lem :
        (r : Option ℕ)
        → Sent before (c.sent dst.pipe) (io.flags dst.pipe) (contents buf) r
        → Returns Goal (after_flush io dst buf r)
    after_flush_lem none sent = refused_flush sent
    after_flush_lem (some n) sent = taken_flush n sent

  module _ (dst : BrStream T) (buf : IoBuffer) (valid : IsValid c dst) (v : Contents.IsValid buf)
      (some_bytes : 0 < buf.size) (e : dst.pending ≡ some buf)
      (writable : (io.flags dst.pipe).writable ≡ true) where
    flush_buffer_lem :
        Returns
          (Flushed (c.sent dst.pipe ++ contents buf) (c.arriving dst.pipe) dst.recv_size)
          (flush_buffer io dst (some buf))
    unfolding flush_buffer
    flush_buffer_lem =
        let ((t, r), made, good) =
          Returns-value (SendPost io c dst.pipe (contents buf)) (io.send dst.pipe (contents buf))
            (c.send_law dst.pipe (contents buf) valid.carrier tt) in
        rw (assert_holds (io.flags dst.pipe).writable _ writable, made)
          (Returns-imp (Flushed (c.sent dst.pipe ++ contents buf) (c.arriving t) dst.recv_size) _
            (after_flush io (count_congestion io (record dst { pipe = t }) r buf.size) buf r)
            (by_count t r good.0 good.2)
            (λ q f. record {
              valid = f.valid;
              in_order = f.in_order;
              coming_in = f.coming_in ∙ good.1;
              size = f.size;
              calm = f.calm;
            }))
      where
        by_count :
            (t : T) (r : Option ℕ)
            → c.Inv t
            → Sent (c.sent dst.pipe) (c.sent t) (io.flags t) (contents buf) r
            → Returns
                (Flushed (c.sent dst.pipe ++ contents buf) (c.arriving t) dst.recv_size)
                (after_flush io (count_congestion io (record dst { pipe = t }) r buf.size) buf r)
        by_count t r inv sent = elim (Bool-cases (is_congested io t r buf.size)) [
          | inl y ↦ rw (if_true (is_congested io t r buf.size) _ y) (
              after_flush_lem (c.sent dst.pipe) (record dst { pipe = t; congestions = _ }) buf inv v
                some_bytes e r sent)
          | inr n ↦ rw (if_false (is_congested io t r buf.size) _ n) (
              after_flush_lem (c.sent dst.pipe) (record dst { pipe = t }) buf inv v some_bytes e r
                sent)
        ]

  -- br_stream_flush() of a valid stream that has bytes pending and whose pipe keeps the
  -- contract and is writable: no assertion fails, the stream stays valid, what the peer will
  -- have and what is to arrive stay, whatever the result, and nothing is pending if the pipe
  -- is still writable.
  pub br_stream_flush_law :
      (dst : BrStream T) (buf : IoBuffer)
      → IsValid c dst
      → dst.pending ≡ some buf
      → (io.flags dst.pipe).writable ≡ true
      → Returns
          (λ (q : BrStream T × Bool). Flushed (passed c dst) (c.arriving dst.pipe) dst.recv_size q)
          (br_stream_flush io dst)
  unfolding br_stream_flush kept
  br_stream_flush_law dst buf valid e writable =
      let held : Holds (some buf) = subst Holds e valid.holds in
      rw (ap (flush_buffer io dst) e) (
        subst
          (λ b.
            Returns (Flushed (c.sent dst.pipe ++ kept b) (c.arriving dst.pipe) dst.recv_size)
              (flush_buffer io dst (some buf)))
          (sym e) (flush_buffer_lem dst buf valid held.0 held.1 e writable))
