-- ===== src/Dgm/Send.antt =====
-- dgm_pipe_send() (src/io/src/io_pipe_dgm.c) over an atomic carrier.
use tcp_striper.Base.{
  ℕ, ◌+◌, ◌^◌, as_int-small, ◌<◌, ◌≡◌, refl, sym, ap, ◌∙◌, ◌++◌, ◌⊎◌, inl, inr, append_assoc, true,
  not, Option, none, some, length, take, drop, length-append, take_all, take-append_exact, ltb, leb,
  arith, if_true, if_false, Bool-cases,
}
use tcp_striper.Serialize.{Bytes, io_store_size}
use tcp_striper.Serialize.Store.{size_code, length-size_code}
use tcp_striper.Serialize.RoundTrip.{io_store_size-fits}
use tcp_striper.Run.{Returns, Returns-value, assert_holds}
use tcp_striper.Buffer.{IoBuffer, write_at, zeroed}
use tcp_striper.Buffer.Contents.{contents, alloc_io_buffer-zeroed}
use tcp_striper.Pipe.{IoPipe}
use tcp_striper.Pipe.Contract.{ShortContract, SendPost, IsAtomic}
use tcp_striper.Dgm.{DgmPipe, send_result, whole_or_none, send_framed, after_header, dgm_pipe_send}
use tcp_striper.Dgm.Frames.{frame}

module _ {S : Type 0} {io : IoPipe S} (c : ShortContract io) (atomic : IsAtomic io c.Inv) where
  -- The datagram went out whole, or nothing did and the result is -1.
  abbrev pub SentWhole : DgmPipe S → Bytes → DgmPipe S × Option ℕ → Type 0
  SentWhole p buf q =
      c.Inv (q.0).io
      × (c.arriving (q.0).io ≡ c.arriving p.io)
      × (((q.1 ≡ none) × (c.sent (q.0).io ≡ c.sent p.io))
          ⊎ ((q.1 ≡ some (length buf)) × (c.sent (q.0).io ≡ c.sent p.io ++ frame buf)))

  module _ (p : DgmPipe S) (buf : Bytes) (dgm : IoBuffer) (inv : c.Inv p.io)
      (holds : contents dgm ≡ frame buf) (size : dgm.size ≡ length (frame buf))
      (short : length (frame buf) < 2 ^ 31) where
    by_result :
        (s : S) (r : Option ℕ)
        → SendPost io c p.io (frame buf) (s, r)
        → (r ≡ none) ⊎ (r ≡ some (length (frame buf)))
        → (whole_or_none io dgm.size r ≡ true)
          × SentWhole p buf (record p { io = s }, send_result io (length buf) r)
    by_result s none post a = (refl, (post.0, post.1, inl (refl, post.2.0)))
    by_result s (some n) post (inl e) = cc
    by_result s (some n) post (inr e) = (
      ground arith,
      (
        post.0,
        post.1,
        inr (
          if_true (ltb 0 n) _ (
                ground (
                  arith,
                  length-size_code (length buf),
                  length-append (size_code (length buf)) buf,
                ))
              ∙ as_int-small (length buf)
                  (omega (arith, length-append (size_code (length buf)) buf, short)),
          post.2.1
              ∙ ap (λ k. c.sent p.io ++ take k (frame buf)) all_of_it
              ∙ ap (λ l. c.sent p.io ++ l)
                  (take_all (length (frame buf)) (frame buf) (omega arith)),
        ),
      ),
    )
      where
        all_of_it : n ≡ length (frame buf)
        all_of_it = ground arith

    send_framed_lem : Returns (SentWhole p buf) (send_framed io p dgm (length buf))
    unfolding send_framed
    send_framed_lem =
        let ((s, r), made, post) =
          Returns-value (SendPost io c p.io (frame buf)) (io.send p.io (frame buf))
            (c.send_law p.io (frame buf) inv short) in
        let whole = rw made at (atomic p.io (frame buf) inv short) in
        let (asserted, good) = by_result s r post whole in
        rw (holds, made, assert_holds (whole_or_none io dgm.size r) _ asserted) good

  -- The datagram as it is laid out in the buffer.
  module _ (p : DgmPipe S) (buf : Bytes) (inv : c.Inv p.io) (header : p.max_hdr_size ≡ 5)
      (fits : length buf < 2 ^ 28) where
    abbrev code : Bytes
    code = size_code (length buf)

    abbrev memory : Bytes
    memory = (zeroed (length buf + p.max_hdr_size)).bytes

    laid_out :
        take
          (length code + length buf)
          (write_at (length code) buf (code ++ drop (length code) memory))
        ≡ frame buf
    laid_out =
        ap (λ l. take (length code + length buf) (l ++ (buf ++ rest)))
          (take-append_exact (length code) code (drop (length code) memory) refl)
        ∙ ap (take (length code + length buf)) (sym (append_assoc code buf rest))
        ∙ take-append_exact (length code + length buf) (code ++ buf) rest
            (sym (length-append code buf))
      where
        rest : Bytes
        rest = drop (length code + length buf) (code ++ drop (length code) memory)

    after_header_lem : Returns (SentWhole p buf) (
        after_header io p buf
          (zeroed (length buf + p.max_hdr_size))
          (io_store_size (some memory) (length buf + p.max_hdr_size) (length buf)))
    unfolding after_header
    after_header_lem =
        rw
          (
            io_store_size-fits memory (length buf + p.max_hdr_size) (length buf) fits
                (omega (arith, length-size_code (length buf), header)),
            assert_holds (leb (length code + length buf) (length buf + p.max_hdr_size)) _
                (ground (arith, length-size_code (length buf), header)),
          )
          (send_framed_lem p buf _ inv (unfold contents in laid_out) (sym (length-append code buf))
            (omega (arith, length-append code buf, length-size_code (length buf), fits)))

  -- dgm_pipe_send() of fewer than 2 ^ 28 bytes over an atomic carrier that keeps the contract,
  -- with the header size of 5 that new_dgm_pipe() sets: no assertion fails, and either the
  -- result is the length and the carrier has taken the size and the bytes behind it, or the
  -- result is -1 and it has taken nothing; what is to arrive stays.
  pub dgm_pipe_send_law :
      (p : DgmPipe S) (buf : Bytes)
      → c.Inv p.io
      → p.max_hdr_size ≡ 5
      → length buf < 2 ^ 28
      → Returns (SentWhole p buf) (dgm_pipe_send io p buf)
  unfolding dgm_pipe_send
  dgm_pipe_send_law p buf inv header fits = elim (Bool-cases p.base.writable) [
    | inl e ↦
        rw
          (
            if_false (not p.base.writable) _ (ap not e),
            alloc_io_buffer-zeroed (length buf + p.max_hdr_size),
          )
          (after_header_lem p buf inv header fits)
    | inr e ↦ rw (if_true (not p.base.writable) _ (ap not e)) (inv, refl, inl (refl, refl))
  ]
