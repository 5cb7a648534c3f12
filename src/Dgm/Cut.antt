-- ===== src/Dgm/Cut.antt =====
-- process_rx() (src/io/src/io_pipe_dgm.c) on bytes of any kind.
use tcp_striper.Base.{
  ℕ, ◌+◌, ◌≤◌, ◌<◌, ◌≡◌, refl, sym, ap, ◌∙◌, ◌++◌, length, take, drop, length-take, length-drop,
  take-append-drop, drop-drop, ltb, arith, lt→ltb, if_true, if_false,
}
use native.Mathlib.Decide.{dec_lt}
use tcp_striper.Serialize.{Bytes, Parsed, done, more, bad, io_parse_size}
use tcp_striper.Serialize.Answers.{io_parse_size-more, io_parse_size_taken}
use tcp_striper.Buffer.{IoBuffer, consume}
use tcp_striper.Buffer.Contents
use tcp_striper.Buffer.Contents.{
  kept, Holds, contents, length-contents, contents-append_bytes, append_bytes-IsValid,
  zeroed-IsValid, alloc_io_buffer-zeroed, contents-consume, consume-IsValid,
}
use tcp_striper.Dgm.{Processed, malformed, short, extracted, process_rx, process_parsed}

-- A size of `dgm`, and then `dgm`, at the front of `bytes`, with `rest` behind.
abbrev pub HasDatagram : ℕ → Bytes → Bytes → Bytes → Type 0
HasDatagram max_size bytes dgm rest =
    (length dgm ≤ max_size)
    × ((header : Bytes) × (bytes ≡ header ++ (dgm ++ rest))
        × (io_parse_size bytes ≡ done (length header) (length dgm)))

abbrev pub Cut : ℕ → IoBuffer → Processed → Type 0
Cut max_size rx malformed = Unit {0}
Cut max_size rx (short k) = rx.size < 5 + k
Cut max_size rx (extracted rx' dgm) =
    Contents.IsValid rx' × HasDatagram max_size (contents rx) dgm (contents rx')

module _ (max_size : ℕ) (rx : IoBuffer) (v : Contents.IsValid rx) where
  whole_datagram :
      (n k : ℕ)
      → io_parse_size (contents rx) ≡ done n k
      → k ≤ max_size
      → n + k ≤ rx.size
      → Cut max_size rx (extracted (consume rx (n + k)) (take k (drop n (contents rx))))
  whole_datagram n k e limit within =
      let bytes = contents rx in
      (
        consume-IsValid rx v (n + k) within,
        (
          omega (arith, length-take k (drop n bytes)),
          (
            take n bytes,
            sym (take-append-drop n bytes)
                ∙ ap (λ l. take n bytes ++ l)
                    (sym (take-append-drop k (drop n bytes))
                      ∙ ap (λ l. take k (drop n bytes) ++ l)
                          (drop-drop (n + k) n k bytes refl
                            ∙ sym (contents-consume rx v (n + k) within))),
            e
                ∙ ap (λ (m : ℕ). done m k)
                    (omega (arith, length-take n bytes, length-contents rx v))
                ∙ ap (done (length (take n bytes))) (
                    omega (
                      arith,
                      length-take k (drop n bytes),
                      length-drop n bytes,
                      length-contents rx v,
                    )),
          ),
        ),
      )

  process_parsed-Cut :
      (r : Parsed)
      → io_parse_size (contents rx) ≡ r
      → Cut max_size rx (process_parsed max_size rx r)
  unfolding process_parsed
  process_parsed-Cut bad e = tt
  process_parsed-Cut more e =
      omega (arith, ((io_parse_size-more (contents rx)).0 e).1, length-contents rx v)
  process_parsed-Cut (done n k) e = elim (dec_lt max_size k) [
    | yes big ↦ rw (if_true (ltb max_size k) _ (lt→ltb _ _ big)) tt
    | no not_big ↦ elim (dec_lt rx.size (n + k)) [
      | yes lt ↦
          rw
            (
              if_false (ltb max_size k) _ (ground arith),
              if_true (ltb rx.size (n + k)) _ (lt→ltb _ _ lt),
            )
            (omega (arith, io_parse_size_taken (contents rx) n k e))
      | no not_lt ↦
          rw
            (
              if_false (ltb max_size k) _ (ground arith),
              if_false (ltb rx.size (n + k)) _ (ground arith),
            )
            (whole_datagram n k e (omega arith) (omega arith))
    ]
  ]

  pub process_rx-Cut : Cut max_size rx (process_rx max_size rx)
  unfolding process_rx
  process_rx-Cut = process_parsed-Cut (io_parse_size (contents rx)) refl
