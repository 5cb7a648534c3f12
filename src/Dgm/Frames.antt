-- ===== src/Dgm/Frames.antt =====
-- Datagrams on the wire, and process_rx() (src/io/src/io_pipe_dgm.c) on the front of them.
use tcp_striper.Base.{
  ℕ, ◌+◌, ◌^◌, ◌≤◌, ◌<◌, ◌≡◌, refl, sym, ap, ◌∙◌, ◌++◌, append_assoc, List, [], ◌∷◌, length, take,
  drop, length-append, take-append_exact, drop-append_exact, append-cut, ltb, arith, lt→ltb,
  if_true, if_false,
}
use native.Mathlib.Decide.{dec_lt}
use tcp_striper.Serialize.{Bytes, done, more, io_parse_size}
use tcp_striper.Serialize.Store.{size_code, length-size_code}
use tcp_striper.Serialize.Parse.{io_parse_size-size_code}
use tcp_striper.Serialize.Answers.{io_parse_size-truncated}
use tcp_striper.Buffer.{IoBuffer}
use tcp_striper.Buffer.Contents.{
  IsValid, contents, length-contents, contents-consume, consume-IsValid,
}
use tcp_striper.Dgm.{Processed, malformed, short, extracted, process_rx, process_parsed}

-- A datagram behind its size, and a sequence of them.
abbrev pub frame : Bytes → Bytes
frame d = size_code (length d) ++ d

abbrev pub frames : List Bytes → Bytes
frames [] = []
frames (d ∷ ds) = frame d ++ frames ds

-- The datagrams that a receiver with this limit takes.
abbrev pub Fits : ℕ → Bytes → Type 0
Fits max_size d = (length d ≤ max_size) × (length d < 2 ^ 28)

-- The result of process_rx() on the front part of a datagram `d` and of what follows it, when
-- `tail` is not in the buffer yet.
abbrev pub Read : Bytes → Bytes → Bytes → IoBuffer → Processed → Type 0
Read tail d rest rx malformed = ⊥
Read tail d rest rx (short k) = (rx.size < 5 + k) × (k ≤ length d) × (rx.size < length (frame d))
Read tail d rest rx (extracted rx' dgm) = (dgm ≡ d) × IsValid rx' × (contents rx' ++ tail ≡ rest)

module _ (max_size : ℕ) (tail d rest : Bytes) (rx : IoBuffer) (v : IsValid rx)
    (stream : contents rx ++ tail ≡ frame d ++ rest) (fits : Fits max_size d) where
  abbrev code : Bytes
  code = size_code (length d)

  size-frame : length (frame d) ≡ length (size_code (length d)) + length d
  size-frame = length-append (size_code (length d)) d

  header_cut : rx.size < length (size_code (length d)) → io_parse_size (contents rx) ≡ more
  header_cut h = by_rest cut.0 cut.1
    where
      cut : (r : Bytes) × (code ≡ contents rx ++ r) × (r ++ (d ++ rest) ≡ tail)
      cut =
          append-cut code (d ++ rest) (contents rx) tail
            (sym (append_assoc code d rest) ∙ sym stream) (omega (arith, length-contents rx v))

      by_rest : (r : Bytes) → code ≡ contents rx ++ r → io_parse_size (contents rx) ≡ more
      by_rest [] e =
          absurd (omega (arith, ap length e, length-append (contents rx) [], length-contents rx v))
      by_rest (x ∷ xs) e = io_parse_size-truncated (length d) x (contents rx) xs fits.1 e

  -- The header is there: what is behind it in the buffer, and the answer of the parser.
  module _ (behind : Bytes) (e : contents rx ≡ code ++ behind)
      (stream' : behind ++ tail ≡ d ++ rest) where
    parsed : io_parse_size (contents rx) ≡ done (length code) (length d)
    parsed = ap io_parse_size e ∙ io_parse_size-size_code (length d) behind fits.1

    length-behind : rx.size ≡ length code + length behind
    length-behind = sym (length-contents rx v) ∙ ap length e ∙ length-append code behind

    payload_short : rx.size < length code + length d → Read tail d rest rx (process_rx max_size rx)
    unfolding process_rx process_parsed
    payload_short lt =
        rw
          (
            parsed,
            if_false (ltb max_size (length d)) _ (ground arith),
            if_true (ltb rx.size (length code + length d)) _ (lt→ltb _ _ lt),
          )
          (omega (arith, length-size_code (length d), size-frame))

    payload_whole :
        length code + length d ≤ rx.size
        → (y : Bytes) × (behind ≡ d ++ y) × (y ++ tail ≡ rest)
        → Read tail d rest rx (process_rx max_size rx)
    unfolding process_rx process_parsed
    payload_whole le (y, is, after) =
        rw
          (
            parsed,
            if_false (ltb max_size (length d)) _ (ground arith),
            if_false (ltb rx.size (length code + length d)) _ (ground arith),
          )
          (
            ap (λ b. take (length d) (drop (length code) b)) e
                ∙ ap (take (length d)) (drop-append_exact (length code) code behind refl ∙ is)
                ∙ take-append_exact (length d) d y refl,
            consume-IsValid rx v (length code + length d) le,
            ap (λ b. b ++ tail) (contents-consume rx v (length code + length d) le ∙ left) ∙ after,
          )
      where
        left : drop (length code + length d) (contents rx) ≡ y
        left =
            ap (drop (length code + length d))
              (e ∙ ap (λ b. code ++ b) is ∙ sym (append_assoc code d y))
            ∙ drop-append_exact (length code + length d) (code ++ d) y (sym (length-append code d))

    header_there : Read tail d rest rx (process_rx max_size rx)
    header_there = elim (dec_lt rx.size (length code + length d)) [
      | yes lt ↦ payload_short lt
      | no not_lt ↦
          payload_whole (omega arith)
            (append-cut behind tail d rest stream' (omega (arith, length-behind)))
    ]

  header_short : rx.size < length code → Read tail d rest rx (process_rx max_size rx)
  unfolding process_rx process_parsed
  header_short lt = rw (header_cut lt) (omega (arith, length-size_code (length d), size-frame))

  -- process_rx() on a valid buffer that begins with the frame of a datagram that fits, of
  -- which a part may still be missing: it is never malformed; the datagram is extracted if its
  -- frame is whole, and what was behind it stays; if not, the result is 0 with 0 or the length
  -- so far known, which is at most that of the datagram.
  pub process_rx-frame : Read tail d rest rx (process_rx max_size rx)
  process_rx-frame = elim (dec_lt rx.size (length code)) [
    | yes lt ↦ header_short lt
    | no not_lt ↦
        let (behind, e, stream') =
          append-cut (contents rx) tail code (d ++ rest) (stream ∙ append_assoc code d rest)
            (omega (arith, length-contents rx v)) in
        header_there behind e stream'
  ]
