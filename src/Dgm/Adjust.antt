-- ===== src/Dgm/Adjust.antt =====
-- adjust_rx() (src/io/src/io_pipe_dgm.c) and the buffer that it leaves.
use tcp_striper.Base.{
  ℕ, ◌+◌, ◌≤◌, ◌<◌, ◌≡◌, refl, sym, ap, ◌∙◌, inl, inr, false, not, ◌&&◌, length, take, drop,
  length-append, length-drop, take-append_exact, ltb, ◌==◌, arith, Bool-cases,
}
use native.Mathlib.Decide.{dec_lt}
use tcp_striper.Run.{Returns}
use tcp_striper.Buffer.{IoBuffer, write_at}
use tcp_striper.Buffer.Contents
use tcp_striper.Buffer.Contents.{
  kept, Holds, contents, length-contents, contents-append_bytes, append_bytes-IsValid,
  alloc_io_buffer-contents, zeroed-IsValid,
}
use tcp_striper.Dgm.{to_front, adjust_rx}

-- The buffer that is kept is made ready for another read.
abbrev pub Ready : IoBuffer → ℕ → IoBuffer → Type 0
Ready rx min_cap b =
    Contents.IsValid b
    × (b.head ≡ 0)
    × (contents b ≡ contents rx)
    × (b.size ≡ rx.size)
    × (min_cap ≤ b.capacity)

module _ (rx : IoBuffer) (v : Contents.IsValid rx) where
  to_front_moved :
      Contents.IsValid (record rx { head = 0; bytes = write_at 0 (contents rx) rx.bytes })
  to_front_moved = omega (
    arith,
    length-contents rx v,
    length-append (contents rx) (drop (0 + length (contents rx)) rx.bytes),
    length-drop (0 + length (contents rx)) rx.bytes,
  )

  to_front-capacity : (to_front rx).capacity ≡ rx.capacity
  unfolding to_front
  to_front-capacity = refl

  to_front-Ready : Ready rx 0 (to_front rx)
  unfolding to_front contents
  to_front-Ready = elim (Bool-cases (not (rx.size == 0) && not (rx.head == 0))) [
    | inl e ↦ rw e (
      unfold contents in to_front_moved,
      refl,
      take-append_exact rx.size (contents rx) (drop (0 + length (contents rx)) rx.bytes)
          (sym (length-contents rx v)),
      refl,
      omega arith,
    )
    | inr e ↦ rw e (omega arith, refl, in_front e, refl, omega arith)
  ]
    where
      in_front :
          (not (rx.size == 0) && not (rx.head == 0)) ≡ false
          → take rx.size rx.bytes ≡ take rx.size (drop rx.head rx.bytes)
      in_front e = elim (dec_lt 0 rx.size) [
        | yes some_bytes ↦
            ap (λ (h : ℕ). take rx.size (drop h rx.bytes)) {x = 0} {y = rx.head} (ground arith)
        | no no_bytes ↦
            ap (λ (n : ℕ). take n rx.bytes) {x = rx.size} {y = 0} (omega arith)
            ∙ ap (λ (n : ℕ). take n (drop rx.head rx.bytes)) {x = 0} {y = rx.size} (omega arith)
      ]

  -- No assertion fails, the bytes in use stay, and there is room for `min_cap`.
  pub adjust_rx-Ready :
      (min_cap : ℕ) → rx.size < min_cap → Returns (Ready rx min_cap) (adjust_rx rx min_cap)
  unfolding adjust_rx
  adjust_rx-Ready min_cap lt = elim (Bool-cases (ltb rx.capacity min_cap)) [
    | inl e ↦
        let (b, made, valid, holds, size, capacity, head) =
          alloc_io_buffer-contents min_cap (contents rx) (omega (arith, length-contents rx v)) in
        rw (e, made) (valid, head, holds, size ∙ length-contents rx v, omega arith)
    | inr e ↦
        let (valid, head, holds, size, _) = to_front-Ready in
        rw e (valid, head, holds, size, ground (arith, to_front-capacity))
  ]
