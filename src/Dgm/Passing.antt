-- ===== src/Dgm/Passing.antt =====
-- What dgm_pipe_recv() (src/io/src/io_pipe_dgm.c) hands on, and the state that it leaves.
use tcp_striper.Base.{
  ℕ, ◌≡◌, refl, sym, ap, ◌∙◌, ◌++◌, ◌<◌, ◌^◌, as_int-small, ◌⊎◌, inl, inr, true, Option, none, some,
  List, [], ◌∷◌, length, ◌==◌, if◌then◌else◌, arith, Bool-cases,
}
use mathlib.Core.Path.{subst}
use tcp_striper.Serialize.{Bytes}
use tcp_striper.Buffer.{IoBuffer}
use tcp_striper.Buffer.Contents
use tcp_striper.Buffer.Contents.{
  kept, Holds, contents, length-contents, contents-append_bytes, append_bytes-IsValid,
  zeroed-IsValid, alloc_io_buffer-zeroed,
}
use tcp_striper.Pipe.{IoPipe, clone_pipe_state}
use tcp_striper.Pipe.Contract.{ShortContract}
use tcp_striper.Dgm.{DgmPipe, Processed, malformed, short, extracted, pass, as_result, after_read}
use tcp_striper.Dgm.Frames.{frames, Read}

pub as_result-small : (dgm : Bytes) → length dgm < 2 ^ 31 → as_result dgm ≡ some dgm
as_result-small dgm h =
    ap (λ i. elim i [ none ↦ none | some r ↦ some dgm ]) (as_int-small (length dgm) h)

module _ {S : Type 0} {io : IoPipe S} (c : ShortContract io) where
  pub record IsValid (p : DgmPipe S) : Type 0 where
    pub carrier : c.Inv p.io
    pub holds : Holds p.rx
    pub header : p.max_hdr_size ≡ 5

  -- What the peer has sent and recv() has not returned.
  abbrev pub unread : DgmPipe S → Bytes
  unread p = kept p.rx ++ c.arriving p.io

  -- Of the datagrams `ds` on their way, the first is returned, or nothing yet, or the FIN behind the
  -- last.
  abbrev pub Delivered : List Bytes → DgmPipe S → Option Bytes → Type 0
  Delivered ds q none = unread q ≡ frames ds
  Delivered ds q (some dgm) =
      ((rest : List Bytes) × (ds ≡ dgm ∷ rest) × (unread q ≡ frames rest))
      ⊎ ((ds ≡ []) × (dgm ≡ []) × (q.base.fin_rcvd ≡ true))

  -- A valid state with the bits of the carrier, which has been asked to receive only.
  pub record Through (max_size : ℕ) (sent : Bytes) (q : DgmPipe S) : Type 0 where
    pub valid : IsValid q
    pub sends : c.sent q.io ≡ sent
    pub bits : q.base ≡ io.flags q.io
    pub limit : q.max_size ≡ max_size

  module _ (p : DgmPipe S) (rx : IoBuffer) (inv : c.Inv p.io) (v : Contents.IsValid rx)
      (header : p.max_hdr_size ≡ 5) where
    pub pass-Through : (r : Option Bytes) → Through p.max_size (c.sent p.io) (pass io p rx r).0
    unfolding clone_pipe_state
    pass-Through r = record {
      valid = record { carrier = inv; holds = holds; header = header };
      sends = refl;
      bits = refl;
      limit = refl;
    }
      where
        holds : Holds (if rx.size == 0 then none else some rx)
        holds = elim (Bool-cases (rx.size == 0)) [
          | inl e ↦ rw e tt
          | inr e ↦ rw e (v, ground arith)
        ]

    pub unread-pass :
        (r : Option Bytes) → unread (pass io p rx r).0 ≡ contents rx ++ c.arriving p.io
    unfolding kept
    unread-pass r = ap (λ b. b ++ c.arriving p.io) same
      where
        empty : (b : Bytes) → length b ≡ 0 → [] ≡ b
        empty [] e = refl
        empty (x ∷ xs) e = absurd (omega arith)

        same : kept (if rx.size == 0 then none else some rx) ≡ contents rx
        same = elim (Bool-cases (rx.size == 0)) [
          | inl e ↦ rw e (empty (contents rx) (ground (arith, length-contents rx v)))
          | inr e ↦ rw e refl
        ]

  abbrev pub Outcome : ℕ → Bytes → List Bytes → DgmPipe S × Option Bytes → Type 0
  Outcome max_size sent ds q = Through max_size sent q.0 × Delivered ds q.0 q.1

  -- What process_rx() makes of bytes that begin with a datagram is passed on.
  module _ (p : DgmPipe S) (rx : IoBuffer) (inv : c.Inv p.io) (v : Contents.IsValid rx)
      (header : p.max_hdr_size ≡ 5) (d : Bytes) (ds : List Bytes)
      (stream : contents rx ++ c.arriving p.io ≡ frames (d ∷ ds)) (small : length d < 2 ^ 31) where
    pub after_read_lem :
        (r : Processed)
        → Read (c.arriving p.io) d (frames ds) rx r
        → Outcome p.max_size (c.sent p.io) (d ∷ ds) (after_read io p rx r)
    unfolding after_read
    after_read_lem malformed h = absurd h
    after_read_lem (short k) h =
        (pass-Through p rx inv v header none, unread-pass p rx inv v header none ∙ stream)
    after_read_lem (extracted rx' dgm) h =
        rw (as_result-small dgm (subst (λ b. length b < 2 ^ 31) (sym h.0) small)) (
          pass-Through p rx' inv h.1 header (some dgm),
          inl (ds, ap (λ b. b ∷ ds) (sym h.0), unread-pass p rx' inv h.1 header (some dgm) ∙ h.2),
        )
