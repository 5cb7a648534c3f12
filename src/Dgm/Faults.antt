-- ===== src/Dgm/Faults.antt =====
-- Cases of dgm_pipe_recv() (src/io/src/io_pipe_dgm.c) that its comments do not speak of: a short
-- buffer of the caller, and an event after an error.
use mathlib.Core.Path.{subst}
use tcp_striper.Dgm.Passing.{as_result-small}
use tcp_striper.Base.{
  ℕ, ◌≤◌, ◌≡◌, refl, ap, ◌∙◌, ◌++◌, ◌<◌, ◌^◌, sym, append-nil, true, false, Option, none, some, [],
  length, length-append, arith, if_false,
}
use tcp_striper.Serialize.{Bytes, bad, io_parse_size}
use tcp_striper.Run.{Returns}
use tcp_striper.Buffer.{IoBuffer}
use tcp_striper.Buffer.Contents
use tcp_striper.Buffer.Contents.{contents, length-contents}
use tcp_striper.Pipe.{IoEvents, IoPipe, clone_pipe_state, tag_pipe_as_broken}
use tcp_striper.Dgm.{
  DgmPipe, Processed, malformed, short, extracted, process_rx, process_parsed, after_leftovers,
  receive, dgm_pipe_recv, dgm_pipe_on_activity,
}
use tcp_striper.Dgm.Frames.{frame, Fits, Read, process_rx-frame}

module _ {S : Type 0} (io : IoPipe S) (p : DgmPipe S) (len : ℕ) (rx : IoBuffer)
    (sound : p.base.broken ≡ false) (kept : p.rx ≡ some rx) where
  from_leftovers : dgm_pipe_recv io p len ≡ after_leftovers io p len rx (process_rx p.max_size rx)
  unfolding dgm_pipe_recv receive
  from_leftovers = if_false p.base.broken _ sound ∙ ap (receive io p len) kept

  after_whole :
      (d rest : Bytes) (r : Processed)
      → length d < 2 ^ 31
      → length (frame d) ≤ rx.size
      → Read [] d rest rx r
      → Returns (λ (q : DgmPipe S × Option Bytes). q.1 ≡ some d) (after_leftovers io p len rx r)
  unfolding after_leftovers
  after_whole d rest malformed small le h = absurd h
  after_whole d rest (short k) small le h = absurd (omega arith)
  after_whole d rest (extracted rx' dgm) small le h =
      as_result-small dgm (subst (λ b. length b < 2 ^ 31) (sym h.0) small) ∙ ap some h.0

  -- A datagram that fits `max_size` and is whole at the front of the bytes kept by a pipe that
  -- is not broken is returned by dgm_pipe_recv() whatever the length of the caller's buffer
  -- is, so also into a buffer that is too short for it.
  pub dgm_pipe_recv-whole :
      (d rest : Bytes)
      → Contents.IsValid rx
      → contents rx ≡ frame d ++ rest
      → Fits p.max_size d
      → Returns (λ (q : DgmPipe S × Option Bytes). q.1 ≡ some d) (dgm_pipe_recv io p len)
  dgm_pipe_recv-whole d rest v e fits = rw from_leftovers (
      after_whole d rest _ (omega (arith, fits.1))
        (omega (arith, length-contents rx v, ap length e, length-append (frame d) rest))
        (process_rx-frame p.max_size [] d rest rx v (append-nil (contents rx) ∙ e) fits))

  -- When the bytes kept by a pipe that is not broken begin with no size, dgm_pipe_recv()
  -- returns -1 and sets `broken`; the next event of the carrier sets `broken` back to that of
  -- the carrier.
  pub dgm_pipe_recv-unbroken :
      (events : IoEvents)
      → io_parse_size (contents rx) ≡ bad
      → Returns
          (λ (q : DgmPipe S × Option Bytes).
            (q.1 ≡ none)
            × ((q.0).base.broken ≡ true)
            × ((dgm_pipe_on_activity io events q.0).0.base.broken ≡ (io.flags p.io).broken))
          (dgm_pipe_recv io p len)
  unfolding dgm_pipe_on_activity after_leftovers process_rx process_parsed clone_pipe_state
      tag_pipe_as_broken
  dgm_pipe_recv-unbroken events e = rw (from_leftovers, e) (refl, refl, refl)
