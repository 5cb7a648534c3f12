-- ===== src/Tcp/Streams.antt =====
-- recv() and send() of the pipe of src/io/src/io_pipe_tcp.c, against the contract of io_pipe.h.
use tcp_striper.Base.{ℕ, ◌≡◌, refl, ◌∙◌, ◌<◌, true, false, Option, [], ◌∷◌, length, arith}
use tcp_striper.Serialize.{Bytes}
use tcp_striper.Run.{Returns}
use tcp_striper.Pipe.{Flags, tag_pipe_as_broken}
use tcp_striper.Pipe.Contract
use tcp_striper.Pipe.Contract.{Contract}
use tcp_striper.Socket.{
  Errno, System, Received, Sent, got, recv_failed, took, send_failed, sk_recv, sk_send,
}
use tcp_striper.Socket.Laws.{
  View, Lawful, RecvLaw, SendLaw, sk_recv_law, sk_send_law, RecvLaw-keeps, SendLaw-keeps,
}
use tcp_striper.Tcp.{
  TcpPipe, after_recv, after_send, recv_result, send_result, tcp_pipe_recv, tcp_pipe_send, tcp_pipe,
}
use tcp_striper.Tcp.Mask.{
  IsAdded, out_bytes, in_bytes, tcp_pipe_adjust_event_mask-IsWatched,
  tcp_pipe_adjust_event_mask-keeps,
}

-- A failed call clears the bit, whether the error is fatal or not.
recv_failed_bits : (f : Flags) (e : Errno) → (after_recv f (recv_failed e)).readable ≡ false
unfolding after_recv tag_pipe_as_broken
recv_failed_bits f e = ground arith

send_failed_bits :
    (f : Flags) (n : ℕ) (e : Errno) → (after_send f n (send_failed e)).writable ≡ false
unfolding after_send tag_pipe_as_broken
send_failed_bits f n e = ground arith

module _ {W : Type 0} (sys : System W) (view : View W) (sk : ℕ) (w w' : W) (f : Flags) where
  received :
      (len : ℕ) (r : Received)
      → RecvLaw sys view sk len w w' r
      → Contract.Received
          (view.coming w sk)
          (view.coming w' sk)
          (after_recv f r)
          len
          (recv_result r)
  unfolding after_recv
  received len (got []) h = (h.0, h.1, refl, refl)
  received len (got (b ∷ bs)) h = (h.0, h.1, refl)
  received len (recv_failed e) h = (h.0, recv_failed_bits f e)

  sent :
      (buf : Bytes) (r : Sent)
      → SendLaw sys view sk buf w w' r
      → Contract.Sent
          (view.wire w sk)
          (view.wire w' sk)
          (after_send f (length buf) r)
          buf
          (send_result r)
  unfolding after_send
  sent buf (took n) h = (h.0, h.1, λ less. ground arith)
  sent buf (send_failed e) h = (h.0, send_failed_bits f (length buf) e)

module _ {W : Type 0} {sys : System W} (law : Lawful sys) where
  -- tcp_pipe_send() of a pipe that is in its event loop, over system calls that do what is
  -- documented: no assertion fails and the pipe stays in the loop; a front part of the buffer
  -- goes out, in order, and its length is the result, or nothing goes out and the result is
  -- -1; `writable` is clear on -1 and on a partial send; what is to come in stays.
  pub tcp_pipe_send_law :
      (p : TcpPipe W) (buf : Bytes)
      → IsAdded law p
      → Returns
          (λ (q : TcpPipe W × Option ℕ).
            IsAdded law q.0
            × (in_bytes law q.0 ≡ in_bytes law p)
            × Contract.Sent (out_bytes law p) (out_bytes law q.0) (q.0).base buf q.1)
          (tcp_pipe_send sys p buf)
  unfolding tcp_pipe_send
  tcp_pipe_send_law p buf h =
      let q : W × Sent = sk_send sys p.sk buf p.world in
      let good = (sk_send_law law p.sk buf p.world).0 in
      let kept = SendLaw-keeps sys law.view p.sk p.world q.0 buf q.1 good in
      let p' : TcpPipe W = record p {
        base = after_send p.base (length buf) q.1;
        evl = true;
        world = q.0;
      } in
      let same = tcp_pipe_adjust_event_mask-keeps law p' in
      rw h.added (
        (tcp_pipe_adjust_event_mask-IsWatched law p'
            (record { added = refl; registered = kept.1 ∙ h.registered })).in_loop,
        same.2 ∙ kept.0,
        rw (same.0, same.1) (sent sys law.view p.sk p.world q.0 p.base buf q.1 good),
      )

  -- tcp_pipe_recv() into a positive length, of a pipe that is in its event loop, over system
  -- calls that do what is documented: no assertion fails and the pipe stays in the loop; the
  -- bytes returned are the next ones to come in, at most the length, with `readable` set; no
  -- bytes are the FIN, returned only when nothing is to come in, with `readable` clear and
  -- `fin_rcvd` set; on -1 nothing is lost and `readable` is clear; what has gone out stays.
  pub tcp_pipe_recv_law :
      (p : TcpPipe W) (len : ℕ)
      → IsAdded law p
      → 0 < len
      → Returns
          (λ (q : TcpPipe W × Option Bytes).
            IsAdded law q.0
            × (out_bytes law q.0 ≡ out_bytes law p)
            × Contract.Received (in_bytes law p) (in_bytes law q.0) (q.0).base len q.1)
          (tcp_pipe_recv sys p len)
  unfolding tcp_pipe_recv
  tcp_pipe_recv_law p len h pos =
      let q : W × Received = sk_recv sys p.sk len p.world in
      let good = (sk_recv_law law p.sk len p.world pos).0 in
      let kept = RecvLaw-keeps sys law.view p.sk p.world q.0 len q.1 good in
      let p' : TcpPipe W = record p { base = after_recv p.base q.1; evl = true; world = q.0 } in
      let same = tcp_pipe_adjust_event_mask-keeps law p' in
      rw h.added (
        (tcp_pipe_adjust_event_mask-IsWatched law p'
            (record { added = refl; registered = kept.1 ∙ h.registered })).in_loop,
        same.1 ∙ kept.0,
        rw (same.0, same.2) (received sys law.view p.sk p.world q.0 p.base len q.1 good),
      )

  -- The pipe over a socket as an implementation of the contract.
  abbrev pub tcp_pipe_contract : Contract (tcp_pipe sys)
  tcp_pipe_contract = record {
    Inv = IsAdded law;
    sent = out_bytes law;
    arriving = in_bytes law;
    send_law = λ p buf h fit. tcp_pipe_send_law p buf h;
    recv_law = tcp_pipe_recv_law;
  }
