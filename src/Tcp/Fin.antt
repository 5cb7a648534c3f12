-- ===== src/Tcp/Fin.antt =====
-- tcp_pipe_send_fin() (src/io/src/io_pipe_tcp.c), and its bit in tcp_pipe_send().
use tcp_striper.Base.{ℕ, ◌≡◌, refl, ap, ◌∙◌, Bool, true, false, not, length, if◌then◌else◌, arith}
use tcp_striper.Run.{Returns, assert_holds}
use tcp_striper.Pipe.{Flags, tag_pipe_as_broken}
use tcp_striper.Pipe.Contract.{FinLaw, SendKeepsFin}
use tcp_striper.Socket.{System, Sent, took, send_failed, sk_send, sk_shutdown}
use tcp_striper.Socket.Laws.{Lawful}
use tcp_striper.Tcp.{TcpPipe, after_send, tcp_pipe_send, tcp_pipe_send_fin, tcp_pipe}
use tcp_striper.Tcp.Mask.{
  IsAdded, out_bytes, in_bytes, tcp_pipe_adjust_event_mask-IsWatched,
  tcp_pipe_adjust_event_mask-keeps,
}
use tcp_striper.Tcp.Streams.{tcp_pipe_contract}

fin_kept : (f : Flags) (n : ℕ) (r : Sent) → (after_send f n r).fin_sent ≡ f.fin_sent
unfolding after_send tag_pipe_as_broken
fin_kept f n (took k) = refl
fin_kept f n (send_failed e) = ground arith

-- The bits of tcp_pipe_send_fin() after a result of sk_shutdown().
abbrev after_fin : Flags → Bool → Flags
after_fin f r = if r then record f { writable = false; fin_sent = true } else tag_pipe_as_broken f

after_fin_bits :
    (f : Flags) (r : Bool)
    → r ≡ true
    → ((after_fin f r).fin_sent ≡ true) × ((after_fin f r).writable ≡ false)
after_fin_bits f true e = (refl, refl)
after_fin_bits f false e = cc

module _ {W : Type 0} {sys : System W} (law : Lawful sys) where
  -- What the contract asks of send_fin().
  pub tcp_pipe-FinLaw : FinLaw (tcp_pipe sys) (tcp_pipe_contract law)
  unfolding tcp_pipe_send_fin sk_shutdown
  tcp_pipe-FinLaw p h open_end =
      let q : W × Bool = sys.shutdown p.sk p.world in
      let kept = law.shutdown_law p.sk p.world in
      let p' : TcpPipe W = record p { base = after_fin p.base q.1; world = q.0 } in
      let same = tcp_pipe_adjust_event_mask-keeps law p' in
      rw (assert_holds p.evl _ h.added, assert_holds (not p.base.fin_sent) _ (ap not open_end))
        (
          (tcp_pipe_adjust_event_mask-IsWatched law p'
              (record { added = h.added; registered = kept.1 ∙ h.registered })).in_loop,
          same.1 ∙ kept.0.0,
          same.2 ∙ kept.0.1,
          λ e. rw same.0 (after_fin_bits p.base q.1 e),
        )

  pub tcp_pipe-SendKeepsFin : SendKeepsFin (tcp_pipe sys) (tcp_pipe_contract law)
  unfolding tcp_pipe_send
  tcp_pipe-SendKeepsFin p buf h =
      let q : W × Sent = sk_send sys p.sk buf p.world in
      rw h.added (
        ap (λ (f : Flags). f.fin_sent) (tcp_pipe_adjust_event_mask-keeps law _).0
        ∙ fin_kept p.base (length buf) q.1)

  -- tcp_pipe_send_fin() of a pipe that is in its event loop and has not sent its FIN: no
  -- assertion fails, the pipe stays in the loop, the bytes of both directions stay, and on
  -- success `fin_sent` is raised and `writable` cleared.
  pub tcp_pipe_send_fin_law :
      (p : TcpPipe W)
      → IsAdded law p
      → p.base.fin_sent ≡ false
      → Returns
          (λ (q : TcpPipe W × Bool).
            IsAdded law q.0
            × (out_bytes law q.0 ≡ out_bytes law p)
            × (in_bytes law q.0 ≡ in_bytes law p)
            × (q.1 ≡ true → ((q.0).base.fin_sent ≡ true) × ((q.0).base.writable ≡ false)))
          (tcp_pipe_send_fin sys p)
  tcp_pipe_send_fin_law p h open_end = tcp_pipe-FinLaw p h open_end
