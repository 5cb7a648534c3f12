-- ===== src/Bridge/Relay.antt =====
-- br_bridge_relay() (src/io/src/io_bridge.c): the order of the bytes, and the end of the loop.
use tcp_striper.Base.{
  ℕ, zero, suc, ◌≤◌, ◌<◌, ◌≡◌, refl, ◌∙◌, Bool, true, false, not, ◌||◌, Option, none, some, length,
  is_some, ltb, if◌then◌else◌, arith, if_true, if_false, Bool-cases, inl, inr,
}
use tcp_striper.Run.{Returns, Returns-bind, Returns-imp, assert_holds}
use tcp_striper.Buffer.{IoBuffer, zeroed}
use tcp_striper.Buffer.Contents.{zeroed-IsValid, alloc_io_buffer-zeroed}
use tcp_striper.Pipe.{IoPipe}
use tcp_striper.Pipe.Contract.{Contract, FinLaw, RecvKeepsShut}
use tcp_striper.Bridge.{
  BrStream, Relayed, br_bridge_rx_tx, may_relay, next_round, relay_loop, br_bridge_relay,
}
use tcp_striper.Bridge.Sending.{Spare, IsValid}
use tcp_striper.Bridge.Round.{OpenEnd, through, Beside, IsCalm, Round, br_bridge_rx_tx_lem}

module _ {S T : Type 0} {io : IoPipe S} {io' : IoPipe T} (c : Contract io) (d : Contract io') where
  -- The end of the loop: all that arrived is where it belongs.
  abbrev pub RelayEnd : BrStream S → BrStream T → BrStream S × BrStream T × Bool → Type 0
  RelayEnd src dst q =
      Beside c d src dst q.0 q.1
      × (q.2 ≡ true → through c d q.0 q.1 ≡ through c d src dst)
      × (q.2 ≡ true → may_relay io io' q.0 q.1 ≡ false)
      × (q.2 ≡ true → IsCalm c d q.1)

  after_round :
      (src src' src'' : BrStream S) (dst dst' dst'' : BrStream T)
      → Beside c d src dst src' dst'
      → Beside c d src' dst' src'' dst''
      → Beside c d src dst src'' dst''
  after_round src src' src'' dst dst' dst'' a b = record {
    receiver = b.receiver;
    sender = b.sender;
    pending = b.pending ∙ a.pending;
    sends = b.sends ∙ a.sends;
    coming = b.coming ∙ a.coming;
    shut = λ w. a.shut (b.shut w);
    sizes = (b.sizes.0 ∙ a.sizes.0, b.sizes.1 ∙ a.sizes.1);
  }

  stay :
      (src : BrStream S) (dst : BrStream T)
      → c.Inv src.pipe
      → IsValid d dst
      → Beside c d src dst src dst
  stay src dst inv valid = record {
    receiver = inv;
    sender = valid;
    pending = refl;
    sends = refl;
    coming = refl;
    shut = λ w. w;
    sizes = (refl, refl);
  }

  module _ (fin : FinLaw io' d) (keeps : RecvKeepsShut io c) (open_end : OpenEnd d) where
    -- What a round needs, if there is to be one.
    abbrev Ready : ℕ → ℕ → BrStream S → BrStream T → Option IoBuffer → Type 0
    Ready fuel capacity src dst space =
        may_relay io io' src dst ≡ true
        → (dst.pending ≡ none) × Spare capacity space × (length (c.arriving src.pipe) < fuel)

    next_round_lem :
        (fuel capacity : ℕ) (src : BrStream S) (dst : BrStream T)
        → 0 < src.recv_size
        → src.recv_size ≤ capacity
        → length (c.arriving src.pipe) < suc fuel
        → ((s : BrStream S) (t : BrStream T) (space : Option IoBuffer)
            → c.Inv s.pipe
            → IsValid d t
            → 0 < s.recv_size
            → s.recv_size ≤ capacity
            → Ready fuel capacity s t space
            → IsCalm c d t
            → Returns (RelayEnd s t) (relay_loop io io' fuel s t space))
        → (q : Relayed S T) → Round c d src dst capacity q
        → Returns (RelayEnd src dst) (next_round io io' (λ s t b. relay_loop io io' fuel s t b) q)
    unfolding next_round
    next_round_lem fuel capacity src dst some_size room lt again (s, t, space, false) round =
        (round.beside, λ x. cc, λ x. cc, λ x. cc)
    next_round_lem fuel capacity src dst some_size room lt again (s, t, space, true) round =
        rw (assert_holds (is_some space || not (io'.flags t.pipe).writable) _ (round.asserted refl))
          (Returns-imp (RelayEnd s t) (RelayEnd src dst) (relay_loop io io' fuel s t space)
            (again s t space round.beside.receiver round.beside.sender
              (omega (arith, round.beside.sizes.0)) (omega (arith, round.beside.sizes.0))
              (λ w. let (free, spare, less) = round.going_on refl w in (free, spare, omega arith))
              (round.calm refl))
            (λ q end. (
              after_round src s q.0 dst t q.1 round.beside end.0,
              λ x. end.1 x ∙ round.in_order refl,
              end.2,
              end.3,
            )))

    relay_loop_lem :
        (fuel capacity : ℕ) (src : BrStream S) (dst : BrStream T) (space : Option IoBuffer)
        → c.Inv src.pipe
        → IsValid d dst
        → 0 < src.recv_size
        → src.recv_size ≤ capacity
        → Ready fuel capacity src dst space
        → IsCalm c d dst
        → Returns (RelayEnd src dst) (relay_loop io io' fuel src dst space)
    unfolding relay_loop
    relay_loop_lem zero capacity src dst space inv valid some_size room ready calm =
        elim (Bool-cases (may_relay io io' src dst)) [
          | inl e ↦ absurd (omega (arith, (ready e).2))
          | inr e ↦
              rw (if_false (may_relay io io' src dst) _ e)
                (stay src dst inv valid, λ x. refl, λ x. e, λ x. calm)
        ]
    relay_loop_lem (suc fuel) capacity src dst none inv valid some_size room ready calm =
        elim (Bool-cases (may_relay io io' src dst)) [
          | inl e ↦ absurd (ready e).1
          | inr e ↦
              rw (if_false (may_relay io io' src dst) _ e)
                (stay src dst inv valid, λ x. refl, λ x. e, λ x. calm)
        ]
    relay_loop_lem (suc fuel) capacity src dst (some buf) inv valid some_size room ready calm =
        elim (Bool-cases (may_relay io io' src dst)) [
          | inl e ↦
              let (free, (v, head, cap), lt) = ready e in
              rw (if_true (may_relay io io' src dst) _ e) (
                Returns-bind (Round c d src dst buf.capacity) (RelayEnd src dst)
                  (br_bridge_rx_tx io io' src dst (some buf)) _
                  (br_bridge_rx_tx_lem c d fin keeps open_end src dst buf valid.carrier free v head
                    (omega arith) (ground arith) inv some_size (ground arith))
                  (next_round_lem fuel buf.capacity src dst some_size (omega arith) lt
                    (λ s t b. relay_loop_lem fuel buf.capacity s t b)))
          | inr e ↦
              rw (if_false (may_relay io io' src dst) _ e)
                (stay src dst inv valid, λ x. refl, λ x. e, λ x. calm)
        ]

  -- br_bridge_relay() from a pipe to a stream with nothing pending, both of the contract, on
  -- more fuel than there are bytes arriving, with a positive receive size, when send_fin()
  -- keeps its promise, recv() does not raise `writable`, and `writable` and `fin_sent` are not
  -- set together: it comes to an end without a failed assertion, the streams stay valid and
  -- the other direction is untouched; unless it returns -1, what has been sent, is pending and
  -- is arriving is the same sequence of bytes as before, one of the pipes is not ready for
  -- more, and nothing is pending while the stream is writable.
  pub br_bridge_relay_law :
      (src : BrStream S) (dst : BrStream T) (fuel : ℕ)
      → FinLaw io' d
      → RecvKeepsShut io c
      → OpenEnd d
      → c.Inv src.pipe
      → IsValid d dst
      → 0 < src.recv_size
      → dst.pending ≡ none
      → length (c.arriving src.pipe) < fuel
      → Returns
          (λ (q : BrStream S × BrStream T × Bool).
            Beside c d src dst q.0 q.1
            × (q.2 ≡ true → through c d q.0 q.1 ≡ through c d src dst)
            × (q.2 ≡ true → may_relay io io' q.0 q.1 ≡ false)
            × (q.2 ≡ true → IsCalm c d q.1))
          (br_bridge_relay io io' fuel src dst)
  unfolding br_bridge_relay
  br_bridge_relay_law src dst fuel fin keeps open_end inv valid some_size free enough =
      rw (alloc_io_buffer-zeroed size) (
        relay_loop_lem fin keeps open_end fuel size src dst (some (zeroed size)) inv valid some_size
          (ground arith) (λ w. (free, (zeroed-IsValid size, refl, refl), enough)) (λ w. free))
    where
      size : ℕ
      size = if ltb dst.recv_size src.recv_size then src.recv_size else dst.recv_size
