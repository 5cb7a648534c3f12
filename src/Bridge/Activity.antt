-- ===== src/Bridge/Activity.antt =====
-- br_stream_on_activity() (src/io/src/io_bridge.c) and the bytes of both directions.
use tcp_striper.Base.{
  ℕ, ◌<◌, ◌≡◌, ◌≢◌, refl, sym, ap, ap₂, ◌∙◌, ◌++◌, Bool, true, false, Option, none, some, length,
  is_some, if◌then◌else◌, arith, if_true, if_false, Bool-cases, Option-cases, inl, inr,
}
use mathlib.Core.Path.{subst}
use tcp_striper.Serialize.{Bytes}
use tcp_striper.Run.{ok, Returns, Returns-value, Returns-bind, Returns-imp, assert_holds}
use tcp_striper.Buffer.Contents
use tcp_striper.Pipe.{IoEvents, IoPipe}
use tcp_striper.Pipe.Contract.{Contract, FinLaw, RecvKeepsShut}
use tcp_striper.Bridge.{
  BrStream, Step, br_bridge_relay, br_stream_flush, flush_if_pending, relay_to_self, on_writable,
  on_readable, first_step, second_step, shutdown, br_stream_on_activity,
}
use tcp_striper.Bridge.Sending.{IsValid, passed}
use tcp_striper.Bridge.Round.{OpenEnd, through}
use tcp_striper.Bridge.Relay.{br_bridge_relay_law}
use tcp_striper.Bridge.Flush.{Flushed, br_stream_flush_law}

-- What a bridge relies on in a pipe.
pub record Relayable {S : Type 0} {io : IoPipe S} (c : Contract io) : Type 0 where
  pub fin : FinLaw io c
  pub keeps : RecvKeepsShut io c
  pub open_end : OpenEnd c

module _ {S T : Type 0} {io : IoPipe S} {io' : IoPipe T} (c : Contract io) (d : Contract io')
    (rc : Relayable c) (rd : Relayable d) (fuel : ℕ) where
  -- Two streams between events: `forth` is what the peer of the second will have, and `back` what
  -- the peer of the first will have, once all that has arrived is passed on. While something is
  -- pending, the pipe is not writable.
  pub record Between (forth back : Bytes) (self : BrStream S) (peer : BrStream T) : Type 0 where
    pub l : IsValid c self
    pub r : IsValid d peer
    pub forth_in_order : through c d self peer ≡ forth
    pub back_in_order : through d c peer self ≡ back
    pub sizes : (0 < self.recv_size) × (0 < peer.recv_size)
    pub calm : (io'.flags peer.pipe).writable ≡ true → peer.pending ≡ none

  abbrev IsCalm : BrStream S → Type 0
  IsCalm self = (io.flags self.pipe).writable ≡ true → self.pending ≡ none

  abbrev After : Bytes → Bytes → Step S T → Type 0
  After forth back q =
      IsValid c q.0 × IsValid d q.1 × (q.2 ≡ true → Between forth back q.0 q.1 × IsCalm q.0)

  relay_back_lem :
      (forth back : Bytes) (self : BrStream S) (peer : BrStream T)
      → Between forth back self peer
      → IsCalm self
      → length (d.arriving peer.pipe) < fuel
      → Returns
          (λ (q : Step S T). After forth back q × (c.arriving (q.0).pipe ≡ c.arriving self.pipe))
          (relay_to_self io io' fuel self peer)
  unfolding relay_to_self
  relay_back_lem forth back self peer b calm enough =
      elim (Bool-cases (io.flags self.pipe).writable) [
        | inl w ↦
            let ((p, s, r), made, (beside, in_order, stops, quiet)) =
              Returns-value _ (br_bridge_relay io' io fuel peer self) (
                br_bridge_relay_law d c peer self fuel rc.fin rd.keeps rc.open_end b.r.carrier b.l
                  b.sizes.1 (calm w) enough) in
            let r' : IsValid d p = record {
              carrier = beside.receiver;
              holds = subst Contents.Holds (sym beside.pending) b.r.holds;
            } in
            rw (if_true (io.flags self.pipe).writable _ w, made)
              (
                (
                  beside.sender,
                  r',
                  λ x. (
                    record {
                      l = beside.sender;
                      r = r';
                      forth_in_order =
                          ap₂ ◌++◌ (ap₂ ◌++◌ beside.sends (ap Contents.kept beside.pending))
                            beside.coming
                          ∙ b.forth_in_order;
                      back_in_order = in_order x ∙ b.back_in_order;
                      sizes = (
                        omega (arith, beside.sizes.1, b.sizes.0),
                        omega (arith, beside.sizes.0, b.sizes.1),
                      );
                      calm = λ y. beside.pending ∙ b.calm (beside.shut y);
                    },
                    quiet x,
                  ),
                ),
                beside.coming,
              )
        | inr w ↦ rw (if_false (io.flags self.pipe).writable _ w) ((b.l, b.r, λ x. (b, calm)), refl)
      ]

  flush_lem :
      (forth back : Bytes) (self : BrStream S) (peer : BrStream T)
      → Between forth back self peer
      → (io.flags self.pipe).writable ≡ true
      → Returns
          (λ (q : BrStream S × Bool).
            Between forth back q.0 peer
            × IsCalm q.0
            × (c.arriving (q.0).pipe ≡ c.arriving self.pipe))
          (flush_if_pending io self)
  unfolding flush_if_pending
  flush_lem forth back self peer b w = elim (Option-cases self.pending) [
    | inl e ↦ rw (if_false (is_some self.pending) _ (ap is_some e)) (b, λ x. e, refl)
    | inr (buf, e) ↦ rw (if_true (is_some self.pending) _ (ap is_some e)) (
        Returns-imp
          (λ (q : BrStream S × Bool).
            Flushed c (passed c self) (c.arriving self.pipe) self.recv_size q)
          _ (br_stream_flush io self) (br_stream_flush_law c self buf b.l e w)
          (λ q f. (
            record {
              l = f.valid;
              r = b.r;
              forth_in_order = ap (λ l. passed d peer ++ l) f.coming_in ∙ b.forth_in_order;
              back_in_order = ap (λ l. l ++ d.arriving peer.pipe) f.in_order ∙ b.back_in_order;
              sizes = (omega (arith, f.size, b.sizes.0), b.sizes.1);
              calm = b.calm;
            },
            f.calm,
            f.coming_in,
          )))
  ]

  on_writable_lem :
      (forth back : Bytes) (self : BrStream S) (peer : BrStream T)
      → Between forth back self peer
      → (io.flags self.pipe).writable ≡ true
      → length (d.arriving peer.pipe) < fuel
      → Returns
          (λ (q : Step S T). After forth back q × (c.arriving (q.0).pipe ≡ c.arriving self.pipe))
          (on_writable io io' fuel self peer)
  unfolding on_writable
  on_writable_lem forth back self peer b w enough =
      let ((s, r), made, (b', calm, same)) =
        Returns-value _ (flush_if_pending io self) (flush_lem forth back self peer b w) in
      rw (assert_holds (io.flags self.pipe).writable _ w, made) (go_on s r b' calm same)
    where
      go_on :
          (s : BrStream S) (r : Bool)
          → Between forth back s peer
          → IsCalm s
          → c.arriving s.pipe ≡ c.arriving self.pipe
          → Returns
              (λ (q : Step S T).
                After forth back q × (c.arriving (q.0).pipe ≡ c.arriving self.pipe))
              (if r then relay_to_self io io' fuel s peer else ok (s, peer, false))
      go_on s true b' calm same =
          Returns-imp
            (λ (q : Step S T). After forth back q × (c.arriving (q.0).pipe ≡ c.arriving s.pipe)) _
            (relay_to_self io io' fuel s peer) (relay_back_lem forth back s peer b' calm enough)
            (λ q h. (h.0, h.1 ∙ same))
      go_on s false b' calm same = ((b'.l, b'.r, λ x. cc), same)

  on_readable_lem :
      (forth back : Bytes) (self : BrStream S) (peer : BrStream T)
      → Between forth back self peer
      → IsCalm self
      → length (c.arriving self.pipe) < fuel
      → Returns (After forth back) (on_readable io io' fuel self peer)
  unfolding on_readable
  on_readable_lem forth back self peer b calm enough =
      elim (Bool-cases (io'.flags peer.pipe).writable) [
        | inl w ↦ rw (if_true (io'.flags peer.pipe).writable _ w) (
            Returns-imp _ (After forth back) (br_bridge_relay io io' fuel self peer)
              (br_bridge_relay_law c d self peer fuel rd.fin rc.keeps rd.open_end b.l.carrier b.r
                b.sizes.0 (b.calm w) enough)
              (λ q (beside, in_order, stops, quiet).
                let l' : IsValid c q.0 = record {
                  carrier = beside.receiver;
                  holds = subst Contents.Holds (sym beside.pending) b.l.holds;
                } in
                (
                  l',
                  beside.sender,
                  λ x. (
                    record {
                      l = l';
                      r = beside.sender;
                      forth_in_order = in_order x ∙ b.forth_in_order;
                      back_in_order =
                          ap₂ ◌++◌ (ap₂ ◌++◌ beside.sends (ap Contents.kept beside.pending))
                            beside.coming
                          ∙ b.back_in_order;
                      sizes = (
                        omega (arith, beside.sizes.0, b.sizes.0),
                        omega (arith, beside.sizes.1, b.sizes.1),
                      );
                      calm = quiet x;
                    },
                    λ y. beside.pending ∙ calm (beside.shut y),
                  ),
                )))
        | inr w ↦ rw (if_false (io'.flags peer.pipe).writable _ w) (b.l, b.r, λ x. (b, calm))
      ]

  first_step_lem :
      (events : IoEvents) (forth back : Bytes) (self : BrStream S) (peer : BrStream T)
      → Between forth back self peer
      → (events.writable ≡ true → (io.flags self.pipe).writable ≡ true)
      → (events.writable ≡ false → IsCalm self)
      → length (d.arriving peer.pipe) < fuel
      → Returns
          (λ (q : Step S T). After forth back q × (c.arriving (q.0).pipe ≡ c.arriving self.pipe))
          (first_step io io' fuel events self peer)
  first_step_lem events forth back self peer b honest calm enough =
      elim (Bool-cases events.writable) [
        | inl w ↦
            rw (if_true events.writable _ w)
              (on_writable_lem forth back self peer b (honest w) enough)
        | inr w ↦ rw (if_false events.writable _ w) ((b.l, b.r, λ x. (b, calm w)), refl)
      ]

  second_step_lem :
      (events : IoEvents) (forth back : Bytes) (q : Step S T)
      → After forth back q
      → length (c.arriving (q.0).pipe) < fuel
      → Returns (After forth back) (second_step io io' fuel events q)
  second_step_lem events forth back (s, p, false) after enough = after
  second_step_lem events forth back (s, p, true) (l, r, go) enough =
      elim (Bool-cases events.readable) [
        | inl e ↦
            rw (if_true events.readable _ e)
              (on_readable_lem forth back s p (go refl).0 (go refl).1 enough)
        | inr e ↦ rw (if_false events.readable _ e) (l, r, go)
      ]

  unfailed :
      (events : IoEvents) (peer : BrStream T) (r : Bool)
      → (shutdown io io' events peer r ≡ some false → ⊥)
      → r ≡ true
  unfailed events peer true h = refl
  unfailed events peer false h = absurd (h refl)

  -- br_stream_on_activity() of a bridge that is not dead, between two pipes of the contract
  -- that keep the three promises of a relay, on enough fuel, when an event of being writable
  -- comes with the bit `writable` and only the stream of such an event may be writable with
  -- bytes pending: no assertion fails and both streams stay valid; unless on_shutdown() is
  -- told of a failure, in both directions the bytes sent, pending and arriving are the same
  -- sequence as before, and no stream is writable with bytes pending.
  pub br_stream_on_activity_law :
      (events : IoEvents) (self : BrStream S) (peer : BrStream T)
      → Between (through c d self peer) (through d c peer self) self peer
      → (events.writable ≡ true → (io.flags self.pipe).writable ≡ true)
      → (events.writable ≡ false → (io.flags self.pipe).writable ≡ true → self.pending ≡ none)
      → length (c.arriving self.pipe) < fuel
      → length (d.arriving peer.pipe) < fuel
      → Returns
          (λ (q : BrStream S × BrStream T × Bool × Option Bool).
            IsValid c q.0
            × IsValid d q.1
            × (q.3 ≢ some false
                → Between (through c d self peer) (through d c peer self) q.0 q.1
                  × ((io.flags (q.0).pipe).writable ≡ true → (q.0).pending ≡ none)))
          (br_stream_on_activity io io' fuel events false self peer)
  unfolding br_stream_on_activity
  br_stream_on_activity_law events self peer b honest calm enough enough' =
      let forth = through c d self peer in
      let back = through d c peer self in
      Returns-bind
        (λ (q : Step S T). After forth back q × (c.arriving (q.0).pipe ≡ c.arriving self.pipe)) _
        (first_step io io' fuel events self peer) _
        (first_step_lem events forth back self peer b honest calm enough')
        (λ q h.
          Returns-bind (After forth back) _ (second_step io io' fuel events q) _
            (second_step_lem events forth back q h.0 (omega (arith, ap length h.1)))
            (λ p after. (after.0, after.1, λ x. after.2 (unfailed events p.1 p.2 x))))
