-- ===== src/Bridge/Round.antt =====
-- A round of br_bridge_relay(): br_bridge_rx_tx() (src/io/src/io_bridge.c).
use tcp_striper.Base.{
  ℕ, ◌≤◌, ◌<◌, ◌≡◌, refl, sym, ap, ap₂, ◌∙◌, ◌++◌, append_assoc, append-nil, Bool, true, false, not,
  ◌&&◌, ◌||◌, Option, none, some, [], ◌∷◌, length, length-append, is_some, leb, arith,
}
use tcp_striper.Serialize.{Bytes}
use tcp_striper.Run.{Returns, Returns-value, assert_holds}
use tcp_striper.Buffer.{IoBuffer}
use tcp_striper.Buffer.Contents
use tcp_striper.Buffer.Contents.{kept, Holds, zeroed-IsValid, alloc_io_buffer-zeroed}
use tcp_striper.Pipe.{IoPipe}
use tcp_striper.Pipe.Contract.{Contract, RecvPost, FinLaw, RecvKeepsShut}
use tcp_striper.Bridge.{
  BrStream, Relayed, pass_fin, send_received, received_into, after_rx, br_bridge_rx_tx, may_relay,
}
use tcp_striper.Bridge.Sending.{Spare, IsValid, passed, pass_fin_lem, send_received_lem}

-- send_fin() "clears 'writable' bit and raises the 'fin_sent' bit", so that the two are not set
-- together.
abbrev pub OpenEnd : {T : Type 0} {io : IoPipe T} → Contract io → Type 0
OpenEnd {T} {io} d =
    (t : T) → d.Inv t → (io.flags t).writable ≡ true → (io.flags t).fin_sent ≡ false

spared :
    (capacity : ℕ) (space : Option IoBuffer) (w : Bool)
    → (w ≡ true → Spare capacity space)
    → (is_some space || not w) ≡ true
spared capacity (some b) w h = refl
spared capacity none false h = refl
spared capacity none true h = absurd (h refl)

module _ {S T : Type 0} {io : IoPipe S} {io' : IoPipe T} (c : Contract io) (d : Contract io') where
  -- What the peer of `dst` will have once all that has arrived at `src` is passed on.
  abbrev pub through : BrStream S → BrStream T → Bytes
  through src dst = passed d dst ++ c.arriving src.pipe

  -- The two streams after relaying: valid, the other direction untouched.
  pub record Beside (src : BrStream S) (dst : BrStream T) (src' : BrStream S) (dst' : BrStream T)
      : Type 0 where
    pub receiver : c.Inv src'.pipe
    pub sender : IsValid d dst'
    pub pending : src'.pending ≡ src.pending
    pub sends : c.sent src'.pipe ≡ c.sent src.pipe
    pub coming : d.arriving dst'.pipe ≡ d.arriving dst.pipe
    pub shut : (io.flags src'.pipe).writable ≡ true → (io.flags src.pipe).writable ≡ true
    pub sizes : (src'.recv_size ≡ src.recv_size) × (dst'.recv_size ≡ dst.recv_size)

  -- While something is pending the pipe is not writable.
  abbrev pub IsCalm : BrStream T → Type 0
  IsCalm dst = (io'.flags dst.pipe).writable ≡ true → dst.pending ≡ none

  pub record Round (src : BrStream S) (dst : BrStream T) (capacity : ℕ) (q : Relayed S T)
      : Type 0 where
    pub beside : Beside src dst q.0 q.1
    pub in_order : q.3 ≡ true → through q.0 q.1 ≡ through src dst
    pub asserted : q.3 ≡ true → (is_some q.2 || not (io'.flags (q.1).pipe).writable) ≡ true
    pub calm : q.3 ≡ true → IsCalm q.1
    pub going_on :
        q.3 ≡ true
        → may_relay io io' q.0 q.1 ≡ true
        → ((q.1).pending ≡ none)
          × Spare capacity q.2
          × (length (c.arriving (q.0).pipe) < length (c.arriving src.pipe))

  module _ (fin : FinLaw io' d) (keeps : RecvKeepsShut io c) (open_end : OpenEnd d)
      (src : BrStream S) (dst : BrStream T) (buf : IoBuffer) (inv' : d.Inv dst.pipe)
      (free : dst.pending ≡ none) (v : Contents.IsValid buf) (head : buf.head ≡ 0)
      (room : src.recv_size ≤ buf.capacity) (writable : (io'.flags dst.pipe).writable ≡ true) where
    module _ (s : S) (inv : c.Inv s) (sends : c.sent s ≡ c.sent src.pipe)
        (shut : (io.flags s).writable ≡ true → (io.flags src.pipe).writable ≡ true) where
      abbrev read_src : BrStream S
      read_src = record src { pipe = s }

      rx_none :
          c.arriving s ≡ c.arriving src.pipe
          → (io.flags s).readable ≡ false
          → Returns (Round src dst buf.capacity) (after_rx io io' read_src dst buf none)
      unfolding after_rx
      rx_none same closed = record {
        beside = record {
          receiver = inv;
          sender = record { carrier = inv'; holds = rw free tt };
          pending = refl;
          sends = sends;
          coming = refl;
          shut = shut;
          sizes = (refl, refl);
        };
        in_order = λ e. ap (λ l. passed d dst ++ l) same;
        asserted = λ e. refl;
        calm = λ e w. free;
        going_on = λ e w. ground arith;
      }

      rx_fin :
          c.arriving src.pipe ≡ []
          → c.arriving s ≡ []
          → (io.flags s).readable ≡ false
          → (io.flags s).fin_rcvd ≡ true
          → Returns (Round src dst buf.capacity) (after_rx io io' read_src dst buf (some []))
      unfolding after_rx
      rx_fin none_before none_after closed fin_rcvd =
          let ((dst', space, r), made, good) =
            Returns-value _ (pass_fin io' dst buf)
              (pass_fin_lem d dst inv' free buf v head fin (open_end dst.pipe inv' writable)) in
          rw (assert_holds (io.flags s).fin_rcvd _ fin_rcvd, made)
            (record {
              beside = record {
                receiver = inv;
                sender = good.0;
                pending = refl;
                sends = sends;
                coming = good.1;
                shut = shut;
                sizes = (refl, good.3);
              };
              in_order = λ e. ap₂ ◌++◌ good.2 (none_after ∙ sym none_before);
              asserted = λ e. ground (arith, good.4);
              calm = λ e w. good.5;
              going_on = λ e w. ground arith;
            })

      rx_some :
          (b : ℕ) (bs : Bytes)
          → length (b ∷ bs) ≤ src.recv_size
          → c.arriving src.pipe ≡ (b ∷ bs) ++ c.arriving s
          → Returns (Round src dst buf.capacity) (after_rx io io' read_src dst buf (some (b ∷ bs)))
      unfolding after_rx kept
      rx_some b bs size before =
          let ((dst', space, r), made, good) =
            Returns-value _ (send_received io' dst (received_into io' buf (b ∷ bs)))
              (send_received_lem d dst inv' free buf v head b bs (omega arith)) in
          rw made (record {
            beside = record {
              receiver = inv;
              sender = good.valid;
              pending = refl;
              sends = sends;
              coming = good.coming_in;
              shut = shut;
              sizes = (refl, good.size);
            };
            in_order = λ e.
                ap (λ l. l ++ c.arriving s) (good.in_order e)
                ∙ append_assoc (d.sent dst.pipe) (b ∷ bs) (c.arriving s)
                ∙ ap₂ ◌++◌
                    (sym (append-nil (d.sent dst.pipe))
                      ∙ ap (λ k. d.sent dst.pipe ++ kept k) (sym free))
                    (sym before);
            asserted = λ e. spared buf.capacity space _ (λ w. (good.going_on e w).1);
            calm = λ e w. (good.going_on e w).0;
            going_on = λ e w.
                let (empty, spare) = good.going_on e (ground arith) in
                (
                  empty,
                  spare,
                  omega (arith, ap length before, length-append (b ∷ bs) (c.arriving s)),
                );
          })

    after_rx_lem :
        (s : S) (r : Option Bytes)
        → RecvPost io c src.pipe src.recv_size (s, r)
        → ((io.flags s).writable ≡ true → (io.flags src.pipe).writable ≡ true)
        → Returns (Round src dst buf.capacity) (after_rx io io' (record src { pipe = s }) dst buf r)
    after_rx_lem s none (inv, sends, got) shut = rx_none s inv sends shut got.0 got.1
    after_rx_lem s (some []) (inv, sends, got) shut =
        rx_fin s inv sends shut got.0 got.1 got.2 got.3
    after_rx_lem s (some (b ∷ bs)) (inv, sends, got) shut =
        rx_some s inv sends shut b bs got.0 got.1

    pub br_bridge_rx_tx_lem :
        c.Inv src.pipe
        → 0 < src.recv_size
        → (io.flags src.pipe).readable ≡ true
        → Returns (Round src dst buf.capacity) (br_bridge_rx_tx io io' src dst (some buf))
    unfolding br_bridge_rx_tx
    br_bridge_rx_tx_lem inv some_size readable =
        let ((s, r), made, good) =
          Returns-value (RecvPost io c src.pipe src.recv_size) (io.recv src.pipe src.recv_size)
            (c.recv_law src.pipe src.recv_size inv some_size) in
        rw
          (
            assert_holds (may_relay io io' src dst) _ (ap₂ ◌&&◌ readable writable),
            assert_holds (not (is_some dst.pending)) _ (ap (λ p. not (is_some p)) free),
            assert_holds (leb src.recv_size buf.capacity) _ (ground arith),
            made,
          )
          (after_rx_lem s r good (rw made at (keeps src.pipe src.recv_size inv some_size)))
