-- ===== src/Bridge.antt =====
-- src/io/src/io_bridge.c: a bridge between two pipes, each over a state of its own. What comes out of
-- one is sent to the other; a result of 0 is `true`, and -1 is `false`.
pub mod Sending
pub mod Round
pub mod Relay
pub mod Flush
pub mod Activity
mod Tests
use tcp_striper.Base.{
  ℕ, zero, suc, ◌+◌, ◌-◌, ◌*◌, ◌%◌, ◌^◌, Bool, true, false, not, ◌&&◌, ◌||◌, Option, none, some,
  List, [], ◌∷◌, length, take, drop, ltb, leb, ◌==◌, if◌then◌else◌, is_some,
}
use tcp_striper.Serialize.{Bytes}
use tcp_striper.Run.{Run, ok, aborted, assert, ◌>>=◌, ◌>>◌}
use tcp_striper.Buffer.{IoBuffer, write_at, alloc_io_buffer, consume}
use tcp_striper.Buffer.Contents.{contents}
use tcp_striper.Pipe.{Flags, IoEvents, IoPipe}

-- One side: the pipe, the bytes that it has yet to send, and the fields of `struct br_pipe`.
pub record BrStream (S : Type 0) : Type 0 where
  pub pipe : S
  pub pending : Option IoBuffer
  pub recv_size : ℕ
  pub tx : ℕ
  pub rx : ℕ
  pub congestions : ℕ

-- Additions to counters of 64 bits.
abbrev pub add64 : ℕ → ℕ → ℕ
add64 x n = (x + n) % 2 ^ 64

abbrev pub br_setup_stream : {S : Type 0} → S → BrStream S
br_setup_stream io = record {
  pipe = io;
  pending = none;
  recv_size = 1024 * 1024;
  tx = 0;
  rx = 0;
  congestions = 0;
}

module _ {T : Type 0} (io : IoPipe T) where
  -- `bytes < (int)buf->size || ! dst->pipe->writable`
  abbrev pub is_congested : T → Option ℕ → ℕ → Bool
  is_congested t none size = true
  is_congested t (some bytes) size = ltb bytes size || not (io.flags t).writable

  abbrev pub count_congestion : BrStream T → Option ℕ → ℕ → BrStream T
  count_congestion dst r size =
      if is_congested dst.pipe r size
      then record dst { congestions = add64 dst.congestions 1 }
      else dst

  -- The rest of br_stream_flush() on the result of send().
  unfoldable pub after_flush : BrStream T → IoBuffer → Option ℕ → Run (BrStream T × Bool)
  after_flush dst buf none = do
    assert (not (io.flags dst.pipe).writable)
    ok (dst, not (io.flags dst.pipe).broken)
  after_flush dst buf (some bytes) =
      let sent = record dst { tx = add64 dst.tx bytes } in
      if ltb bytes buf.size
      then (do
        assert (not (io.flags dst.pipe).writable)
        ok (record sent { pending = some (consume buf bytes) }, true))
      else ok (record sent { pending = none }, true)

  unfoldable pub flush_buffer : BrStream T → Option IoBuffer → Run (BrStream T × Bool)
  unfolding after_flush
  flush_buffer dst none = aborted
  flush_buffer dst (some buf) = do
    assert (io.flags dst.pipe).writable
    (t, r) ← io.send dst.pipe (contents buf)
    after_flush (count_congestion (record dst { pipe = t }) r buf.size) buf r

  unfoldable pub br_stream_flush : BrStream T → Run (BrStream T × Bool)
  unfolding flush_buffer
  br_stream_flush dst = flush_buffer dst dst.pending

  -- "appropriate the buffer", which holds `bytes` that have gone out in part.
  unfoldable pub keep_rest : BrStream T → IoBuffer → ℕ → Run (BrStream T × Option IoBuffer × Bool)
  keep_rest dst buf bytes = do
    assert (ltb bytes buf.size)
    assert (not (io.flags dst.pipe).writable)
    ok (record dst { pending = some (consume buf bytes) }, none, true)

  -- The rest of br_bridge_rx_tx() on the result of send(): the stream, the buffer that is left to
  -- the caller, and the result.
  unfoldable pub after_tx :
      BrStream T → IoBuffer → Option ℕ → Run (BrStream T × Option IoBuffer × Bool)
  unfolding keep_rest
  after_tx dst buf none =
      if (io.flags dst.pipe).broken then ok (dst, some buf, false) else keep_rest dst buf 0
  after_tx dst buf (some bytes) =
      let sent = record dst { tx = add64 dst.tx bytes } in
      if bytes == buf.size then ok (sent, some buf, true) else keep_rest sent buf bytes

  -- `buf->size = bytes`, the bytes being received into `buf->data`.
  abbrev pub received_into : IoBuffer → Bytes → IoBuffer
  received_into buf bs = record buf { size = length bs; bytes = write_at 0 bs buf.bytes }

  unfoldable pub send_received : BrStream T → IoBuffer → Run (BrStream T × Option IoBuffer × Bool)
  unfolding after_tx
  send_received dst buf = do
    (t, r) ← io.send dst.pipe (take buf.size buf.bytes)
    after_tx (count_congestion (record dst { pipe = t }) r buf.size) buf r

  -- The FIN is passed on.
  unfoldable pub pass_fin : BrStream T → IoBuffer → Run (BrStream T × Option IoBuffer × Bool)
  pass_fin dst buf = do
    assert (not (io.flags dst.pipe).fin_sent)
    (t, r) ← io.send_fin dst.pipe
    ok (record dst { pipe = t }, some buf, not (not r && (io.flags t).broken))

-- The two streams of a call, the buffer that is left to the caller, and the result.
abbrev pub Relayed : Type 0 → Type 0 → Type 0
Relayed S T = BrStream S × BrStream T × Option IoBuffer × Bool

module _ {S T : Type 0} (io : IoPipe S) (io' : IoPipe T) where
  -- The rest of br_bridge_rx_tx() on the result of recv().
  unfoldable pub after_rx : BrStream S → BrStream T → IoBuffer → Option Bytes → Run (Relayed S T)
  unfolding send_received pass_fin
  after_rx src dst buf none = ok (src, dst, some buf, not (io.flags src.pipe).broken)
  after_rx src dst buf (some []) = do
    assert (io.flags src.pipe).fin_rcvd
    (dst', space, r) ← pass_fin io' dst buf
    ok (src, dst', space, r)
  after_rx src dst buf (some (b ∷ bs)) = do
    (dst', space, r) ← send_received io' dst (received_into io' buf (b ∷ bs))
    ok (record src { rx = add64 src.rx (length (b ∷ bs)) }, dst', space, r)

  unfoldable pub br_bridge_rx_tx : BrStream S → BrStream T → Option IoBuffer → Run (Relayed S T)
  unfolding after_rx
  br_bridge_rx_tx src dst none = aborted
  br_bridge_rx_tx src dst (some buf) = do
    assert ((io.flags src.pipe).readable && (io'.flags dst.pipe).writable)
    assert (not (is_some dst.pending))
    assert (leb src.recv_size buf.capacity)
    (s, r) ← io.recv src.pipe src.recv_size
    after_rx (record src { pipe = s }) dst buf r

  -- The condition of the loop of br_bridge_relay().
  abbrev pub may_relay : BrStream S → BrStream T → Bool
  may_relay src dst = (io.flags src.pipe).readable && (io'.flags dst.pipe).writable

  -- The rest of a round, with the rounds to come as `again`.
  unfoldable pub next_round :
      (BrStream S → BrStream T → Option IoBuffer → Run (BrStream S × BrStream T × Bool))
      → Relayed S T
      → Run (BrStream S × BrStream T × Bool)
  next_round again (src, dst, space, r) =
      if r
      then (do assert (is_some space || not (io'.flags dst.pipe).writable); again src dst space)
      else ok (src, dst, false)

  -- The loop on fuel; without any it fails if it is to go on.
  unfoldable pub relay_loop :
      ℕ → BrStream S → BrStream T → Option IoBuffer → Run (BrStream S × BrStream T × Bool)
  unfolding br_bridge_rx_tx next_round
  relay_loop zero src dst space = if may_relay src dst then aborted else ok (src, dst, true)
  relay_loop (suc fuel) src dst space =
      if may_relay src dst
      then br_bridge_rx_tx src dst space >>= next_round (λ s d b. relay_loop fuel s d b)
      else ok (src, dst, true)

  -- `src->peer` is `dst`.
  unfoldable pub br_bridge_relay :
      ℕ → BrStream S → BrStream T → Run (BrStream S × BrStream T × Bool)
  unfolding relay_loop
  br_bridge_relay fuel src dst = do
    buf ←
        alloc_io_buffer (if ltb dst.recv_size src.recv_size then src.recv_size else dst.recv_size)
          none
    relay_loop fuel src dst (some buf)

-- A step that may end the handler: the two streams, and whether it goes on.
abbrev pub Step : Type 0 → Type 0 → Type 0
Step S T = BrStream S × BrStream T × Bool

module _ {S : Type 0} (io : IoPipe S) where
  unfoldable pub flush_if_pending : BrStream S → Run (BrStream S × Bool)
  flush_if_pending self = if is_some self.pending then br_stream_flush io self else ok (self, true)

module _ {S T : Type 0} (io : IoPipe S) (io' : IoPipe T) where
  unfoldable pub relay_to_self : ℕ → BrStream S → BrStream T → Run (Step S T)
  relay_to_self fuel self peer =
      if (io.flags self.pipe).writable
      then (do (peer', self', r) ← br_bridge_relay io' io fuel peer self; ok (self', peer', r))
      else ok (self, peer, true)

  -- The step on IO_EV_writable.
  unfoldable pub on_writable : ℕ → BrStream S → BrStream T → Run (Step S T)
  unfolding flush_if_pending relay_to_self
  on_writable fuel self peer = do
    assert (io.flags self.pipe).writable
    (self', r) ← flush_if_pending io self
    if r then relay_to_self fuel self' peer else ok (self', peer, false)

  -- The step on IO_EV_readable.
  unfoldable pub on_readable : ℕ → BrStream S → BrStream T → Run (Step S T)
  on_readable fuel self peer =
      if (io'.flags peer.pipe).writable
      then br_bridge_relay io io' fuel self peer
      else ok (self, peer, true)

  abbrev pub first_step : ℕ → IoEvents → BrStream S → BrStream T → Run (Step S T)
  first_step fuel events self peer =
      if events.writable then on_writable fuel self peer else ok (self, peer, true)

  abbrev pub second_step : ℕ → IoEvents → Step S T → Run (Step S T)
  second_step fuel events (self, peer, r) =
      if r && events.readable then on_readable fuel self peer else ok (self, peer, r)

  -- The argument of on_shutdown(), if it is called.
  abbrev pub shutdown : IoEvents → BrStream T → Bool → Option Bool
  shutdown events peer r =
      if not r || events.broken
      then some false
      else (if (io'.flags peer.pipe).fin_sent && (io'.flags peer.pipe).fin_rcvd
          then some true
          else none)

  -- An event of the pipe of `self`. The results are the streams, `dead`, and the argument of
  -- on_shutdown(), if it is called.
  unfoldable pub br_stream_on_activity :
      ℕ
      → IoEvents
      → Bool
      → BrStream S
      → BrStream T
      → Run (BrStream S × BrStream T × Bool × Option Bool)
  br_stream_on_activity fuel events dead self peer =
      if dead then ok (self, peer, true, none) else (do
        q ← first_step fuel events self peer
        (self', peer', r) ← second_step fuel events q
        ok (self', peer', is_some (shutdown events peer' r), shutdown events peer' r))

-- `struct br_bridge`.
pub record BrBridge (S : Type 0) (T : Type 0) : Type 0 where
  pub evl : Bool
  pub dead : Bool
  pub l : BrStream S
  pub r : BrStream T

abbrev pub new_io_bridge : {S T : Type 0} → S → T → BrBridge S T
new_io_bridge l r = record {
  evl = false;
  dead = false;
  l = br_setup_stream l;
  r = br_setup_stream r;
}

module _ {S T : Type 0} (io : IoPipe S) (io' : IoPipe T) where
  unfoldable pub br_bridge_init : BrBridge S T → Run (BrBridge S T)
  br_bridge_init br = do
    assert (not br.evl)
    l ← io.init br.l.pipe
    r ← io'.init br.r.pipe
    ok (record br { evl = true; l = record (br.l) { pipe = l }; r = record (br.r) { pipe = r } })

-- br_bridge_dispose(): the pipes are discarded, the rest is freed. The bridge itself is not freed.
abbrev pub br_bridge_discard : {S T V V' : Type 0} → (S → V) → (T → V') → BrBridge S T → V × V'
br_bridge_discard discard discard' br = (discard br.l.pipe, discard' br.r.pipe)
