-- ===== src/Atx/Flush.antt =====
-- atx_pipe_on_activity() (src/io/src/io_pipe_atx.c), what is kept, and what the owner is told.
use tcp_striper.Base.{◌<◌, ◌≡◌, ◌++◌, Bool, true, false, Option, none, some}
use tcp_striper.Serialize.{Bytes}
use tcp_striper.Buffer.{IoBuffer}
use tcp_striper.Buffer.Contents
use tcp_striper.Buffer.Contents.{Holds, contents}
use tcp_striper.Pipe.{IoEvents, IoPipe}
use tcp_striper.Pipe.Contract.{Contract}
use tcp_striper.Atx.{AtxPipe}
use tcp_striper.Atx.Atomic.{IsValid, taken}

module _ {S : Type 0} {io : IoPipe S} (c : Contract io) where
  -- A state `p` in which `before` is what the peer will have, `coming` what is still to arrive,
  -- and the events promise to be able to write only if that is so.
  pub record Steady (before coming : Bytes) (q : AtxPipe S × IoEvents) : Type 0 where
    pub carrier : c.Inv (q.0).io
    pub holds : Holds (q.0).pending
    pub in_order : taken c q.0 ≡ before
    pub arriving : c.arriving (q.0).io ≡ coming
    pub honest :
        (q.1).writable ≡ true → ((io.flags (q.0).io).writable ≡ true) × ((q.0).pending ≡ none)

  module _ (before coming : Bytes) (p : AtxPipe S) (buf : IoBuffer) (events : IoEvents)
      (inv : c.Inv p.io) (same : c.arriving p.io ≡ coming) (valid : Contents.IsValid buf)
      (nonempty : 0 < buf.size) (holding : p.pending ≡ some buf) where
    abbrev Flushed : AtxPipe S × IoEvents → Type 0
    Flushed q = Steady (before ++ contents buf) coming q × ((q.0).io ≡ p.io)

  -- The callback's IO_EV_writable, where there is a callback.
  abbrev pub tells_writable : Option IoEvents → Bool
  tells_writable none = false
  tells_writable (some events) = events.writable
