-- ===== src/Atx/Tests.antt =====
-- Runs of a pipe over the pipe of Tcp/Tests.
use tcp_striper.Base.{
  Bool, true, false, ℕ, ◌≡◌, refl, ◌++◌, ◌⊎◌, Option, none, some, [], ◌∷◌, length, arith,
}
use tcp_striper.Serialize.{Bytes}
use tcp_striper.Run.{ok, Returns}
use tcp_striper.Buffer.{IoBuffer}
use tcp_striper.Buffer.Contents
use tcp_striper.Buffer.Contents.{contents, contents-append_bytes}
use tcp_striper.Pipe.{Flags, IoPipe, no_flags}
use tcp_striper.Pipe.Contract.{Contract, Sent, Received}
use tcp_striper.Socket.Sample.{World, sample, sample_law}
use tcp_striper.Tcp.{TcpPipe, tcp_pipe}
use tcp_striper.Tcp.Streams.{tcp_pipe_contract}
use tcp_striper.Tcp.Tests.{a_pipe, a_pipe-IsAdded}
use tcp_striper.Atx.{
  AtxPipe, shown, atx_pipe_clone_state, atx_pipe_send, atx_pipe_recv, atx_pipe_send_fin,
  atx_pipe_on_activity,
}
use tcp_striper.Atx.Atomic.{IsValid, taken, atx_pipe_send_law, atx_pipe_recv_law}
use tcp_striper.Atx.Fin.{only_writable, atx_pipe_send_fin-untold}

abbrev pub over : Contract (tcp_pipe sample)
over = tcp_pipe_contract sample_law

-- Nothing is kept.
abbrev pub idle : AtxPipe (TcpPipe World)
idle = record { base = a_pipe.base; io = a_pipe; pending = none; want_fin = false }

abbrev pub idle-IsValid : IsValid over idle
idle-IsValid = record { carrier = a_pipe-IsAdded; holds = tt; in_step = refl }

-- Two of four bytes are kept.
abbrev two_kept : IoBuffer
two_kept = record { capacity = 4; head = 1; size = 2; bytes = 9 ∷ 2 ∷ 3 ∷ 9 ∷ [] }

abbrev two_kept-IsValid : Contents.IsValid two_kept
two_kept-IsValid = record { within = omega arith; backed = refl }

abbrev busy : AtxPipe (TcpPipe World)
busy = record idle {
  pending = some two_kept;
  base = shown (tcp_pipe sample) a_pipe.base (some two_kept);
}

atx_pipe_send_law_example :
    Returns
      (λ (q : AtxPipe (TcpPipe World) × Option ℕ).
        IsValid over q.0
        × (over.arriving (q.0).io ≡ over.arriving idle.io)
        × Sent (taken over idle) (taken over q.0) (q.0).base (4 ∷ 5 ∷ 6 ∷ []) q.1
        × ((q.1 ≡ none) ⊎ (q.1 ≡ some 3)))
      (atx_pipe_send (tcp_pipe sample) idle (4 ∷ 5 ∷ 6 ∷ []))
atx_pipe_send_law_example = atx_pipe_send_law over idle (4 ∷ 5 ∷ 6 ∷ []) idle-IsValid (omega arith)

atx_pipe_recv_law_example :
    Returns
      (λ (q : AtxPipe (TcpPipe World) × Option Bytes).
        IsValid over q.0
        × (taken over q.0 ≡ taken over idle)
        × Received (over.arriving idle.io) (over.arriving (q.0).io) (q.0).base 2 q.1)
      (atx_pipe_recv (tcp_pipe sample) idle 2)
atx_pipe_recv_law_example = atx_pipe_recv_law over idle 2 idle-IsValid (omega arith)

-- A carrier that takes all it is given, and whose state is the bits and the bytes.
abbrev all_taker : IoPipe (Flags × Bytes)
all_taker = record {
  flags = λ s. s.0;
  init = λ s. ok s;
  recv = λ s len. ok (s, none);
  send = λ s bs. ok ((s.0, s.1 ++ bs), some (length bs));
  send_fin = λ s. ok ((record (s.0) { fin_sent = true; writable = false }, s.1), true);
}

abbrev fin_flags : Flags
fin_flags = record no_flags { ready = true; writable = true }

abbrev fin_due : AtxPipe (Flags × Bytes)
fin_due = record {
  base = record fin_flags { writable = false };
  io = (fin_flags, []);
  pending = some two_kept;
  want_fin = false;
}

abbrev fin_out : Flags × Bytes
fin_out = (record fin_flags { fin_sent = true; writable = false }, 2 ∷ 3 ∷ [])

atx_pipe_send_fin-untold_example :
    Returns
      (λ (q : AtxPipe (Flags × Bytes) × Bool).
        (q.1 ≡ true)
        × (atx_pipe_on_activity all_taker only_writable q.0
            ≡ ok (
              atx_pipe_clone_state all_taker
                  (record fin_due { io = fin_out; pending = none; want_fin = true }),
              none,
            )))
      (atx_pipe_send_fin all_taker fin_due)
atx_pipe_send_fin-untold_example =
    atx_pipe_send_fin-untold all_taker fin_due two_kept (fin_flags, 2 ∷ 3 ∷ []) fin_out refl refl
      refl (unfold contents in refl) refl
