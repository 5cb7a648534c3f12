-- ===== src/Tcp/Tests.antt =====
-- Runs of a pipe over the socket of Socket/Sample.
use tcp_striper.Base.{ℕ, ◌+◌, ◌*◌, ◌≡◌, refl, Bool, true, false, Option, some, [], ◌∷◌, arith}
use tcp_striper.Serialize.{Bytes}
use tcp_striper.Run.{Returns}
use tcp_striper.Pipe.{Flags, IoEvents, no_events, no_flags, tag_pipe_as_broken, get_pipe_state}
use tcp_striper.Pipe.Contract
use tcp_striper.Pipe.Misc.{digit, get_pipe_state-eq}
use tcp_striper.Socket.{SkEvents, sk_recv}
use tcp_striper.Socket.Laws.{GoodRecv, sk_recv_law}
use tcp_striper.Socket.Sample.{World, sample, sample_law}
use tcp_striper.Tcp.{
  TcpPipe, no_mask, tcp_pipe_on_activity, tcp_pipe_recv, tcp_pipe_send, tcp_pipe_send_fin,
}
use tcp_striper.Tcp.Mask.{
  IsAdded, IsWatched, raised, reported, in_bytes, out_bytes, tcp_pipe-IsWatched,
  tcp_pipe_on_activity-IsWatched,
}
use tcp_striper.Tcp.Events.{
  only_broken, only_error, tcp_pipe_on_activity-reports, tcp_pipe_on_activity-fails,
}
use tcp_striper.Tcp.Streams.{tcp_pipe_send_law, tcp_pipe_recv_law}
use tcp_striper.Tcp.Fin.{tcp_pipe_send_fin_law}

-- Three bytes have come in, and each call is interrupted once.
abbrev pub reading : SkEvents
reading = record { readable = true; writable = false; error = false }

abbrev pub a_world : World
a_world = record {
  out = 1 ∷ [];
  inbound = 7 ∷ 8 ∷ 9 ∷ [];
  watched = some reading;
  signals = 1;
  room = 2;
}

-- The socket is connected and may be written.
abbrev pub open_flags : Flags
open_flags = record no_flags { ready = true; writable = true }

abbrev pub a_pipe : TcpPipe World
a_pipe = record { base = open_flags; evl = true; sk = 5; sk_mask = reading; world = a_world }

abbrev pub a_pipe-IsAdded : IsAdded sample_law a_pipe
a_pipe-IsAdded = record { added = refl; registered = refl }

-- It is still being connected.
abbrev new_pipe : TcpPipe World
new_pipe = record a_pipe { base = no_flags }

abbrev new_pipe-IsAdded : IsAdded sample_law new_pipe
new_pipe-IsAdded = record { added = refl; registered = refl }

abbrev readable_event : SkEvents
readable_event = record no_mask { readable = true }

sk_recv_law_example : GoodRecv sample_law 5 2 a_world (sk_recv sample 5 2 a_world)
sk_recv_law_example = sk_recv_law sample_law 5 2 a_world (omega arith)

tcp_pipe_send_law_example :
    Returns
      (λ (q : TcpPipe World × Option ℕ).
        IsAdded sample_law q.0
        × (in_bytes sample_law q.0 ≡ in_bytes sample_law a_pipe)
        × Contract.Sent
            (out_bytes sample_law a_pipe)
            (out_bytes sample_law q.0)
            (q.0).base
            (4 ∷ 5 ∷ 6 ∷ [])
            q.1)
      (tcp_pipe_send sample a_pipe (4 ∷ 5 ∷ 6 ∷ []))
tcp_pipe_send_law_example = tcp_pipe_send_law sample_law a_pipe (4 ∷ 5 ∷ 6 ∷ []) a_pipe-IsAdded

tcp_pipe_recv_law_example :
    Returns
      (λ (q : TcpPipe World × Option Bytes).
        IsAdded sample_law q.0
        × (out_bytes sample_law q.0 ≡ out_bytes sample_law a_pipe)
        × Contract.Received (in_bytes sample_law a_pipe) (in_bytes sample_law q.0) (q.0).base 2 q.1)
      (tcp_pipe_recv sample a_pipe 2)
tcp_pipe_recv_law_example = tcp_pipe_recv_law sample_law a_pipe 2 a_pipe-IsAdded (omega arith)

tcp_pipe_send_fin_law_example :
    Returns
      (λ (q : TcpPipe World × Bool).
        IsAdded sample_law q.0
        × (out_bytes sample_law q.0 ≡ out_bytes sample_law a_pipe)
        × (in_bytes sample_law q.0 ≡ in_bytes sample_law a_pipe)
        × (q.1 ≡ true → ((q.0).base.fin_sent ≡ true) × ((q.0).base.writable ≡ false)))
      (tcp_pipe_send_fin sample a_pipe)
tcp_pipe_send_fin_law_example = tcp_pipe_send_fin_law sample_law a_pipe a_pipe-IsAdded refl

tcp_pipe-IsWatched_example :
    Returns
      (λ (q : TcpPipe World × Option Bytes). IsWatched sample_law q.0)
      (tcp_pipe_recv sample a_pipe 2)
    × Returns
        (λ (q : TcpPipe World × Option ℕ). IsWatched sample_law q.0)
        (tcp_pipe_send sample a_pipe (4 ∷ 5 ∷ 6 ∷ []))
tcp_pipe-IsWatched_example =
    tcp_pipe-IsWatched sample_law a_pipe 2 (4 ∷ 5 ∷ 6 ∷ []) a_pipe-IsAdded (omega arith)

tcp_pipe_on_activity-IsWatched_example :
    Returns
      (λ (q : TcpPipe World × IoEvents). IsWatched sample_law q.0)
      (tcp_pipe_on_activity sample readable_event a_pipe)
tcp_pipe_on_activity-IsWatched_example =
    tcp_pipe_on_activity-IsWatched sample_law readable_event a_pipe a_pipe-IsAdded (refl, refl) refl

tcp_pipe_on_activity-reports_example :
    Returns
      (λ (q : TcpPipe World × IoEvents).
        ((q.0).base ≡ raised sample_law readable_event open_flags)
        × (q.1 ≡ reported sample_law readable_event no_events))
      (tcp_pipe_on_activity sample readable_event a_pipe)
tcp_pipe_on_activity-reports_example =
    tcp_pipe_on_activity-reports sample_law readable_event a_pipe refl (refl, refl)

tcp_pipe_on_activity-fails_example :
    Returns
      (λ (q : TcpPipe World × IoEvents).
        ((q.0).base ≡ tag_pipe_as_broken no_flags)
        × (q.1 ≡ only_broken)
        × (sample_law.monitored (q.0).world (q.0).sk ≡ some no_mask))
      (tcp_pipe_on_activity sample only_error new_pipe)
tcp_pipe_on_activity-fails_example =
    tcp_pipe_on_activity-fails sample_law only_error new_pipe new_pipe-IsAdded refl refl

get_pipe_state-eq_example :
    get_pipe_state open_flags
    ≡ digit open_flags.ready + 2 * digit open_flags.broken + 4 * digit open_flags.readable
get_pipe_state-eq_example = get_pipe_state-eq open_flags
