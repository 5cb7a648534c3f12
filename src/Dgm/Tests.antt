-- ===== src/Dgm/Tests.antt =====
-- Runs of a pipe over the pipe of Atx/Tests.
use tcp_striper.Base.{◌≡◌, refl, ◌++◌, true, Option, none, some, List, [], ◌∷◌, arith}
use tcp_striper.Serialize.{Bytes}
use tcp_striper.Serialize.Answers.{io_parse_size-four}
use tcp_striper.Serialize.Store.{size_code, groups}
use tcp_striper.Run.{Returns}
use tcp_striper.Buffer.{IoBuffer}
use tcp_striper.Buffer.Contents.{contents, kept}
use tcp_striper.Pipe.{IoPipe, no_events}
use tcp_striper.Pipe.Contract.{ShortContract}
use tcp_striper.Socket.Sample.{World, sample}
use tcp_striper.Tcp.{TcpPipe, tcp_pipe}
use tcp_striper.Tcp.Tests.{a_pipe, a_world}
use tcp_striper.Atx.{AtxPipe, atx_pipe}
use tcp_striper.Atx.Atomic.{atx_pipe_contract, atx_pipe-IsAtomic}
use tcp_striper.Atx.Tests.{over, idle}
use tcp_striper.Dgm.{DgmPipe, dgm_pipe_recv, dgm_pipe_send, dgm_pipe_on_activity}
use tcp_striper.Dgm.Frames.{frame}
use tcp_striper.Dgm.Passing.{IsValid, unread, Through, Delivered}
use tcp_striper.Dgm.Receive.{dgm_pipe_recv_law}
use tcp_striper.Dgm.Send.{SentWhole, dgm_pipe_send_law}
use tcp_striper.Dgm.Faults.{dgm_pipe_recv-whole, dgm_pipe_recv-unbroken}
use tcp_striper.Dgm.Hostile.{Accounts, WithinBuffer, dgm_pipe_recv-IsValid}

abbrev Carrier : Type 0
Carrier = AtxPipe (TcpPipe World)

abbrev carrier : IoPipe Carrier
carrier = atx_pipe (tcp_pipe sample)

abbrev carrier_contract : ShortContract carrier
carrier_contract = atx_pipe_contract over

-- Two datagrams are on their way, in pieces of any size.
abbrev two : List Bytes
two = (8 ∷ 9 ∷ []) ∷ (7 ∷ []) ∷ []

abbrev on_the_way : Carrier
on_the_way = record idle {
  io = record a_pipe { world = record a_world { inbound = 2 ∷ 8 ∷ 9 ∷ 1 ∷ 7 ∷ [] } };
}

abbrev fresh : DgmPipe Carrier
fresh = record {
  base = on_the_way.base;
  io = on_the_way;
  max_size = 2;
  max_hdr_size = 5;
  rx = none;
}

abbrev fresh-IsValid : IsValid carrier_contract fresh
fresh-IsValid = record {
  carrier = record {
    carrier = record { added = refl; registered = refl };
    holds = tt;
    in_step = refl;
  };
  holds = tt;
  header = refl;
}

-- The first of the two datagrams is in the buffer already.
abbrev first_in : IoBuffer
first_in = record { capacity = 4; head = 1; size = 3; bytes = 0 ∷ 2 ∷ 8 ∷ 9 ∷ [] }

abbrev leftovers : DgmPipe Carrier
leftovers = record fresh { rx = some first_in }

-- The buffer begins with no size.
abbrev garbage : IoBuffer
garbage = record { capacity = 4; head = 0; size = 4; bytes = 128 ∷ 128 ∷ 128 ∷ 128 ∷ [] }

first_frame : contents first_in ≡ frame (8 ∷ 9 ∷ []) ++ []
unfolding contents size_code groups
first_frame = refl

dgm_pipe_recv_law_example :
    Returns
      (λ (q : DgmPipe Carrier × Option Bytes).
        Through carrier_contract 2 (carrier_contract.sent on_the_way) q.0
        × Delivered carrier_contract two q.0 q.1)
      (dgm_pipe_recv carrier fresh 2)
dgm_pipe_recv_law_example =
    dgm_pipe_recv_law carrier_contract fresh 2 two fresh-IsValid refl (omega arith) (omega arith)
      (unfold kept size_code groups in refl)

dgm_pipe_recv-IsValid_example :
    Returns
      (λ (q : DgmPipe Carrier × Option Bytes).
        IsValid carrier_contract q.0
        × (carrier_contract.sent (q.0).io ≡ carrier_contract.sent on_the_way)
        × Accounts carrier_contract 2 (unread carrier_contract fresh) q.0 q.1
        × WithinBuffer carrier_contract 9 q.1)
      (dgm_pipe_recv carrier fresh 9)
dgm_pipe_recv-IsValid_example =
    dgm_pipe_recv-IsValid carrier_contract fresh 9 fresh-IsValid (omega arith) (omega arith)

dgm_pipe_send_law_example :
    Returns
      (SentWhole carrier_contract (atx_pipe-IsAtomic over) fresh (4 ∷ 5 ∷ 6 ∷ []))
      (dgm_pipe_send carrier fresh (4 ∷ 5 ∷ 6 ∷ []))
dgm_pipe_send_law_example =
    dgm_pipe_send_law carrier_contract (atx_pipe-IsAtomic over) fresh (4 ∷ 5 ∷ 6 ∷ [])
      fresh-IsValid.carrier refl (omega arith)

dgm_pipe_recv-whole_example :
    Returns
      (λ (q : DgmPipe Carrier × Option Bytes). q.1 ≡ some (8 ∷ 9 ∷ []))
      (dgm_pipe_recv carrier leftovers 1)
dgm_pipe_recv-whole_example =
    dgm_pipe_recv-whole carrier leftovers 1 first_in refl refl (8 ∷ 9 ∷ []) []
      (record { within = omega arith; backed = refl }) first_frame (omega arith)

dgm_pipe_recv-unbroken_example :
    Returns
      (λ (q : DgmPipe Carrier × Option Bytes).
        (q.1 ≡ none)
        × ((q.0).base.broken ≡ true)
        × ((dgm_pipe_on_activity carrier no_events q.0).0.base.broken ≡ on_the_way.base.broken))
      (dgm_pipe_recv carrier (record fresh { rx = some garbage }) 2)
dgm_pipe_recv-unbroken_example =
    dgm_pipe_recv-unbroken carrier (record fresh { rx = some garbage }) 2 garbage refl refl
      no_events
      (unfold contents in (io_parse_size-four 128 128 128 128 0 (omega arith) (omega arith)).0)
