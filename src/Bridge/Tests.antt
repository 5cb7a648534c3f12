-- ===== src/Bridge/Tests.antt =====
-- Runs of a bridge between two pipes in memory.
use tcp_striper.Base.{◌≡◌, ◌≢◌, refl, Bool, true, false, Option, none, some, [], ◌∷◌, arith}
use tcp_striper.Run.{Returns}
use tcp_striper.Buffer.{IoBuffer}
use tcp_striper.Pipe.{no_flags, no_events, IoEvents}
use tcp_striper.Pipe.Sample.{Queue, queue_pipe, queue_contract, queue-FinLaw, queue-RecvKeepsShut}
use tcp_striper.Bridge.{
  BrStream, br_setup_stream, may_relay, br_bridge_relay, br_stream_flush, br_stream_on_activity,
}
use tcp_striper.Bridge.Sending.{IsValid, passed}
use tcp_striper.Bridge.Round.{Beside, IsCalm, through}
use tcp_striper.Bridge.Relay.{br_bridge_relay_law}
use tcp_striper.Bridge.Flush.{Flushed, br_stream_flush_law}
use tcp_striper.Bridge.Activity.{Relayable, Between, br_stream_on_activity_law}

-- Five bytes have come in on the left, and the right takes two of them at a time.
abbrev left_pipe : Queue
left_pipe = record {
  flags = record no_flags { ready = true; readable = true; writable = true };
  out = [];
  inbound = 1 ∷ 2 ∷ 3 ∷ 4 ∷ 5 ∷ [];
  room = 9;
}

abbrev right_pipe : Queue
right_pipe = record {
  flags = record no_flags { ready = true; writable = true };
  out = 0 ∷ [];
  inbound = [];
  room = 2;
}

abbrev left : BrStream Queue
left = record (br_setup_stream left_pipe) { recv_size = 3 }

abbrev right : BrStream Queue
right = record (br_setup_stream right_pipe) { recv_size = 3 }

abbrev held : IoBuffer
held = record { capacity = 3; head = 1; size = 2; bytes = 7 ∷ 8 ∷ 9 ∷ [] }

abbrev clogged : BrStream Queue
clogged = record right { pending = some held }

abbrev queue_relayable : Relayable queue_contract
queue_relayable = record {
  fin = queue-FinLaw;
  keeps = queue-RecvKeepsShut;
  open_end = λ t inv w. inv w;
}

abbrev left-IsValid : IsValid queue_contract left
left-IsValid = record { carrier = λ w. refl; holds = tt }

abbrev right-IsValid : IsValid queue_contract right
right-IsValid = record { carrier = λ w. refl; holds = tt }

br_bridge_relay_law_example :
    Returns
      (λ (q : BrStream Queue × BrStream Queue × Bool).
        Beside queue_contract queue_contract left right q.0 q.1
        × (q.2 ≡ true
            → through queue_contract queue_contract q.0 q.1
              ≡ through queue_contract queue_contract left right)
        × (q.2 ≡ true → may_relay queue_pipe queue_pipe q.0 q.1 ≡ false)
        × (q.2 ≡ true → IsCalm queue_contract queue_contract q.1))
      (br_bridge_relay queue_pipe queue_pipe 6 left right)
br_bridge_relay_law_example =
    br_bridge_relay_law queue_contract queue_contract left right 6 queue-FinLaw queue-RecvKeepsShut
      (λ t inv w. inv w) (λ w. refl) right-IsValid (omega arith) refl (omega arith)

br_stream_flush_law_example :
    Returns
      (λ (q : BrStream Queue × Bool). Flushed queue_contract (passed queue_contract clogged) [] 3 q)
      (br_stream_flush queue_pipe clogged)
br_stream_flush_law_example =
    br_stream_flush_law queue_contract clogged held
      (record {
        carrier = λ w. refl;
        holds = (record { within = omega arith; backed = refl }, omega arith);
      })
      refl refl

-- The left pipe has become readable.
abbrev readable_event : IoEvents
readable_event = record no_events { readable = true }

br_stream_on_activity_law_example :
    Returns
      (λ (q : BrStream Queue × BrStream Queue × Bool × Option Bool).
        IsValid queue_contract q.0
        × IsValid queue_contract q.1
        × (q.3 ≢ some false
            → Between queue_contract queue_contract queue_relayable queue_relayable 6
                (through queue_contract queue_contract left right)
                (through queue_contract queue_contract right left)
                q.0
                q.1
              × ((q.0).pipe.flags.writable ≡ true → (q.0).pending ≡ none)))
      (br_stream_on_activity queue_pipe queue_pipe 6 readable_event false left right)
br_stream_on_activity_law_example =
    br_stream_on_activity_law queue_contract queue_contract queue_relayable queue_relayable 6
      readable_event left right
      (record {
        l = left-IsValid;
        r = right-IsValid;
        forth_in_order = refl;
        back_in_order = refl;
        sizes = (omega arith, omega arith);
        calm = λ w. refl;
      })
      (λ e. cc) (λ e w. refl) (omega arith) (omega arith)
