-- ===== src/Pipe/Sample.antt =====
-- A pipe in memory that keeps the contract, for examples.
use tcp_striper.Base.{
  ℕ, suc, zero, ◌-◌, ◌<◌, ◌≡◌, refl, sym, ◌++◌, Bool, true, false, Option, none, some, [], ◌∷◌,
  length, take, drop, arith, length-take, take-append-drop, ◌==◌,
}
use tcp_striper.Serialize.{Bytes}
use tcp_striper.Run.{ok}
use tcp_striper.Pipe.{Flags, IoPipe}
use tcp_striper.Pipe.Contract
use tcp_striper.Pipe.Contract.{Contract, FinLaw, RecvKeepsShut}

-- `room` is how much send() may still take; the peer has closed once `inbound` is empty.
pub record Queue : Type 0 where
  pub flags : Flags
  pub out : Bytes
  pub inbound : Bytes
  pub room : ℕ

abbrev pub queue_recv : Queue → ℕ → Bytes → Queue × Option Bytes
queue_recv q len [] =
    (record q { flags = record (q.flags) { readable = false; fin_rcvd = true } }, some [])
queue_recv q len (b ∷ bs) = (
  record q { inbound = drop len (b ∷ bs); flags = record (q.flags) { readable = true } },
  some (take len (b ∷ bs)),
)

abbrev pub queue_send : Queue → Bytes → Bool → Queue × Option ℕ
queue_send q bs true =
    let n = length (take q.room bs) in
    (
      record q {
        out = q.out ++ take n bs;
        room = q.room - n;
        flags = record (q.flags) { writable = n == length bs };
      },
      some n,
    )
queue_send q bs false = (record q { flags = record (q.flags) { writable = false } }, none)

abbrev pub queue_pipe : IoPipe Queue
queue_pipe = record {
  flags = λ q. q.flags;
  init = λ q. ok q;
  recv = λ q len. ok (queue_recv q len q.inbound);
  send = λ q bs. ok (queue_send q bs q.flags.writable);
  send_fin =
      λ q. ok (record q { flags = record (q.flags) { writable = false; fin_sent = true } }, true);
}

abbrev pub IsOpen : Queue → Type 0
IsOpen q = q.flags.writable ≡ true → q.flags.fin_sent ≡ false

pub queue_recv_law :
    (q : Queue) (len : ℕ) (coming : Bytes)
    → IsOpen q
    → 0 < len
    → q.inbound ≡ coming
    → IsOpen (queue_recv q len coming).0
      × ((queue_recv q len coming).0.out ≡ q.out)
      × Contract.Received q.inbound
          (queue_recv q len coming).0.inbound
          (queue_recv q len coming).0.flags
          len
          (queue_recv q len coming).1
queue_recv_law q len [] h pos e = (h, refl, (e, e, refl, refl))
queue_recv_law q zero (b ∷ bs) h pos e = absurd (omega arith)
queue_recv_law q (suc len) (b ∷ bs) h pos e =
    rw e (
      h,
      refl,
      (omega (arith, length-take len bs), sym (take-append-drop (suc len) (b ∷ bs)), refl),
    )

pub queue_send_law :
    (q : Queue) (bs : Bytes) (writable : Bool)
    → IsOpen q
    → q.flags.writable ≡ writable
    → IsOpen (queue_send q bs writable).0
      × ((queue_send q bs writable).0.inbound ≡ q.inbound)
      × Contract.Sent q.out
          (queue_send q bs writable).0.out
          (queue_send q bs writable).0.flags
          bs
          (queue_send q bs writable).1
queue_send_law q bs true h e =
    (λ w. h e, refl, (omega (arith, length-take q.room bs), refl, λ less. ground arith))
queue_send_law q bs false h e = (λ w. cc, refl, (refl, refl))

abbrev pub queue_contract : Contract queue_pipe
queue_contract = record {
  Inv = IsOpen;
  sent = λ q. q.out;
  arriving = λ q. q.inbound;
  send_law = λ q bs h fit. queue_send_law q bs q.flags.writable h refl;
  recv_law = λ q len h pos. queue_recv_law q len q.inbound h pos refl;
}

pub queue-FinLaw : FinLaw queue_pipe queue_contract
queue-FinLaw q h unsent = (λ w. cc, refl, refl, λ e. (refl, refl))

pub queue-RecvKeepsShut : RecvKeepsShut queue_pipe queue_contract
queue-RecvKeepsShut q len h pos = by_inbound q.inbound
  where
    by_inbound :
        (coming : Bytes)
        → (queue_recv q len coming).0.flags.writable ≡ true
        → q.flags.writable ≡ true
    by_inbound [] w = w
    by_inbound (b ∷ bs) w = w
