-- ===== src/Socket/Sample.antt =====
-- A world of one socket that keeps what the system calls are documented to do.
use tcp_striper.Base.{
  ℕ, zero, suc, ◌<◌, ◌≡◌, refl, sym, ◌++◌, true, Option, none, some, [], ◌∷◌, length, take, drop,
  arith, length-take, take-append-drop,
}
use tcp_striper.Serialize.{Bytes}
use tcp_striper.Socket.{
  eintr, SkEvents, Received, got, recv_failed, Sent, took, send_failed, System,
}
use tcp_striper.Socket.Laws.{View, Lawful, RecvLaw, SendLaw}

-- `room` is how much a call takes at most.
pub record World : Type 0 where
  pub out : Bytes
  pub inbound : Bytes
  pub watched : Option SkEvents
  pub signals : ℕ
  pub room : ℕ

abbrev pub no_signal : World → World
no_signal w = record w { signals = 0 }

-- recvfrom() with that many signals to come.
abbrev pub read : ℕ → ℕ → World → World × Received
read (suc n) len w = (record w { signals = n }, recv_failed eintr)
read zero len w = (record (no_signal w) { inbound = drop len w.inbound }, got (take len w.inbound))

abbrev pub write : ℕ → Bytes → World → World × Sent
write (suc n) buf w = (record w { signals = n }, send_failed eintr)
write zero buf w = (
  record (no_signal w) { out = w.out ++ take (length (take w.room buf)) buf },
  took (length (take w.room buf)),
)

abbrev pub sample : System World
sample = record {
  recvfrom = λ sk len w. read w.signals len w;
  sendto = λ sk buf w. write w.signals buf w;
  shutdown = λ sk w. (w, true);
  so_error = λ sk w. (w, none);
  close = λ sk w. w;
  signals = λ w. w.signals;
  add_socket = λ sk events w. record w { watched = some events };
  mod_socket = λ sk events w. record w { watched = some events };
  del_socket = λ sk w. record w { watched = none };
}

abbrev pub sample_view : View World
sample_view = record {
  wire = λ w sk. w.out;
  coming = λ w sk. w.inbound;
  monitored = λ w sk. w.watched;
}

pub read_law :
    (n len sk : ℕ) (coming : Bytes) (w : World)
    → 0 < len
    → w.signals ≡ n
    → w.inbound ≡ coming
    → RecvLaw sample sample_view sk len w (read n len w).0 (read n len w).1
read_law (suc n) len sk coming w h e f = (refl, refl, refl, λ x. omega arith)
read_law zero zero sk coming w h e f = absurd (omega arith)
read_law zero (suc len) sk [] w h e f = rw f (refl, refl, refl, refl)
read_law zero (suc len) sk (b ∷ bs) w h e f =
    rw f (omega (arith, length-take len bs), sym (take-append-drop (suc len) (b ∷ bs)), refl, refl)

pub write_law :
    (n sk : ℕ) (buf : Bytes) (w : World)
    → w.signals ≡ n
    → SendLaw sample sample_view sk buf w (write n buf w).0 (write n buf w).1
write_law (suc n) sk buf w e = (refl, refl, refl, λ x. omega arith)
write_law zero sk buf w e = (omega (arith, length-take w.room buf), refl, refl, refl)

abbrev pub sample_law : Lawful sample
sample_law = record {
  view = sample_view;
  recv_law = λ sk len w h. read_law w.signals len sk w.inbound w h refl refl;
  send_law = λ sk buf w. write_law w.signals sk buf w refl;
  shutdown_law = λ sk w. ((refl, refl), refl);
  error_law = λ sk w. ((refl, refl), refl);
  add_law = λ sk events w. ((refl, refl), refl);
  mod_law = λ sk events w. ((refl, refl), refl);
}
