-- ===== src/Socket/Laws.antt =====
-- What the system calls behind src/sys/inc.linux/libp/socket.h are documented to do, and the loops
-- of sk_recv() and sk_send() against it.
use tcp_striper.Base.{
  ℕ, zero, suc, ◌≤◌, ◌<◌, ◌≡◌, refl, ◌≢◌, ◌++◌, Option, some, [], ◌∷◌, length, take, arith, ◌∙◌,
}
use tcp_striper.Serialize.{Bytes}
use tcp_striper.Socket.{
  eintr, SkEvents, Received, got, recv_failed, Sent, took, send_failed, System, again_recv,
  again_send, sk_recvfrom, sk_sendto, sk_recv, sk_send,
}

-- What the laws speak of: the bytes that have gone out on a socket, those that are still to come
-- in, and the events that the event loop watches for.
pub record View (W : Type 0) : Type 0 where
  pub wire : W → ℕ → Bytes
  pub coming : W → ℕ → Bytes
  pub monitored : W → ℕ → Option SkEvents

module _ {W : Type 0} (sys : System W) (view : View W) where
  open view use {wire, coming, monitored}

  -- recvfrom() of a positive length returns the next bytes that the peer has sent, and no bytes
  -- once the peer has closed and all is read. A failed call changes nothing; an interrupted one
  -- has used up a signal.
  abbrev pub RecvLaw : ℕ → ℕ → W → W → Received → Type 0
  RecvLaw sk len w w' (got []) =
      (coming w sk ≡ [])
      × (coming w' sk ≡ [])
      × (wire w' sk ≡ wire w sk)
      × (monitored w' sk ≡ monitored w sk)
  RecvLaw sk len w w' (got bs) =
      (length bs ≤ len)
      × (coming w sk ≡ bs ++ coming w' sk)
      × (wire w' sk ≡ wire w sk)
      × (monitored w' sk ≡ monitored w sk)
  RecvLaw sk len w w' (recv_failed e) =
      (coming w' sk ≡ coming w sk)
      × (wire w' sk ≡ wire w sk)
      × (monitored w' sk ≡ monitored w sk)
      × (e ≡ eintr → sys.signals w' < sys.signals w)

  -- sendto() takes a front part.
  abbrev pub SendLaw : ℕ → Bytes → W → W → Sent → Type 0
  SendLaw sk buf w w' (took n) =
      (n ≤ length buf)
      × (wire w' sk ≡ wire w sk ++ take n buf)
      × (coming w' sk ≡ coming w sk)
      × (monitored w' sk ≡ monitored w sk)
  SendLaw sk buf w w' (send_failed e) =
      (wire w' sk ≡ wire w sk)
      × (coming w' sk ≡ coming w sk)
      × (monitored w' sk ≡ monitored w sk)
      × (e ≡ eintr → sys.signals w' < sys.signals w)

  -- The calls that touch neither stream.
  abbrev pub Keeps : ℕ → W → W → Type 0
  Keeps sk w w' = (wire w' sk ≡ wire w sk) × (coming w' sk ≡ coming w sk)

pub record Lawful {W : Type 0} (sys : System W) : Type 0 where
  pub view : View W
  pub open view use *
  pub recv_law :
      (sk len : ℕ) (w : W)
      → 0 < len
      → RecvLaw sys view sk len w (sys.recvfrom sk len w).0 (sys.recvfrom sk len w).1
  pub send_law :
      (sk : ℕ) (buf : Bytes) (w : W)
      → SendLaw sys view sk buf w (sys.sendto sk buf w).0 (sys.sendto sk buf w).1
  pub shutdown_law :
      (sk : ℕ) (w : W)
      → Keeps sys view sk w (sys.shutdown sk w).0
        × (view.monitored (sys.shutdown sk w).0 sk ≡ view.monitored w sk)
  pub error_law :
      (sk : ℕ) (w : W)
      → Keeps sys view sk w (sys.so_error sk w).0
        × (view.monitored (sys.so_error sk w).0 sk ≡ view.monitored w sk)
  pub add_law :
      (sk : ℕ) (events : SkEvents) (w : W)
      → Keeps sys view sk w (sys.add_socket sk events w)
        × (view.monitored (sys.add_socket sk events w) sk ≡ some events)
  pub mod_law :
      (sk : ℕ) (events : SkEvents) (w : W)
      → Keeps sys view sk w (sys.mod_socket sk events w)
        × (view.monitored (sys.mod_socket sk events w) sk ≡ some events)

module _ {W : Type 0} {sys : System W} (law : Lawful sys) where
  abbrev pub GoodRecv : ℕ → ℕ → W → W × Received → Type 0
  GoodRecv sk len w p = RecvLaw sys law.view sk len w p.0 p.1 × (p.1 ≢ recv_failed eintr)

  abbrev pub GoodSend : ℕ → Bytes → W → W × Sent → Type 0
  GoodSend sk buf w p = SendLaw sys law.view sk buf w p.0 p.1 × (p.1 ≢ send_failed eintr)

  last_recv :
      (sk len : ℕ) (w w' : W) (r : Received)
      → RecvLaw sys law.view sk len w w' r
      → sys.signals w ≤ 0
      → r ≢ recv_failed eintr
  last_recv sk len w w' (got bs) l h = λ e. cc
  last_recv sk len w w' (recv_failed x) l h = λ e. ground arith

  after_interrupt :
      (sk len : ℕ) (w w' w'' : W) (r : Received)
      → RecvLaw sys law.view sk len w w' (recv_failed eintr)
      → RecvLaw sys law.view sk len w' w'' r
      → RecvLaw sys law.view sk len w w'' r
  after_interrupt sk len w w' w'' (got []) h k = ground arith
  after_interrupt sk len w w' w'' (got (b ∷ bs)) h k = ground arith
  after_interrupt sk len w w' w'' (recv_failed e) h k =
      (k.0 ∙ h.0, k.1 ∙ h.1, k.2 ∙ h.2, λ x. omega (arith, h.3 refl, k.3 x))

  again_recv_lem :
      (sk len : ℕ) (w : W) (again : W → W × Received) (p : W × Received)
      → RecvLaw sys law.view sk len w p.0 p.1
      → (sys.signals p.0 < sys.signals w → GoodRecv sk len p.0 (again p.0))
      → GoodRecv sk len w (again_recv again p)
  unfolding again_recv
  again_recv_lem sk len w again (w', got bs) l k = (l, λ e. cc)
  again_recv_lem sk len w again (w', recv_failed eintr) l k =
      let good = k (l.3 refl) in
      (after_interrupt sk len w w' (again w').0 (again w').1 l good.0, good.1)
  again_recv_lem sk len w again (w', recv_failed e) l k = (l, λ x. cc)

  recvfrom_law :
      (fuel sk len : ℕ) (w : W)
      → 0 < len
      → sys.signals w ≤ fuel
      → GoodRecv sk len w (sk_recvfrom sys fuel sk len w)
  unfolding sk_recvfrom
  recvfrom_law zero sk len w pos h =
      (law.recv_law sk len w pos, last_recv sk len w _ _ (law.recv_law sk len w pos) h)
  recvfrom_law (suc fuel) sk len w pos h =
      again_recv_lem sk len w _ (sys.recvfrom sk len w) (law.recv_law sk len w pos)
        (λ lt. recvfrom_law fuel sk len (sys.recvfrom sk len w).0 pos (omega arith))

  -- sk_recv() of a positive length comes to an end when an interrupted call uses up one of
  -- finitely many signals: it never returns with EINTR, and what it returns is what a single
  -- call that was not interrupted promises.
  pub sk_recv_law : (sk len : ℕ) (w : W) → 0 < len → GoodRecv sk len w (sk_recv sys sk len w)
  unfolding sk_recv
  sk_recv_law sk len w pos = recvfrom_law (sys.signals w) sk len w pos (omega arith)

  last_send :
      (sk : ℕ) (buf : Bytes) (w w' : W) (r : Sent)
      → SendLaw sys law.view sk buf w w' r
      → sys.signals w ≤ 0
      → r ≢ send_failed eintr
  last_send sk buf w w' (took n) l h = λ e. cc
  last_send sk buf w w' (send_failed x) l h = λ e. ground arith

  after_interrupted_send :
      (sk : ℕ) (buf : Bytes) (w w' w'' : W) (r : Sent)
      → SendLaw sys law.view sk buf w w' (send_failed eintr)
      → SendLaw sys law.view sk buf w' w'' r
      → SendLaw sys law.view sk buf w w'' r
  after_interrupted_send sk buf w w' w'' (took n) h k = ground arith
  after_interrupted_send sk buf w w' w'' (send_failed e) h k =
      (k.0 ∙ h.0, k.1 ∙ h.1, k.2 ∙ h.2, λ x. omega (arith, h.3 refl, k.3 x))

  again_send_lem :
      (sk : ℕ) (buf : Bytes) (w : W) (again : W → W × Sent) (p : W × Sent)
      → SendLaw sys law.view sk buf w p.0 p.1
      → (sys.signals p.0 < sys.signals w → GoodSend sk buf p.0 (again p.0))
      → GoodSend sk buf w (again_send again p)
  unfolding again_send
  again_send_lem sk buf w again (w', took n) l k = (l, λ e. cc)
  again_send_lem sk buf w again (w', send_failed eintr) l k =
      let good = k (l.3 refl) in
      (after_interrupted_send sk buf w w' (again w').0 (again w').1 l good.0, good.1)
  again_send_lem sk buf w again (w', send_failed e) l k = (l, λ x. cc)

  sendto_law :
      (fuel sk : ℕ) (buf : Bytes) (w : W)
      → sys.signals w ≤ fuel
      → GoodSend sk buf w (sk_sendto sys fuel sk buf w)
  unfolding sk_sendto
  sendto_law zero sk buf w h =
      (law.send_law sk buf w, last_send sk buf w _ _ (law.send_law sk buf w) h)
  sendto_law (suc fuel) sk buf w h =
      again_send_lem sk buf w _ (sys.sendto sk buf w) (law.send_law sk buf w)
        (λ lt. sendto_law fuel sk buf (sys.sendto sk buf w).0 (omega arith))

  -- sk_send() comes to an end when an interrupted call uses up one of finitely many signals:
  -- it never returns with EINTR, and what it returns is what a single call that was not
  -- interrupted promises.
  pub sk_send_law : (sk : ℕ) (buf : Bytes) (w : W) → GoodSend sk buf w (sk_send sys sk buf w)
  unfolding sk_send
  sk_send_law sk buf w = sendto_law (sys.signals w) sk buf w (omega arith)

module _ {W : Type 0} (sys : System W) (view : View W) (sk : ℕ) (w w' : W) where
  open view use {wire, coming, monitored}

  -- A read leaves the bytes that went out and the events that are watched for.
  pub RecvLaw-keeps :
      (len : ℕ) (r : Received)
      → RecvLaw sys view sk len w w' r
      → (wire w' sk ≡ wire w sk) × (monitored w' sk ≡ monitored w sk)
  RecvLaw-keeps len (got []) h = (h.2, h.3)
  RecvLaw-keeps len (got (b ∷ bs)) h = (h.2, h.3)
  RecvLaw-keeps len (recv_failed e) h = (h.1, h.2)

  -- A write leaves the bytes that come in and the events that are watched for.
  pub SendLaw-keeps :
      (buf : Bytes) (r : Sent)
      → SendLaw sys view sk buf w w' r
      → (coming w' sk ≡ coming w sk) × (monitored w' sk ≡ monitored w sk)
  SendLaw-keeps buf (took n) h = (h.2, h.3)
  SendLaw-keeps buf (send_failed e) h = (h.1, h.2)
