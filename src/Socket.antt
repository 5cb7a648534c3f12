-- ===== src/Socket.antt =====
-- src/sys/inc.linux/libp/socket.h: the calls on a socket, over the system's own. The system and the
-- event loop are parameters: a type of states of the world, and what the calls do to it.
pub mod Laws
pub mod Sample
use tcp_striper.Base.{
  ℕ, zero, suc, ◌+◌, ◌≤◌, ◌<◌, ◌≡◌, ◌++◌, Bool, true, false, Option, none, some, List, [], length,
  take,
}
use tcp_striper.Serialize.{Bytes}

-- The values of `errno` that the code tells apart.
pub data Errno : Type 0 where
  eintr eagain enomem ewouldblock einprogress : Errno
  other : ℕ → Errno

-- A mask of `enum socket_event`.
pub record SkEvents : Type 0 where
  pub readable : Bool
  pub writable : Bool
  pub error : Bool

-- recvfrom() and sendto(): what came, or how many bytes went, or -1 with an `errno`.
pub data Received : Type 0 where
  got : Bytes → Received
  recv_failed : Errno → Received

pub data Sent : Type 0 where
  took : ℕ → Sent
  send_failed : Errno → Sent

-- The system calls on a descriptor, and the event loop's three calls. `signals` is the number of
-- signals that will interrupt calls before one gets through.
pub record System (W : Type 0) : Type 0 where
  pub recvfrom : ℕ → ℕ → W → W × Received
  pub sendto : ℕ → Bytes → W → W × Sent
  pub shutdown : ℕ → W → W × Bool
  pub so_error : ℕ → W → W × Option Errno
  pub close : ℕ → W → W
  pub signals : W → ℕ
  pub add_socket : ℕ → SkEvents → W → W
  pub mod_socket : ℕ → SkEvents → W → W
  pub del_socket : ℕ → W → W

unfoldable pub sk_conn_fatal : Errno → Bool
sk_conn_fatal eintr = false
sk_conn_fatal einprogress = false
sk_conn_fatal _ = true

unfoldable pub sk_recv_fatal : Errno → Bool
sk_recv_fatal eintr = false
sk_recv_fatal eagain = false
sk_recv_fatal enomem = false
sk_recv_fatal ewouldblock = false
sk_recv_fatal _ = true

unfoldable pub sk_send_fatal : Errno → Bool
sk_send_fatal eintr = false
sk_send_fatal eagain = false
sk_send_fatal enomem = false
sk_send_fatal ewouldblock = false
sk_send_fatal _ = true

-- `while (r < 0 && errno == EINTR)`: the call again, or its result.
unfoldable pub again_recv : {W : Type 0} → (W → W × Received) → W × Received → W × Received
again_recv again (w, got bs) = (w, got bs)
again_recv again (w, recv_failed eintr) = again w
again_recv again (w, recv_failed e) = (w, recv_failed e)

unfoldable pub again_send : {W : Type 0} → (W → W × Sent) → W × Sent → W × Sent
again_send again (w, took n) = (w, took n)
again_send again (w, send_failed eintr) = again w
again_send again (w, send_failed e) = (w, send_failed e)

module _ {W : Type 0} (sys : System W) where
  -- `do { r = recvfrom(...) } while (...)` on fuel.
  unfoldable pub sk_recvfrom : ℕ → ℕ → ℕ → W → W × Received
  sk_recvfrom zero sk len w = sys.recvfrom sk len w
  sk_recvfrom (suc fuel) sk len w =
      again_recv (λ w'. sk_recvfrom fuel sk len w') (sys.recvfrom sk len w)

  unfoldable pub sk_sendto : ℕ → ℕ → Bytes → W → W × Sent
  sk_sendto zero sk buf w = sys.sendto sk buf w
  sk_sendto (suc fuel) sk buf w = again_send (λ w'. sk_sendto fuel sk buf w') (sys.sendto sk buf w)

  -- A round for each signal that may come, and one that gets through.
  pub sk_recv : ℕ → ℕ → W → W × Received
  sk_recv sk len w = sk_recvfrom (sys.signals w) sk len w

  pub sk_send : ℕ → Bytes → W → W × Sent
  sk_send sk buf w = sk_sendto (sys.signals w) sk buf w

  unfoldable pub sk_shutdown : ℕ → W → W × Bool
  sk_shutdown sk w = sys.shutdown sk w

  -- `none` is 0, no error.
  unfoldable pub sk_error : ℕ → W → W × Option Errno
  sk_error sk w = sys.so_error sk w
