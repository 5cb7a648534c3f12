-- ===== src/Proxy/Setup.antt =====
-- src/tcp-proxy.c and src/tcp-relay.c: the sockets and the stack of pipes. The calls of the system
-- are parameters.
use tcp_striper.Base.{ℕ, ◌+◌, ◌*◌, Bool, true, false, Option, none, some, List, if◌then◌else◌}
use tcp_striper.Serialize.{Bytes}
use tcp_striper.Socket.{Errno, sk_conn_fatal}
use tcp_striper.Tcp.{TcpPipe, new_tcp_pipe}
use tcp_striper.Atx.{AtxPipe}
use tcp_striper.Dgm.{DgmPipe, new_dgm_pipe}
use tcp_striper.Bridge.{BrBridge, new_io_bridge}
use tcp_striper.Proxy.{parse_args, defaults, relay_server}

-- What the programs call; `none` and `false` are failures, but connect() returns the error.
pub record Calls (W : Type 0) : Type 0 where
  pub create : W → W × Option ℕ
  pub reuse_addr : ℕ → W → W × Bool
  pub bind : ℕ → ℕ → W → W × Bool
  pub listen : ℕ → ℕ → W → W × Bool
  pub accept : ℕ → W → W × Option ℕ
  pub unblock : ℕ → W → W × Bool
  pub connect : ℕ → Bytes → ℕ → W → W × Option Errno

-- main() returns, or goes on.
pub data Step (A : Type 0) : Type 0 where
  exit : ℕ → Step A
  go_on : A → Step A

module _ {W : Type 0} where
  abbrev pub and_then : {A B : Type 0} → W × Step A → (A → W → W × Step B) → W × Step B
  and_then (w, exit code) f = (w, exit code)
  and_then (w, go_on a) f = f a w

  infixl 5 ◌>>=◌
  abbrev pub ◌>>=◌ : {A B : Type 0} → (W → W × Step A) → (A → W → W × Step B) → W → W × Step B
  m >>= f = λ w. and_then (m w) f

  -- `if (call < 0) return code;`
  abbrev pub or_exit : {A : Type 0} → ℕ → (W → W × Option A) → W → W × Step A
  or_exit code call w = let r = call w in (r.0, elim r.1 [ none ↦ exit code | some a ↦ go_on a ])

  abbrev pub must : ℕ → (W → W × Bool) → W → W × Step (Unit {0})
  must code call w = let r = call w in (r.0, elim r.1 [ false ↦ exit code | true ↦ go_on tt ])

  abbrev pub ignore : (W → W × Bool) → W → W × Step (Unit {0})
  ignore call w = ((call w).0, go_on tt)

  -- A connection that is under way is no failure.
  abbrev pub unless_fatal : ℕ → (W → W × Option Errno) → W → W × Step (Unit {0})
  unless_fatal code call w =
      let r = call w in
      (r.0, elim r.1 [ none ↦ go_on tt | some e ↦ if sk_conn_fatal e then exit code else go_on tt ])

  abbrev pub done : {A : Type 0} → A → W → W × Step A
  done a w = (w, go_on a)

module _ {W : Type 0} (calls : Calls W) where
  -- The accepted and the connected socket. The exit codes go up from `code`.
  unfoldable pub set_up : ℕ → ℕ → Bytes → ℕ → W → W × Step (ℕ × ℕ)
  set_up code pxy_port srv_addr srv_port = do
    sk ← or_exit code calls.create
    reused ← must (code + 1) (calls.reuse_addr sk)
    bound ← must (code + 1) (calls.bind sk pxy_port)
    listening ← must (code + 1) (calls.listen sk 8)
    c2p ← or_exit (code + 2) (calls.accept sk)
    unblocked ← ignore (calls.unblock c2p)
    p2s ← or_exit (code + 3) calls.create
    unblocked' ← must (code + 4) (calls.unblock p2s)
    connected ← unless_fatal (code + 5) (calls.connect p2s srv_addr srv_port)
    done (c2p, p2s)

abbrev pub Datagrams : Type 0 → Type 0
Datagrams W = DgmPipe (AtxPipe (TcpPipe W))

-- The bridge of tcp-proxy.c: the datagrams are on the side of the other proxy.
pub data Proxy (W : Type 0) : Type 0 where
  client_side : BrBridge (TcpPipe W) (Datagrams W) → Proxy W
  server_side : BrBridge (Datagrams W) (TcpPipe W) → Proxy W

abbrev pub max_dgm : ℕ
max_dgm = 512 * 1024

abbrev pub sized : {S T : Type 0} → BrBridge S T → BrBridge S T
sized br = record br {
  l = record (br.l) { recv_size = max_dgm };
  r = record (br.r) { recv_size = max_dgm };
}

abbrev pub stack : {W : Type 0} → Bool → ℕ → ℕ → W → Proxy W
stack true c2p p2s w =
    client_side
      (sized (new_io_bridge (new_tcp_pipe c2p w) (new_dgm_pipe (new_tcp_pipe p2s w) max_dgm)))
stack false c2p p2s w =
    server_side
      (sized (new_io_bridge (new_dgm_pipe (new_tcp_pipe c2p w) max_dgm) (new_tcp_pipe p2s w)))

module _ {W : Type 0} (calls : Calls W) where
  -- main() of tcp-proxy.c up to the loop; of the error of the syntax the exit code is 1 too.
  unfoldable pub proxy_main : List Bytes → W → W × Step (Proxy W)
  unfolding parse_args set_up
  proxy_main args w = elim (parse_args defaults args) [
    | none ↦ (w, exit 1)
    | some config ↦
        let (w', sockets) = set_up calls 1 config.pxy_port config.srv_addr config.srv_port w in
        (
          w',
          elim sockets [
            | exit code ↦ exit code
            | go_on (c2p, p2s) ↦ go_on (stack config.client c2p p2s w')
          ],
        )
  ]

  -- main() of tcp-relay.c up to the loop. On Linux sk_init() does not fail.
  unfoldable pub relay_main : List Bytes → W → W × Step (BrBridge (TcpPipe W) (TcpPipe W))
  unfolding relay_server set_up
  relay_main args w =
      let (addr, port) = relay_server args in
      let (w', sockets) = set_up calls 2 55555 addr port w in
      (
        w',
        elim sockets [
          | exit code ↦ exit code
          | go_on (c2p, p2s) ↦ go_on (new_io_bridge (new_tcp_pipe c2p w') (new_tcp_pipe p2s w'))
        ],
      )
