-- ===== src/Proxy/Tests.antt =====
-- Runs of src/tcp-proxy.c and src/tcp-relay.c.
use tcp_striper.Base.{ℕ, ◌+◌, ◌≡◌, refl, true, false, none, some, [], ◌∷◌, arith}
use tcp_striper.Serialize.{Bytes}
use tcp_striper.Socket.{einprogress, eagain, sk_conn_fatal}
use tcp_striper.Proxy.{Config, defaults, local_host, dash_s, same_text, to_port, parse_args}
use tcp_striper.Proxy.Args.{Parses, config_args, parse_args_law, parse_args-config_args}
use tcp_striper.Proxy.Setup.{Calls, exit, go_on, set_up}

abbrev port_80 : Bytes
port_80 = b'8' ∷ b'0' ∷ []

-- As a server on port 80, to another machine.
abbrev asked_for : Config
asked_for = record { client = false; pxy_port = 80; srv_addr = b'h' ∷ []; srv_port = 4022 }

-- An address with no port is refused.
address_alone : parse_args defaults (local_host ∷ []) ≡ none
unfolding parse_args
address_alone = refl

minus_one : to_port (b'-' ∷ b'1' ∷ []) ≡ 65535
unfolding to_port
minus_one = refl

parse_args_law_example : Parses true (parse_args defaults (dash_s ∷ port_80 ∷ []))
parse_args_law_example = parse_args_law (dash_s ∷ port_80 ∷ []) defaults (omega arith)

parse_args-config_args_example : parse_args defaults (config_args asked_for) ≡ some asked_for
parse_args-config_args_example =
    parse_args-config_args asked_for defaults (omega arith) (unfold same_text in refl)
      (unfold same_text in refl)

-- The world counts sockets, and the connection takes its time.
abbrev slow : Calls ℕ
slow = record {
  create = λ w. (w + 1, some w);
  reuse_addr = λ sk w. (w, true);
  bind = λ sk port w. (w, true);
  listen = λ sk n w. (w, true);
  accept = λ sk w. (w + 1, some w);
  unblock = λ sk w. (w, true);
  connect = λ sk addr port w. (w, some einprogress);
}

starts : set_up slow 1 55555 local_host 22 3 ≡ (6, go_on (4, 5))
unfolding set_up sk_conn_fatal
starts = refl

not_accepted :
    set_up (record slow { accept = λ sk w. (w, none) }) 2 55555 local_host 22 3 ≡ (4, exit 4)
unfolding set_up sk_conn_fatal
not_accepted = refl

refused :
    set_up (record slow { connect = λ sk addr port w. (w, some eagain) }) 1 55555 local_host 22 3
    ≡ (6, exit 6)
unfolding set_up sk_conn_fatal
refused = refl
