-- ===== src/Proxy.antt =====
-- src/tcp-proxy.c and src/tcp-relay.c: the arguments. An argument is the list of its characters.
pub mod Setup
pub mod Args
mod Tests
use tcp_striper.Base.{
  ℕ, zero, suc, ◌+◌, ◌-◌, ◌*◌, ◌%◌, ◌^◌, Bool, true, false, ◌&&◌, ◌||◌, Option, none, some, List,
  [], ◌∷◌, ◌==◌, leb, if◌then◌else◌,
}
use tcp_striper.Serialize.{Bytes}

-- `strcmp(a, b) == 0`
unfoldable pub same_text : Bytes → Bytes → Bool
same_text [] [] = true
same_text [] (b ∷ bs) = false
same_text (a ∷ as') [] = false
same_text (a ∷ as') (b ∷ bs) = a == b && same_text as' bs

abbrev pub is_digit : ℕ → Bool
is_digit c = leb b'0' c && leb c b'9'

abbrev pub is_space : ℕ → Bool
is_space c = c == b' ' || leb 9 c && leb c 13

-- The number that the digits at the front stand for, behind those that came to `n`.
unfoldable pub digits : ℕ → Bytes → ℕ
digits n [] = n
digits n (c ∷ cs) = elim (is_digit c) [ true ↦ digits (n * 10 + (c - b'0')) cs | false ↦ n ]

-- `(uint16_t)atoi(s)`, behind the spaces. What atoi() returns for a number that is no int is not
-- defined; here the conversion goes on.
unfoldable pub signed_port : Bytes → ℕ
unfolding digits
signed_port [] = 0
signed_port (c ∷ cs) =
    if c == b'-'
    then (2 ^ 16 - digits 0 cs % 2 ^ 16) % 2 ^ 16
    else (if c == b'+' then digits 0 cs % 2 ^ 16 else digits 0 (c ∷ cs) % 2 ^ 16)

unfoldable pub to_port : Bytes → ℕ
unfolding signed_port
to_port [] = 0
to_port (c ∷ cs) = elim (is_space c) [ true ↦ to_port cs | false ↦ signed_port (c ∷ cs) ]

pub record Config : Type 0 where
  pub client : Bool
  pub pxy_port : ℕ
  pub srv_addr : Bytes
  pub srv_port : ℕ

-- "127.0.0.1"
abbrev pub local_host : Bytes
local_host = b'1' ∷ b'2' ∷ b'7' ∷ b'.' ∷ b'0' ∷ b'.' ∷ b'0' ∷ b'.' ∷ b'1' ∷ []

abbrev pub dash_c : Bytes
dash_c = b'-' ∷ b'c' ∷ []

abbrev pub dash_s : Bytes
dash_s = b'-' ∷ b's' ∷ []

abbrev pub defaults : Config
defaults = record { client = true; pxy_port = 55555; srv_addr = local_host; srv_port = 22 }

-- What a pair of arguments sets.
unfoldable pub option : Config → Bytes → Bytes → Config
unfolding same_text to_port
option config arg value =
    if same_text arg dash_c
    then record config { client = true; pxy_port = to_port value }
    else (if same_text arg dash_s
        then record config { client = false; pxy_port = to_port value }
        else record config { srv_addr = arg; srv_port = to_port value })

-- The loop over argv[1], argv[2] and so on; `none` is `goto syntax`, with the exit code 1.
unfoldable pub parse_args : Config → List Bytes → Option Config
unfolding option
parse_args config [] = some config
parse_args config (arg ∷ []) = none
parse_args config (arg ∷ value ∷ rest) = parse_args (option config arg value) rest

-- tcp-relay.c: the address and the port of the server.
unfoldable pub relay_server : List Bytes → Bytes × ℕ
unfolding to_port
relay_server [] = (local_host, 22)
relay_server (addr ∷ []) = (addr, 22)
relay_server (addr ∷ port ∷ rest) = (addr, to_port port)
