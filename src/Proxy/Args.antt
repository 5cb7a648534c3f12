-- ===== src/Proxy/Args.antt =====
-- The arguments of src/tcp-proxy.c, printed and parsed.
use tcp_striper.Base.{
  ℕ, zero, suc, ◌+◌, ◌-◌, ◌*◌, ◌/◌, ◌%◌, ◌^◌, ◌<◌, ◌≡◌, refl, ap, ◌∙◌, Bool, true, false, Option,
  none, some, List, [], ◌∷◌, ◌++◌, All, length, ◌==◌, ltb, if◌then◌else◌, arith,
}
use tcp_striper.Serialize.{Bytes}
use tcp_striper.Proxy.{
  same_text, is_digit, is_space, digits, signed_port, to_port, Config, dash_c, dash_s, option,
  parse_args,
}

-- A port number in decimal digits, of which there are five at most.
abbrev decimal_digits : ℕ → ℕ → Bytes
decimal_digits zero n = []
decimal_digits (suc fuel) n = elim (ltb n 10) [
  | true ↦ (b'0' + n) ∷ []
  | false ↦ decimal_digits fuel (n / 10) ++ ((b'0' + n % 10) ∷ [])
]

unfoldable pub decimal : ℕ → Bytes
decimal n = decimal_digits 5 n

abbrev IsDigit : ℕ → Type 0
IsDigit c = is_digit c ≡ true

abbrev pow10 : ℕ → ℕ
pow10 zero = 1
pow10 (suc k) = 10 * pow10 k

All-digits : (xs : Bytes) (c : ℕ) → All IsDigit xs → IsDigit c → All IsDigit (xs ++ (c ∷ []))
All-digits [] c h d = (d, tt)
All-digits (x ∷ xs) c h d = (h.0, All-digits xs c h.1 d)

decimal_digits-IsDigit : (fuel n : ℕ) → All IsDigit (decimal_digits fuel n)
decimal_digits-IsDigit zero n = tt
decimal_digits-IsDigit (suc fuel) n = by_size (ltb n 10) refl (decimal_digits-IsDigit fuel (n / 10))
  where
    by_size :
        (b : Bool)
        → ltb n 10 ≡ b
        → All IsDigit (decimal_digits fuel (n / 10))
        → All IsDigit (elim b [
          | true ↦ (b'0' + n) ∷ []
          | false ↦ decimal_digits fuel (n / 10) ++ ((b'0' + n % 10) ∷ [])
        ])
    by_size true e rest = (ground (arith, e), tt)
    by_size false e rest =
        All-digits (decimal_digits fuel (n / 10)) (b'0' + n % 10) rest
          (let small : n % 10 < 10 = omega arith in ground (arith, small))

digits-append :
    (n : ℕ) (xs : Bytes) (c : ℕ)
    → All IsDigit xs
    → IsDigit c
    → digits n (xs ++ (c ∷ [])) ≡ digits n xs * 10 + (c - b'0')
unfolding digits
digits-append n [] c h d = rw (digits, d) refl
digits-append n (x ∷ xs) c h d = rw (digits, h.0) (digits-append (n * 10 + (x - b'0')) xs c h.1 d)

digits-decimal_digits : (fuel n : ℕ) → n < pow10 fuel → digits 0 (decimal_digits fuel n) ≡ n
unfolding digits
digits-decimal_digits zero n h = omega arith
digits-decimal_digits (suc fuel) n h =
    by_size (ltb n 10) refl (digits-decimal_digits fuel (n / 10) (omega arith))
  where
    by_size :
        (b : Bool)
        → ltb n 10 ≡ b
        → digits 0 (decimal_digits fuel (n / 10)) ≡ n / 10
        → digits 0 (elim b [
          | true ↦ (b'0' + n) ∷ []
          | false ↦ decimal_digits fuel (n / 10) ++ ((b'0' + n % 10) ∷ [])
        ])
          ≡ n
    by_size true e rest =
        let digit : IsDigit (b'0' + n) = ground (arith, e) in rw (digits, digit) (omega arith)
    by_size false e rest =
        digits-append 0 (decimal_digits fuel (n / 10)) (b'0' + n % 10)
          (decimal_digits-IsDigit fuel (n / 10))
          (let small : n % 10 < 10 = omega arith in ground (arith, small))
        ∙ (omega (arith, rest))

digit_first :
    (c : ℕ) → IsDigit c → (is_space c ≡ false) × ((c == b'-') ≡ false) × ((c == b'+') ≡ false)
digit_first c d = (ground (arith, d), ground (arith, d), ground (arith, d))

to_port-digits : (s : Bytes) → All IsDigit s → to_port s ≡ digits 0 s % 2 ^ 16
unfolding to_port signed_port digits
to_port-digits [] h = refl
to_port-digits (c ∷ cs) h =
    let (space, minus, plus) = digit_first c h.0 in rw (to_port, space, minus, plus) refl

signed_port-bound : (s : Bytes) → signed_port s < 2 ^ 16
unfolding signed_port
signed_port-bound [] = omega arith
signed_port-bound (c ∷ cs) = ground arith

to_port-bound : (s : Bytes) → to_port s < 2 ^ 16
unfolding to_port
to_port-bound [] = omega arith
to_port-bound (c ∷ cs) = by_space (is_space c) (to_port-bound cs)
  where
    by_space :
        (b : Bool)
        → to_port cs < 2 ^ 16
        → elim b [ true ↦ to_port cs | false ↦ signed_port (c ∷ cs) ] < 2 ^ 16
    by_space true h = h
    by_space false h = signed_port-bound (c ∷ cs)

-- The ports are 16 bits wide.
abbrev pub HasPorts : Config → Type 0
HasPorts config = (config.pxy_port < 2 ^ 16) × (config.srv_port < 2 ^ 16)

option-HasPorts :
    (config : Config) (arg value : Bytes) → HasPorts config → HasPorts (option config arg value)
unfolding option
option-HasPorts config arg value h = ground (arith, to_port-bound value)

-- Arguments in pairs are accepted, others are not.
abbrev pub Parses : Bool → Option Config → Type 0
Parses true none = ⊥
Parses true (some config) = HasPorts config
Parses false r = r ≡ none

-- From a configuration with ports of 16 bits, the loop over the arguments of tcp-proxy accepts
-- them exactly when their number is even, whatever they are, and then gives a configuration
-- with ports of 16 bits; otherwise it goes to the syntax message.
pub parse_args_law :
    (args : List Bytes) (config : Config)
    → HasPorts config
    → Parses (length args % 2 == 0) (parse_args config args)
unfolding parse_args
parse_args_law [] config h = h
parse_args_law (arg ∷ []) config h = refl
parse_args_law (arg ∷ value ∷ rest) config h =
    let pairs : suc (suc (length rest)) % 2 ≡ length rest % 2 = omega arith in
    rw pairs (parse_args_law rest (option config arg value) (option-HasPorts config arg value h))

-- The arguments that ask for a configuration.
abbrev pub config_args : Config → List Bytes
config_args config =
    (if config.client then dash_c else dash_s)
    ∷ decimal config.pxy_port
    ∷ config.srv_addr
    ∷ decimal config.srv_port
    ∷ []

to_port-decimal : (n : ℕ) → n < 2 ^ 16 → to_port (decimal n) ≡ n
unfolding decimal
to_port-decimal n h =
    to_port-digits (decimal n) (decimal_digits-IsDigit 5 n)
    ∙ ap (λ x. x % 2 ^ 16) (digits-decimal_digits 5 n (omega arith))
    ∙ (omega arith)

options_set :
    (old : Config) (client : Bool) (pxy srv addr : Bytes) (pxy_port srv_port : ℕ)
    → to_port pxy ≡ pxy_port
    → to_port srv ≡ srv_port
    → same_text addr dash_c ≡ false
    → same_text addr dash_s ≡ false
    → option (option old (if client then dash_c else dash_s) pxy) addr srv
      ≡ record { client = client; pxy_port = pxy_port; srv_addr = addr; srv_port = srv_port }
unfolding option
options_set old true pxy srv addr pxy_port srv_port p s not_c not_s = rw (not_c, not_s, p, s) refl
options_set old false pxy srv addr pxy_port srv_port p s not_c not_s = rw (not_c, not_s, p, s) refl

-- The arguments that ask for a configuration with ports of 16 bits, with -c or -s by its side
-- and the ports in decimal, are read back as that configuration, whatever was set before,
-- unless the address reads -c or -s.
pub parse_args-config_args :
    (config old : Config)
    → HasPorts config
    → same_text config.srv_addr dash_c ≡ false
    → same_text config.srv_addr dash_s ≡ false
    → parse_args old (config_args config) ≡ some config
unfolding parse_args
parse_args-config_args config old ports not_c not_s = ap some (
    options_set old config.client (decimal config.pxy_port) (decimal config.srv_port)
      config.srv_addr config.pxy_port config.srv_port (to_port-decimal config.pxy_port ports.0)
      (to_port-decimal config.srv_port ports.1) not_c not_s)
