-- ===== src/Utils/Endpoint.antt =====
-- `getBoundPort` of include/zerolancom/utils/zmq_utils.hpp, on the text that the socket gives for
-- `last_endpoint`; and the URLs that the other components build from an ip and a port.
use zero_lan_com.Base.{
  ℕ, ◌<◌, ◌^◌, [], ◌∷◌, ◌++◌, Option, none, some, ◌==◌, if◌then◌else◌, All, ◌≡◌, refl, arith,
}
use zero_lan_com.Base.Text.{Str, bytes}
use zero_lan_com.Base.Int.{ℤ, pos}
use zero_lan_com.Base.Decimal.{to_string_u, stoi, IsDigit, to_string_u-IsDigit, stoi-to_string_u}
use zero_lan_com.Base.Result.{Result, ok, err, runtime_error}

-- What stands behind the last colon; `none` is `npos`.
after_colon : Str → Option Str
after_colon [] = none
after_colon (c ∷ s) = elim (after_colon s) [
  | some rest ↦ some rest
  | none ↦ if c == b':' then some s else none
]

unfoldable pub get_bound_port : Str → Result ℤ
unfolding after_colon
get_bound_port endpoint = elim (after_colon endpoint) [
  | none ↦ err runtime_error
  | some text ↦ stoi text
]

-- "tcp://" + ip + ":" + std::to_string(port), and fmt::format("tcp://{}:{}", ip, port).
unfoldable pub tcp_url : Str → Str → Str
tcp_url ip port = bytes "tcp://" ++ (ip ++ (bytes ":" ++ port))

after_colon-digits : (s : Str) → All IsDigit s → after_colon s ≡ none
unfolding after_colon
after_colon-digits [] d = refl
after_colon-digits (c ∷ s) d = ground (arith, after_colon-digits s d.1)

after_colon-append :
    (front text : Str) → after_colon text ≡ none → after_colon (front ++ (b':' ∷ text)) ≡ some text
unfolding after_colon
after_colon-append [] text h = rw (h, after_colon)
after_colon-append (c ∷ front) text h = rw (after_colon-append front text h)

after_colon-url :
    (ip : Str) (p : ℕ) → after_colon (tcp_url ip (to_string_u p)) ≡ some (to_string_u p)
unfolding tcp_url
after_colon-url ip p =
    after_colon-append (bytes "tcp://" ++ ip) (to_string_u p)
      (after_colon-digits (to_string_u p) (to_string_u-IsDigit p))

-- The port of an endpoint is read back from the text that shows it.
pub get_bound_port-tcp_url :
    (ip : Str) (p : ℕ) → p < 2 ^ 31 → get_bound_port (tcp_url ip (to_string_u p)) ≡ ok (pos p)
unfolding get_bound_port
get_bound_port-tcp_url ip p h = rw (after_colon-url ip p, get_bound_port) (stoi-to_string_u p h)
