-- ===== src/Tests/Relay.antt =====
-- An answer in two parts that is passed on, and a request that is printed.
use multi_threaded_proxy_ser.Base.{
  ℕ, zero, suc, ◌≤◌, ◌≡◌, ◌≢◌, refl, true, Option, none, some, List, [], ◌∷◌, Bytes, bytes, arith,
  ltb, if◌then◌else◌,
}
use multi_threaded_proxy_ser.Headers.Store.{create, headers_len, print_headers}
use multi_threaded_proxy_ser.Relay.Loop.{Relay, relay, relay_start, cleanup}
use multi_threaded_proxy_ser.Relay.Sending.{Sends}
use multi_threaded_proxy_ser.Relay.Answer.{answer, IsRelayed, relay-IsRelayed}
use multi_threaded_proxy_ser.Request.Line.{
  RequestLine, ParsedRequest, request_line_len, total_len, print_request_line, unparse,
}

abbrev parts : List Bytes
parts = bytes "HTTP/1.1 200 OK" ∷ bytes "hi" ∷ []

-- Everything is sent at once.
abbrev send_at_once : ℕ → ℕ → Option ℕ
send_at_once t n = some n

at_once-Sends : Sends send_at_once
at_once-Sends t n k e = (ground (arith, e), ground (arith, e))

at_once-sends : (i n : ℕ) → send_at_once i n ≢ none
at_once-sends i n e = cc

-- One byte a call, until the 17th call fails.
abbrev send_slowly : ℕ → ℕ → Option ℕ
send_slowly t zero = some 0
send_slowly t (suc n) = if ltb t 16 then some 1 else none

slowly-Sends : Sends send_slowly
slowly-Sends t n k e = (ground (arith, e), ground (arith, e))

relay-IsRelayed_example :
    (r : Relay) × (relay 100 send_slowly (λ n. true) parts relay_start ≡ cleanup r)
    × IsRelayed send_slowly (λ n. true) (answer parts) r
relay-IsRelayed_example =
    relay-IsRelayed 100 send_slowly (λ n. true) parts slowly-Sends (omega arith) (omega arith)

abbrev line : RequestLine
line = record {
  method = bytes "GET";
  protocol = bytes "http";
  host = bytes "a.org";
  port = some (bytes "81");
  path = bytes "/x";
  version = bytes "HTTP/1.0";
}

abbrev request : ParsedRequest
request = record { line = some line; headers = create }

abbrev or_empty : Option Bytes → Bytes
or_empty none = []
or_empty (some s) = s

abbrev line_printed : Bytes
line_printed = or_empty (print_request_line line 100)

line_prints : print_request_line line 100 ≡ some line_printed
unfolding print_request_line request_line_len
line_prints = refl

line_is : line_printed ≡ bytes "GET http://a.org:81/x HTTP/1.0\r\n"
unfolding print_request_line request_line_len
line_is = refl

abbrev printed_request : Bytes
printed_request = or_empty (unparse request 100)

request_prints : unparse request 100 ≡ some printed_request
unfolding unparse create print_headers
request_prints = refl

request_fits : total_len request ≤ 100
unfolding total_len create headers_len
request_fits = omega arith
