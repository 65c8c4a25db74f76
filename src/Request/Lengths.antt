-- ===== src/Request/Lengths.antt =====
-- What the printed request needs is what is asked for.
use multi_threaded_proxy_ser.Base.{
  ℕ, ◌-◌, ◌≤◌, ◌≡◌, refl, true, Option, none, some, ◌∷◌, ◌++◌, Bytes, length, length-append, arith,
  Option-cases, inl, inr,
}
use multi_threaded_proxy_ser.Headers.Text.{space, crlf}
use multi_threaded_proxy_ser.Headers.Store.{Headers, print_lines, print_headers}
use multi_threaded_proxy_ser.Headers.RoundTrip.{length-print_headers}
use multi_threaded_proxy_ser.Request.Line.{
  RequestLine, ParsedRequest, port_len, request_line_len, total_len, scheme_end, print_port,
  line_text, print_request_line, unparse,
}

length-print_port : (p : Option Bytes) → length (print_port p) ≡ port_len p
length-print_port none = refl
length-print_port (some p) = omega arith

length-line_text : (l : RequestLine) → length (line_text l) ≡ request_line_len l
unfolding request_line_len
length-line_text l =
    let version = l.version ++ crlf in
    let path = l.path ++ space ∷ version in
    let port = print_port l.port ++ path in
    let host = l.host ++ port in
    let protocol = l.protocol ++ (scheme_end ++ host) in
    omega (
      arith,
      length-append l.method (space ∷ protocol),
      length-append l.protocol (scheme_end ++ host),
      length-append l.host port,
      length-append (print_port l.port) path,
      length-append l.path (space ∷ version),
      length-append l.version crlf,
      length-print_port l.port,
    )

-- ParsedRequest_printRequestLine writes as many bytes as ParsedRequest_requestLineLen says, and no
-- more than the buffer has room for.
pub length-print_request_line :
    (l : RequestLine) (buflen : ℕ) (text : Bytes)
    → print_request_line l buflen ≡ some text
    → (length text ≡ request_line_len l) × (length text ≤ buflen)
unfolding print_request_line request_line_len
length-print_request_line l buflen text e =
    (ground (arith, e, length-line_text l), ground (arith, e, length-line_text l))

-- ParsedRequest_unparse writes as many bytes as ParsedRequest_totalLen says, and no more than the
-- buffer has room for.
pub length-unparse :
    (pr : ParsedRequest) (buflen : ℕ) (text : Bytes)
    → unparse pr buflen ≡ some text
    → (length text ≡ total_len pr) × (length text ≤ buflen)
unfolding unparse total_len
length-unparse pr buflen text e = elim (Option-cases pr.line) [
  | inl n ↦ ground (arith, e, n)
  | inr (l, f) ↦ elim (Option-cases (print_request_line l buflen)) [
    | inl n ↦ ground (arith, e, f, n)
    | inr (s, g) ↦ elim (Option-cases (print_headers true pr.headers (buflen - length s))) [
      | inl n ↦ ground (arith, e, f, g, n)
      | inr (t, k) ↦
          let line = length-print_request_line l buflen s g in
          let rest = length-print_headers pr.headers (buflen - length s) t k in
          let both = length-append s t in
          (
            ground (arith, e, f, g, k, line, rest, both),
            ground (arith, e, f, g, k, line, rest, both),
          )
    ]
  ]
]

-- ParsedRequest_unparse of a parsed request succeeds when the buffer has the room that
-- ParsedRequest_totalLen says.
pub unparse-succeeds :
    (l : RequestLine) (h : Headers) (buflen : ℕ)
    → total_len (record { line = some l; headers = h }) ≤ buflen
    → (text : Bytes) × (unparse (record { line = some l; headers = h }) buflen ≡ some text)
unfolding unparse total_len print_headers print_request_line
unparse-succeeds l h buflen room =
    let len = length-line_text l in
    (line_text l ++ (print_lines h.slots ++ crlf), ground (arith, room, len))
