-- ===== src/Request/Line.antt =====
-- ParsedRequest_create, _requestLineLen, _printRequestLine, _unparse and _totalLen, and
-- checkHTTPversion.
use multi_threaded_proxy_ser.Base.{
  ℕ, ◌+◌, ◌-◌, Bool, true, ◌||◌, Option, none, some, [], ◌∷◌, ◌++◌, Bytes, bytes, same, ltb,
  if◌then◌else◌, length, take,
}
use multi_threaded_proxy_ser.Headers.Text.{colon, space, crlf}
use multi_threaded_proxy_ser.Headers.Store.{Headers, create, headers_len, print_headers}

-- The fields that ParsedRequest_parse sets when it succeeds.
pub record RequestLine : Type 0 where
  pub method : Bytes
  pub protocol : Bytes
  pub host : Bytes
  pub port : Option Bytes
  pub path : Bytes
  pub version : Bytes

-- Without a line `buf` is NULL.
pub record ParsedRequest : Type 0 where
  pub line : Option RequestLine
  pub headers : Headers

unfoldable pub create_request : ParsedRequest
create_request = record { line = none; headers = create }

-- `strlen(pr->port)+1`, or nothing.
abbrev pub port_len : Option Bytes → ℕ
port_len none = 0
port_len (some p) = length p + 1

unfoldable pub request_line_len : RequestLine → ℕ
request_line_len l =
    let len =
      length l.method + 1 + length l.protocol + 3 + length l.host + 1 + length l.version + 2 in
    len + port_len l.port + length l.path

unfoldable pub total_len : ParsedRequest → ℕ
unfolding request_line_len
total_len pr = elim pr.line [ none ↦ 0 | some l ↦ request_line_len l + headers_len true pr.headers ]

abbrev pub scheme_end : Bytes
scheme_end = colon ∷ 47 ∷ 47 ∷ []

abbrev pub print_port : Option Bytes → Bytes
print_port none = []
print_port (some p) = colon ∷ p

abbrev pub line_text : RequestLine → Bytes
line_text l =
    let version = l.version ++ crlf in
    let path = l.path ++ space ∷ version in
    let host = l.host ++ (print_port l.port ++ path) in
    l.method ++ space ∷ (l.protocol ++ (scheme_end ++ host))

-- What is written into `buflen` bytes, or `none` for -1. `*tmp` is its length.
unfoldable pub print_request_line : RequestLine → ℕ → Option Bytes
unfolding request_line_len
print_request_line l buflen = if ltb buflen (request_line_len l) then none else some (line_text l)

abbrev pub append_to : Bytes → Option Bytes → Option Bytes
append_to s none = none
append_to s (some t) = some (s ++ t)

-- The headers are printed behind the line, into what is left of the buffer.
unfoldable pub unparse : ParsedRequest → ℕ → Option Bytes
unfolding print_request_line
unparse pr buflen = elim pr.line [
  | none ↦ none
  | some l ↦ elim (print_request_line l buflen) [
    | none ↦ none
    | some s ↦ append_to s (print_headers true pr.headers (buflen - length s))
  ]
]

-- The result is true for 1 and false for -1.
unfoldable pub check_http_version : Bytes → Bool
check_http_version msg =
    same (take 8 msg) (bytes "HTTP/1.1") || same (take 8 msg) (bytes "HTTP/1.0")
