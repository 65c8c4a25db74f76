-- ===== src/Request/Parse.antt =====
-- ParsedRequest_parse. Its pointers into `parse->buf` are offsets until it is done.
use multi_threaded_proxy_ser.Base.{
  ℕ, ◌+◌, Bool, true, false, not, ◌&&◌, ◌||◌, Option, none, some, [], ◌∷◌, ◌++◌, Bytes, bytes, same,
  ◌==◌, if◌then◌else◌, ltb, length, drop,
}
use multi_threaded_proxy_ser.Headers.Text.{cr, lf, colon, space, find_crlf}
use multi_threaded_proxy_ser.Headers.Parse.{Parsed, parsed, no_colon, lost, parse_lines}
use multi_threaded_proxy_ser.Request.Token.{
  Result, ok, rejected, ◌>>=◌, ◌>>◌, require, present, text_at, starts_with, strtok_r,
}
use multi_threaded_proxy_ser.Request.Line.{RequestLine, ParsedRequest}

abbrev pub slash : ℕ
slash = 47

abbrev pub root_abs_path : Bytes
root_abs_path = slash ∷ []

abbrev pub min_req_len : ℕ
min_req_len = 4

abbrev pub max_req_len : ℕ
max_req_len = 65535

-- The delimiters "://" of the call that looks for the protocol.
abbrev pub scheme_delim : Bytes
scheme_delim = colon ∷ slash ∷ slash ∷ []

-- The text at a pointer that may be NULL.
abbrev pub text_of : Bytes → Option ℕ → Result (Option Bytes)
text_of buf none = ok none
text_of buf (some p) = do s ← text_at buf p; ok (some s)

-- `parse->path`: the token behind a slash. One that begins with a slash is refused.
abbrev pub path_from : Option Bytes → Result Bytes
path_from none = ok root_abs_path
path_from (some s) = do
  twice ← starts_with root_abs_path (s ++ 0 ∷ [])
  require (not twice)
  ok (root_abs_path ++ s)

abbrev pub port_fits : (Bytes → Bool) → Option Bytes → Bool
port_fits bad_port none = true
port_fits bad_port (some s) = not (bad_port s)

-- The method, the address and the version: the buffer after the two calls of strtok_r, and the
-- offsets of the method, the address and the version.
unfoldable pub split_line : Bytes → Result (Bytes × ℕ × ℕ × ℕ)
unfolding strtok_r text_at starts_with
split_line buf = do
  m ← strtok_r (space ∷ []) buf 0
  method ← present m.token
  name ← text_at m.buf method
  require (same name (bytes "GET"))
  a ← strtok_r (space ∷ []) m.buf m.saveptr
  full_addr ← present a.token
  addr ← text_at a.buf full_addr
  let version = full_addr + length addr + 1
  supported ← starts_with (bytes "HTTP/") (drop version a.buf)
  require supported
  ok (a.buf, method, full_addr, version)

-- The path behind the authority, and the buffer that is left.
unfoldable pub read_path : Bytes → ℕ → Result (Bytes × Bytes)
unfolding strtok_r text_at starts_with
read_path buf saveptr = do
  t ← strtok_r (space ∷ []) buf saveptr
  rest ← text_of t.buf t.token
  path ← path_from rest
  ok (t.buf, path)

-- The authority's host and port: the buffer that is left, the host's offset and the port.
-- `bad_port` is the test of what strtol makes of the port.
unfoldable pub read_host : (Bytes → Bool) → Bytes → ℕ → Result (Bytes × ℕ × Option Bytes)
unfolding strtok_r text_at
read_host bad_port buf host = do
  g ← strtok_r (colon ∷ []) buf host
  o ← strtok_r (slash ∷ []) g.buf g.saveptr
  host' ← present g.token
  port ← text_of o.buf o.token
  require (port_fits bad_port port)
  ok (o.buf, host', port)

-- The parts of the address at `full_addr`, and the line that the pointers make in the end.
unfoldable pub split_addr : (Bytes → Bool) → Bytes → ℕ → ℕ → ℕ → Result RequestLine
unfolding strtok_r text_at read_path read_host
split_addr bad_port buf method full_addr version = do
  p ← strtok_r scheme_delim buf full_addr
  protocol ← present p.token
  proto ← text_at p.buf protocol
  abs_uri ← text_at p.buf (full_addr + length proto + 3)
  h ← strtok_r (slash ∷ []) p.buf p.saveptr
  host ← present h.token
  authority ← text_at h.buf host
  require (not (length authority == length abs_uri))
  (buf', path) ← read_path h.buf h.saveptr
  (buf'', host', port) ← read_host bad_port buf' host
  method' ← text_at buf'' method
  protocol' ← text_at buf'' protocol
  name ← text_at buf'' host'
  version' ← text_at buf'' version
  ok (record {
    method = method';
    protocol = protocol';
    host = name;
    port = port;
    path = path;
    version = version';
  })

-- The request line, without its CRLF; `parse->buf` has one byte more, its end.
unfoldable pub parse_line : (Bytes → Bool) → Bytes → Result RequestLine
unfolding split_line split_addr
parse_line bad_port line = do
  (buf, method, full_addr, version) ← split_line (line ++ 0 ∷ [])
  split_addr bad_port buf method full_addr version

-- The text in `tmp_buf`: the bytes before the first NUL.
unfoldable pub until_nul : Bytes → Bytes
until_nul [] = []
until_nul (c ∷ s) = if c == 0 then [] else c ∷ until_nul s

-- `strstr(tmp_buf, "\r\n\r\n") != NULL`
abbrev pub starts_blank : Bytes → Bool
starts_blank (a ∷ b ∷ c ∷ d ∷ s) = a == cr && (b == lf && (c == cr && d == lf))
starts_blank _ = false

unfoldable pub has_blank_line : Bytes → Bool
has_blank_line [] = false
has_blank_line (c ∷ s) = starts_blank (c ∷ s) || has_blank_line s

-- `success` is the result 0 and `failure` the result -1, each with the object that is left. `wild`
-- is a read outside of a buffer, or what follows the loss of the headers to a failed `realloc`.
pub data Outcome : Type 0 where
  success : ParsedRequest → Outcome
  failure : ParsedRequest → Outcome
  wild : Outcome
  out_of_fuel : Outcome

abbrev pub with_headers : RequestLine → Option Parsed → Outcome
with_headers l none = out_of_fuel
with_headers l (some (parsed h)) = success (record { line = some l; headers = h })
with_headers l (some (no_colon h)) = failure (record { line = some l; headers = h })
with_headers l (some lost) = wild
with_headers l (some Parsed.fault) = wild

abbrev pub with_line : (ℕ → Bool) → ℕ → ParsedRequest → Bytes → Result RequestLine → Outcome
with_line alloc fuel pr rest (ok l) = with_headers l (parse_lines alloc fuel pr.headers rest)
with_line alloc fuel pr rest rejected = failure pr
with_line alloc fuel pr rest Result.fault = wild

unfoldable pub parse_request : (ℕ → Bool) → (Bytes → Bool) → ℕ → ParsedRequest → Bytes → Outcome
unfolding parse_line until_nul has_blank_line find_crlf parse_lines
parse_request alloc bad_port fuel pr buf = elim pr.line [
  | some _ ↦ failure pr
  | none ↦
      if ltb (length buf) min_req_len || ltb max_req_len (length buf)
      then failure pr
      else if has_blank_line (until_nul buf)
      then elim (find_crlf (until_nul buf)) [
        | none ↦ wild
        | some (line, rest) ↦ with_line alloc fuel pr (drop 2 rest) (parse_line bad_port line)
      ]
      else failure pr
]
