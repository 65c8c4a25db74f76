-- ===== src/Handle/Upstream.antt =====
-- The request that handle_request writes for the server, in both servers. What the calls of
-- `malloc` and `realloc` answer is an argument.
use multi_threaded_proxy_ser.Base.{
  ℕ, ◌-◌, Bool, true, Option, none, some, [], ◌∷◌, ◌++◌, Bytes, bytes, if◌then◌else◌, ltb, length,
}
use multi_threaded_proxy_ser.Headers.Text.{space, crlf}
use multi_threaded_proxy_ser.Headers.Store.{Headers, get, set, unparse_headers}
use multi_threaded_proxy_ser.Request.Token.{Result, ok, fault, ◌>>=◌, c_str}
use multi_threaded_proxy_ser.Request.Line.{RequestLine}
use multi_threaded_proxy_ser.Worker.Receive.{max_bytes, zeros, write_at}

-- "GET ", the path, " ", the version and CRLF.
abbrev pub first_line : RequestLine → Bytes
first_line l = bytes "GET " ++ (l.path ++ space ∷ (l.version ++ crlf))

-- Without memory the array of headers is lost: the search for "Host" then reads through NULL.
abbrev pub or_lost : Option Headers → Result Headers
or_lost none = fault
or_lost (some h) = ok h

-- The header "Host" is set where there is none. If that call has no memory, the printing of the
-- headers reads through NULL.
unfoldable pub with_host : Bool → Bytes → Headers → Result Headers
unfolding get set
with_host alloc host h = elim (get h (bytes "Host")) [
  | some _ ↦ ok h
  | none ↦ or_lost (set alloc h (bytes "Host") host)
]

-- The headers that are sent; `connection` is the value of "Connection".
unfoldable pub with_headers : Bool → Bytes → Bytes → Headers → Result Headers
unfolding with_host set
with_headers alloc connection host h =
    or_lost (set alloc h (bytes "Connection") connection) >>= with_host alloc host

-- The headers behind the line, without an end of the text, or nothing where they do not fit.
abbrev pub append_headers : Bytes → ℕ → Option Bytes → Bytes
append_headers memory len none = memory
append_headers memory len (some t) = write_at memory len t

-- The memory at `buf` once the line and the headers are written over what it held, `raw`.
unfoldable pub request_buffer : Bytes → Bytes → Headers → Result Bytes
unfolding unparse_headers
request_buffer raw line h =
    let memory = write_at raw 0 (line ++ 0 ∷ []) in
    if ltb (length line) max_bytes
    then ok (append_headers memory (length line) (unparse_headers true h (max_bytes - length line)))
    else fault

-- The memory at `buf` in proxy_server_with_cache.c when the server is connected to. `raw` is what
-- `malloc(MAX_BYTES)` finds.
unfoldable pub upstream_memory : Bool → Bytes → RequestLine → Headers → Result Bytes
unfolding with_headers request_buffer
upstream_memory alloc raw l h = do
  h' ← with_headers alloc (bytes "keep-alive") l.host h
  request_buffer raw (first_line l) h'

-- What is sent of it.
abbrev pub upstream_text : Bool → Bytes → RequestLine → Headers → Result Bytes
upstream_text alloc raw l h = upstream_memory alloc raw l h >>= c_str

-- The same memory in proxy_server_without_cache.c: `buf` is the buffer of thread_fn, which it has
-- cleared.
unfoldable pub earlier_memory : Bool → RequestLine → Headers → Result Bytes
unfolding with_headers request_buffer
earlier_memory alloc l h = do
  h' ← with_headers alloc (bytes "close") l.host h
  request_buffer (zeros max_bytes) (first_line l) h'

abbrev pub earlier_text : Bool → RequestLine → Headers → Result Bytes
earlier_text alloc l h = earlier_memory alloc l h >>= c_str
