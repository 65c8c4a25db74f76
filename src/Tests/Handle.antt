-- ===== src/Tests/Handle.antt =====
-- Runs of handle_request: a request that is passed on, and one whose server cannot be reached.
use multi_threaded_proxy_ser.Base.{
  false, ◌≡◌, refl, ◌+◌, true, none, some, [], ◌∷◌, ◌++◌, Bytes, bytes, arith,
}
unfoldable use multi_threaded_proxy_ser.Base.{same}
use multi_threaded_proxy_ser.Headers.Store.{
  Headers, create, set, print_lines, unparse_headers, print_headers,
}
use multi_threaded_proxy_ser.Headers.Laws.{create-IsHeaders}
use multi_threaded_proxy_ser.Request.Token.{Result, ok, c_str}
use multi_threaded_proxy_ser.Request.Line.{RequestLine}
use multi_threaded_proxy_ser.Cache.Refine.{evict}
use multi_threaded_proxy_ser.Cache.History.{cleared, cleared-IsCache}
use multi_threaded_proxy_ser.Pool.Store.{Probe, Peek, Got, initial_pools, get_from_pool}
use multi_threaded_proxy_ser.Pool.Bounds.{init-IsPools}
use multi_threaded_proxy_ser.Pool.Connect.{opened}
use multi_threaded_proxy_ser.Relay.Answer.{answer}
use multi_threaded_proxy_ser.Relay.Sending.{Sends}
use multi_threaded_proxy_ser.Earlier.Handle as Earlier
use multi_threaded_proxy_ser.Earlier.Leak.{LeavesOpen, handle_request-LeavesOpen}
use multi_threaded_proxy_ser.Handle.Run.{Calls, World, handle_request, server_port}
use multi_threaded_proxy_ser.Handle.Sockets.{IsHeld, held, handle_request-IsHeld}
use multi_threaded_proxy_ser.Handle.Finishes.{IsFinished, handle_request-IsFinished}
use multi_threaded_proxy_ser.Pool.Reuse.{count_fd}
use multi_threaded_proxy_ser.Handle.Upstream.{
  first_line, with_headers, request_buffer, upstream_memory, upstream_text,
}
use multi_threaded_proxy_ser.Handle.Sent.{IsPrepared, request_text, upstream_text-old}

abbrev page : RequestLine
page = record {
  method = bytes "GET";
  protocol = bytes "http";
  host = bytes "a.org";
  port = none;
  path = bytes "/x";
  version = bytes "HTTP/1.1";
}

abbrev or_create : Result Headers → Headers
or_create (ok h) = h
or_create _ = create

abbrev prepared : Headers
prepared = or_create (with_headers true (bytes "keep-alive") (bytes "a.org") create)

prepared-is : with_headers true (bytes "keep-alive") (bytes "a.org") create ≡ ok prepared
unfolding with_headers set create same
prepared-is = refl

abbrev printed : Bytes
printed = bytes "GET /x HTTP/1.1\r\n" ++ bytes "Connection: keep-alive\r\nHost: a.org\r\n\r\n"

printed-is : request_text (first_line page) prepared ≡ printed
unfolding with_headers set create same print_lines
printed-is = refl

-- The memory that `malloc` gives still has a text of before.
abbrev raw : Bytes
raw = printed ++ bytes "secret" ++ 0 ∷ []

upstream_text-old_example :
    (upstream_text true raw page create
      ≡ ok (request_text (first_line page) prepared ++ bytes "secret"))
    × IsPrepared (bytes "keep-alive") (bytes "a.org") create prepared
unfolding with_headers set create same print_lines
upstream_text-old_example =
    upstream_text-old raw page create prepared (bytes "secret") [] create-IsHeaders prepared-is
      (ground arith) (omega arith) (ground arith) refl

-- The headers are printed over what the memory held there.
written : upstream_memory true raw page create ≡ ok raw
unfolding upstream_memory with_headers set create same request_buffer unparse_headers print_headers
written = refl

ended : c_str raw ≡ ok (printed ++ bytes "secret")
unfolding c_str
ended = refl

abbrev live : Probe
live = record { retval = 0; error = 0; res = Peek.ready }

-- Every call succeeds; the answer comes in two parts.
abbrev calls : Calls
calls = record {
  buf = some raw;
  headers_given = true;
  probe = λ fd. live;
  net = record { socket = some 7; resolved = true; connected = true };
  request_sent = some 58;
  temp_given = true;
  answers = bytes "HTTP/1.1 200 OK\r\n" ∷ bytes "\r\nhello" ∷ [];
  send = λ t n. some n;
  realloc = λ n. true;
  copy = record {
    element = 5;
    raw = record { content = []; len = 0; url = []; lru_prev = 0; lru_next = 0; hash_next = 0 };
    data_given = true;
    url_given = true;
  };
  entry_given = true;
  now = 100;
  probe_back = live;
}

abbrev world : World
world = record { pools = initial_pools; store = cleared (λ p. none); shut = [] }

send-Sends : Sends calls.send
send-Sends t n k e = (ground (arith, e), ground (arith, e))

handle_request-IsHeld_example :
    (pooled : Got) × (get_from_pool 60 calls.probe page.host
        (server_port (λ s. 80) page.port)
        world.pools
      ≡ some pooled)
    × IsHeld 7 page.host
        (held 7 page.host world + count_fd 7 (opened calls.net pooled.fd))
        (handle_request 60 (λ s. 80) calls page create (bytes "/x") world)
unfolding initial_pools
handle_request-IsHeld_example =
    handle_request-IsHeld 7 60 (λ s. 80) calls page create (bytes "/x") world raw raw init-IsPools
      (omega arith) refl written

handle_request-IsFinished_example :
    IsFinished
      (answer calls.answers)
      (handle_request 60 (λ s. 80) calls page create (bytes "/x") world)
unfolding initial_pools evict
handle_request-IsFinished_example =
    handle_request-IsFinished 59 (λ s. 80) calls page create (bytes "/x") world raw raw
      (printed ++ bytes "secret") [] send-Sends (omega arith) (omega arith) (λ need. refl)
      (cleared-IsCache (λ p. none)) init-IsPools (omega arith) refl written ended

-- In the earlier server the name of the host is not found.
abbrev unresolved : Earlier.Calls
unresolved = record {
  headers_given = true;
  socket = some 9;
  resolved = false;
  connected = true;
  temp_given = true;
  answers = [];
  send = λ t n. some n;
  realloc = λ n. true;
}

handle_request-LeavesOpen_example :
    LeavesOpen (9 ∷ []) (Earlier.handle_request unresolved page create)
handle_request-LeavesOpen_example = handle_request-LeavesOpen unresolved page create
