-- ===== src/Tests/EarlierThread.antt =====
-- Runs of a thread of the earlier server.
use multi_threaded_proxy_ser.Base.{
  ◌≡◌, refl, ℕ, zero, suc, Bool, true, Option, none, some, [], ◌∷◌, ◌++◌, Bytes, bytes, length,
  arith,
}
unfoldable use multi_threaded_proxy_ser.Base.{same}
use multi_threaded_proxy_ser.Headers.Store.{Headers, create, set, print_lines}
use multi_threaded_proxy_ser.Request.Token.{
  Result, ok, c_str, strspn, strcspn, byte_at, end_at, text_at, starts_with, token_from, strtok_r,
}
use multi_threaded_proxy_ser.Request.Line.{RequestLine, create_request}
use multi_threaded_proxy_ser.Request.Parse.{
  success, parse_request, has_blank_line, parse_line, until_nul, split_line, split_addr, read_path,
  read_host,
}
use multi_threaded_proxy_ser.Headers.Text.{find_crlf, split_at}
use multi_threaded_proxy_ser.Headers.Parse.{parse_lines, parse, next_line}
use multi_threaded_proxy_ser.Worker.Receive.{Received, some_bytes, in_buffer}
use multi_threaded_proxy_ser.Handle.Upstream.{earlier_memory}
use multi_threaded_proxy_ser.Earlier.Cache.{empty_cache}
use multi_threaded_proxy_ser.Earlier.History
use multi_threaded_proxy_ser.Earlier.Relay.{relay, copy_loop}
use multi_threaded_proxy_ser.Earlier.Handle.{Calls, finished, handle_request, connect_remote_server}
use multi_threaded_proxy_ser.Earlier.Thread.{Answers, key_of, thread_fn}
use multi_threaded_proxy_ser.Earlier.Ends.{IsOver, thread_fn-IsOver}
use multi_threaded_proxy_ser.Earlier.Key.{key_of-append}
use multi_threaded_proxy_ser.Earlier.Sent.{start}

-- Only the empty port is bad.
abbrev bad_port : Bytes → Bool
bad_port s = same s []

abbrev calls : Calls
calls = record {
  headers_given = true;
  socket = some 7;
  resolved = true;
  connected = true;
  temp_given = true;
  answers = bytes "HTTP/1.1 200 OK\r\n\r\n" ∷ [];
  send = λ t n. some n;
  realloc = λ n. true;
}

-- The memory of the key held the letters of an older one.
abbrev old_memory : ℕ → Bytes
old_memory zero = []
old_memory (suc zero) = 0 ∷ []
old_memory (suc (suc n)) = 97 ∷ old_memory (suc n)

abbrev answers : Answers
answers = record {
  buffer_given = true;
  received =
      some (bytes "GET http://a.org/x HTTP/1.1\r\n") ∷ some (bytes "Host: a.org\r\n\r\n") ∷ [];
  key_memory = λ n. some (old_memory n);
  now = 7;
  data_memory = λ e. e.content;
  calls = calls;
  date = bytes "Thu, 01 Jan 1970 00:00:00 GMT";
  alloc = λ n. true;
  bad_port = bad_port;
}

thread_fn-IsOver_example : IsOver (thread_fn answers empty_cache)
thread_fn-IsOver_example =
    thread_fn-IsOver answers empty_cache (History.Reach-IsUnlocked History.start)

key_of-append_example :
    key_of empty_cache (bytes "GET /") (some (old_memory 15))
    ≡ Result.ok (bytes "GET /" ++ bytes "aaaaaaaaa")
unfolding c_str
key_of-append_example =
    key_of-append empty_cache (bytes "GET /") (old_memory 15) (bytes "aaaaaaaaa") (ground arith)
      refl

abbrev text : Bytes
text = bytes "GET http://a.org/x HTTP/1.1\r\nHost: a.org\r\n\r\n"

abbrev page : RequestLine
page = record {
  method = bytes "GET";
  protocol = bytes "http";
  host = bytes "a.org";
  port = none;
  path = bytes "/x";
  version = bytes "HTTP/1.1";
}

abbrev or_create : Option Headers → Headers
or_create none = create
or_create (some h) = h

abbrev one_header : Headers
one_header = or_create (set true create (bytes "Host") (bytes "a.org"))

delivers :
    handle_request calls page one_header ≡ finished true (7 ∷ []) (bytes "HTTP/1.1 200 OK\r\n\r\n")
unfolding handle_request earlier_memory connect_remote_server relay copy_loop c_str set create same
    print_lines
delivers = refl

abbrev received : Received
received = in_buffer (text, some_bytes)

parses :
    parse_request (λ n. true) bad_port (suc (length text)) create_request text
    ≡ success (record { line = some page; headers = one_header })
unfolding parse_request parse_line create_request split_line split_addr read_path read_host
    until_nul has_blank_line find_crlf split_at parse_lines parse next_line set create same strspn
    strcspn byte_at end_at c_str text_at starts_with token_from strtok_r
parses = refl

-- Blanks in front of the method are not part of it.
skips_blanks : parse_line bad_port (bytes "  GET http://a.org/x HTTP/1.1") ≡ ok page
unfolding parse_line split_line split_addr read_path read_host same strspn strcspn byte_at end_at
    c_str text_at starts_with token_from strtok_r
skips_blanks = refl
