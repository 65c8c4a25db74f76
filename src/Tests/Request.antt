-- ===== src/Tests/Request.antt =====
-- Runs of the parser: a request is printed and read back, and one without a version is read.
use multi_threaded_proxy_ser.Base.{
  ◌≡◌, refl, Bool, true, Option, none, some, [], Bytes, bytes, same, arith,
}
use multi_threaded_proxy_ser.Headers.Store.{Headers, create, set, print_headers}
use multi_threaded_proxy_ser.Headers.Laws.{IsHeaders, create-IsHeaders}
use multi_threaded_proxy_ser.Headers.Setting.{set-IsHeaders}
use multi_threaded_proxy_ser.Headers.RoundTrip.{live}
use multi_threaded_proxy_ser.Request.Line.{RequestLine, create_request, unparse}
use multi_threaded_proxy_ser.Request.Parse.{success, parse_request}
use multi_threaded_proxy_ser.Request.Form.{IsLine}
use multi_threaded_proxy_ser.Request.RoundTrip.{parse_request-unparse}
use multi_threaded_proxy_ser.Base.{◌∷◌}
use multi_threaded_proxy_ser.Worker.Receive.{Received, some_bytes, in_buffer}
use multi_threaded_proxy_ser.Worker.Thread.{Answers, thread_fn}
use multi_threaded_proxy_ser.Worker.Served.{HasEnded, thread_fn-HasEnded}
use multi_threaded_proxy_ser.Cache.History.{cleared}
use multi_threaded_proxy_ser.Pool.Store.{Peek, initial_pools}
use multi_threaded_proxy_ser.Handle.Run.{Calls, World}
use multi_threaded_proxy_ser.Base.{false}

-- Only the empty port is bad.
abbrev bad_port : Bytes → Bool
bad_port s = same s []

abbrev page : RequestLine
page = record {
  method = bytes "GET";
  protocol = bytes "http";
  host = bytes "a.org";
  port = some (bytes "81");
  path = bytes "/x";
  version = bytes "HTTP/1.1";
}

page-IsLine : IsLine bad_port page
unfolding same
page-IsLine = record {
  method = refl;
  protocol = ground arith;
  host = ground arith;
  port = ground arith;
  tail = bytes "x";
  path = refl;
  tail_fits = ground arith;
  number = bytes "1.1";
  version = refl;
  ends = ground arith;
}

abbrev or_create : Option Headers → Headers
or_create none = create
or_create (some h) = h

abbrev one_header : Headers
one_header = or_create (set true create (bytes "Host") (bytes "a.org"))

one_header-set : set true create (bytes "Host") (bytes "a.org") ≡ some one_header
unfolding set create same
one_header-set = refl

one_header-IsHeaders : IsHeaders one_header
one_header-IsHeaders =
    set-IsHeaders true create one_header (bytes "Host") (bytes "a.org") create-IsHeaders
      one_header-set

abbrev printed_text : Bytes
printed_text = bytes "GET http://a.org:81/x HTTP/1.1\r\nHost: a.org\r\n\r\n"

printed_is : unparse (record { line = some page; headers = one_header }) 100 ≡ some printed_text
unfolding unparse set create same print_headers
printed_is = refl

parse_request-unparse_example :
    (h' : Headers) × (parse_request (λ n. true) bad_port 3 create_request printed_text
      ≡ success (record { line = some page; headers = h' }))
    × (h'.slots ≡ live one_header.slots)
unfolding set create same
parse_request-unparse_example =
    parse_request-unparse bad_port page one_header 100 3 printed_text page-IsLine
      one_header-IsHeaders (ground arith) (ground arith) (ground arith) (omega arith) (omega arith)
      printed_is

-- A thread that receives the request in two parts and fetches its answer.
abbrev answers : Answers
answers = record {
  buffer_given = true;
  received =
      some (bytes "GET http://a.org:81/x HTTP/1.1\r\n") ∷ some (bytes "Host: a.org\r\n\r\n") ∷ [];
  key_given = true;
  lookup = λ t. none;
  fetches = true;
  handled = true;
  delivered = bytes "HTTP/1.1 200 OK\r\n\r\n";
  date = bytes "Thu, 01 Jan 1970 00:00:00 GMT";
  alloc = λ n. true;
  bad_port = bad_port;
}

thread_fn-HasEnded_example : HasEnded 1 (thread_fn answers 2)
thread_fn-HasEnded_example = thread_fn-HasEnded answers

abbrev received : Received
received = in_buffer (printed_text, some_bytes)

-- handle_request gets no memory for its buffer and returns -1.
abbrev refused : Answers
refused = record answers { handled = false; delivered = [] }

abbrev no_memory : Calls
no_memory = record {
  buf = none;
  headers_given = true;
  probe = λ fd. record { retval = 0; error = 0; res = Peek.ready };
  net = record { socket = some 7; resolved = true; connected = true };
  request_sent = some 58;
  temp_given = true;
  answers = [];
  send = λ t n. some n;
  realloc = λ n. true;
  copy = record {
    element = 5;
    raw = record { content = []; len = 0; url = []; lru_prev = 0; lru_next = 0; hash_next = 0 };
    data_given = true;
    url_given = true;
  };
  entry_given = true;
  now = 100;
  probe_back = record { retval = 0; error = 0; res = Peek.ready };
}

abbrev world : World
world = record { pools = initial_pools; store = cleared (λ p. none); shut = [] }
