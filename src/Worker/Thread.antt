-- ===== src/Worker/Thread.antt =====
-- thread_fn from its first line to its last. What its calls on shared structures answer is an
-- argument, since other threads work on them in between.
use multi_threaded_proxy_ser.Base.{
  ℕ, zero, suc, Bool, Option, none, some, List, [], ◌++◌, Bytes, bytes, same, if◌then◌else◌, length,
}
use multi_threaded_proxy_ser.Request.Token.{Result, c_str}
use multi_threaded_proxy_ser.Request.Line.{RequestLine, create_request, check_http_version}
use multi_threaded_proxy_ser.Request.Parse
use multi_threaded_proxy_ser.Request.Parse.{parse_request}
use multi_threaded_proxy_ser.Worker.Errors.{send_error_message}
use multi_threaded_proxy_ser.Worker.Cached.{send_cached, concat}
use multi_threaded_proxy_ser.Worker.Receive.{
  Received, Last, some_bytes, disconnected, failed, receive, zeros, max_bytes,
}

-- The answers: `calloc` of the buffer, each `recv`, `malloc` of the key, the lookups in the cache by
-- their number (a copy of the data, or NULL), whether pending_wait_or_register returns NULL (this
-- thread is to fetch), what handle_request returns (true for 0) and sends to the client, and the
-- date that strftime prints; `realloc` and the test of the port are those of the parser.
pub record Answers : Type 0 where
  pub buffer_given : Bool
  pub received : List (Option Bytes)
  pub key_given : Bool
  pub lookup : ℕ → Option Bytes
  pub fetches : Bool
  pub handled : Bool
  pub delivered : Bytes
  pub date : Bytes
  pub alloc : ℕ → Bool
  pub bad_port : Bytes → Bool

-- What the client was sent, how often its socket was closed and the semaphore posted. `fault` is a
-- read outside of a buffer.
pub data Ended : Type 0 where
  ended : (sent : Bytes) (closed posts : ℕ) → Ended
  fault : Ended
  out_of_fuel : Ended

-- `shutdown(socket, SHUT_RDWR); close(socket);`
abbrev pub close_socket : Ended → Ended
close_socket (ended sent closed posts) = ended sent (suc closed) posts
close_socket fault = fault
close_socket out_of_fuel = out_of_fuel

-- `sem_post(&seamaphore)`
abbrev pub sem_post : Ended → Ended
sem_post (ended sent closed posts) = ended sent closed (suc posts)
sem_post fault = fault
sem_post out_of_fuel = out_of_fuel

-- The end of thread_fn.
abbrev pub finish : Bytes → Ended
finish sent = sem_post (close_socket (ended sent 0 0))

-- The return without `buffer`, which leaves the socket open.
abbrev pub no_buffer : Ended
no_buffer = sem_post (ended [] 0 0)

-- The return without `tempReq`.
abbrev pub no_key : Ended
no_key = sem_post (close_socket (ended [] 0 0))

abbrev pub all_parts : Option (List Bytes) → Ended
all_parts none = out_of_fuel
all_parts (some l) = finish (concat l)

abbrev pub error_of : Option Bytes → Bytes
error_of none = []
error_of (some s) = s

module _ (a : Answers) where
  -- `sendErrorMessage(socket, 500)`
  unfoldable pub error_500 : Bytes
  unfolding send_error_message
  error_500 = error_of (send_error_message 500 a.date)

  -- A request that was parsed; `again` is what the jump to `cache_lookup` leads to.
  unfoldable pub answer_request : Ended → RequestLine → Ended
  unfolding check_http_version error_500 same
  answer_request again l =
      if same l.method (bytes "GET")
      then (if check_http_version l.version
          then (if a.fetches
              then finish (if a.handled then a.delivered else a.delivered ++ error_500)
              else again)
          else finish error_500)
      else finish []

  abbrev pub with_line : Ended → Option RequestLine → Ended
  with_line again none = fault
  with_line again (some l) = answer_request again l

  abbrev pub after_parse : Ended → Parse.Outcome → Ended
  after_parse again (Parse.success pr) = with_line again pr.line
  after_parse again (Parse.failure pr) = finish []
  after_parse again Parse.wild = fault
  after_parse again Parse.out_of_fuel = out_of_fuel

  abbrev pub after_miss : Ended → Bytes → Last → Ended
  after_miss again text some_bytes =
      after_parse again (parse_request a.alloc a.bad_port (suc (length text)) create_request text)
  after_miss again text disconnected = finish []
  after_miss again text failed = finish []

  abbrev pub after_lookup : Ended → Bytes → Last → Option Bytes → Ended
  after_lookup again text last (some d) = all_parts (send_cached (suc (length d)) d (length d) 0)
  after_lookup again text last none = after_miss again text last

  -- From the label `cache_lookup` on, for the `t`-th time. The buffer is cleared before the jump
  -- back to the label.
  unfoldable pub serve : ℕ → ℕ → Bytes → Last → Ended
  unfolding send_cached parse_request create_request answer_request
  serve zero t text last = out_of_fuel
  serve (suc rounds) t text last =
      let again = serve rounds (suc t) [] some_bytes in after_lookup again text last (a.lookup t)

  abbrev pub with_key : ℕ → Last → Result Bytes → Ended
  with_key rounds last (Result.ok text) = if a.key_given then serve rounds 0 text last else no_key
  with_key rounds last Result.rejected = fault
  with_key rounds last Result.fault = fault

  abbrev pub after_receive : ℕ → Result Received → Ended
  after_receive rounds (Result.ok r) = with_key rounds r.last (c_str r.buffer)
  after_receive rounds Result.rejected = fault
  after_receive rounds Result.fault = fault

  unfoldable pub thread_fn : ℕ → Ended
  unfolding serve receive c_str
  thread_fn rounds =
      if a.buffer_given
      then after_receive rounds (receive a.received (zeros max_bytes) 0)
      else no_buffer
