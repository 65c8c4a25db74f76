-- ===== src/Earlier/Thread.antt =====
-- thread_fn of proxy_server_without_cache.c, from its first line to its last.
use multi_threaded_proxy_ser.Base.{
  ℕ, suc, ◌+◌, Bool, true, false, ◌&&◌, Option, none, some, List, [], ◌∷◌, ◌++◌, Bytes, bytes, same,
  ◌==◌, if◌then◌else◌, length, drop,
}
use multi_threaded_proxy_ser.Headers.Store.{Headers}
use multi_threaded_proxy_ser.Request.Token.{Result, c_str}
use multi_threaded_proxy_ser.Request.Line.{RequestLine, create_request}
use multi_threaded_proxy_ser.Request.Parse
use multi_threaded_proxy_ser.Request.Parse.{parse_request}
use multi_threaded_proxy_ser.Worker.Cached.{Sending, send_blocks, concat}
use multi_threaded_proxy_ser.Worker.Receive.{
  Received, Last, some_bytes, disconnected, failed, receive, zeros, max_bytes,
}
use multi_threaded_proxy_ser.Earlier.Cache
use multi_threaded_proxy_ser.Earlier.Cache.{Cache, CacheElement, find}
use multi_threaded_proxy_ser.Earlier.Handle
use multi_threaded_proxy_ser.Earlier.Handle.{Calls, handle_request}
use multi_threaded_proxy_ser.Earlier.Errors.{send_error_message, check_http_version}

-- The answers: `calloc` of the buffer, each `recv`, `malloc` of the key with what its memory held
-- before, the time of the search, the bytes that the data of an element has, the calls of
-- handle_request, and the date that strftime prints; `realloc` and the test of the port are those of
-- the parser.
pub record Answers : Type 0 where
  pub buffer_given : Bool
  pub received : List (Option Bytes)
  pub key_memory : ℕ → Option Bytes
  pub now : ℕ
  pub data_memory : CacheElement → Bytes
  pub calls : Calls
  pub date : Bytes
  pub alloc : ℕ → Bool
  pub bad_port : Bytes → Bool

-- What the client was sent, the sockets to servers that were left open, how often the client's
-- socket was closed and the semaphore posted, and the cache. `blocked` is a wait for the lock, and
-- `fault` an access outside of the memory.
pub data Ended : Type 0 where
  ended : (sent : Bytes) (left_open : List ℕ) (closed posts : ℕ) → Cache → Ended
  blocked : Ended
  fault : Ended
  out_of_fuel : Ended

-- `shutdown(socket, SHUT_RDWR); close(socket);`
abbrev pub close_socket : Ended → Ended
close_socket (ended sent left_open closed posts s) = ended sent left_open (suc closed) posts s
close_socket blocked = blocked
close_socket fault = fault
close_socket out_of_fuel = out_of_fuel

-- `sem_post(&seamaphore)`
abbrev pub sem_post : Ended → Ended
sem_post (ended sent left_open closed posts s) = ended sent left_open closed (suc posts) s
sem_post blocked = blocked
sem_post fault = fault
sem_post out_of_fuel = out_of_fuel

-- The end of thread_fn.
abbrev pub finish : Cache → List ℕ → Bytes → Ended
finish s left_open sent = sem_post (close_socket (ended sent left_open 0 0 s))

abbrev pub error_of : Option Bytes → Bytes
error_of none = []
error_of (some s) = s

-- `strcmp(url, tempReq)` stays in the memory of `tempReq`.
unfoldable pub stays_inside : Bytes → Bytes → Bool
stays_inside [] [] = false
stays_inside [] (c ∷ memory) = true
stays_inside (u ∷ url) [] = false
stays_inside (u ∷ url) (c ∷ memory) = if u == c then stays_inside url memory else true

unfoldable pub all_inside : List CacheElement → Bytes → Bool
unfolding stays_inside
all_inside [] memory = true
all_inside (e ∷ l) memory = stays_inside e.url memory && all_inside l memory

-- The key that find compares with: the text in the memory. Without a NUL in the memory no element
-- has the key, unless a comparison goes on behind it.
abbrev pub key_in : List CacheElement → Bytes → Result Bytes → Result Bytes
key_in l memory (Result.ok key) = Result.ok key
key_in l memory Result.rejected = Result.rejected
key_in l memory Result.fault = if all_inside l memory then Result.ok memory else Result.fault

-- `tempReq[i] = buffer[i]` for each byte of the text, whose end is not copied. NULL is compared with
-- the keys of the elements if nothing is written through it before.
unfoldable pub key_of : Cache → Bytes → Option Bytes → Result Bytes
unfolding c_str all_inside
key_of s text (some old) =
    let memory = text ++ drop (length text) old in key_in s.elements memory (c_str memory)
key_of s [] none = elim s.elements [ [] ↦ Result.ok [] | e ∷ l ↦ Result.fault ]
key_of s (c ∷ text) none = Result.fault

module _ (a : Answers) where
  -- `sendErrorMessage(socket, 500)`
  unfoldable pub error_500 : Bytes
  unfolding send_error_message
  error_500 = error_of (send_error_message 500 a.date)

  abbrev pub handled : Cache → Handle.Handled → Ended
  handled s (Handle.finished true left_open delivered) = finish s left_open delivered
  handled s (Handle.finished false left_open delivered) =
      finish s left_open (delivered ++ error_500)
  handled s Handle.fault = fault

  unfoldable pub answer_request : Cache → RequestLine → Headers → Ended
  unfolding check_http_version handle_request error_500 same
  answer_request s l h =
      if same l.method (bytes "GET")
      then (if check_http_version l.version
          then handled s (handle_request a.calls l h)
          else finish s [] error_500)
      else finish s [] []

  abbrev pub with_line : Cache → Headers → Option RequestLine → Ended
  with_line s h none = fault
  with_line s h (some l) = answer_request s l h

  abbrev pub after_parse : Cache → Parse.Outcome → Ended
  after_parse s (Parse.success pr) = with_line s pr.headers pr.line
  after_parse s (Parse.failure pr) = finish s [] []
  after_parse s Parse.wild = fault
  after_parse s Parse.out_of_fuel = out_of_fuel

  abbrev pub all_blocks : Cache → Sending → Ended
  all_blocks s (Sending.sent l) = finish s [] (concat l)
  all_blocks s Sending.fault = fault
  all_blocks s Sending.out_of_fuel = out_of_fuel

  abbrev pub after_miss : Cache → Bytes → Last → Ended
  after_miss s text some_bytes =
      after_parse s (parse_request a.alloc a.bad_port (suc (length text)) create_request text)
  after_miss s text disconnected = finish s [] []
  after_miss s text failed = finish s [] []

  abbrev pub after_find : Bytes → Last → Cache.Run (Option CacheElement) → Ended
  after_find text last (Cache.returned (some temp) s) =
      all_blocks s (send_blocks (suc temp.len) (a.data_memory temp) temp.len 0)
  after_find text last (Cache.returned none s) = after_miss s text last
  after_find text last Cache.blocked = blocked
  after_find text last Cache.fault = fault
  after_find text last Cache.out_of_fuel = out_of_fuel

  abbrev pub with_key : Cache → Bytes → Last → Result Bytes → Ended
  with_key s text last (Result.ok key) = after_find text last (find key a.now s)
  with_key s text last Result.rejected = fault
  with_key s text last Result.fault = fault

  abbrev pub with_text : Cache → Last → Result Bytes → Ended
  with_text s last (Result.ok text) =
      with_key s text last (key_of s text (a.key_memory (length text + 10)))
  with_text s last Result.rejected = fault
  with_text s last Result.fault = fault

  abbrev pub after_receive : Cache → Result Received → Ended
  after_receive s (Result.ok r) = with_text s r.last (c_str r.buffer)
  after_receive s Result.rejected = fault
  after_receive s Result.fault = fault

  -- The buffer is cleared, through NULL if `calloc` gives none.
  unfoldable pub thread_fn : Cache → Ended
  unfolding receive c_str key_of find send_blocks parse_request create_request answer_request
  thread_fn s =
      if a.buffer_given then after_receive s (receive a.received (zeros max_bytes) 0) else fault
