-- ===== src/Earlier/Served.antt =====
-- What the clients of the earlier server get, one thread after the other.
use multi_threaded_proxy_ser.Base.{
  ℕ, suc, ◌≡◌, [], true, false, Option, none, some, List, Bytes, bytes, same, length,
}
use multi_threaded_proxy_ser.Headers.Store.{Headers}
use multi_threaded_proxy_ser.Request.Line.{RequestLine, create_request}
use multi_threaded_proxy_ser.Request.Parse
use multi_threaded_proxy_ser.Request.Parse.{parse_request}
use multi_threaded_proxy_ser.Worker.Receive.{Last, some_bytes, disconnected, failed}
use multi_threaded_proxy_ser.Earlier.Cache.{Cache, empty_cache}
use multi_threaded_proxy_ser.Earlier.Handle
use multi_threaded_proxy_ser.Earlier.Handle.{handle_request}
use multi_threaded_proxy_ser.Worker.ErrorLaws.{IsReply}
use multi_threaded_proxy_ser.Earlier.Errors.{check_http_version}
use multi_threaded_proxy_ser.Earlier.Thread.{Answers, Ended, fault, finish}

-- What the client of a request gets: what handle_request delivered, or one whole error 500, or
-- nothing.
pub data IsReplied (a : Answers) (l : RequestLine) (h : Headers) (o : Ended) : Type 0 where
  other_method :
      same l.method (bytes "GET") ≡ false → o ≡ finish empty_cache [] [] → IsReplied a l h o
  other_version :
      (sent : Bytes)
      → same l.method (bytes "GET") ≡ true
      → check_http_version l.version ≡ false
      → IsReply 500 sent
      → o ≡ finish empty_cache [] sent
      → IsReplied a l h o
  fetched :
      (left_open : List ℕ) (delivered : Bytes)
      → same l.method (bytes "GET") ≡ true
      → check_http_version l.version ≡ true
      → handle_request a.calls l h ≡ Handle.finished true left_open delivered
      → o ≡ finish empty_cache left_open delivered
      → IsReplied a l h o
  not_fetched :
      (left_open : List ℕ) (sent : Bytes)
      → same l.method (bytes "GET") ≡ true
      → check_http_version l.version ≡ true
      → handle_request a.calls l h ≡ Handle.finished false left_open []
      → IsReply 500 sent
      → o ≡ finish empty_cache left_open sent
      → IsReplied a l h o
  lost :
      same l.method (bytes "GET") ≡ true
      → check_http_version l.version ≡ true
      → handle_request a.calls l h ≡ Handle.fault
      → o ≡ fault
      → IsReplied a l h o

abbrev IsLineServed : Answers → Headers → Option RequestLine → Ended → Type 0
IsLineServed a h none o = o ≡ fault
IsLineServed a h (some l) o = IsReplied a l h o

abbrev IsParseServed : Answers → Parse.Outcome → Ended → Type 0
IsParseServed a (Parse.success pr) o = IsLineServed a pr.headers pr.line o
IsParseServed a (Parse.failure pr) o = o ≡ finish empty_cache [] []
IsParseServed a Parse.wild o = o ≡ fault
IsParseServed a Parse.out_of_fuel o = ⊥

-- A client that has sent no whole request gets nothing.
abbrev pub IsAnswered : Answers → Bytes → Last → Ended → Type 0
IsAnswered a text some_bytes o =
    IsParseServed a (parse_request a.alloc a.bad_port (suc (length text)) create_request text) o
IsAnswered a text disconnected o = o ≡ finish empty_cache [] []
IsAnswered a text failed o = o ≡ finish empty_cache [] []
