-- ===== src/Server/Answers.antt =====
-- thread_fn over the cache of the server: each of its lookups finds the cache in some state that the
-- threads together have reached, and the thread that fetches calls handle_request.
use multi_threaded_proxy_ser.Base.{
  ℕ, suc, ◌≡◌, ◌∙◌, sym, true, false, Bool, Option, none, some, [], Bytes, bytes, same, length,
}
use multi_threaded_proxy_ser.Headers.Store.{Headers}
use multi_threaded_proxy_ser.Request.Line.{RequestLine, create_request, check_http_version}
use multi_threaded_proxy_ser.Request.Parse
use multi_threaded_proxy_ser.Request.Parse.{parse_request}
use multi_threaded_proxy_ser.Cache.Store.{Heap, Store, Run, ok}
use multi_threaded_proxy_ser.Cache.Ops.{cache_lookup}
use multi_threaded_proxy_ser.Handle.Run.{Calls, World, Handled, handle_request}
use multi_threaded_proxy_ser.Worker.Receive.{Last, some_bytes, disconnected, failed}
use multi_threaded_proxy_ser.Worker.Thread
use multi_threaded_proxy_ser.Worker.Thread.{Answers, Ended, ended, fault, finish}
use multi_threaded_proxy_ser.Worker.ErrorLaws.{IsReply}
use multi_threaded_proxy_ser.Server.System.{Server, Reach}
use multi_threaded_proxy_ser.Server.Bounds.{lookup-misses}

-- A lookup of the key in a state that the server has reached gives the copy `found`.
pub record IsLookup (Key : Bytes → Type 0) (h : Heap) (url : Bytes) (found : Option Bytes)
    : Type 0 where
  pub server : Server
  pub reached : Reach Key h server
  pub alloc : Bool
  pub fuel : ℕ
  pub copied : ℕ
  pub after : Store
  pub run : cache_lookup alloc (suc fuel) url server.cache ≡ ok (found, copied) after

found-same :
    {a b : Option Bytes} {m n : ℕ} {s t : Store}
    → ◌≡◌ {A = Run (Option Bytes × ℕ)} (ok (a, m) s) (ok (b, n) t)
    → a ≡ b
found-same e = cc

pub IsLookup-none :
    {Key : Bytes → Type 0} {h : Heap} {url : Bytes} {found : Option Bytes}
    → IsLookup Key h url found
    → found ≡ none
IsLookup-none {url} l = found-same (sym l.run ∙ lookup-misses l.alloc l.fuel url l.reached)

-- What handle_request returns and delivers is what some call of it does.
pub record IsCall (a : Answers) (text : Bytes) (l : RequestLine) (h : Headers) : Type 0 where
  pub fuel : ℕ
  pub atoi : Bytes → ℕ
  pub calls : Calls
  pub before : World
  pub after : World
  pub run :
      handle_request fuel atoi calls l h text before ≡ Handled.finished a.handled after a.delivered

abbrev IsLineCall : Answers → Bytes → Headers → Option RequestLine → Type 0
IsLineCall a text h none = Unit {0}
IsLineCall a text h (some l) = IsCall a text l h

-- The request that was parsed is the one that handle_request is called with.
abbrev pub IsFetch : Answers → Bytes → Parse.Outcome → Type 0
IsFetch a text (Parse.success pr) = IsLineCall a text pr.headers pr.line
IsFetch a text (Parse.failure pr) = Unit {0}
IsFetch a text Parse.wild = Unit {0}
IsFetch a text Parse.out_of_fuel = Unit {0}

-- What the client of a request gets: what handle_request delivered, or one whole error 500, or
-- nothing.
pub data IsReplied (a : Answers) (l : RequestLine) (sent : Bytes) : Type 0 where
  other_method : same l.method (bytes "GET") ≡ false → sent ≡ [] → IsReplied a l sent
  other_version :
      same l.method (bytes "GET") ≡ true
      → check_http_version l.version ≡ false
      → IsReply 500 sent
      → IsReplied a l sent
  waited :
      same l.method (bytes "GET") ≡ true
      → check_http_version l.version ≡ true
      → a.fetches ≡ false
      → sent ≡ []
      → IsReplied a l sent
  fetched :
      same l.method (bytes "GET") ≡ true
      → check_http_version l.version ≡ true
      → a.fetches ≡ true
      → a.handled ≡ true
      → sent ≡ a.delivered
      → IsReplied a l sent
  not_fetched :
      same l.method (bytes "GET") ≡ true
      → check_http_version l.version ≡ true
      → a.fetches ≡ true
      → a.handled ≡ false
      → IsReply 500 sent
      → IsReplied a l sent

abbrev IsLineServed : Answers → Option RequestLine → Ended → Type 0
IsLineServed a none o = o ≡ fault
IsLineServed a (some l) o = (sent : Bytes) × (o ≡ finish sent) × IsReplied a l sent

abbrev IsParseServed : Answers → Parse.Outcome → Ended → Type 0
IsParseServed a (Parse.success pr) o = IsLineServed a pr.line o
IsParseServed a (Parse.failure pr) o = o ≡ finish []
IsParseServed a Parse.wild o = o ≡ fault
IsParseServed a Parse.out_of_fuel o = ⊥

-- A client that has sent no whole request gets nothing.
abbrev pub IsServed : Answers → Bytes → Last → Ended → Type 0
IsServed a text some_bytes o =
    IsParseServed a (parse_request a.alloc a.bad_port (suc (length text)) create_request text) o
IsServed a text disconnected o = o ≡ finish []
IsServed a text failed o = o ≡ finish []
