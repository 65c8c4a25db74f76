-- ===== src/Earlier/Sent.antt =====
-- The cache of the earlier server stays empty, whatever its threads do.
use multi_threaded_proxy_ser.Base.{
  ℕ, ◌≡◌, refl, sym, ap, ◌∙◌, subst, true, false, Option, none, some, List, Bytes, bytes, same,
  Bool-cases, inl, inr,
}
use multi_threaded_proxy_ser.Headers.Store.{Headers}
use multi_threaded_proxy_ser.Request.Token.{Result, c_str}
use multi_threaded_proxy_ser.Request.Line.{RequestLine}
use multi_threaded_proxy_ser.Request.Parse
use multi_threaded_proxy_ser.Request.Parse.{parse_request}
use multi_threaded_proxy_ser.Worker.Receive.{
  Received, Last, some_bytes, disconnected, failed, receive, zeros, max_bytes,
}
use multi_threaded_proxy_ser.Earlier.Cache
use multi_threaded_proxy_ser.Earlier.Cache.{
  Cache, CacheElement, empty_cache, find, find_loop, acquire, release,
}
use multi_threaded_proxy_ser.Earlier.Handle
use multi_threaded_proxy_ser.Earlier.Handle.{handle_request}
use multi_threaded_proxy_ser.Earlier.Errors.{check_http_version}
use multi_threaded_proxy_ser.Earlier.Thread.{
  Answers, Ended, ended, blocked, fault, out_of_fuel, handled, answer_request, with_line,
  after_parse, after_miss, after_find, with_key, with_text, after_receive, thread_fn,
}

pub find-empty :
    (key : Bytes) (now : ℕ) → find key now empty_cache ≡ Cache.returned none empty_cache
unfolding find find_loop acquire release empty_cache
find-empty key now = refl

-- The thread leaves the cache empty.
abbrev IsEmptyAfter : Ended → Type 0
IsEmptyAfter (ended sent left_open closed posts s) = s ≡ empty_cache
IsEmptyAfter blocked = Unit {0}
IsEmptyAfter fault = Unit {0}
IsEmptyAfter out_of_fuel = Unit {0}

module _ (a : Answers) where
  handled-IsEmptyAfter : (o : Handle.Handled) → IsEmptyAfter (handled a empty_cache o)
  handled-IsEmptyAfter (Handle.finished true left_open delivered) = refl
  handled-IsEmptyAfter (Handle.finished false left_open delivered) = refl
  handled-IsEmptyAfter Handle.fault = tt

  answer_request-IsEmptyAfter :
      (l : RequestLine) (h : Headers) → IsEmptyAfter (answer_request a empty_cache l h)
  unfolding answer_request
  answer_request-IsEmptyAfter l h = elim (Bool-cases (same l.method (bytes "GET"))) [
    | inr f ↦ rw f refl
    | inl f ↦ elim (Bool-cases (check_http_version l.version)) [
      | inr g ↦ rw (f, g) refl
      | inl g ↦ rw (f, g) (handled-IsEmptyAfter (handle_request a.calls l h))
    ]
  ]

  with_line-IsEmptyAfter :
      (h : Headers) (l : Option RequestLine) → IsEmptyAfter (with_line a empty_cache h l)
  with_line-IsEmptyAfter h none = tt
  with_line-IsEmptyAfter h (some l) = answer_request-IsEmptyAfter l h

  after_parse-IsEmptyAfter : (o : Parse.Outcome) → IsEmptyAfter (after_parse a empty_cache o)
  after_parse-IsEmptyAfter (Parse.success pr) = with_line-IsEmptyAfter pr.headers pr.line
  after_parse-IsEmptyAfter (Parse.failure pr) = refl
  after_parse-IsEmptyAfter Parse.wild = tt
  after_parse-IsEmptyAfter Parse.out_of_fuel = tt

  after_miss-IsEmptyAfter :
      (text : Bytes) (last : Last) → IsEmptyAfter (after_miss a empty_cache text last)
  after_miss-IsEmptyAfter text some_bytes = after_parse-IsEmptyAfter _
  after_miss-IsEmptyAfter text disconnected = refl
  after_miss-IsEmptyAfter text failed = refl

  with_key-IsEmptyAfter :
      (text : Bytes) (last : Last) (key : Result Bytes)
      → IsEmptyAfter (with_key a empty_cache text last key)
  with_key-IsEmptyAfter text last (Result.ok key) =
      subst (λ o. IsEmptyAfter (after_find a text last o)) (sym (find-empty key a.now))
        (after_miss-IsEmptyAfter text last)
  with_key-IsEmptyAfter text last Result.rejected = tt
  with_key-IsEmptyAfter text last Result.fault = tt

  with_text-IsEmptyAfter :
      (last : Last) (text : Result Bytes) → IsEmptyAfter (with_text a empty_cache last text)
  with_text-IsEmptyAfter last (Result.ok text) = with_key-IsEmptyAfter text last _
  with_text-IsEmptyAfter last Result.rejected = tt
  with_text-IsEmptyAfter last Result.fault = tt

  after_receive-IsEmptyAfter : (r : Result Received) → IsEmptyAfter (after_receive a empty_cache r)
  after_receive-IsEmptyAfter (Result.ok r) = with_text-IsEmptyAfter r.last (c_str r.buffer)
  after_receive-IsEmptyAfter Result.rejected = tt
  after_receive-IsEmptyAfter Result.fault = tt

  thread_fn-IsEmptyAfter : IsEmptyAfter (thread_fn a empty_cache)
  unfolding thread_fn
  thread_fn-IsEmptyAfter = elim (Bool-cases a.buffer_given) [
    | inl e ↦ rw e (after_receive-IsEmptyAfter (receive a.received (zeros max_bytes) 0))
    | inr e ↦ rw e tt
  ]

-- The cache after any number of threads from start-up on. A thread uses the cache once, under the
-- lock, so that their order at that place is all that matters.
pub data Reach : Cache → Type 0 where
  start : Reach empty_cache
  thread :
      {s t : Cache} (a : Answers) (sent : Bytes) (left_open : List ℕ) (closed posts : ℕ)
      → Reach s
      → thread_fn a s ≡ ended sent left_open closed posts t
      → Reach t

pub Reach-empty : {s : Cache} → Reach s → s ≡ empty_cache
Reach-empty start = refl
Reach-empty (thread a sent left_open closed posts r run) =
    let before = Reach-empty r in
    subst IsEmptyAfter (ap (thread_fn a) (sym before) ∙ run) (thread_fn-IsEmptyAfter a)
