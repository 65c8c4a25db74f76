-- ===== src/Earlier/Ends.antt =====
-- How a thread of the earlier server ends, whatever its calls answer.
use multi_threaded_proxy_ser.Base.{
  ℕ, zero, suc, ◌+◌, ◌≤◌, ◌≡◌, refl, sym, subst, true, false, Option, none, some, Bytes, bytes,
  same, length, take, drop, arith, ltb, leb, Bool-cases, inl, inr,
}
use multi_threaded_proxy_ser.Headers.Store.{Headers}
use multi_threaded_proxy_ser.Request.Token.{Result, c_str}
use multi_threaded_proxy_ser.Request.Line.{RequestLine, create_request}
use multi_threaded_proxy_ser.Request.Parse
use multi_threaded_proxy_ser.Request.Parse.{parse_request}
use multi_threaded_proxy_ser.Worker.Cached.{Sending, send_blocks, and_then, max_bytes}
use multi_threaded_proxy_ser.Worker.Receive.{
  Received, Last, some_bytes, disconnected, failed, receive, zeros,
}
use multi_threaded_proxy_ser.Worker.Served.{IsParsed, parse_request-IsParsed}
use multi_threaded_proxy_ser.Earlier.Cache
use multi_threaded_proxy_ser.Earlier.Cache.{Cache, CacheElement, find}
use multi_threaded_proxy_ser.Earlier.Bounds.{IsUnlocked}
use multi_threaded_proxy_ser.Earlier.Find.{find-IsLookup}
use multi_threaded_proxy_ser.Earlier.Handle
use multi_threaded_proxy_ser.Earlier.Handle.{handle_request}
use multi_threaded_proxy_ser.Earlier.Errors.{check_http_version}
use multi_threaded_proxy_ser.Earlier.Thread.{
  Answers, Ended, ended, key_of, handled, answer_request, with_line, after_parse, all_blocks,
  after_miss, after_find, with_key, with_text, after_receive, thread_fn,
}

abbrev IsSent : Sending → Type 0
IsSent (Sending.sent l) = Unit {0}
IsSent Sending.fault = Unit {0}
IsSent Sending.out_of_fuel = ⊥

and_then-IsSent : (part : Bytes) (o : Sending) → IsSent o → IsSent (and_then part o)
and_then-IsSent part (Sending.sent l) i = tt
and_then-IsSent part Sending.fault i = tt
and_then-IsSent part Sending.out_of_fuel i = absurd i

send_blocks-IsSent :
    (n : ℕ) (data_bytes : Bytes) (size pos : ℕ)
    → size ≤ pos + n
    → IsSent (send_blocks (suc n) data_bytes size pos)
unfolding send_blocks
send_blocks-IsSent zero data_bytes size pos enough =
    let over : ltb pos size ≡ false = ground (arith, enough) in rw over tt
send_blocks-IsSent (suc n) data_bytes size pos enough =
    let rest = send_blocks-IsSent n data_bytes size (pos + max_bytes) (omega (arith, enough)) in
    let part = take max_bytes (drop pos data_bytes) in
    elim (Bool-cases (ltb pos size)) [
      | inr e ↦ rw e tt
      | inl e ↦ elim (Bool-cases (leb (pos + max_bytes) (length data_bytes))) [
        | inr f ↦ rw (e, f) tt
        | inl f ↦ rw (e, f) (and_then-IsSent part _ rest)
      ]
    ]

-- The thread has come to its end with the semaphore posted once, its client's socket closed once,
-- and the lock free. An access outside of the memory is not excluded here.
abbrev pub IsOver : Ended → Type 0
IsOver (ended sent left_open closed posts s) = (closed ≡ 1) × (posts ≡ 1) × IsUnlocked s
IsOver Ended.blocked = ⊥
IsOver Ended.fault = Unit {0}
IsOver Ended.out_of_fuel = ⊥

module _ (a : Answers) (s : Cache) (free : IsUnlocked s) where
  handled-IsOver : (o : Handle.Handled) → IsOver (handled a s o)
  handled-IsOver (Handle.finished true left_open delivered) = (refl, refl, free)
  handled-IsOver (Handle.finished false left_open delivered) = (refl, refl, free)
  handled-IsOver Handle.fault = tt

  answer_request-IsOver : (l : RequestLine) (h : Headers) → IsOver (answer_request a s l h)
  unfolding answer_request
  answer_request-IsOver l h = elim (Bool-cases (same l.method (bytes "GET"))) [
    | inr f ↦ rw f (refl, refl, free)
    | inl f ↦ elim (Bool-cases (check_http_version l.version)) [
      | inr g ↦ rw (f, g) (refl, refl, free)
      | inl g ↦ rw (f, g) (handled-IsOver (handle_request a.calls l h))
    ]
  ]

  with_line-IsOver : (h : Headers) (l : Option RequestLine) → IsOver (with_line a s h l)
  with_line-IsOver h none = tt
  with_line-IsOver h (some l) = answer_request-IsOver l h

  after_parse-IsOver : (o : Parse.Outcome) → IsParsed o → IsOver (after_parse a s o)
  after_parse-IsOver (Parse.success pr) p = with_line-IsOver pr.headers pr.line
  after_parse-IsOver (Parse.failure pr) p = (refl, refl, free)
  after_parse-IsOver Parse.wild p = tt
  after_parse-IsOver Parse.out_of_fuel p = absurd p

  after_miss-IsOver : (text : Bytes) (last : Last) → IsOver (after_miss a s text last)
  after_miss-IsOver text some_bytes =
      after_parse-IsOver (parse_request a.alloc a.bad_port (suc (length text)) create_request text)
        (parse_request-IsParsed a.alloc a.bad_port (suc (length text)) text (omega arith))
  after_miss-IsOver text disconnected = (refl, refl, free)
  after_miss-IsOver text failed = (refl, refl, free)

  all_blocks-IsOver : (o : Sending) → IsSent o → IsOver (all_blocks a s o)
  all_blocks-IsOver (Sending.sent l) i = (refl, refl, free)
  all_blocks-IsOver Sending.fault i = tt
  all_blocks-IsOver Sending.out_of_fuel i = absurd i

  after_return-IsOver :
      (text : Bytes) (last : Last) (site : Option CacheElement)
      → IsOver (after_find a text last (Cache.returned site s))
  after_return-IsOver text last none = after_miss-IsOver text last
  after_return-IsOver text last (some temp) =
      all_blocks-IsOver (send_blocks (suc temp.len) (a.data_memory temp) temp.len 0)
        (send_blocks-IsSent temp.len (a.data_memory temp) temp.len 0 (omega arith))

module _ (a : Answers) (s : Cache) (free : IsUnlocked s) where
  with_key-IsOver :
      (text : Bytes) (last : Last) (key : Result Bytes) → IsOver (with_key a s text last key)
  with_key-IsOver text last (Result.ok key) =
      let (site, t, run, found, free') = find-IsLookup key a.now s free in
      subst (λ o. IsOver (after_find a text last o)) (sym run)
        (after_return-IsOver a t free' text last site)
  with_key-IsOver text last Result.rejected = tt
  with_key-IsOver text last Result.fault = tt

  with_text-IsOver : (last : Last) (text : Result Bytes) → IsOver (with_text a s last text)
  with_text-IsOver last (Result.ok text) =
      with_key-IsOver text last (key_of s text (a.key_memory (length text + 10)))
  with_text-IsOver last Result.rejected = tt
  with_text-IsOver last Result.fault = tt

  after_receive-IsOver : (r : Result Received) → IsOver (after_receive a s r)
  after_receive-IsOver (Result.ok r) = with_text-IsOver r.last (c_str r.buffer)
  after_receive-IsOver Result.rejected = tt
  after_receive-IsOver Result.fault = tt

  -- A thread of the earlier server that makes no access outside of the memory comes to its end,
  -- whatever its calls answer: it has posted the semaphore once and closed its client's socket once,
  -- and it has not waited for the lock for ever and leaves it free. The lock was free before, and
  -- the counter of the cache right.
  pub thread_fn-IsOver : IsOver (thread_fn a s)
  unfolding thread_fn
  thread_fn-IsOver = elim (Bool-cases a.buffer_given) [
    | inl e ↦ rw e (after_receive-IsOver (receive a.received (zeros max_bytes) 0))
    | inr e ↦ rw e tt
  ]
