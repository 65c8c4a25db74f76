-- ===== src/Worker/Sent.antt =====
-- What thread_fn comes to when the cache has nothing.
use multi_threaded_proxy_ser.Base.{ℕ, ◌≡◌, ap, ◌∙◌, true, none, [], Bytes, if◌then◌else◌}
use multi_threaded_proxy_ser.Request.Token.{Result, c_str}
use multi_threaded_proxy_ser.Request.Line.{create_request}
use multi_threaded_proxy_ser.Request.Parse.{parse_request}
use multi_threaded_proxy_ser.Worker.Receive.{Received, some_bytes, receive, zeros, max_bytes}
use multi_threaded_proxy_ser.Worker.Thread.{
  Answers, finish, no_buffer, no_key, after_miss, after_lookup, serve, with_key, after_receive,
  thread_fn,
}

-- The jump back to the lookup finds the buffer cleared.
second_round : (a : Answers) → a.lookup 1 ≡ none → serve a 1 1 [] some_bytes ≡ finish []
unfolding serve parse_request create_request
second_round a e = ap (after_lookup a (serve a 0 2 [] some_bytes) [] some_bytes) e

-- With the memory of its buffer and its key, a thread does what is behind the lookup, and a jump
-- back to the lookup leads to the end with nothing sent.
pub thread_fn-after_miss :
    (a : Answers) (r : Received) (text : Bytes)
    → a.buffer_given ≡ true
    → a.key_given ≡ true
    → receive a.received (zeros max_bytes) 0 ≡ Result.ok r
    → c_str r.buffer ≡ Result.ok text
    → ((t : ℕ) → a.lookup t ≡ none)
    → thread_fn a 2 ≡ after_miss a (finish []) text r.last
unfolding thread_fn serve
thread_fn-after_miss a r text given key got read misses =
    ap (λ b. if b then after_receive a 2 (receive a.received (zeros max_bytes) 0) else no_buffer)
      given
    ∙ ap (after_receive a 2) got
    ∙ ap (with_key a 2 r.last) read
    ∙ ap (λ b. if b then serve a 2 0 text r.last else no_key) key
    ∙ ap (after_lookup a (serve a 1 1 [] some_bytes) text r.last) (misses 0)
    ∙ ap (λ e. after_miss a e text r.last) (second_round a (misses 1))
