-- ===== src/Handle/Sockets.antt =====
-- handle_request loses no socket.
use multi_threaded_proxy_ser.Base.{
  count-append, count, ℕ, ◌+◌, ◌<◌, ◌≡◌, refl, ap, ◌∙◌, subst, Bool, true, false, Option, none,
  some, [], ◌∷◌, arith, Bytes, length,
}
use multi_threaded_proxy_ser.Headers.Store.{Headers}
use multi_threaded_proxy_ser.Hash.{pool_hash}
use multi_threaded_proxy_ser.Request.Token.{Result, c_str}
use multi_threaded_proxy_ser.Request.Line.{RequestLine}
use multi_threaded_proxy_ser.Cache.Store
use multi_threaded_proxy_ser.Cache.Ops.{add_cache_element}
use multi_threaded_proxy_ser.Pool.Store.{Got, get_from_pool, return_to_pool, fds}
use multi_threaded_proxy_ser.Pool.Bounds.{IsPools}
use multi_threaded_proxy_ser.Pool.Reuse.{count_fd}
use multi_threaded_proxy_ser.Pool.Connect.{connect_remote_server-count, opened}
use multi_threaded_proxy_ser.Relay.Loop
use multi_threaded_proxy_ser.Relay.Loop.{Relay, relay, relay_start}
use multi_threaded_proxy_ser.Handle.Upstream.{upstream_memory}
use multi_threaded_proxy_ser.Handle.Run.{
  Calls, World, Handled, finished, fault, out_of_fuel, given_back, close_and_fail, after_add,
  clean_up, after_relay, with_temp, exchange, world_of, with_socket, with_text, with_memory,
  with_buf, server_port, handle_request,
}

-- How often the socket `x` is in the host's bucket or closed.
abbrev pub held : ℕ → Bytes → World → ℕ
held x host w = count x (fds (w.pools (pool_hash host)).head) + count x w.shut

-- If the call comes back, `x` is held `n` times.
abbrev pub IsHeld : ℕ → Bytes → ℕ → Handled → Type 0
IsHeld x host n (finished result w delivered) = held x host w ≡ n
IsHeld x host n fault = Unit {0}
IsHeld x host n out_of_fuel = Unit {0}

module _ (x fuel : ℕ) (calls : Calls) (host : Bytes) (port : ℕ) (temp_req : Bytes) (fd : ℕ) where
  close_and_fail-IsHeld :
      (w : World)
      → IsHeld x host
          (held x host w + count_fd x (some fd))
          (close_and_fail fuel calls host port temp_req fd w)
  close_and_fail-IsHeld w = omega (arith, count-append x w.shut (fd ∷ []))

  held-given_back :
      (w : World)
      → held x host (given_back fuel calls host port temp_req fd w)
        ≡ held x host w + count_fd x (some fd)
  unfolding return_to_pool
  held-given_back w = let shut = count-append x w.shut (fd ∷ []) in ground (arith, shut)

  after_add-IsHeld :
      (w w' : World) (delivered : Bytes) (r : Store.Run Bool)
      → held x host w' ≡ held x host w
      → IsHeld x host
          (held x host w + count_fd x (some fd))
          (after_add fuel calls host port temp_req fd w' delivered r)
  after_add-IsHeld w w' delivered (Store.Run.ok kept store') e =
      held-given_back (record w' { store = store' }) ∙ ap (λ n. n + count_fd x (some fd)) e
  after_add-IsHeld w w' delivered Store.Run.fault e = tt
  after_add-IsHeld w w' delivered Store.Run.out_of_fuel e = tt

  after_relay-IsHeld :
      (w : World) (o : Loop.Outcome)
      → IsHeld x host
          (held x host w + count_fd x (some fd))
          (after_relay fuel calls host port temp_req fd w o)
  unfolding clean_up
  after_relay-IsHeld w (Loop.cleanup r) =
      after_add-IsHeld w w r.delivered
        (add_cache_element fuel calls.copy r.copied (length r.copied) temp_req w.store) refl
  after_relay-IsHeld w Loop.full = tt
  after_relay-IsHeld w Loop.out_of_fuel = tt

  with_temp-IsHeld :
      (w : World) (given : Bool)
      → IsHeld x host
          (held x host w + count_fd x (some fd))
          (with_temp fuel calls host port temp_req fd w given)
  with_temp-IsHeld w true =
      after_relay-IsHeld w (relay fuel calls.send calls.realloc calls.answers relay_start)
  with_temp-IsHeld w false = close_and_fail-IsHeld w

  exchange-IsHeld :
      (w : World) (sent : Option ℕ)
      → IsHeld x host
          (held x host w + count_fd x (some fd))
          (exchange fuel calls host port temp_req fd w sent)
  unfolding exchange
  exchange-IsHeld w none = close_and_fail-IsHeld w
  exchange-IsHeld w (some n) = with_temp-IsHeld w calls.temp_given

  with_text-IsHeld :
      (w : World) (text : Result Bytes)
      → IsHeld x host
          (held x host w + count_fd x (some fd))
          (with_text fuel calls host port temp_req fd w text)
  with_text-IsHeld w (Result.ok text) = exchange-IsHeld w calls.request_sent
  with_text-IsHeld w Result.rejected = tt
  with_text-IsHeld w Result.fault = tt

with_socket-IsHeld :
    (x fuel : ℕ) (calls : Calls) (host : Bytes) (port : ℕ) (temp_req memory : Bytes) (w : World)
    (fd : Option ℕ)
    → IsHeld x host
        (held x host w + count_fd x fd)
        (with_socket fuel calls host port temp_req memory w fd)
with_socket-IsHeld x fuel calls host port temp_req memory w none = omega arith
with_socket-IsHeld x fuel calls host port temp_req memory w (some fd) =
    with_text-IsHeld x fuel calls host port temp_req fd w (c_str memory)

-- Once the request for the server is written, a call of handle_request that comes back has lost no
-- socket, whatever fails: each one that was in the host's bucket or closed before, and the one that
-- `socket` returned where the pool had none to give, is in the bucket or closed afterwards, as
-- often as it was there. The buckets are counted, and the fuel is more than the host's bucket has
-- connections.
pub handle_request-IsHeld :
    (x fuel : ℕ) (atoi : Bytes → ℕ) (calls : Calls) (l : RequestLine) (h : Headers)
    (temp_req : Bytes) (w : World) (raw memory : Bytes)
    → IsPools w.pools
    → length (w.pools (pool_hash l.host)).head < fuel
    → calls.buf ≡ some raw
    → upstream_memory calls.headers_given raw l h ≡ Result.ok memory
    → (pooled : Got) × (get_from_pool fuel calls.probe l.host (server_port atoi l.port) w.pools
        ≡ some pooled)
      × IsHeld x l.host
          (held x l.host w + count_fd x (opened calls.net pooled.fd))
          (handle_request fuel atoi calls l h temp_req w)
unfolding handle_request with_buf with_memory
handle_request-IsHeld x fuel atoi calls l h temp_req w raw memory pools enough buf written =
    let port = server_port atoi l.port in
    let (pooled, first, g, run, counts) =
      connect_remote_server-count calls.probe calls.net l.host port fuel w.pools x pools enough in
    let w' = world_of w g in
    let before : held x l.host w' + count_fd x g.fd
        ≡ held x l.host w + count_fd x (opened calls.net pooled.fd) =
      omega (arith, counts, count-append x w.shut g.shut) in
    let shape : with_socket fuel calls l.host port temp_req memory w' g.fd
        ≡ handle_request fuel atoi calls l h temp_req w =
      ground (arith, buf, written, run) in
    (
      pooled,
      first,
      subst (IsHeld x l.host (held x l.host w + count_fd x (opened calls.net pooled.fd))) shape (
          subst
            (λ n. IsHeld x l.host n (with_socket fuel calls l.host port temp_req memory w' g.fd))
            before (with_socket-IsHeld x fuel calls l.host port temp_req memory w' g.fd)),
    )
