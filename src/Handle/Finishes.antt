-- ===== src/Handle/Finishes.antt =====
-- handle_request comes back.
use multi_threaded_proxy_ser.Base.{
  ℕ, suc, ◌^◌, ◌<◌, ◌≡◌, refl, ap, ◌∙◌, sym, subst, Bool, true, false, Option, none, some, [], ◌∷◌,
  ◌++◌, arith, Bytes, has, length, length-append,
}
use multi_threaded_proxy_ser.Headers.Store.{Headers}
use multi_threaded_proxy_ser.Hash.{pool_hash}
use multi_threaded_proxy_ser.Request.Token.{Result, c_str}
use multi_threaded_proxy_ser.Request.Line.{RequestLine}
use multi_threaded_proxy_ser.Cache.Ops.{footprint}
use multi_threaded_proxy_ser.Cache.Refine.{Cells, IsCache, addresses, evict}
use multi_threaded_proxy_ser.Cache.Add.{added, add_cache_element-added}
use multi_threaded_proxy_ser.Pool.Bounds.{IsPools}
use multi_threaded_proxy_ser.Pool.Connect.{connect_remote_server-count}
use multi_threaded_proxy_ser.Relay.Loop.{relay, relay_start}
use multi_threaded_proxy_ser.Relay.Sending.{Sends}
use multi_threaded_proxy_ser.Relay.Answer.{answer, relay-IsRelayed}
use multi_threaded_proxy_ser.Handle.Upstream.{upstream_memory}
use multi_threaded_proxy_ser.Handle.Run.{
  Calls, World, Handled, finished, given_back, after_add, clean_up, after_relay, with_temp,
  exchange, world_of, with_socket, with_text, with_memory, with_buf, server_port, handle_request,
}

-- The call has come back, the client got the front of the answer, and the cache is in order.
pub record IsFinished (whole : Bytes) (o : Handled) : Type 0 where
  pub result : Bool
  pub w : World
  pub delivered : Bytes
  pub run : o ≡ finished result w delivered
  pub rest : Bytes
  pub parts : whole ≡ delivered ++ rest
  pub cells : Cells
  pub ready : IsCache w.store cells

-- No cache of the items `cs`, after any eviction, has an item at the address `p`.
abbrev pub IsNew : ℕ → Cells → Type 0
IsNew p cs = (need : ℕ) → has p (addresses (evict need cs)) ≡ false

module _ (fuel : ℕ) (calls : Calls) (host : Bytes) (port : ℕ) (temp_req : Bytes) (cs : Cells)
    (sends : Sends calls.send) (short : footprint (length (answer calls.answers)) temp_req < 2 ^ 30)
    (enough : suc (length (answer calls.answers)) < suc fuel)
    (new : IsNew calls.copy.element cs) where
  after_relay-IsFinished :
      (fd : ℕ) (w : World)
      → IsCache w.store cs
      → IsFinished (answer calls.answers) (
          after_relay
            (suc fuel)
            calls
            host
            port
            temp_req
            fd
            w
            (relay (suc fuel) calls.send calls.realloc calls.answers relay_start))
  unfolding clean_up
  after_relay-IsFinished fd w c =
      let (r, run, is) =
        relay-IsRelayed (suc fuel) calls.send calls.realloc calls.answers sends
          (omega (arith, short)) enough in
      let size = ap (length {0}) is.parts in
      let lens = length-append r.delivered is.rest in
      let size' = ap (length {0}) is.delivered in
      let lens' = length-append r.copied is.partial in
      let (t, added_it, ct) =
        add_cache_element-added fuel calls.copy r.copied (length r.copied) temp_req cs c
          (omega (arith, short, size, lens, size', lens'))
          (new (footprint (length r.copied) temp_req)) in
      record {
        result = true;
        w = given_back (suc fuel) calls host port temp_req fd (record w { store = t });
        delivered = r.delivered;
        run =
            ap (after_relay (suc fuel) calls host port temp_req fd w) run
            ∙ ap (after_add (suc fuel) calls host port temp_req fd w r.delivered) added_it;
        rest = is.rest;
        parts = is.parts;
        cells = added calls.copy r.copied (length r.copied) temp_req cs;
        ready = ct;
      }

  failed-IsFinished :
      (w : World) → IsCache w.store cs → IsFinished (answer calls.answers) (finished false w [])
  failed-IsFinished w c = record {
    result = false;
    w = w;
    delivered = [];
    run = refl;
    rest = answer calls.answers;
    parts = refl;
    cells = cs;
    ready = c;
  }

  with_temp-IsFinished :
      (fd : ℕ) (w : World) (given : Bool)
      → IsCache w.store cs
      → IsFinished (answer calls.answers) (with_temp (suc fuel) calls host port temp_req fd w given)
  with_temp-IsFinished fd w true c = after_relay-IsFinished fd w c
  with_temp-IsFinished fd w false c = failed-IsFinished (record w { shut = w.shut ++ fd ∷ [] }) c

  exchange-IsFinished :
      (fd : ℕ) (w : World) (sent : Option ℕ)
      → IsCache w.store cs
      → IsFinished (answer calls.answers) (exchange (suc fuel) calls host port temp_req fd w sent)
  unfolding exchange
  exchange-IsFinished fd w none c = failed-IsFinished (record w { shut = w.shut ++ fd ∷ [] }) c
  exchange-IsFinished fd w (some n) c = with_temp-IsFinished fd w calls.temp_given c

  with_socket-IsFinished :
      (memory text : Bytes) (w : World) (fd : Option ℕ)
      → c_str memory ≡ Result.ok text
      → IsCache w.store cs
      → IsFinished
          (answer calls.answers)
          (with_socket (suc fuel) calls host port temp_req memory w fd)
  with_socket-IsFinished memory text w none e c = failed-IsFinished w c
  with_socket-IsFinished memory text w (some fd) e c =
      subst
        (λ r.
          IsFinished (answer calls.answers) (with_text (suc fuel) calls host port temp_req fd w r))
        (sym e) (exchange-IsFinished fd w calls.request_sent c)

-- A call of handle_request comes back, whatever fails, once the request for the server is written
-- and has an end: the client then has the front of the answer and the cache is in order. The cache
-- is in order before and the buckets are counted. The fuel is more than the host's bucket has
-- connections and than the answer has bytes, and the answer and its key are shorter than 2 ^ 30. A
-- `send` fails or sends at least one byte, and the memory for the cache is at an address that none
-- of its items has.
pub handle_request-IsFinished :
    (fuel : ℕ) (atoi : Bytes → ℕ) (calls : Calls) (l : RequestLine) (h : Headers) (temp_req : Bytes)
    (w : World) (raw memory text : Bytes) (cs : Cells)
    → Sends calls.send
    → footprint (length (answer calls.answers)) temp_req < 2 ^ 30
    → suc (length (answer calls.answers)) < suc fuel
    → IsNew calls.copy.element cs
    → IsCache w.store cs
    → IsPools w.pools
    → length (w.pools (pool_hash l.host)).head < suc fuel
    → calls.buf ≡ some raw
    → upstream_memory calls.headers_given raw l h ≡ Result.ok memory
    → c_str memory ≡ Result.ok text
    → IsFinished (answer calls.answers) (handle_request (suc fuel) atoi calls l h temp_req w)
unfolding handle_request with_buf with_memory
handle_request-IsFinished fuel atoi calls l h temp_req w raw memory text cs sends short enough new c
      pools room buf written ended =
    let port = server_port atoi l.port in
    let (pooled, first, g, run, counts) =
      connect_remote_server-count calls.probe calls.net l.host port (suc fuel) w.pools 0 pools
        room in
    let w' = world_of w g in
    let shape : with_socket (suc fuel) calls l.host port temp_req memory w' g.fd
        ≡ handle_request (suc fuel) atoi calls l h temp_req w =
      ground (arith, buf, written, run) in
    subst (IsFinished (answer calls.answers)) shape (
      with_socket-IsFinished fuel calls l.host port temp_req cs sends short enough new memory text
        w' g.fd ended c)
