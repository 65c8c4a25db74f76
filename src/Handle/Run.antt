-- ===== src/Handle/Run.antt =====
-- handle_request of proxy_server_with_cache.c from its first line to its last, by a thread that no
-- other interrupts. What the calls of the system answer is an argument.
use multi_threaded_proxy_ser.Base.{
  ℕ, Bool, true, false, Option, none, some, List, [], ◌∷◌, ◌++◌, Bytes, if◌then◌else◌, length,
}
use multi_threaded_proxy_ser.Headers.Store.{Headers}
use multi_threaded_proxy_ser.Request.Token.{Result, c_str}
use multi_threaded_proxy_ser.Request.Line.{RequestLine}
use multi_threaded_proxy_ser.Cache.Store
use multi_threaded_proxy_ser.Cache.Store.{Store}
use multi_threaded_proxy_ser.Cache.Ops.{Allocation, add_cache_element}
use multi_threaded_proxy_ser.Pool.Store.{HostPools, Probe, Got, return_to_pool}
use multi_threaded_proxy_ser.Pool.Connect.{Network, connect_remote_server}
use multi_threaded_proxy_ser.Relay.Loop
use multi_threaded_proxy_ser.Relay.Loop.{Relay, relay, relay_start}
use multi_threaded_proxy_ser.Handle.Upstream.{upstream_memory}

-- The answers of the calls, in their order: `malloc` of `buf` (the memory that it finds), `realloc`
-- of the headers, the probes of pooled connections and the calls that open one, `send` of the
-- request, `malloc` of `temp_buffer`, each `recv`, `send` to the client and `realloc`, the memory
-- for the cache, and what return_to_pool asks.
pub record Calls : Type 0 where
  pub buf : Option Bytes
  pub headers_given : Bool
  pub probe : ℕ → Probe
  pub net : Network
  pub request_sent : Option ℕ
  pub temp_given : Bool
  pub answers : List Bytes
  pub send : ℕ → ℕ → Option ℕ
  pub realloc : ℕ → Bool
  pub copy : Allocation
  pub entry_given : Bool
  pub now : ℕ
  pub probe_back : Probe

-- The shared state that the call works on, with the sockets that it has closed.
pub record World : Type 0 where
  pub pools : HostPools
  pub store : Store
  pub shut : List ℕ

-- `result` is true for 0 and false for -1, and `delivered` is what the client got. `fault` is an
-- access outside of the memory.
pub data Handled : Type 0 where
  finished : (result : Bool) (w : World) (delivered : Bytes) → Handled
  fault : Handled
  out_of_fuel : Handled

module _ (fuel : ℕ) (calls : Calls) (host : Bytes) (port : ℕ) (temp_req : Bytes) (fd : ℕ) where
  abbrev pub close_and_fail : World → Handled
  close_and_fail w = finished false (record w { shut = w.shut ++ fd ∷ [] }) []

  -- `return_to_pool(request->host, server_port, remoteSocketID)`
  abbrev pub given_back : World → World
  given_back w =
      let r = return_to_pool calls.entry_given calls.now calls.probe_back host port fd w.pools in
      record w { pools = r.pools; shut = if r.shut then w.shut ++ fd ∷ [] else w.shut }

  abbrev pub after_add : World → Bytes → Store.Run Bool → Handled
  after_add w delivered (Store.Run.ok kept store') =
      finished true (given_back (record w { store = store' })) delivered
  after_add w delivered Store.Run.fault = fault
  after_add w delivered Store.Run.out_of_fuel = out_of_fuel

  -- From the label `cleanup` on.
  unfoldable pub clean_up : World → Relay → Handled
  unfolding add_cache_element return_to_pool
  clean_up w r =
      after_add w r.delivered
        (add_cache_element fuel calls.copy r.copied (length r.copied) temp_req w.store)

  abbrev pub after_relay : World → Loop.Outcome → Handled
  after_relay w (Loop.cleanup r) = clean_up w r
  after_relay w Loop.full = fault
  after_relay w Loop.out_of_fuel = out_of_fuel

  abbrev pub with_temp : World → Bool → Handled
  with_temp w true = after_relay w (relay fuel calls.send calls.realloc calls.answers relay_start)
  with_temp w false = close_and_fail w

  -- From `send` of the request on: the answer, when it succeeds.
  unfoldable pub exchange : World → Option ℕ → Handled
  unfolding relay clean_up
  exchange w none = close_and_fail w
  exchange w (some _) = with_temp w calls.temp_given

  -- `strlen(buf)` is the length of the text in the memory at `buf`.
  abbrev pub with_text : World → Result Bytes → Handled
  with_text w (Result.ok text) = exchange w calls.request_sent
  with_text w Result.rejected = fault
  with_text w Result.fault = fault

abbrev pub world_of : World → Got → World
world_of w g = record { pools = g.pools; store = w.store; shut = w.shut ++ g.shut }

module _ (fuel : ℕ) (calls : Calls) (host : Bytes) (port : ℕ) (temp_req : Bytes) where
  abbrev pub with_socket : Bytes → World → Option ℕ → Handled
  with_socket memory w none = finished false w []
  with_socket memory w (some fd) = with_text fuel calls host port temp_req fd w (c_str memory)

  abbrev pub connected : Bytes → World → Option Got → Handled
  connected memory w none = out_of_fuel
  connected memory w (some g) = with_socket memory (world_of w g) g.fd

  -- From the call of connectRemoteServer on.
  unfoldable pub with_memory : World → Result Bytes → Handled
  unfolding connect_remote_server exchange c_str
  with_memory w (Result.ok memory) =
      connected memory w (connect_remote_server fuel calls.probe calls.net host port w.pools)
  with_memory w Result.rejected = fault
  with_memory w Result.fault = fault

-- `atoi(request->port)` is an argument.
abbrev pub server_port : (Bytes → ℕ) → Option Bytes → ℕ
server_port atoi none = 80
server_port atoi (some p) = atoi p

unfoldable pub with_buf :
    ℕ → (Bytes → ℕ) → Calls → RequestLine → Headers → Bytes → World → Option Bytes → Handled
unfolding upstream_memory with_memory
with_buf fuel atoi calls l h temp_req w none = finished false w []
with_buf fuel atoi calls l h temp_req w (some raw) =
    with_memory fuel calls l.host (server_port atoi l.port) temp_req w
      (upstream_memory calls.headers_given raw l h)

unfoldable pub handle_request :
    ℕ → (Bytes → ℕ) → Calls → RequestLine → Headers → Bytes → World → Handled
unfolding with_buf
handle_request fuel atoi calls l h temp_req w = with_buf fuel atoi calls l h temp_req w calls.buf
