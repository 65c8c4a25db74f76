-- ===== src/Earlier/Handle.antt =====
-- connectRemoteServer and handle_request of proxy_server_without_cache.c. What the calls of the
-- system answer is an argument.
use multi_threaded_proxy_ser.Base.{
  ℕ, Bool, true, false, ◌&&◌, Option, none, some, List, [], ◌∷◌, Bytes, if◌then◌else◌,
}
use multi_threaded_proxy_ser.Headers.Store.{Headers}
use multi_threaded_proxy_ser.Request.Token.{Result, c_str}
use multi_threaded_proxy_ser.Request.Line.{RequestLine}
use multi_threaded_proxy_ser.Handle.Upstream.{earlier_memory}
use multi_threaded_proxy_ser.Earlier.Relay
use multi_threaded_proxy_ser.Earlier.Relay.{relay, relay_start}

-- The answers in their order: `realloc` of the headers, `socket`, whether gethostbyname and
-- `connect` succeed, `malloc` of `temp_buffer`, each `recv`, `send` to the client, and `realloc`.
-- The result of sending the request is not looked at.
pub record Calls : Type 0 where
  pub headers_given : Bool
  pub socket : Option ℕ
  pub resolved : Bool
  pub connected : Bool
  pub temp_given : Bool
  pub answers : List Bytes
  pub send : ℕ → ℕ → Option ℕ
  pub realloc : ℕ → Bool

-- The result of connectRemoteServer, `none` for -1, and the sockets that it leaves open.
unfoldable pub connect_remote_server : Calls → Option ℕ × List ℕ
connect_remote_server calls = elim calls.socket [
  | none ↦ (none, [])
  | some fd ↦ (if calls.resolved && calls.connected then some fd else none, fd ∷ [])
]

-- `result` is true for 0 and false for -1; `left_open` are the sockets that were opened and not
-- closed, and `delivered` is what the client got. `fault` is an access outside of the memory.
pub data Handled : Type 0 where
  finished : (result : Bool) (left_open : List ℕ) (delivered : Bytes) → Handled
  fault : Handled

module _ (calls : Calls) where
  abbrev pub after_relay : List ℕ → Relay.Outcome → Handled
  after_relay left_open (Relay.done r) = finished true left_open r.delivered
  after_relay left_open Relay.full = fault

  -- From `send` of the request on. Without memory the terminator is written through NULL.
  abbrev pub exchange : List ℕ → Result Bytes → Handled
  exchange left_open (Result.ok text) =
      if calls.temp_given
      then after_relay left_open (relay calls.send calls.realloc calls.answers relay_start)
      else fault
  exchange left_open Result.rejected = fault
  exchange left_open Result.fault = fault

  abbrev pub with_socket : Bytes → Option ℕ × List ℕ → Handled
  with_socket memory (none, left_open) = finished false left_open []
  with_socket memory (some fd, left_open) = exchange left_open (c_str memory)

  abbrev pub with_memory : Result Bytes → Handled
  with_memory (Result.ok memory) = with_socket memory (connect_remote_server calls)
  with_memory Result.rejected = fault
  with_memory Result.fault = fault

unfoldable pub handle_request : Calls → RequestLine → Headers → Handled
unfolding earlier_memory connect_remote_server relay c_str
handle_request calls l h = with_memory calls (earlier_memory calls.headers_given l h)
