-- ===== src/Earlier/Leak.antt =====
-- The earlier handle_request closes no socket.
use multi_threaded_proxy_ser.Base.{
  ℕ, ◌≡◌, refl, subst, Bool, true, false, Option, none, some, List, [], ◌∷◌, Bytes, if◌then◌else◌,
  Option-cases, inl, inr, arith,
}
use multi_threaded_proxy_ser.Headers.Store.{Headers}
use multi_threaded_proxy_ser.Request.Token.{Result, c_str}
use multi_threaded_proxy_ser.Request.Line.{RequestLine}
use multi_threaded_proxy_ser.Handle.Upstream.{earlier_memory}
use multi_threaded_proxy_ser.Earlier.Relay
use multi_threaded_proxy_ser.Earlier.Relay.{relay, relay_start}
use multi_threaded_proxy_ser.Earlier.Handle.{
  Calls, Handled, finished, fault, connect_remote_server, after_relay, exchange, with_socket,
  with_memory, handle_request,
}

abbrev pub opened : Option ℕ → List ℕ
opened none = []
opened (some fd) = fd ∷ []

-- What was opened is open, and a failed call has sent nothing.
abbrev pub LeavesOpen : List ℕ → Handled → Type 0
LeavesOpen l (finished true left_open delivered) = left_open ≡ l
LeavesOpen l (finished false left_open delivered) = (left_open ≡ l) × (delivered ≡ [])
LeavesOpen l fault = Unit {0}

connect_remote_server-opened :
    (calls : Calls) → (connect_remote_server calls).1 ≡ opened calls.socket
unfolding connect_remote_server
connect_remote_server-opened calls = elim (Option-cases calls.socket) [
  | inl e ↦ ground (arith, e)
  | inr (fd, e) ↦ ground (arith, e)
]

module _ (calls : Calls) where
  after_relay-LeavesOpen : (l : List ℕ) (o : Relay.Outcome) → LeavesOpen l (after_relay calls l o)
  after_relay-LeavesOpen l (Relay.done r) = refl
  after_relay-LeavesOpen l Relay.full = tt

  with_temp-LeavesOpen :
      (l : List ℕ) (given : Bool) (o : Relay.Outcome)
      → LeavesOpen l (if given then after_relay calls l o else fault)
  with_temp-LeavesOpen l true o = after_relay-LeavesOpen l o
  with_temp-LeavesOpen l false o = tt

  exchange-LeavesOpen : (l : List ℕ) (text : Result Bytes) → LeavesOpen l (exchange calls l text)
  exchange-LeavesOpen l (Result.ok text) =
      with_temp-LeavesOpen l calls.temp_given
        (relay calls.send calls.realloc calls.answers relay_start)
  exchange-LeavesOpen l Result.rejected = tt
  exchange-LeavesOpen l Result.fault = tt

  with_socket-LeavesOpen :
      (memory : Bytes) (fd : Option ℕ) (l : List ℕ)
      → LeavesOpen l (with_socket calls memory (fd, l))
  with_socket-LeavesOpen memory none l = (refl, refl)
  with_socket-LeavesOpen memory (some fd) l = exchange-LeavesOpen l (c_str memory)

  with_memory-LeavesOpen :
      (memory : Result Bytes) → LeavesOpen (opened calls.socket) (with_memory calls memory)
  with_memory-LeavesOpen (Result.ok memory) =
      let (fd, l) = connect_remote_server calls in
      subst (λ x. LeavesOpen x (with_socket calls memory (connect_remote_server calls)))
        (connect_remote_server-opened calls) (with_socket-LeavesOpen memory fd l)
  with_memory-LeavesOpen Result.rejected = tt
  with_memory-LeavesOpen Result.fault = tt

-- A call of the earlier handle_request that comes back leaves the socket open that it opened to the
-- server, whether it succeeds or fails; if it fails it has sent the client nothing.
pub handle_request-LeavesOpen :
    (calls : Calls) (l : RequestLine) (h : Headers)
    → LeavesOpen (opened calls.socket) (handle_request calls l h)
unfolding handle_request
handle_request-LeavesOpen calls l h =
    with_memory-LeavesOpen calls (earlier_memory calls.headers_given l h)
