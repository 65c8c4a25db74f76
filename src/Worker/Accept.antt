-- ===== src/Worker/Accept.antt =====
-- The loops of the two servers that accept connections. What `accept` answers is an argument.
use multi_threaded_proxy_ser.Base.{
  ℕ, zero, suc, ◌+◌, ◌%◌, ◌≤◌, ◌<◌, ◌≡◌, refl, ap, ◌∙◌, sym, append_assoc, append-nil, Bool-cases,
  inl, inr, Option, none, some, List, [], ◌∷◌, ◌++◌, ltb, ◌==◌, if◌then◌else◌, length, arith,
}

abbrev pub max_clients : ℕ
max_clients = 400

-- `Connected_socketId`, the index `i`, and for each thread that was started the place that it reads
-- its socket from.
pub record Accepting : Type 0 where
  pub connected_socket_id : ℕ → ℕ
  pub i : ℕ
  pub threads : List ℕ

-- `fault` is a write behind the array, and `stopped` the call of `exit` when `accept` fails.
pub data Accepted : Type 0 where
  waiting : Accepting → Accepted
  stopped : Accepting → Accepted
  fault : Accepted

-- One turn, for the socket that `accept` returns, with `next` for the new index.
abbrev pub start_thread : Accepting → ℕ → ℕ → Accepting
start_thread a socket next = record {
  connected_socket_id = λ j. if j == a.i then socket else a.connected_socket_id j;
  i = next;
  threads = a.threads ++ a.i ∷ [];
}

-- proxy_server_with_cache.c
unfoldable pub accept_loop : List (Option ℕ) → Accepting → Accepted
accept_loop [] a = waiting a
accept_loop (none ∷ answers) a = stopped a
accept_loop (some socket ∷ answers) a =
    let rest = accept_loop answers (start_thread a socket ((a.i + 1) % max_clients)) in
    if ltb a.i max_clients then rest else fault

-- proxy_server_without_cache.c
unfoldable pub accept_all : List (Option ℕ) → Accepting → Accepted
accept_all [] a = waiting a
accept_all (none ∷ answers) a = stopped a
accept_all (some socket ∷ answers) a =
    let rest = accept_all answers (start_thread a socket (suc a.i)) in
    if ltb a.i max_clients then rest else fault

abbrev pub accepting_start : Accepting
accepting_start = record { connected_socket_id = λ j. 0; i = 0; threads = [] }

-- The sockets that `accept` returns one after the other.
abbrev pub all_some : List ℕ → List (Option ℕ)
all_some [] = []
all_some (s ∷ l) = some s ∷ all_some l

-- The places that threads read their sockets from, in the order of the connections.
abbrev pub places : ℕ → ℕ → List ℕ
places i zero = []
places i (suc n) = i % max_clients ∷ places (suc i) n

-- The socket of the last of the connections `n`, `n + 1`, ... with the place `j`.
abbrev pub last_at : ℕ → ℕ → List ℕ → ℕ → ℕ
last_at j n [] old = old
last_at j n (s ∷ l) old = last_at j (suc n) l (if j == n % max_clients then s else old)

pub record IsAccepting (n : ℕ) (sockets : List ℕ) (before after : Accepting) : Type 0 where
  pub index : after.i ≡ (n + length sockets) % max_clients
  pub slot :
      (j : ℕ) → after.connected_socket_id j ≡ last_at j n sockets (before.connected_socket_id j)
  pub started : after.threads ≡ before.threads ++ places n (length sockets)

accept_loop-from :
    (n : ℕ) (sockets : List ℕ) (a : Accepting)
    → a.i ≡ n % max_clients
    → (b : Accepting) × (accept_loop (all_some sockets) a ≡ waiting b) × IsAccepting n sockets a b
unfolding accept_loop
accept_loop-from n [] a e = (
  a,
  refl,
  record { index = omega (arith, e); slot = λ j. refl; started = sym (append-nil a.threads) },
)
accept_loop-from n (s ∷ sockets) a e =
    let next : (a.i + 1) % max_clients ≡ suc n % max_clients = omega (arith, e) in
    let a' = start_thread a s ((a.i + 1) % max_clients) in
    let (b, run, is) = accept_loop-from (suc n) sockets a' next in
    let inside : a.i < max_clients = omega (arith, e) in
    (
      b,
      ground (arith, run, inside),
      record {
        index = omega (arith, is.index);
        slot = λ j. ground (arith, is.slot j, e);
        started =
            is.started
            ∙ append_assoc a.threads (a.i ∷ []) (places (suc n) (length sockets))
            ∙ ap (λ i. a.threads ++ (i ∷ places (suc n) (length sockets))) e;
      },
    )

-- However many connections are accepted, the loop never writes outside of its array: the index is
-- their number modulo MAX_CLIENTS, each thread reads its socket from the place of its connection's
-- number modulo MAX_CLIENTS, and a place holds the socket of the last connection with that place.
pub accept_loop-IsAccepting :
    (sockets : List ℕ)
    → (b : Accepting) × (accept_loop (all_some sockets) accepting_start ≡ waiting b)
      × IsAccepting 0 sockets accepting_start b
accept_loop-IsAccepting sockets = accept_loop-from 0 sockets accepting_start refl

accept_all-from :
    (sockets : List ℕ) (a : Accepting)
    → max_clients < a.i + length sockets
    → a.i ≤ max_clients
    → accept_all (all_some sockets) a ≡ fault
unfolding accept_all
accept_all-from [] a many inside = absurd (omega (arith, many, inside))
accept_all-from (s ∷ sockets) a many inside = elim (Bool-cases (ltb a.i max_clients)) [
  | inl e ↦
      let below : a.i < max_clients = ground (arith, e) in
      let ih =
        accept_all-from sockets (start_thread a s (suc a.i)) (omega (arith, many))
          (omega (arith, below)) in
      ground (arith, ih, e)
  | inr e ↦ ground (arith, e)
]

-- The loop of the earlier server writes behind its array once more than MAX_CLIENTS connections
-- have been accepted.
pub accept_all-fault :
    (sockets : List ℕ)
    → max_clients < length sockets
    → accept_all (all_some sockets) accepting_start ≡ fault
accept_all-fault sockets many =
    accept_all-from sockets accepting_start (omega (arith, many)) (omega arith)
