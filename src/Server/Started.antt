-- ===== src/Server/Started.antt =====
-- The state in which main comes to its loop.
use multi_threaded_proxy_ser.Base.{
  ℕ, zero, suc, ◌%◌, ◌^◌, ◌≡◌, refl, ap, ◌∙◌, fun_ext, Bool, true, false, ◌&&◌, Option, none, some,
  List, [], ◌∷◌, Bytes, arith, Bool-cases, inl, inr, ltb, if◌then◌else◌,
}
use multi_threaded_proxy_ser.Hash.{hash_table_size, max_pending, max_host_buckets}
use multi_threaded_proxy_ser.Cache.Store.{Heap, null}
use multi_threaded_proxy_ser.Cache.Lru.{lru_init}
use multi_threaded_proxy_ser.Pool.Store.{HostPools, no_connections, initial_pools}
use multi_threaded_proxy_ser.Worker.Accept.{accepting_start, max_clients}
use multi_threaded_proxy_ser.Server.System.{Server, server_start}
use multi_threaded_proxy_ser.Server.Main.{
  Calls, Globals, Outcome, exited, serving, on_socket, open_port, clear_table, init_connection_pool,
  zeroed, set_up, main,
}

-- The loop writes the first `n` places and no other.
clear_table_lem :
    {A : Type 0} (x : A) (n : ℕ) (table : ℕ → A) (i : ℕ)
    → clear_table x n table i ≡ (if ltb i n then x else table i)
unfolding clear_table
clear_table_lem x zero table i = ground arith
clear_table_lem x (suc n) table i = ground (arith, clear_table_lem x n table i)

clear_table-same :
    {A : Type 0} (x : A) (n : ℕ) (table : ℕ → A)
    → ((i : ℕ) → table i ≡ x)
    → (i : ℕ) → clear_table x n table i ≡ x
clear_table-same x n table e i = ground (arith, clear_table_lem x n table i, e i)

-- On globals that are zero, main sets up the state from which the server starts.
pub set_up-server_start :
    (buckets keys : ℕ) (h : Heap) → set_up buckets keys (zeroed h) ≡ (server_start h, initial_pools)
unfolding set_up lru_init init_connection_pool initial_pools
set_up-server_start buckets keys h =
    let heads = fun_ext (clear_table-same null buckets (λ i. null) (λ i. refl)) in
    let entries = fun_ext (clear_table-same {A = List ℕ} [] keys (λ i. []) (λ i. refl)) in
    let pools = fun_ext (clear_table-same no_connections max_host_buckets _ (λ i. refl)) in
    λ j. (
      record (server_start h) {
        pending = record {
          mem = record { heap = λ p. none; pending_table = entries j };
          fetching = [];
          waiting = [];
          leaving = [];
        };
        cache = record {
          heap = h;
          lru_head = null;
          lru_tail = null;
          hash_table = heads j;
          cache_size = 0;
        };
      },
      pools j,
    )

-- The semaphore is at MAX_CLIENTS, nobody is connected, the list of the cache is empty, and so is
-- each bucket of the three tables; what lies behind the tables is as it was in `g`, and so are the
-- counter of the cache and the memory.
pub record IsReady (g : Globals) (s : Server) (pools : HostPools) : Type 0 where
  pub seamaphore : s.seamaphore ≡ max_clients
  pub accepting : s.accepting ≡ accepting_start
  pub starting : s.starting ≡ []
  pub idle : s.idle ≡ 0
  pub lru_head : s.cache.lru_head ≡ null
  pub lru_tail : s.cache.lru_tail ≡ null
  pub hash_table :
      (i : ℕ)
      → s.cache.hash_table i ≡ (if ltb i hash_table_size then null else g.store.hash_table i)
  pub cache_size : s.cache.cache_size ≡ g.store.cache_size
  pub heap : s.cache.heap ≡ g.store.heap
  pub pending_table :
      (i : ℕ)
      → s.pending.mem.pending_table i
        ≡ (if ltb i max_pending then [] else g.pending.pending_table i)
  pub entries : s.pending.mem.heap ≡ g.pending.heap
  pub host_pools :
      (i : ℕ) → pools i ≡ (if ltb i max_host_buckets then no_connections else g.pools i)

set_up-IsReady : (g : Globals) → let s = set_up hash_table_size max_pending g in IsReady g s.0 s.1
unfolding set_up lru_init init_connection_pool
set_up-IsReady g = record {
  seamaphore = refl;
  accepting = refl;
  starting = refl;
  idle = refl;
  lru_head = refl;
  lru_tail = refl;
  hash_table = clear_table_lem null hash_table_size g.store.hash_table;
  cache_size = refl;
  heap = refl;
  pending_table = clear_table_lem {A = List ℕ} [] max_pending g.pending.pending_table;
  entries = refl;
  host_pools = clear_table_lem no_connections max_host_buckets g.pools;
}

-- There is one argument, and a socket that can be bound to the low 16 bits of its number and
-- listens.
abbrev pub ready : Calls → List Bytes → Option ℕ → Bool
ready calls (name ∷ port ∷ []) (some fd) =
    calls.bind fd (calls.atoi port % 2 ^ 16) && calls.listen fd
ready calls args fd = false

-- The server has been set up on a socket that listens at the port that was given, or has given up
-- with the status 1, for want of such a socket or of one argument.
abbrev pub IsStarted : Calls → Globals → Outcome (Server × HostPools) → Type 0
IsStarted calls g (exited status) = (status ≡ 1) × (ready calls calls.args calls.socket ≡ false)
IsStarted calls g (serving fd (s, pools)) =
    IsReady g s pools
    × (calls.socket ≡ some fd)
    × (calls.listen fd ≡ true)
    × ((name : Bytes) × (port : Bytes) × (calls.args ≡ name ∷ port ∷ [])
        × (calls.bind fd (calls.atoi port % 2 ^ 16) ≡ true))

no_descriptor : (calls : Calls) (args : List Bytes) → ready calls args none ≡ false
no_descriptor calls [] = refl
no_descriptor calls (name ∷ []) = refl
no_descriptor calls (name ∷ port ∷ []) = refl
no_descriptor calls (name ∷ port ∷ x ∷ args) = refl

no_socket :
    (calls : Calls) (args : List Bytes)
    → calls.socket ≡ none
    → ready calls args calls.socket ≡ false
no_socket calls args e = ap (ready calls args) e ∙ no_descriptor calls args

not_ready :
    (calls : Calls) (fd : ℕ) (name port : Bytes)
    → calls.socket ≡ some fd
    → calls.args ≡ name ∷ port ∷ []
    → (calls.bind fd (calls.atoi port % 2 ^ 16) && calls.listen fd) ≡ false
    → ready calls calls.args calls.socket ≡ false
not_ready calls fd name port e given f =
    ap (λ l. ready calls l calls.socket) given ∙ ap (ready calls (name ∷ port ∷ [])) e ∙ f

other_args :
    (calls : Calls) (args : List Bytes)
    → calls.args ≡ args
    → ((o : Option ℕ) → ready calls args o ≡ false)
    → ready calls calls.args calls.socket ≡ false
other_args calls args given f = ap (λ l. ready calls l calls.socket) given ∙ f calls.socket

module _ (calls : Calls) (g : Globals) (s : Server) (pools : HostPools)
    (set : IsReady g s pools) where
  on_socket-IsStarted :
      (name port : Bytes) (fd : Option ℕ)
      → calls.args ≡ name ∷ port ∷ []
      → calls.socket ≡ fd
      → IsStarted calls g (on_socket calls (s, pools) (calls.atoi port % 2 ^ 16) fd)
  on_socket-IsStarted name port none given e = (refl, no_socket calls calls.args e)
  on_socket-IsStarted name port (some fd) given e =
      elim (Bool-cases (calls.bind fd (calls.atoi port % 2 ^ 16))) [
        | inr f ↦ rw f (refl, not_ready calls fd name port e given (ground (arith, f)))
        | inl f ↦ elim (Bool-cases (calls.listen fd)) [
          | inr g ↦ rw (f, g) (refl, not_ready calls fd name port e given (ground (arith, f, g)))
          | inl g ↦ rw (f, g) (set, e, g, (name, port, given, f))
        ]
      ]

  open_port-IsStarted :
      (args : List Bytes) → calls.args ≡ args → IsStarted calls g (open_port calls args (s, pools))
  unfolding open_port
  open_port-IsStarted [] given = (refl, other_args calls [] given (λ o. refl))
  open_port-IsStarted (name ∷ []) given = (refl, other_args calls (name ∷ []) given (λ o. refl))
  open_port-IsStarted (name ∷ port ∷ []) given =
      on_socket-IsStarted name port calls.socket given refl
  open_port-IsStarted (name ∷ port ∷ x ∷ args) given =
      (refl, other_args calls (name ∷ port ∷ x ∷ args) given (λ o. refl))

-- main comes to its loop only with one argument, on a socket that listens and is bound to the low 16
-- bits of the number that the argument gives; else it exits with the status 1. In front of the loop
-- the list of the cache and each bucket of hash_table, pending_table and host_pools are empty and
-- the semaphore is at MAX_CLIENTS, whatever the globals were; main writes nothing behind the tables
-- and does not touch the counter of the cache.
pub main-IsStarted : (calls : Calls) (g : Globals) → IsStarted calls g (main calls g)
unfolding main
main-IsStarted calls g =
    let s = set_up hash_table_size max_pending g in
    open_port-IsStarted calls g s.0 s.1 (set_up-IsReady g) calls.args refl
