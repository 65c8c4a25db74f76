-- ===== src/Server/Main.antt =====
-- main of both servers up to its loop: what it sets up, and when it gives up.
use multi_threaded_proxy_ser.Base.{
  ℕ, zero, suc, ◌%◌, ◌^◌, Bool, Option, none, some, List, [], ◌∷◌, Bytes, ◌==◌, if◌then◌else◌,
}
use multi_threaded_proxy_ser.Hash.{hash_table_size, max_pending, max_host_buckets}
use multi_threaded_proxy_ser.Cache.Store
use multi_threaded_proxy_ser.Cache.Store.{Heap, Store, null}
use multi_threaded_proxy_ser.Cache.Lru.{lru_init}
use multi_threaded_proxy_ser.Pending.Table.{Pending}
use multi_threaded_proxy_ser.Pool.Store.{HostPools, no_connections, initial_pools}
use multi_threaded_proxy_ser.Worker.Accept.{accepting_start, max_clients}
use multi_threaded_proxy_ser.Server.System.{Server}
use multi_threaded_proxy_ser.Earlier.Cache as Earlier

-- The arguments of the program, what `atoi` makes of the port, and the answers of `socket`, of `bind`
-- for a socket and the port in `sin_port`, and of `listen`. The result of setsockopt is not used.
pub record Calls : Type 0 where
  pub args : List Bytes
  pub atoi : Bytes → ℕ
  pub socket : Option ℕ
  pub bind : ℕ → ℕ → Bool
  pub listen : ℕ → Bool

-- `exited` is the call of `exit`, and `serving` the state in front of the loop, with the socket that
-- main accepts connections on.
pub data Outcome (A : Type 0) : Type 0 where
  exited : (status : ℕ) → Outcome A
  serving : (proxy_socket : ℕ) → A → Outcome A

abbrev pub on_listen : {A : Type 0} → Calls → A → ℕ → Outcome A
on_listen calls s fd = if calls.listen fd then serving fd s else exited 1

abbrev pub on_socket : {A : Type 0} → Calls → A → ℕ → Option ℕ → Outcome A
on_socket calls s port none = exited 1
on_socket calls s port (some fd) = if calls.bind fd port then on_listen calls s fd else exited 1

-- From the test of `argc` on, which is the same code in both servers. `atoi` gives the bit pattern
-- of an `int`, of which htons takes the low 16 bits.
unfoldable pub open_port : {A : Type 0} → Calls → List Bytes → A → Outcome A
open_port calls (name ∷ port ∷ []) s = on_socket calls s (calls.atoi port % 2 ^ 16) calls.socket
open_port calls args s = exited 1

-- The loop that writes `x` to the first `n` places of a table.
unfoldable pub clear_table : {A : Type 0} → A → ℕ → (ℕ → A) → ℕ → A
clear_table x zero table = table
clear_table x (suc n) table =
    let before = clear_table x n table in λ i. if i == n then x else before i

-- init_connection_pool
unfoldable pub init_connection_pool : HostPools → HostPools
unfolding clear_table
init_connection_pool pools = clear_table no_connections max_host_buckets pools

-- The globals.
pub record Globals : Type 0 where
  pub store : Store
  pub pending : Pending
  pub pools : HostPools

-- The globals as C sets them to zero.
abbrev pub zeroed : Heap → Globals
zeroed h = record {
  store = record {
    heap = h;
    lru_head = null;
    lru_tail = null;
    hash_table = λ i. null;
    cache_size = 0;
  };
  pending = record { heap = λ p. none; pending_table = λ i. [] };
  pools = initial_pools;
}

abbrev pub state_of : {A : Type 0} → Store → Store.Run A → Store
state_of s (Store.ok a t) = t
state_of s Store.fault = s
state_of s Store.out_of_fuel = s

-- `lru_init`, `init_connection_pool`, the cleared tables with their sizes, and the semaphore, on
-- the globals `g`.
unfoldable pub set_up : ℕ → ℕ → Globals → Server × HostPools
unfolding lru_init init_connection_pool clear_table
set_up buckets keys g =
    let store = state_of g.store (lru_init g.store) in
    (
      record {
        accepting = accepting_start;
        accepted = [];
        starting = [];
        seamaphore = max_clients;
        idle = 0;
        pending = record {
          mem = record g.pending { pending_table = clear_table [] keys g.pending.pending_table };
          fetching = [];
          waiting = [];
          leaving = [];
        };
        cache = record store { hash_table = clear_table null buckets store.hash_table };
        served = [];
      },
      init_connection_pool g.pools,
    )

-- proxy_server_with_cache.c
unfoldable pub main : Calls → Globals → Outcome (Server × HostPools)
unfolding set_up open_port
main calls g = open_port calls calls.args (set_up hash_table_size max_pending g)

-- proxy_server_without_cache.c: nothing but the semaphore is set up, and the cache is empty.
unfoldable pub earlier_main : Calls → Outcome (ℕ × Earlier.Cache)
unfolding open_port Earlier.empty_cache
earlier_main calls = open_port calls calls.args (max_clients, Earlier.empty_cache)
