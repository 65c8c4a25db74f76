-- ===== src/Tests/Pool.antt =====
-- Runs of the connection pool: a socket is returned, handed out again, found dead, and closed.
use multi_threaded_proxy_ser.Base.{
  ℕ, zero, suc, ◌≤◌, ◌<◌, ◌≡◌, refl, true, false, none, some, [], ◌∷◌, Bytes, bytes, length, arith,
  ◌==◌, if◌then◌else◌,
}
use multi_threaded_proxy_ser.Hash.{pool_hash}
use multi_threaded_proxy_ser.Pool.Store.{
  HostPools, Probe, ready, closed, is_connection_alive, Got, Returned, initial_pools, get_from_pool,
  return_to_pool,
}
use multi_threaded_proxy_ser.Pool.Get.{scan, IsOutcome, get_from_pool-scan}
use multi_threaded_proxy_ser.Pool.Bounds.{IsPools, init-IsPools, return_to_pool-IsPools}
use multi_threaded_proxy_ser.Pool.Reuse.{get_from_pool-return_to_pool}
use multi_threaded_proxy_ser.Pool.Store.{unlink}
use multi_threaded_proxy_ser.Pool.Connect.{Network, connect_remote_server, open_new}
use multi_threaded_proxy_ser.Pool.Shared.{Shared, Reach, started, later, connect, give_back}
use multi_threaded_proxy_ser.Pool.Held.{IsShared, Reach-IsShared}

abbrev server : Bytes
server = bytes "a.org"

abbrev live : Probe
live = record { retval = 0; error = 0; res = ready }

-- Socket 7 is closed by the server, every other is alive.
abbrev probes : ℕ → Probe
probes fd = if fd == 7 then record live { res = closed } else live

abbrev one_socket : HostPools
one_socket = (return_to_pool true 100 live server 80 7 initial_pools).pools

abbrev two_sockets : HostPools
two_sockets = (return_to_pool true 101 live server 80 8 one_socket).pools

one_socket-IsPools : IsPools one_socket
one_socket-IsPools = return_to_pool-IsPools true 100 live server 80 7 initial_pools init-IsPools

two_sockets-IsPools : IsPools two_sockets
two_sockets-IsPools = return_to_pool-IsPools true 101 live server 80 8 one_socket one_socket-IsPools

bucket-few : length (two_sockets (pool_hash server)).head < 3
bucket-few = omega (arith, (two_sockets-IsPools (pool_hash server)).few)

get_from_pool-scan_example :
    (g : Got) × (get_from_pool 3 probes server 80 two_sockets ≡ some g)
    × IsOutcome server two_sockets (scan probes server 80 (two_sockets (pool_hash server)).head) g
get_from_pool-scan_example =
    get_from_pool-scan probes server 80 3 two_sockets
      (two_sockets-IsPools (pool_hash server)).counted bucket-few

server-short : length server ≤ 255
server-short = omega arith

live-IsAlive : is_connection_alive live ≡ true
unfolding is_connection_alive
live-IsAlive = refl

one_socket-room : (one_socket (pool_hash server)).count < 2
unfolding return_to_pool initial_pools is_connection_alive
one_socket-room = ground arith

get_from_pool-return_to_pool_example :
    (r : Returned) × (return_to_pool true 101 live server 80 8 one_socket ≡ r)
    × (r.kept ≡ true)
    × (r.shut ≡ false)
    × (g : Got) × (get_from_pool 3 probes server 80 r.pools ≡ some g)
    × (g.fd ≡ some 8)
    × (g.shut ≡ [])
    × (g.pools (pool_hash server) ≡ one_socket (pool_hash server))
get_from_pool-return_to_pool_example =
    get_from_pool-return_to_pool 101 server 80 8 one_socket live probes 0 one_socket-IsPools
      server-short live-IsAlive live-IsAlive one_socket-room

abbrev repeated : ℕ → Bytes
repeated zero = []
repeated (suc n) = 97 ∷ repeated n

abbrev long_server : Bytes
long_server = repeated 300

abbrev long_sockets : HostPools
long_sockets = (return_to_pool true 100 live long_server 80 7 initial_pools).pools

long_sockets-IsPools : IsPools long_sockets
long_sockets-IsPools =
    return_to_pool-IsPools true 100 live long_server 80 7 initial_pools init-IsPools

-- Both pooled connections are to another port, and the new one is refused.
abbrev refused : Network
refused = record { socket = some 9; resolved = true; connected = false }

-- A thread opens socket 8, for which the pool has none to give, and gives it back.
abbrev network : Network
network = record { socket = some 8; resolved = true; connected = true }

abbrev none_yet : Got
none_yet = record { fd = none; pools = initial_pools; shut = [] }

abbrev new_one : Got
new_one = record none_yet { fd = some 8 }

pool_misses : get_from_pool 1 probes server 80 initial_pools ≡ some none_yet
unfolding get_from_pool unlink initial_pools
pool_misses = refl

connects : connect_remote_server 1 probes network server 80 initial_pools ≡ some new_one
unfolding connect_remote_server get_from_pool unlink open_new initial_pools
connects = refl

few_at_first : length (initial_pools (pool_hash server)).head < 1
unfolding initial_pools
few_at_first = omega arith

abbrev given_back : Shared
given_back = record {
  pools = (return_to_pool true 100 live server 80 8 initial_pools).pools;
  in_use = [];
  opened_ones = 8 ∷ [];
  closed_ones =
      if (return_to_pool true 100 live server 80 8 initial_pools).shut then 8 ∷ [] else [];
}

shares : Reach given_back
shares =
    later (later started (connect 1 probes network server 80 few_at_first pool_misses connects))
      (give_back [] 8 [] true 100 live server 80 refl)

Reach-IsShared_example : IsShared given_back
Reach-IsShared_example = Reach-IsShared shares
