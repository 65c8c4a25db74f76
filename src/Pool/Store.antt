-- ===== src/Pool/Store.antt =====
-- The buckets and the operations of the pool. What the socket calls answer is an argument.
use multi_threaded_proxy_ser.Base.{
  ℕ, zero, suc, ◌+◌, ◌-◌, ◌/◌, Bool, true, false, not, ◌&&◌, ◌||◌, Option, none, some, List, [],
  ◌∷◌, ◌++◌, Bytes, same, ◌==◌, if◌then◌else◌, leb, take,
}
use multi_threaded_proxy_ser.Hash.{pool_hash, max_host_buckets}

abbrev pub max_pool_size : ℕ
max_pool_size = 100

-- `host` is what the 256 bytes of the field hold before the terminator.
pub record PooledConnection : Type 0 where
  pub host : Bytes
  pub port : ℕ
  pub socket_fd : ℕ
  pub last_used : ℕ

pub record ConnectionPool : Type 0 where
  pub head : List PooledConnection
  pub count : ℕ

abbrev pub HostPools : Type 0
HostPools = ℕ → ConnectionPool

-- What `recv(fd, buf, 1, MSG_PEEK | MSG_DONTWAIT)` returns, with `errno` where it fails.
pub data Peek : Type 0 where
  ready : Peek
  closed : Peek
  failed : (errno : ℕ) → Peek

-- The answers of `getsockopt(SO_ERROR)` and of the peek.
pub record Probe : Type 0 where
  pub retval : ℕ
  pub error : ℕ
  pub res : Peek

-- EAGAIN and EWOULDBLOCK, which are one number on Linux.
abbrev pub eagain : ℕ
eagain = 11

abbrev peek_alive : Peek → Bool
peek_alive ready = true
peek_alive closed = false
peek_alive (failed errno) = errno == eagain

unfoldable pub is_connection_alive : Probe → Bool
is_connection_alive p =
    if not (p.retval == 0) || not (p.error == 0) then false else peek_alive p.res

abbrev pub no_connections : ConnectionPool
no_connections = record { head = []; count = 0 }

-- The pools that init_connection_pool leaves.
unfoldable pub initial_pools : HostPools
initial_pools i = no_connections

abbrev pub set_pool : HostPools → ℕ → ConnectionPool → HostPools
set_pool pools i b j = if i == j then b else pools j

-- The test of the loop in get_from_pool.
abbrev pub matches : Bytes → ℕ → PooledConnection → Bool
matches host port c = same c.host host && c.port == port

abbrev pub cons_rest :
    PooledConnection
    → Option (PooledConnection × List PooledConnection)
    → Option (PooledConnection × List PooledConnection)
cons_rest c none = none
cons_rest c (some (d, l)) = some (d, c ∷ l)

-- The walk along a bucket: the first match, and the bucket without it.
unfoldable pub unlink :
    Bytes → ℕ → List PooledConnection → Option (PooledConnection × List PooledConnection)
unlink host port [] = none
unlink host port (c ∷ l) =
    if matches host port c then some (c, l) else cons_rest c (unlink host port l)

-- What get_from_pool leaves: the descriptor (`none` for -1), the buckets, and the descriptors that
-- it closed, in order.
pub record Got : Type 0 where
  pub fd : Option ℕ
  pub pools : HostPools
  pub shut : List ℕ

abbrev pub also_shut : ℕ → Option Got → Option Got
also_shut fd none = none
also_shut fd (some g) = some (record g { shut = fd ∷ g.shut })

-- `none` means that the fuel ran out. The recursive call is the code's retry.
unfoldable pub get_from_pool : ℕ → (ℕ → Probe) → Bytes → ℕ → HostPools → Option Got
get_from_pool zero probe host port pools = none
get_from_pool (suc fuel) probe host port pools =
    let index = pool_hash host in
    let b = pools index in
    elim (unlink host port b.head) [
      | none ↦ some (record { fd = none; pools = pools; shut = [] })
      | some (c, rest) ↦
          let pools' = set_pool pools index (record { head = rest; count = b.count - 1 }) in
          let retry = also_shut c.socket_fd (get_from_pool fuel probe host port pools') in
          if is_connection_alive (probe c.socket_fd)
          then some (record { fd = some c.socket_fd; pools = pools'; shut = [] })
          else retry
    ]

-- `strncpy(entry->host, host, 255)` and the terminator: what the field then holds.
unfoldable pub host_field : Bytes → Bytes
host_field host = take 255 host

-- What return_to_pool leaves: its result, the buckets, and whether it closed the socket.
pub record Returned : Type 0 where
  pub kept : Bool
  pub pools : HostPools
  pub shut : Bool

-- `alloc` says whether `malloc` gives an entry, `now` is `time(NULL)`.
unfoldable pub return_to_pool : Bool → ℕ → Probe → Bytes → ℕ → ℕ → HostPools → Returned
return_to_pool alloc now probe host port fd pools =
    let index = pool_hash host in
    let b = pools index in
    let entry : PooledConnection = record {
      host = host_field host;
      port = port;
      socket_fd = fd;
      last_used = now;
    } in
    if not (is_connection_alive probe)
    then record { kept = false; pools = pools; shut = true }
    else if leb (max_pool_size / max_host_buckets) b.count || not alloc
    then record { kept = false; pools = pools; shut = true }
    else record {
      kept = true;
      pools = set_pool pools index (record { head = entry ∷ b.head; count = b.count + 1 });
      shut = false;
    }

abbrev pub fds : List PooledConnection → List ℕ
fds [] = []
fds (c ∷ l) = c.socket_fd ∷ fds l

-- The loop over the first `n` buckets, which empties them; with the sockets that it closes.
unfoldable pub cleanup_loop : ℕ → HostPools → HostPools × List ℕ
cleanup_loop zero pools = (pools, [])
cleanup_loop (suc n) pools =
    let (rest, shut) = cleanup_loop n pools in
    (set_pool rest n (record { head = []; count = 0 }), shut ++ fds (pools n).head)

unfoldable pub cleanup_connection_pool : HostPools → HostPools × List ℕ
unfolding cleanup_loop
cleanup_connection_pool = cleanup_loop max_host_buckets
