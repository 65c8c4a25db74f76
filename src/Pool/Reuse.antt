-- ===== src/Pool/Reuse.antt =====
-- A connection that goes into the pool comes out again, and no descriptor is lost or doubled.
use multi_threaded_proxy_ser.Base.{
  count, ℕ, ◌+◌, ◌≤◌, ◌<◌, ◌≡◌, refl, true, false, Option, none, some, List, [], ◌∷◌, arith, Bytes,
  same_refl, ◌==◌, if◌then◌else◌, length,
}
use multi_threaded_proxy_ser.Hash.{pool_hash}
use multi_threaded_proxy_ser.Pool.Store.{
  PooledConnection, ConnectionPool, HostPools, Probe, is_connection_alive, Got, Returned,
  get_from_pool, return_to_pool, set_pool, fds,
}
use multi_threaded_proxy_ser.Pool.Get.{scan, get_from_pool-scan}
use multi_threaded_proxy_ser.Pool.Bounds.{IsPools, host_field_short}

-- The bucket with one more connection in front.
abbrev pushed : Bytes → ℕ → ℕ → ℕ → ConnectionPool → ConnectionPool
pushed host port fd now b = record {
  head = record { host = host; port = port; socket_fd = fd; last_used = now } ∷ b.head;
  count = b.count + 1;
}

module _ (now : ℕ) (host : Bytes) (port fd : ℕ) (pools : HostPools) where
  return_to_pool-pushed :
      (probe : Probe)
      → length host ≤ 255
      → is_connection_alive probe ≡ true
      → (pools (pool_hash host)).count < 2
      → return_to_pool true now probe host port fd pools ≡ record {
        kept = true;
        pools = set_pool pools (pool_hash host) (pushed host port fd now (pools (pool_hash host)));
        shut = false;
      }
  unfolding return_to_pool
  return_to_pool-pushed probe short alive room = rw (host_field_short host short) (ground arith)

  scan-pushed :
      (probes : ℕ → Probe)
      → is_connection_alive (probes fd) ≡ true
      → scan probes host port (pushed host port fd now (pools (pool_hash host))).head
        ≡ record { fd = some fd; rest = (pools (pool_hash host)).head; shut = [] }
  unfolding scan
  scan-pushed probes alive = ground (arith, same_refl host)

  -- A live connection to a host of at most 255 bytes that is returned while its bucket has room,
  -- with memory for the entry, is kept open. It is the next one handed out for the host and port
  -- if it is still alive then, and the bucket is as it was before.
  pub get_from_pool-return_to_pool :
      (probe : Probe) (probes : ℕ → Probe) (fuel : ℕ)
      → IsPools pools
      → length host ≤ 255
      → is_connection_alive probe ≡ true
      → is_connection_alive (probes fd) ≡ true
      → (pools (pool_hash host)).count < 2
      → (r : Returned) × (return_to_pool true now probe host port fd pools ≡ r)
        × (r.kept ≡ true)
        × (r.shut ≡ false)
        × (g : Got) × (get_from_pool (fuel + 3) probes host port r.pools ≡ some g)
        × (g.fd ≡ some fd)
        × (g.shut ≡ [])
        × (g.pools (pool_hash host) ≡ pools (pool_hash host))
  get_from_pool-return_to_pool probe probes fuel v short alive alive' room =
      let b = pushed host port fd now (pools (pool_hash host)) in
      let pools' = set_pool pools (pool_hash host) b in
      let here : pools' (pool_hash host) ≡ b = ground arith in
      let counted = (v (pool_hash host)).counted in
      let (g, run, r) =
        get_from_pool-scan probes host port (fuel + 3) pools' (ground (arith, here, counted))
          (ground (arith, here, counted)) in
      let first = scan-pushed probes alive' in
      (
        _,
        return_to_pool-pushed probe short alive room,
        refl,
        refl,
        g,
        run,
        ground (arith, r.fd, here, first),
        ground (arith, r.shut, here, first),
        ground (arith, r.own, here, first, counted),
      )

abbrev pub count_fd : ℕ → Option ℕ → ℕ
count_fd x none = 0
count_fd x (some y) = if x == y then 1 else 0

scan-count :
    (probe : ℕ → Probe) (host : Bytes) (port : ℕ) (l : List PooledConnection) (x : ℕ)
    → let r = scan probe host port l in
      count x (fds l) ≡ count x (fds r.rest) + count_fd x r.fd + count x r.shut
unfolding scan
scan-count probe host port [] x = omega arith
scan-count probe host port (c ∷ l) x = ground (arith, scan-count probe host port l x)

-- get_from_pool loses and doubles no descriptor: each one of the host's bucket is afterwards
-- still in it, handed out, or closed, as often as it was in it before, if the buckets are counted
-- and the fuel is more than the bucket has connections.
pub get_from_pool-count :
    (probe : ℕ → Probe) (host : Bytes) (port fuel : ℕ) (pools : HostPools) (x : ℕ)
    → IsPools pools
    → length (pools (pool_hash host)).head < fuel
    → (g : Got) × (get_from_pool fuel probe host port pools ≡ some g)
      × (count x (fds (pools (pool_hash host)).head)
          ≡ count x (fds (g.pools (pool_hash host)).head) + count_fd x g.fd + count x g.shut)
get_from_pool-count probe host port fuel pools x v f =
    let (g, run, r) =
      get_from_pool-scan probe host port fuel pools (v (pool_hash host)).counted f in
    (
      g,
      run,
      ground
          (arith, r.own, r.fd, r.shut, scan-count probe host port (pools (pool_hash host)).head x),
    )
