-- ===== src/Pool/Bounds.antt =====
-- The counters and the size of the buckets, over every operation of the pool.
use native.Mathlib.Decide.{ℕ_discrete}
use multi_threaded_proxy_ser.Base.{
  subst, same, same_ne, ap, take_of_length-le, ℕ, ◌/◌, ◌≤◌, ◌<◌, ◌≡◌, refl, Bool, false, none, some,
  List, [], ◌∷◌, arith, Bytes, length, length-take,
}
use multi_threaded_proxy_ser.Hash.{pool_hash, max_host_buckets}
use multi_threaded_proxy_ser.Pool.Store.{
  PooledConnection, ConnectionPool, HostPools, Probe, Got, host_field, get_from_pool,
  return_to_pool, initial_pools, max_pool_size,
}
use multi_threaded_proxy_ser.Pool.Get.{scan, get_from_pool-scan}

-- A bucket counts its connections, has no more than its share, and its hosts fit their field.
abbrev pub Fits : List PooledConnection → Type 0
Fits [] = Unit {0}
Fits (c ∷ l) = (length c.host ≤ 255) × Fits l

pub record IsBucket (b : ConnectionPool) : Type 0 where
  pub counted : b.count ≡ length b.head
  pub few : length b.head ≤ max_pool_size / max_host_buckets
  pub fits : Fits b.head

abbrev pub IsPools : HostPools → Type 0
IsPools pools = (i : ℕ) → IsBucket (pools i)

pub init-IsPools : IsPools initial_pools
unfolding initial_pools
init-IsPools i = ground arith

scan-IsBucket :
    (probe : ℕ → Probe) (host : Bytes) (port : ℕ) (l : List PooledConnection)
    → Fits l
    → (length (scan probe host port l).rest ≤ length l) × Fits (scan probe host port l).rest
unfolding scan
scan-IsBucket probe host port [] f = (omega arith, tt)
scan-IsBucket probe host port (c ∷ l) f = ground (arith, scan-IsBucket probe host port l f.1)

-- get_from_pool keeps every bucket counted, with at most two connections whose hosts fit their
-- field, given more fuel than the bucket has connections.
pub get_from_pool-IsPools :
    (probe : ℕ → Probe) (host : Bytes) (port fuel : ℕ) (pools : HostPools)
    → IsPools pools
    → length (pools (pool_hash host)).head < fuel
    → (g : Got) × (get_from_pool fuel probe host port pools ≡ some g) × IsPools g.pools
get_from_pool-IsPools probe host port fuel pools v f =
    let index = pool_hash host in
    let (g, run, r) = get_from_pool-scan probe host port fuel pools (v index).counted f in
    let kept = scan-IsBucket probe host port (pools index).head (v index).fits in
    (
      g,
      run,
      λ j. elim (ℕ_discrete j index) [
        | yes e ↦
            rw (e, r.own)
              (record { counted = refl; few = omega (arith, (v index).few, kept.0); fits = kept.1 })
        | no n ↦ subst IsBucket (ground (arith, r.others j, n)) (v j)
      ],
    )

length-host_field : (host : Bytes) → length (host_field host) ≤ 255
unfolding host_field
length-host_field host = omega (arith, length-take 255 host)

pub host_field_short : (host : Bytes) → length host ≤ 255 → host_field host ≡ host
unfolding host_field
host_field_short host h = take_of_length-le 255 host h

-- return_to_pool keeps every bucket counted, with at most two connections whose hosts fit their
-- field.
pub return_to_pool-IsPools :
    (alloc : Bool) (now : ℕ) (probe : Probe) (host : Bytes) (port fd : ℕ) (pools : HostPools)
    → IsPools pools
    → IsPools (return_to_pool alloc now probe host port fd pools).pools
unfolding return_to_pool
return_to_pool-IsPools alloc now probe host port fd pools v j =
    ground (arith, v j, v (pool_hash host), length-host_field host)

other_host :
    (c : PooledConnection) (host : Bytes)
    → length c.host ≤ 255
    → 256 ≤ length host
    → same c.host host ≡ false
other_host c host f h = same_ne c.host host λ e. absurd (omega (arith, ap length e))

scan-long :
    (probe : ℕ → Probe) (host : Bytes) (port : ℕ) (l : List PooledConnection)
    → 256 ≤ length host
    → Fits l
    → scan probe host port l ≡ record { fd = none; rest = l; shut = [] }
unfolding scan
scan-long probe host port [] h f = refl
scan-long probe host port (c ∷ l) h f =
    ground (arith, other_host c host f.0 h, scan-long probe host port l h f.1)

-- For a host of 256 bytes or more get_from_pool finds nothing and closes nothing, whatever was
-- returned before: return_to_pool has cut the host. The buckets are well-formed and the fuel is
-- more than the bucket has connections.
pub get_from_pool-long :
    (probe : ℕ → Probe) (host : Bytes) (port fuel : ℕ) (pools : HostPools)
    → IsPools pools
    → 256 ≤ length host
    → length (pools (pool_hash host)).head < fuel
    → (g : Got) × (get_from_pool fuel probe host port pools ≡ some g)
      × (g.fd ≡ none)
      × (g.shut ≡ [])
get_from_pool-long probe host port fuel pools v h f =
    let index = pool_hash host in
    let (g, run, r) = get_from_pool-scan probe host port fuel pools (v index).counted f in
    let nothing = scan-long probe host port (pools index).head h (v index).fits in
    (g, run, ground (arith, r.fd, nothing), ground (arith, r.shut, nothing))
