-- ===== src/Pool/Held.antt =====
-- Every socket to a server is in one place: in a bucket, with one thread, or closed.

use multi_threaded_proxy_ser.Base.{
  ℕ, zero, suc, ◌+◌, ◌<◌, ◌≡◌, refl, sym, ap, ◌∙◌, ◌≢◌, Bool, Option, none, some, List, ◌∷◌, ◌++◌,
  Bytes, if◌then◌else◌, ◌==◌, length, count, count-append, count-middle, arith,
}
use multi_threaded_proxy_ser.Hash.{pool_hash, max_host_buckets}
use multi_threaded_proxy_ser.Pool.Store.{
  HostPools, Probe, Got, initial_pools, get_from_pool, return_to_pool,
}
use multi_threaded_proxy_ser.Pool.Bounds.{IsPools, init-IsPools, return_to_pool-IsPools}
use multi_threaded_proxy_ser.Pool.Reuse.{count_fd}
use multi_threaded_proxy_ser.Pool.Connect.{
  Network, connect_remote_server, connect_remote_server-count, opened,
}
use multi_threaded_proxy_ser.Pool.Shared.{
  Shared, Step, Reach, started, later, connect, give_back, close, adds,
}
use multi_threaded_proxy_ser.Pool.Buckets.{
  sum, in_bucket, pooled_count, pooled-swap, some-got, connect-others,
}

count-adds : (x : ℕ) (o : Option ℕ) (l : List ℕ) → count x (adds o l) ≡ count_fd x o + count x l
count-adds x none l = omega arith
count-adds x (some fd) l = omega arith

-- Each socket that was opened is in the pool, in use or closed, as often as it was opened.
pub record IsShared (s : Shared) : Type 0 where
  pub buckets : IsPools s.pools
  pub held :
      (x : ℕ)
      → pooled_count x s.pools + count x s.in_use + count x s.closed_ones ≡ count x s.opened_ones

module _ (alloc : Bool) (now : ℕ) (probe : Probe) (host : Bytes) (port fd : ℕ)
    (pools : HostPools) where
  return_to_pool-others :
      (j : ℕ)
      → pool_hash host ≢ j
      → (return_to_pool alloc now probe host port fd pools).pools j ≡ pools j
  unfolding return_to_pool
  return_to_pool-others j n = ground (arith, n)

  -- The socket is in its bucket afterwards, or has been closed.
  return_to_pool-held :
      (x : ℕ)
      → let r = return_to_pool alloc now probe host port fd pools in
        in_bucket x r.pools (pool_hash host) + (if r.shut then (if x == fd then 1 else 0) else 0)
        ≡ in_bucket x pools (pool_hash host) + (if x == fd then 1 else 0)
  unfolding return_to_pool
  return_to_pool-held x = ground arith

module _ {s : Shared} (w : IsShared s) where
  connect-IsShared :
      (fuel : ℕ) (probe : ℕ → Probe) (net : Network) (host : Bytes) (port : ℕ) {pooled g : Got}
      → length (s.pools (pool_hash host)).head < fuel
      → get_from_pool fuel probe host port s.pools ≡ some pooled
      → connect_remote_server fuel probe net host port s.pools ≡ some g
      → IsShared (record {
        pools = g.pools;
        in_use = adds g.fd s.in_use;
        opened_ones = adds (opened net pooled.fd) s.opened_ones;
        closed_ones = g.shut ++ s.closed_ones;
      })
  connect-IsShared fuel probe net host port {pooled} {g} enough got run =
      let (v, others) = connect-others probe net host port fuel s.pools g w.buckets enough run in
      record {
        buckets = v;
        held = λ x.
            let (p, got', q, run', counts) =
              connect_remote_server-count probe net host port fuel s.pools x w.buckets enough in
            let first : p ≡ pooled = some-got (sym got' ∙ got) in
            let second : q ≡ g = some-got (sym run' ∙ run) in
            omega (
              arith,
              w.held x,
              pooled-swap x host s.pools g.pools others,
              counts,
              ap (λ (o : Got). count_fd x (opened net o.fd)) first,
              ap (λ (o : Got). in_bucket x o.pools (pool_hash host)) second,
              ap (λ (o : Got). count_fd x o.fd) second,
              ap (λ (o : Got). count x o.shut) second,
              count-adds x g.fd s.in_use,
              count-adds x (opened net pooled.fd) s.opened_ones,
              count-append x g.shut s.closed_ones,
            );
      }

  close-IsShared :
      (us : List ℕ) (fd : ℕ) (vs : List ℕ)
      → s.in_use ≡ us ++ fd ∷ vs
      → IsShared (record s { in_use = us ++ vs; closed_ones = fd ∷ s.closed_ones })
  close-IsShared us fd vs at = record {
    buckets = w.buckets;
    held = λ x. omega (arith, w.held x, ap (count x) at, count-middle x us fd vs);
  }

  give_back-IsShared :
      (us : List ℕ) (fd : ℕ) (vs : List ℕ) (alloc : Bool) (now : ℕ) (probe : Probe) (host : Bytes)
      (port : ℕ)
      → s.in_use ≡ us ++ fd ∷ vs
      → IsShared (record s {
        pools = (return_to_pool alloc now probe host port fd s.pools).pools;
        in_use = us ++ vs;
        closed_ones =
            if (return_to_pool alloc now probe host port fd s.pools).shut
            then fd ∷ s.closed_ones
            else s.closed_ones;
      })
  give_back-IsShared us fd vs alloc now probe host port at =
      let r = return_to_pool alloc now probe host port fd s.pools in
      record {
        buckets = return_to_pool-IsPools alloc now probe host port fd s.pools w.buckets;
        held = λ x. ground (
          arith,
          w.held x,
          pooled-swap x host s.pools r.pools
              (return_to_pool-others alloc now probe host port fd s.pools),
          return_to_pool-held alloc now probe host port fd s.pools x,
          ap (count x) at,
          count-middle x us fd vs,
        );
      }

Step-IsShared : {s t : Shared} → Step s t → IsShared s → IsShared t
Step-IsShared (connect fuel probe net host port enough got run) w =
    connect-IsShared w fuel probe net host port enough got run
Step-IsShared (give_back us fd vs alloc now probe host port at) w =
    give_back-IsShared w us fd vs alloc now probe host port at
Step-IsShared (close us fd vs at) w = close-IsShared w us fd vs at

pooled_count-init : (x n : ℕ) → sum (in_bucket x initial_pools) n ≡ 0
unfolding sum initial_pools
pooled_count-init x zero = refl
pooled_count-init x (suc n) = omega (arith, pooled_count-init x n)

-- However many threads take sockets to servers from the pool, open, give back and close them, in any
-- order: every socket that was opened is in a bucket, in use by one thread or closed, as often as it
-- was opened, and no bucket holds more connections than it may.
pub Reach-IsShared : {s : Shared} → Reach s → IsShared s
Reach-IsShared started = record {
  buckets = init-IsPools;
  held = λ x. omega (arith, pooled_count-init x max_host_buckets);
}
Reach-IsShared (later r step) = Step-IsShared step (Reach-IsShared r)
