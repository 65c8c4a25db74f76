-- ===== src/Pool/Cleanup.antt =====
-- cleanup_connection_pool: every socket is closed and every bucket emptied.
use multi_threaded_proxy_ser.Base.{ℕ, zero, suc, ◌≤◌, ◌<◌, ◌≡◌, refl, List, [], ◌++◌, arith, ap}
use multi_threaded_proxy_ser.Hash.{max_host_buckets}
use multi_threaded_proxy_ser.Pool.Store.{
  HostPools, fds, cleanup_loop, cleanup_connection_pool, initial_pools,
}

-- The sockets of the first `n` buckets, bucket after bucket.
unfoldable pub sockets : ℕ → HostPools → List ℕ
sockets zero pools = []
sockets (suc n) pools = sockets n pools ++ fds (pools n).head

cleanup_loop_lem :
    (n : ℕ) (pools : HostPools)
    → ((cleanup_loop n pools).1 ≡ sockets n pools)
      × ((i : ℕ) → i < n → (cleanup_loop n pools).0 i ≡ record { head = []; count = 0 })
      × ((i : ℕ) → n ≤ i → (cleanup_loop n pools).0 i ≡ pools i)
unfolding cleanup_loop sockets
cleanup_loop_lem zero pools = (refl, λ i h. absurd (omega arith), λ i h. refl)
cleanup_loop_lem (suc n) pools =
    let (shut, empty, rest) = cleanup_loop_lem n pools in
    (
      ap (λ l. l ++ fds (pools n).head) shut,
      λ i h. ground (arith, empty i),
      λ i h. ground (arith, rest i),
    )

-- cleanup_connection_pool closes exactly the sockets of the pool, each bucket's in its order.
pub cleanup_connection_pool-sockets :
    (pools : HostPools) → (cleanup_connection_pool pools).1 ≡ sockets max_host_buckets pools
unfolding cleanup_connection_pool
cleanup_connection_pool-sockets pools = (cleanup_loop_lem max_host_buckets pools).0

-- After cleanup_connection_pool each of the 50 buckets is as initial_pools leaves it.
pub cleanup_connection_pool-init :
    (pools : HostPools) (i : ℕ)
    → i < max_host_buckets
    → (cleanup_connection_pool pools).0 i ≡ initial_pools i
unfolding cleanup_connection_pool initial_pools
cleanup_connection_pool-init pools i h = (cleanup_loop_lem max_host_buckets pools).1 i h
