-- ===== src/Pool/Connect.antt =====
-- connectRemoteServer: a pooled connection, or a new one. What the calls answer is an argument.
use multi_threaded_proxy_ser.Base.{
  count, ℕ, ◌+◌, ◌<◌, ◌≡◌, ap, Bool, Option, none, some, List, [], ◌∷◌, ◌++◌, arith, Bytes,
  if◌then◌else◌, length, Option-cases, inl, inr,
}
use multi_threaded_proxy_ser.Hash.{pool_hash}
use multi_threaded_proxy_ser.Pool.Store.{HostPools, Probe, Got, get_from_pool, fds}
use multi_threaded_proxy_ser.Pool.Bounds.{IsPools}
use multi_threaded_proxy_ser.Pool.Reuse.{get_from_pool-count, count_fd}

-- The results of socket, getaddrinfo and connect: a descriptor or `none` for one below 0, and
-- whether the other two succeed.
pub record Network : Type 0 where
  pub socket : Option ℕ
  pub resolved : Bool
  pub connected : Bool

-- What the call leaves: the descriptor or `none` for -1, the buckets, and what it closed.
unfoldable pub open_new : Network → HostPools → List ℕ → Got
open_new net pools shut = elim net.socket [
  | none ↦ record { fd = none; pools = pools; shut = shut }
  | some fd ↦
      if net.resolved
      then (if net.connected
          then record { fd = some fd; pools = pools; shut = shut }
          else record { fd = none; pools = pools; shut = shut ++ fd ∷ [] })
      else record { fd = none; pools = pools; shut = shut ++ fd ∷ [] }
]

unfoldable pub connect_remote_server :
    ℕ → (ℕ → Probe) → Network → Bytes → ℕ → HostPools → Option Got
unfolding get_from_pool open_new
connect_remote_server fuel probe net host_addr port_num pools =
    elim (get_from_pool fuel probe host_addr port_num pools) [
      | none ↦ none
      | some g ↦ elim g.fd [ some fd ↦ some g | none ↦ some (open_new net g.pools g.shut) ]
    ]

-- The descriptor that `socket` returns, if it is called.
abbrev pub opened : Network → Option ℕ → Option ℕ
opened net none = net.socket
opened net (some fd) = none

count-append_one : (x y : ℕ) (l : List ℕ) → count x (l ++ y ∷ []) ≡ count x l + count_fd x (some y)
count-append_one x y [] = ground arith
count-append_one x y (z ∷ l) = ground (arith, count-append_one x y l)

count-open_new :
    (net : Network) (pools : HostPools) (shut : List ℕ) (x : ℕ)
    → let g = open_new net pools shut in
      count x shut + count_fd x net.socket ≡ count_fd x g.fd + count x g.shut
unfolding open_new
count-open_new net pools shut x = elim (Option-cases net.socket) [
  | inl n ↦ ground (arith, n)
  | inr (fd, e) ↦ ground (arith, e, count-append_one x fd shut)
]

pub open_new-pools :
    (net : Network) (pools : HostPools) (shut : List ℕ) → (open_new net pools shut).pools ≡ pools
unfolding open_new
open_new-pools net pools shut = elim (Option-cases net.socket) [
  | inl n ↦ ground (arith, n)
  | inr (fd, e) ↦ ground (arith, e)
]

-- connectRemoteServer loses no descriptor, on any path: each one that was in the host's bucket, and
-- the one that `socket` returns where the pool has none to give, is afterwards in the bucket,
-- returned or closed, as often as it was there, if the buckets are counted and the fuel is more than
-- the bucket has connections.
pub connect_remote_server-count :
    (probe : ℕ → Probe) (net : Network) (host : Bytes) (port fuel : ℕ) (pools : HostPools) (x : ℕ)
    → IsPools pools
    → length (pools (pool_hash host)).head < fuel
    → (pooled : Got) × (get_from_pool fuel probe host port pools ≡ some pooled)
      × (g : Got) × (connect_remote_server fuel probe net host port pools ≡ some g)
      × (count x (fds (pools (pool_hash host)).head) + count_fd x (opened net pooled.fd)
          ≡ count x (fds (g.pools (pool_hash host)).head) + count_fd x g.fd + count x g.shut)
unfolding connect_remote_server
connect_remote_server-count probe net host port fuel pools x v f =
    let (g, run, counts) = get_from_pool-count probe host port fuel pools x v f in
    elim (Option-cases g.fd) [
      | inr (fd, e) ↦ (g, run, g, ground (arith, run, e), ground (arith, counts, e))
      | inl n ↦
          let new = count-open_new net g.pools g.shut x in
          let kept =
            ap (λ (p : HostPools). count x (fds (p (pool_hash host)).head))
              (open_new-pools net g.pools g.shut) in
          (
            g,
            run,
            open_new net g.pools g.shut,
            ground (arith, run, n),
            ground (arith, counts, new, kept, n),
          )
    ]
