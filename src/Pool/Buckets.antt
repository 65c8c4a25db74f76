-- ===== src/Pool/Buckets.antt =====
-- The pool's buckets taken together, and which of them a call changes.
use native.Mathlib.Decide.{ℕ_discrete}
use multi_threaded_proxy_ser.Base.{
  ℕ, zero, suc, ◌+◌, ◌<◌, ◌≡◌, refl, sym, ap, ◌∙◌, subst, ◌≢◌, Option, some, Bytes, length, count,
  arith, Option-cases, inl, inr,
}
use multi_threaded_proxy_ser.Hash.{pool_hash, pool_hash-lt, max_host_buckets}
use multi_threaded_proxy_ser.Pool.Store.{HostPools, Probe, Got, fds}
use multi_threaded_proxy_ser.Pool.Get.{get_from_pool-scan}
use multi_threaded_proxy_ser.Pool.Bounds.{IsPools, get_from_pool-IsPools}
use multi_threaded_proxy_ser.Pool.Connect.{Network, connect_remote_server, open_new, open_new-pools}

-- The sum of the first `n` values.
unfoldable pub sum : (ℕ → ℕ) → ℕ → ℕ
sum f zero = 0
sum f (suc n) = f n + sum f n

sum-same : (f g : ℕ → ℕ) (n : ℕ) → ((j : ℕ) → j < n → f j ≡ g j) → sum f n ≡ sum g n
unfolding sum
sum-same f g zero e = refl
sum-same f g (suc n) e =
    omega (arith, e n (omega arith), sum-same f g n (λ j k. e j (omega (arith, k))))

-- Where the values differ at one place only.
sum-swap :
    (f g : ℕ → ℕ) (k n : ℕ) → k < n → ((j : ℕ) → k ≢ j → f j ≡ g j) → sum f n + g k ≡ sum g n + f k
unfolding sum
sum-swap f g k zero below e = absurd (omega (arith, below))
sum-swap f g k (suc n) below e = elim (ℕ_discrete k n) [
  | yes at ↦
      let rest = sum-same f g n (λ j b. e j (λ z. absurd (omega (arith, at, b, z)))) in
      omega (arith, rest, ap f at, ap g at)
  | no apart ↦
      let inside : k < n = ground (arith, below, apart) in
      omega (arith, sum-swap f g k n inside e, e n apart)
]

abbrev pub in_bucket : ℕ → HostPools → ℕ → ℕ
in_bucket x pools i = count x (fds (pools i).head)

-- How often the socket is in the pool.
abbrev pub pooled_count : ℕ → HostPools → ℕ
pooled_count x pools = sum (in_bucket x pools) max_host_buckets

pub pooled-swap :
    (x : ℕ) (host : Bytes) (pools after : HostPools)
    → ((j : ℕ) → pool_hash host ≢ j → after j ≡ pools j)
    → pooled_count x after + in_bucket x pools (pool_hash host)
      ≡ pooled_count x pools + in_bucket x after (pool_hash host)
pooled-swap x host pools after others =
    sum-swap (in_bucket x after) (in_bucket x pools) (pool_hash host) max_host_buckets
      (pool_hash-lt host) (λ j n. ap (λ b. count x (fds b.head)) (others j n))

pub some-got : {a b : Got} → ◌≡◌ {A = Option Got} (some a) (some b) → a ≡ b
some-got e = cc

-- connectRemoteServer leaves the other buckets.
pub connect-others :
    (probe : ℕ → Probe) (net : Network) (host : Bytes) (port fuel : ℕ) (pools : HostPools) (g : Got)
    → IsPools pools
    → length (pools (pool_hash host)).head < fuel
    → connect_remote_server fuel probe net host port pools ≡ some g
    → IsPools g.pools × ((j : ℕ) → pool_hash host ≢ j → g.pools j ≡ pools j)
unfolding connect_remote_server
connect-others probe net host port fuel pools g v enough run =
    let (p, got, vp) = get_from_pool-IsPools probe host port fuel pools v enough in
    let (q, got', r) =
      get_from_pool-scan probe host port fuel pools (v (pool_hash host)).counted enough in
    let same : q ≡ p = some-got (sym got' ∙ got) in
    let others = λ (j : ℕ) (n : pool_hash host ≢ j).
      subst (λ (o : Got). o.pools j ≡ pools j) same (ground (arith, r.others j, n)) in
    elim (Option-cases p.fd) [
      | inr (fd, e) ↦
          let at : p ≡ g = some-got (ground (arith, got, e, run)) in
          subst
            (λ (o : Got). IsPools o.pools × ((j : ℕ) → pool_hash host ≢ j → o.pools j ≡ pools j)) at
            (vp, others)
      | inl e ↦
          let at : open_new net p.pools p.shut ≡ g = some-got (ground (arith, got, e, run)) in
          let kept : p.pools ≡ g.pools =
            sym (open_new-pools net p.pools p.shut) ∙ ap (λ (o : Got). o.pools) at in
          subst (λ o. IsPools o × ((j : ℕ) → pool_hash host ≢ j → o j ≡ pools j)) kept (vp, others)
    ]
