-- ===== src/Pool/Get.antt =====
-- get_from_pool: the loop that starts again after each dead connection is one pass over a bucket.
use multi_threaded_proxy_ser.Base.{
  ℕ, zero, suc, ◌-◌, ◌<◌, ◌≡◌, refl, false, Option, none, some, List, [], ◌∷◌, arith, Bytes, ◌==◌,
  if◌then◌else◌, length, Bool-cases, Option-cases, inl, inr,
}
use multi_threaded_proxy_ser.Hash.{pool_hash}
use multi_threaded_proxy_ser.Pool.Store.{
  set_pool, PooledConnection, HostPools, Probe, is_connection_alive, matches, unlink, Got,
  get_from_pool,
}

-- One pass: the descriptor found, the bucket that is left, and what is closed on the way.
pub record Scan : Type 0 where
  pub fd : Option ℕ
  pub rest : List PooledConnection
  pub shut : List ℕ

-- What a call leaves, in terms of one pass over the host's bucket.
pub record IsOutcome (host : Bytes) (pools : HostPools) (r : Scan) (g : Got) : Type 0 where
  pub fd : g.fd ≡ r.fd
  pub shut : g.shut ≡ r.shut
  pub own : g.pools (pool_hash host) ≡ record { head = r.rest; count = length r.rest }
  pub others :
      (j : ℕ) → g.pools j ≡ (if pool_hash host == j then g.pools (pool_hash host) else pools j)

-- The buckets once a match has left only `rest` in its own.
abbrev without : Bytes → List PooledConnection → HostPools → HostPools
without host rest pools =
    set_pool pools (pool_hash host)
      (record { head = rest; count = (pools (pool_hash host)).count - 1 })

module _ (probe : ℕ → Probe) (host : Bytes) (port : ℕ) where
  -- Other connections stay, dead matches are closed, and the first live match ends the pass.
  unfoldable pub scan : List PooledConnection → Scan
  scan [] = record { fd = none; rest = []; shut = [] }
  scan (c ∷ l) =
      let r = scan l in
      if matches host port c
      then if is_connection_alive (probe c.socket_fd)
        then record { fd = some c.socket_fd; rest = l; shut = [] }
        else record r { shut = c.socket_fd ∷ r.shut }
      else record r { rest = c ∷ r.rest }

  abbrev retry : PooledConnection → List PooledConnection → Scan
  retry c rest =
      let r = scan rest in
      if is_connection_alive (probe c.socket_fd)
      then record { fd = some c.socket_fd; rest = rest; shut = [] }
      else record r { shut = c.socket_fd ∷ r.shut }

  scan-none :
      (l : List PooledConnection)
      → unlink host port l ≡ none
      → scan l ≡ record { fd = none; rest = l; shut = [] }
  unfolding scan unlink
  scan-none [] e = refl
  scan-none (c ∷ l) e = ground (arith, scan-none l)

  scan-some :
      (l : List PooledConnection) (c : PooledConnection) (rest : List PooledConnection)
      → unlink host port l ≡ some (c, rest)
      → (scan l ≡ retry c rest) × (length l ≡ suc (length rest))
  unfolding scan unlink
  scan-some [] c rest e = cc
  scan-some (d ∷ l) c rest e = elim (Option-cases (unlink host port l)) [
    | inl no_more ↦ ground (arith, no_more)
    | inr ((c', rest'), found) ↦ ground (arith, found, scan-some l c' rest' found)
  ]

  IsOutcome-retry :
      (c : PooledConnection) {pools : HostPools} {rest : List PooledConnection} {n : ℕ} {g : Got}
      → without host rest pools (pool_hash host) ≡ record { head = rest; count = n }
      → is_connection_alive (probe c.socket_fd) ≡ false
      → scan (pools (pool_hash host)).head ≡ retry c rest
      → IsOutcome host
          (without host rest pools)
          (scan (without host rest pools (pool_hash host)).head)
          g
      → IsOutcome host pools
          (scan (pools (pool_hash host)).head)
          (record g { shut = c.socket_fd ∷ g.shut })
  IsOutcome-retry c here dead out r = record {
    fd = ground (arith, r.fd);
    shut = ground (arith, r.shut);
    own = ground (arith, r.own);
    others = λ j. ground (arith, r.others j);
  }

  -- With a right count and more fuel than the bucket has connections, get_from_pool does what one
  -- pass over the bucket does: it hands out the first live connection to the host and port,
  -- closes the dead ones before it, and leaves all other connections and buckets alone.
  pub get_from_pool-scan :
      (fuel : ℕ) (pools : HostPools)
      → (pools (pool_hash host)).count ≡ length (pools (pool_hash host)).head
      → length (pools (pool_hash host)).head < fuel
      → (g : Got) × (get_from_pool fuel probe host port pools ≡ some g)
        × IsOutcome host pools (scan (pools (pool_hash host)).head) g
  unfolding get_from_pool
  get_from_pool-scan zero pools k f = absurd (omega arith)
  get_from_pool-scan (suc fuel) pools k f =
      elim (Option-cases (unlink host port (pools (pool_hash host)).head)) [
        | inl nothing ↦
            let out = scan-none (pools (pool_hash host)).head nothing in
            (
              record { fd = none; pools = pools; shut = [] },
              ground (arith, nothing),
              record {
                fd = ground (arith, out);
                shut = ground (arith, out);
                own = ground (arith, out);
                others = λ j. ground arith;
              },
            )
        | inr ((c, rest), found) ↦
            let out = scan-some (pools (pool_hash host)).head c rest found in
            let pools' = without host rest pools in
            let here : pools' (pool_hash host)
                ≡ record { head = rest; count = (pools (pool_hash host)).count - 1 } =
              ground arith in
            elim (Bool-cases (is_connection_alive (probe c.socket_fd))) [
              | inl alive ↦ (
                record { fd = some c.socket_fd; pools = pools'; shut = [] },
                ground (arith, found, alive),
                record {
                  fd = ground (arith, out, alive);
                  shut = ground (arith, out, alive);
                  own = ground (arith, out, alive);
                  others = λ j. ground arith;
                },
              )
              | inr dead ↦
                  let (g, run, r) =
                    get_from_pool-scan fuel pools' (ground (arith, here)) (ground (arith, here)) in
                  (
                    record g { shut = c.socket_fd ∷ g.shut },
                    ground (arith, found, dead, run),
                    IsOutcome-retry c here dead out.0 r,
                  )
            ]
      ]
