-- ===== src/Pool/Shared.antt =====
-- Any number of threads over one pool, interleaved in any order: the sockets to servers that they
-- take from it, open, use, give back and close.
use multi_threaded_proxy_ser.Base.{
  ℕ, ◌<◌, ◌≡◌, Bool, Option, none, some, List, [], ◌∷◌, ◌++◌, Bytes, if◌then◌else◌, length,
}
use multi_threaded_proxy_ser.Hash.{pool_hash}
use multi_threaded_proxy_ser.Pool.Store.{
  HostPools, Probe, Got, initial_pools, get_from_pool, return_to_pool,
}
use multi_threaded_proxy_ser.Pool.Connect.{Network, connect_remote_server, opened}

-- `in_use` are the sockets that threads hold, `opened_ones` all that `socket` ever returned, and
-- `closed_ones` all that were closed. A descriptor that the system hands out again is listed again.
pub record Shared : Type 0 where
  pub pools : HostPools
  pub in_use : List ℕ
  pub opened_ones : List ℕ
  pub closed_ones : List ℕ

abbrev pub adds : Option ℕ → List ℕ → List ℕ
adds none l = l
adds (some fd) l = fd ∷ l

pub data Step (s : Shared) : Shared → Type 0 where
  -- `connectRemoteServer`, with enough fuel for the bucket of its host.
  connect :
      (fuel : ℕ) (probe : ℕ → Probe) (net : Network) (host : Bytes) (port : ℕ) {pooled g : Got}
      → length (s.pools (pool_hash host)).head < fuel
      → get_from_pool fuel probe host port s.pools ≡ some pooled
      → connect_remote_server fuel probe net host port s.pools ≡ some g
      → Step s (record {
        pools = g.pools;
        in_use = adds g.fd s.in_use;
        opened_ones = adds (opened net pooled.fd) s.opened_ones;
        closed_ones = g.shut ++ s.closed_ones;
      })
  -- `return_to_pool` at the end of handle_request.
  give_back :
      (us : List ℕ) (fd : ℕ) (vs : List ℕ) (alloc : Bool) (now : ℕ) (probe : Probe) (host : Bytes)
      (port : ℕ)
      → s.in_use ≡ us ++ fd ∷ vs
      → Step s (record s {
        pools = (return_to_pool alloc now probe host port fd s.pools).pools;
        in_use = us ++ vs;
        closed_ones =
            if (return_to_pool alloc now probe host port fd s.pools).shut
            then fd ∷ s.closed_ones
            else s.closed_ones;
      })
  -- `close` where handle_request fails.
  close :
      (us : List ℕ) (fd : ℕ) (vs : List ℕ)
      → s.in_use ≡ us ++ fd ∷ vs
      → Step s (record s { in_use = us ++ vs; closed_ones = fd ∷ s.closed_ones })

abbrev pub shared_start : Shared
shared_start = record { pools = initial_pools; in_use = []; opened_ones = []; closed_ones = [] }

pub data Reach : Shared → Type 0 where
  started : Reach shared_start
  later : {s t : Shared} → Reach s → Step s t → Reach t
