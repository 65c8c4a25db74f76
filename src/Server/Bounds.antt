-- ===== src/Server/Bounds.antt =====
-- Every interleaving: how many threads are at work, and what the parts of the server are then.
use multi_threaded_proxy_ser.Base.{
  Bool, count-le, length-middle, ℕ, zero, suc, ◌+◌, ◌≤◌, ◌≡◌, refl, sym, ap, ◌∙◌, some, none, List,
  ◌∷◌, ◌++◌, Bytes, length, arith,
}
use multi_threaded_proxy_ser.Pending.System
use multi_threaded_proxy_ser.Pending.System.{System, register, join, complete, wake, leave}
use multi_threaded_proxy_ser.Pending.Table.{Ptr, PendingEntry}
use multi_threaded_proxy_ser.Pending.Safety.{Reach-ref_count}
use multi_threaded_proxy_ser.Cache.Store.{Heap, Store, ok}
use multi_threaded_proxy_ser.Cache.Ops.{cache_lookup}
use multi_threaded_proxy_ser.Cache.History
use multi_threaded_proxy_ser.Cache.History.{cleared, Reach-misses}
use multi_threaded_proxy_ser.Worker.Served.{thread_fn-posts}
use multi_threaded_proxy_ser.Worker.Accept.{max_clients}
use multi_threaded_proxy_ser.Server.System.{
  Server, Step, Reach, initial, later, accept, enter, request, store, finish, idle_after,
}

-- The threads in the pending table.
abbrev pub in_table : System → ℕ
in_table p = length p.fetching + length p.waiting + length p.leaving

-- The threads between their `sem_wait` and their `sem_post`.
abbrev pub at_work : Server → ℕ
at_work s = s.idle + in_table s.pending

length-at {ℓ} :
    {A : Type ℓ} (l us : List A) (u : A) (vs : List A)
    → l ≡ us ++ u ∷ vs
    → length l ≡ suc (length (us ++ vs))
length-at l us u vs e = ap length e ∙ length-middle us u vs

-- A step on the table moves threads into it and out of it, and loses none.
idle_after-in_table :
    {Key : Bytes → Type 0} {p q : System} (step : System.Step Key p q) (n m : ℕ)
    → idle_after step n ≡ some m
    → m + in_table q ≡ n + in_table p
idle_after-in_table (register fresh url k f0 free run) zero m e = cc
idle_after-in_table (register fresh url k f0 free run) (suc n) m e = ground (arith, e)
idle_after-in_table (join fresh url k f0 free p0 run) zero m e = cc
idle_after-in_table (join fresh url k f0 free p0 run) (suc n) m e = ground (arith, e)
idle_after-in_table {p} (complete us url vs at run) n m e =
    ground (arith, e, length-at p.fetching us url vs at)
idle_after-in_table {p} (wake ps w qs at done) n m e =
    ground (arith, e, length-at p.waiting ps w qs at)
idle_after-in_table {p} (leave ps w qs at run) n m e =
    ground (arith, e, length-at p.leaving ps w qs at)

module _ {Key : Bytes → Type 0} where
  Step-at_work : {s t : Server} → Step Key s t → s.seamaphore + at_work s ≡ t.seamaphore + at_work t
  Step-at_work (accept socket created run) = refl
  Step-at_work (enter us t vs at some_left) = omega (arith, some_left)
  Step-at_work {s} (request {idle} step e) = omega (arith, idle_after-in_table step s.idle idle e)
  Step-at_work (store someone step) = refl
  Step-at_work (finish n a sent closed posts e run) =
      omega (arith, e, thread_fn-posts a sent closed posts run)

  Step-pending :
      {s t : Server} → Step Key s t → System.Reach Key s.pending → System.Reach Key t.pending
  Step-pending (accept socket created run) r = r
  Step-pending (enter us t vs at some_left) r = r
  Step-pending (request step e) r = System.later r step
  Step-pending (store someone step) r = r
  Step-pending (finish n a sent closed posts e run) r = r

  Step-cache :
      {s t : Server} {c : Store} → Step Key s t → History.Reach c s.cache → History.Reach c t.cache
  Step-cache (accept socket created run) r = r
  Step-cache (enter us t vs at some_left) r = r
  Step-cache (request step e) r = r
  Step-cache (store someone step) r = History.later r step
  Step-cache (finish n a sent closed posts e run) r = r

  module _ {h : Heap} where
    -- In every reachable state of the server, the value of the semaphore and the threads between
    -- their sem_wait and their sem_post, those in the pending table included, are MAX_CLIENTS
    -- together, where a thread that ends has posted the semaphore as often as thread_fn does on the
    -- path that it took: no early return keeps a place.
    pub Reach-at_work : {s : Server} → Reach Key h s → s.seamaphore + at_work s ≡ max_clients
    Reach-at_work initial = refl
    Reach-at_work (later r step) = sym (Step-at_work step) ∙ Reach-at_work r

    pub Reach-pending : {s : Server} → Reach Key h s → System.Reach Key s.pending
    Reach-pending initial = System.started
    Reach-pending (later r step) = Step-pending step (Reach-pending r)

    pub Reach-cache : {s : Server} → Reach Key h s → History.Reach (cleared h) s.cache
    Reach-cache initial = History.start
    Reach-cache (later r step) = Step-cache step (Reach-cache r)

    -- In every reachable state of the server an entry of the pending table counts at most one
    -- reference more than MAX_CLIENTS, so its `int` never overflows.
    pub ref_count-le :
        {s : Server} (p : Ptr) (e : PendingEntry)
        → Reach Key h s
        → s.pending.mem.heap p ≡ some e
        → e.ref_count ≤ suc max_clients
    ref_count-le {s} p e r holds =
        let counted = Reach-ref_count p e (Reach-pending r) holds in
        let waiters = count-le p s.pending.waiting in
        let leavers = count-le p s.pending.leaving in
        ground (arith, counted, waiters, leavers, Reach-at_work r)

    -- In every reachable state of the server a lookup of any key misses and leaves the cache as it
    -- is.
    pub lookup-misses :
        {s : Server} (alloc : Bool) (fuel : ℕ) (url : Bytes)
        → Reach Key h s
        → cache_lookup alloc (suc fuel) url s.cache ≡ ok (none, 0) s.cache
    lookup-misses alloc fuel url r = Reach-misses alloc fuel url (Reach-cache r)
