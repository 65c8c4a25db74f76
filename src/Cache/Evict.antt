-- ===== src/Cache/Evict.antt =====
-- _remove_cache_element_unlocked and the loop that makes room, against the queue of items.
use multi_threaded_proxy_ser.Base.{
  ℕ, zero, suc, ◌+◌, ◌≤◌, ◌<◌, ◌-◌, ◌%◌, ◌^◌, ◌≡◌, refl, false, Option, none, some, List, [], ◌∷◌,
  arith, ltb, has, has-head, length, inl, inr, Bool-cases,
}
use multi_threaded_proxy_ser.Hash.{fnv1a_hash}
use multi_threaded_proxy_ser.Cache.Store.{Ptr, CacheElement, Store, ok, load, write}
use multi_threaded_proxy_ser.Cache.Lru.{lru_remove, lru_get_lru}
use multi_threaded_proxy_ser.Cache.Ops.{
  max_element_size, unlink_loop, unlink_bucket, footprint, max_size, remove_unlocked, make_room,
}
use multi_threaded_proxy_ser.Cache.Linked.{Linked, SameBut, payload, ne_null, lru_remove-erase}
use multi_threaded_proxy_ser.Cache.Refine.{
  Item, item, Cells, addresses, items, total, IsCache, evict, item-payload, Holds-frame,
}

-- An element whose bucket chain does not have it is not looked for any further.
-- A list survives a write elsewhere.
pub Linked-write :
    (s : Store) {xs : List Ptr} (p : Ptr) (c : Option CacheElement) (size : ℕ)
    → Linked s xs
    → has p xs ≡ false
    → Linked (record s { heap = write s.heap p c; cache_size = size }) xs
unfolding write
Linked-write s p c size l out = record {
  distinct = l.distinct;
  nodes = λ q w.
      let node = l.nodes q w in
      record {
        element = node.element;
        holds = ground (arith, node.holds);
        prev = node.prev;
        next = node.next;
      };
  head = l.head;
  tail = l.tail;
}

-- What is left at an address whose element keeps its payload.
payload-some :
    (c : Option CacheElement) (d : Option CacheElement) (i : Item)
    → payload c ≡ payload d
    → item d ≡ some i
    → (e : CacheElement) × (c ≡ some e) × (footprint e.len e.url ≡ footprint i.len i.url)
payload-some none none i p h = cc
payload-some none (some d) i p h = cc
payload-some (some e) none i p h = cc
payload-some (some e) (some d) i p h = (e, refl, ground arith)

abbrev after_free : Store → Ptr → CacheElement → Store
after_free t x e = record t {
  heap = write t.heap x none;
  cache_size = (t.cache_size + 2 ^ 32 - footprint e.len e.url % 2 ^ 32) % 2 ^ 32;
}

module _ (fuel : ℕ) {s : Store} {x : Ptr} {i : Item} {cs : Cells}
    (c : IsCache s ((x, i) ∷ cs)) where
  head-first : s.lru_head ≡ x
  head-first = c.linked.head

  module _ (t : Store) (e : CacheElement) (same : SameBut s t) where
    remove-after_free :
        lru_remove x s ≡ ok tt t
        → t.heap x ≡ some e
        → remove_unlocked (suc fuel) s ≡ ok tt (after_free t x e)
    unfolding remove_unlocked lru_get_lru unlink_bucket unlink_loop load
    remove-after_free run h =
        let x0 = ne_null x (addresses ((x, i) ∷ cs)) c.linked.distinct.0 (ground arith) in
        ground (arith, head-first, x0, run, h, same.table, c.unhashed (fnv1a_hash e.url))

    after_free-IsCache :
        Linked t (addresses cs)
        → footprint e.len e.url ≡ footprint i.len i.url
        → IsCache (after_free t x e) cs
    unfolding write
    after_free-IsCache l f = record {
      linked = Linked-write t x none _ l c.linked.distinct.1.0;
      holds =
          Holds-frame _ s.heap cs
            (λ p m. ground (arith, item-payload (t.heap p) (s.heap p), same.payloads p)) c.holds.1;
      size = omega (arith, c.size, same.size, c.bounded, f);
      bounded = omega (arith, c.bounded);
      unhashed = λ j. ground (arith, same.table, c.unhashed j);
    }

-- On a store that stands for at least one item, removal takes the least recently used item out,
-- frees its element and accounts for its size: the store then stands for the other items.
pub remove_unlocked-IsCache :
    (fuel : ℕ) {s : Store} {x : Ptr} {i : Item} {cs : Cells}
    → IsCache s ((x, i) ∷ cs)
    → (t : Store) × (remove_unlocked (suc fuel) s ≡ ok tt t) × IsCache t cs × (t.heap x ≡ none)
unfolding write
remove_unlocked-IsCache fuel {s} {x} {i} {cs} c =
    let (t, run, l, same) = lru_remove-erase x c.linked (has-head x (addresses cs)) in
    let (e, h, f) = payload-some (t.heap x) (s.heap x) i (same.payloads x) c.holds.0 in
    (
      after_free t x e,
      remove-after_free fuel c t e same run h,
      after_free-IsCache fuel c t e same (ground (arith, l)) f,
      ground arith,
    )

-- On an empty cache there is nothing to remove.
pub remove_unlocked-empty : (fuel : ℕ) {s : Store} → IsCache s [] → remove_unlocked fuel s ≡ ok tt s
unfolding remove_unlocked lru_get_lru
remove_unlocked-empty fuel c = ground (arith, c.linked.head)

-- The loop that makes room ends, for an element no larger than MAX_ELEMENT_SIZE and with more
-- rounds than there are items: the oldest items are evicted, and no more than must be.
pub make_room-evict :
    (rounds fuel need : ℕ) {s : Store} (cs : Cells)
    → IsCache s cs
    → need ≤ max_element_size
    → length cs < rounds
    → (t : Store) × (make_room rounds (suc fuel) need s ≡ ok tt t) × IsCache t (evict need cs)
unfolding make_room evict
make_room-evict zero fuel need cs c n r = absurd (omega arith)
make_room-evict (suc rounds) fuel need {s} [] c n r = (s, ground (arith, c.size), c)
make_room-evict (suc rounds) fuel need {s} (d ∷ cs) c n r =
    elim (Bool-cases (ltb max_size (total (items (d ∷ cs)) + need))) [
      | inl full ↦
          let (u, run, cu, _) = remove_unlocked-IsCache fuel c in
          let (t, rest, ct) = make_room-evict rounds fuel need cs cu n (omega arith) in
          (t, ground (arith, c.size, c.bounded, run, rest), rw full ct)
      | inr room ↦ (s, ground (arith, c.size, c.bounded), rw room c)
    ]
