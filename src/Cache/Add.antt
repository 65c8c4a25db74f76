-- ===== src/Cache/Add.antt =====
-- add_cache_element against the queue of items, on each of its paths.
use multi_threaded_proxy_ser.Base.{
  ℕ, suc, ◌+◌, ◌≤◌, ◌<◌, ◌^◌, ◌%◌, ◌≡◌, Bool, true, false, not, ◌&&◌, some, [], ◌∷◌, ◌++◌, arith,
  Bytes, take, ◌==◌, if◌then◌else◌, ltb, has, inl, inr, Bool-cases,
}
use multi_threaded_proxy_ser.Cache.Store.{Ptr, null, CacheElement, Store, ok, write}
use multi_threaded_proxy_ser.Cache.Ops.{
  footprint, max_size, max_element_size, make_room, Allocation, new_element, insert,
  add_cache_element,
}
use multi_threaded_proxy_ser.Cache.Linked.{Linked, SameBut, lru_append_tail-append}
use multi_threaded_proxy_ser.Cache.Refine.{
  Item, Cells, addresses, items, total, IsCache, evict, item-payload, Holds-frame, Holds-append,
  addresses-append, total-append, length-le-total, evict-fits,
}
use multi_threaded_proxy_ser.Cache.Evict.{Linked-write, make_room-evict}

-- All three allocations succeed.
abbrev pub given : Allocation → Bool
given m = not (m.element == null) && (m.data_given && m.url_given)

abbrev pub new_item : Bytes → ℕ → Bytes → Item
new_item content size url = record { url = url; content = take size content; len = size }

abbrev placed : Store → Ptr → CacheElement → Store
placed s p e = record s { heap = write s.heap p (some e) }

abbrev grown : Store → ℕ → Store
grown s need = record s { cache_size = (s.cache_size + need) % 2 ^ 32 }

-- A new element behind the others, once it is linked and counted.
grown-IsCache :
    (s t : Store) (p : Ptr) (e : CacheElement) (cs : Cells)
    → IsCache s cs
    → has p (addresses cs) ≡ false
    → total (items cs) + footprint e.len e.url ≤ max_size
    → Linked t (addresses cs ++ p ∷ [])
    → SameBut (placed s p e) t
    → IsCache
        (grown t (footprint e.len e.url % 2 ^ 32))
        (cs ++ (p, record { url = e.url; content = e.content; len = e.len }) ∷ [])
unfolding write
grown-IsCache s t p e cs c out fits l same =
    let i : Item = record { url = e.url; content = e.content; len = e.len } in
    record {
      linked =
          rw (addresses-append cs p i)
            (record { distinct = l.distinct; nodes = l.nodes; head = l.head; tail = l.tail });
      holds =
          Holds-append t.heap cs p i
            (Holds-frame t.heap s.heap cs
              (λ q m. ground (arith, item-payload (t.heap q) (s.heap q), same.payloads q)) c.holds)
            (ground (arith, item-payload (t.heap p) (some e), same.payloads p));
      size = omega (arith, total-append cs p i, c.size, same.size, fits);
      bounded = omega (arith, total-append cs p i, fits);
      unhashed = λ j. ground (arith, same.table, c.unhashed j);
    }

insert-append :
    (m : Allocation) (content : Bytes) (size : ℕ) (url : Bytes) {s : Store} (cs : Cells)
    → IsCache s cs
    → given m ≡ true
    → has m.element (addresses cs) ≡ false
    → total (items cs) + footprint size url ≤ max_size
    → (t : Store) × (insert m content size url (footprint size url % 2 ^ 32) s ≡ ok true t)
      × IsCache t (cs ++ (m.element, new_item content size url) ∷ [])
unfolding insert write
insert-append m content size url {s} cs c g out fits =
    let e = new_element m.raw content size url in
    let l = Linked-write s m.element (some e) s.cache_size c.linked out in
    let (t, run, lt, same) =
      lru_append_tail-append m.element {e = e} l (ground arith) (ground arith) out in
    (
      grown t (footprint size url % 2 ^ 32),
      ground (arith, run),
      grown-IsCache s t m.element e cs c out fits lt same,
    )

insert-refused :
    (m : Allocation) (content : Bytes) (size : ℕ) (url : Bytes) (need : ℕ) (s : Store)
    → given m ≡ false
    → insert m content size url need s ≡ ok false s
unfolding insert
insert-refused m content size url need s g = ground arith

-- What the queue becomes, and what the call returns.
unfoldable pub added : Allocation → Bytes → ℕ → Bytes → Cells → Cells
added m content size url cs =
    if ltb max_element_size (footprint size url)
    then cs
    else if given m
    then evict (footprint size url) cs ++ (m.element, new_item content size url) ∷ []
    else evict (footprint size url) cs

abbrev pub accepted : Allocation → ℕ → Bytes → Bool
accepted m size url = not (ltb max_element_size (footprint size url)) && given m

pub add_cache_element-large :
    (fuel : ℕ) (m : Allocation) (content : Bytes) (size : ℕ) (url : Bytes) (s : Store)
    → footprint size url < 2 ^ 31
    → ltb max_element_size (footprint size url) ≡ true
    → add_cache_element fuel m content size url s ≡ ok false s
unfolding add_cache_element
add_cache_element-large fuel m content size url s small large = ground arith

-- The room that the call makes, for an element that is not too large.
pub room_for :
    (fuel size : ℕ) (url : Bytes) {s : Store} (cs : Cells)
    → IsCache s cs
    → ltb max_element_size (footprint size url) ≡ false
    → (u : Store) × (make_room (suc s.cache_size) (suc fuel) (footprint size url) s ≡ ok tt u)
      × IsCache u (evict (footprint size url) cs)
room_for fuel size url {s} cs c fine =
    make_room-evict (suc s.cache_size) fuel (footprint size url) cs c (ground arith)
      (omega (arith, c.size, length-le-total cs))

-- On a store that stands for `cs`, add_cache_element refuses an element that is too large and
-- changes nothing. Otherwise it evicts the oldest items until the new one fits, and appends it if
-- all of its memory is given. The size that is asked for stays below 2 ^ 31, and the memory is at
-- an address that none of the items that are kept has.
pub add_cache_element-added :
    (fuel : ℕ) (m : Allocation) (content : Bytes) (size : ℕ) (url : Bytes) {s : Store} (cs : Cells)
    → IsCache s cs
    → footprint size url < 2 ^ 31
    → has m.element (addresses (evict (footprint size url) cs)) ≡ false
    → (t : Store) × (add_cache_element (suc fuel) m content size url s ≡ ok (accepted m size url) t)
      × IsCache t (added m content size url cs)
unfolding add_cache_element added
add_cache_element-added fuel m content size url {s} cs c small out =
    let need = footprint size url in
    elim (Bool-cases (ltb max_element_size need)) [
      | inl large ↦ (
        s,
        rw large (add_cache_element-large (suc fuel) m content size url s small large),
        rw large c,
      )
      | inr fine ↦
          let (u, room, cu) = room_for fuel size url cs c fine in
          elim (Bool-cases (given m)) [
            | inl g ↦
                let (t, run, ct) =
                  insert-append m content size url (evict need cs) cu g out
                    (evict-fits need cs (ground arith)) in
                (t, ground (arith, room, run), rw (fine, g) ct)
            | inr g ↦ (
              u,
              ground (arith, room, insert-refused m content size url (need % 2 ^ 32) u g),
              rw (fine, g) cu,
            )
          ]
    ]
