-- ===== src/Cache/Lookup.antt =====
-- Lookups: what find and the lookup of thread_fn do with a bucket chain, and that in this program
-- every chain is empty.
use multi_threaded_proxy_ser.Base.{
  erase, not-has-erase_self, ◌∙◌, ℕ, zero, suc, ◌<◌, ◌≡◌, refl, ◌≢◌, Bool, true, false, Option,
  none, some, List, [], ◌∷◌, ◌++◌, arith, Bytes, same, ◌==◌, if◌then◌else◌, has, length, inl, inr,
  Bool-cases,
}
use multi_threaded_proxy_ser.Hash.{fnv1a_hash}
use multi_threaded_proxy_ser.Cache.Store.{Ptr, null, CacheElement, Heap, Store, ok, load}
use multi_threaded_proxy_ser.Cache.Ops.{find_loop, touch, find, cache_lookup}
use multi_threaded_proxy_ser.Cache.Linked.{
  Linked, SameBut, payload, ne_null, lru_remove-erase, lru_append_tail-append,
}
use multi_threaded_proxy_ser.Cache.Refine.{Cells, IsCache}

-- From `p` the `hash_next` pointers lead through `ps` to NULL.
abbrev pub Chain : Heap → Ptr → List Ptr → Type 0
Chain h p [] = p ≡ null
Chain h p (q ∷ qs) =
    (e : CacheElement) × (p ≡ q) × (q ≢ null) × (h q ≡ some e) × Chain h e.hash_next qs

-- The first address of a chain whose element has the key, or NULL.
unfoldable pub first_with : Heap → Bytes → List Ptr → Ptr
first_with h url [] = null
first_with h url (q ∷ qs) = elim (h q) [
  | none ↦ null
  | some e ↦ if same e.url url then q else first_with h url qs
]

-- The walk along a chain that ends finds the first element with the key.
pub find_loop-first_with :
    (fuel : ℕ) (url : Bytes) (s : Store) (p : Ptr) (qs : List Ptr)
    → Chain s.heap p qs
    → length qs < fuel
    → find_loop fuel url p s ≡ ok (first_with s.heap url qs) s
unfolding find_loop first_with load
find_loop-first_with zero url s p qs c f = absurd (omega arith)
find_loop-first_with (suc fuel) url s p [] c f = ground arith
find_loop-first_with (suc fuel) url s p (q ∷ qs) c f =
    ground (arith, c.2, c.3, find_loop-first_with fuel url s c.0.hash_next qs c.4)

-- What is found is an element of the chain.
first_with-has :
    (h : Heap) (url : Bytes) (qs : List Ptr)
    → (first_with h url qs == null) ≡ false
    → has (first_with h url qs) qs ≡ true
unfolding first_with
first_with-has h url [] f = cc
first_with-has h url (q ∷ qs) f = ground (arith, first_with-has h url qs)

payload-some_element :
    (c : Option CacheElement) (d : CacheElement)
    → payload c ≡ payload (some d)
    → (e : CacheElement) × (c ≡ some e)
payload-some_element none d p = cc
payload-some_element (some e) d p = (e, refl)

SameBut-refl : (s : Store) → SameBut s s
SameBut-refl s = record { payloads = λ p. refl; table = refl; size = refl }

SameBut-trans : {s t u : Store} → SameBut s t → SameBut t u → SameBut s u
SameBut-trans a b = record {
  payloads = λ p. b.payloads p ∙ a.payloads p;
  table = b.table ∙ a.table;
  size = b.size ∙ a.size;
}

-- A hit moves the address to the end of the list in order of use, and changes nothing but links.
pub touch_lem :
    {s : Store} {xs : List Ptr} (x : Ptr)
    → Linked s xs
    → has x xs ≡ true
    → (t : Store) × (touch x s ≡ ok tt t) × Linked t (erase x xs ++ x ∷ []) × SameBut s t
unfolding touch
touch_lem {s} {xs} x l m =
    let (u, removed, lu, su) = lru_remove-erase x l m in
    let (e, h) =
      payload-some_element (u.heap x) (l.nodes x m).element
        (ground (arith, su.payloads x, (l.nodes x m).holds)) in
    let (t, run, lt, st) =
      lru_append_tail-append x lu (ne_null x xs l.distinct.0 m) h
        (not-has-erase_self x xs l.distinct.1) in
    (t, rw removed run, lt, SameBut-trans su st)

-- `find` returns the first element of the key's bucket chain that has the key, and makes it the
-- most recently used one, or returns NULL; it changes nothing but links. The chain ends, is
-- shorter than the fuel, and its elements are in the list.
pub find-first_with :
    (fuel : ℕ) (url : Bytes) {s : Store} {xs : List Ptr} (qs : List Ptr)
    → Linked s xs
    → Chain s.heap (s.hash_table (fnv1a_hash url)) qs
    → ((q : Ptr) → has q qs ≡ true → has q xs ≡ true)
    → length qs < fuel
    → let hit = first_with s.heap url qs in
      (t : Store) × (find fuel url s ≡ ok hit t)
      × Linked t (if hit == null then xs else erase hit xs ++ hit ∷ [])
      × SameBut s t
unfolding find
find-first_with fuel url {s} {xs} qs l c sub f =
    let walk = find_loop-first_with fuel url s (s.hash_table (fnv1a_hash url)) qs c f in
    let hit = first_with s.heap url qs in
    elim (Bool-cases (hit == null)) [
      | inl miss ↦ (s, ground (arith, walk), rw miss l, SameBut-refl s)
      | inr found ↦
          let (t, run, lt, st) = touch_lem hit l (sub hit (first_with-has s.heap url qs found)) in
          (t, ground (arith, walk, run), rw found lt, st)
    ]

-- In a store whose buckets are empty every lookup misses and changes nothing.
pub cache_lookup-misses :
    (alloc : Bool) (fuel : ℕ) (url : Bytes) {s : Store} {cs : Cells}
    → IsCache s cs
    → cache_lookup alloc (suc fuel) url s ≡ ok (none, 0) s
unfolding cache_lookup find_loop
cache_lookup-misses alloc fuel url c = ground (arith, c.unhashed (fnv1a_hash url))

pub find-misses :
    (fuel : ℕ) (url : Bytes) {s : Store} {cs : Cells}
    → IsCache s cs
    → find (suc fuel) url s ≡ ok null s
unfolding find find_loop
find-misses fuel url c = ground (arith, c.unhashed (fnv1a_hash url))
