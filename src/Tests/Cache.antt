-- ===== src/Tests/Cache.antt =====
-- Runs of the cache: one element is added to an empty cache, and one is removed.
use multi_threaded_proxy_ser.Base.{
  ◌<◌, ◌^◌, ◌≡◌, refl, inr, true, none, some, [], ◌∷◌, ◌++◌, arith, Bytes, bytes, has, sym, ap,
  subst, ◌∙◌,
}
use multi_threaded_proxy_ser.Cache.Store.{Ptr, CacheElement, Store, Run, ok, fault, out_of_fuel}
use multi_threaded_proxy_ser.Cache.Lru.{lru_remove}
use multi_threaded_proxy_ser.Cache.Ops.{
  footprint, make_room, Allocation, add_cache_element, cache_lookup,
}
use multi_threaded_proxy_ser.Cache.Linked.{Linked, lru_remove-erase}
use multi_threaded_proxy_ser.Cache.Refine.{Cells, IsCache, evict}
use multi_threaded_proxy_ser.Cache.Add.{new_item, added, accepted, add_cache_element-added}
use multi_threaded_proxy_ser.Cache.Lookup.{Chain}
use multi_threaded_proxy_ser.Cache.History.{
  cleared, IsFresh, Reach, start, later, add, Reach-IsCache, Reach-misses, cleared-IsCache,
  ok-state,
}

abbrev page_url : Bytes
page_url = bytes "GET /"

abbrev page : Bytes
page = bytes "<p>hi</p>"

abbrev raw : CacheElement
raw = record { content = []; len = 7; url = []; hash_next = 0; lru_prev = 9; lru_next = 9 }

abbrev memory : Allocation
memory = record { element = 5; raw = raw; data_given = true; url_given = true }

abbrev empty : Store
empty = cleared (λ p. none)

abbrev page_cells : Cells
page_cells = (5, new_item page 9 page_url) ∷ []

abbrev state_of : {A : Type 0} → Run A → Store
state_of (ok a s) = s
state_of fault = empty
state_of out_of_fuel = empty

abbrev one_page : Store
one_page = state_of (add_cache_element 1 memory page 9 page_url empty)

empty-IsCache : IsCache empty []
empty-IsCache = cleared-IsCache (λ p. none)

page_fits : footprint 9 page_url < 2 ^ 31
page_fits = omega arith

add_cache_element-added_example :
    (t : Store) × (add_cache_element 1 memory page 9 page_url empty
      ≡ ok (accepted memory 9 page_url) t)
    × IsCache t (added memory page 9 page_url [])
unfolding evict
add_cache_element-added_example =
    add_cache_element-added 0 memory page 9 page_url [] empty-IsCache page_fits refl

make_room-same : (u : Store) → make_room 1 1 (footprint 9 page_url) empty ≡ ok tt u → empty ≡ u
unfolding make_room
make_room-same u e = ok-state e

page-IsFresh : IsFresh 1 5 (footprint 9 page_url) empty
page-IsFresh u e = inr (ap (λ s. s.heap 5) (sym (make_room-same u e)))

add_runs : add_cache_element 1 memory page 9 page_url empty ≡ ok true one_page
unfolding add_cache_element
add_runs = refl

add_page : Reach empty one_page
add_page = later start (add 0 memory page 9 page_url true page_fits page-IsFresh add_runs)

Reach-IsCache_example : (cs : Cells) × IsCache one_page cs
Reach-IsCache_example = Reach-IsCache add_page

-- The page that was added is asked for again, and is not found.
Reach-misses_example : cache_lookup true 3 page_url one_page ≡ ok (none, 0) one_page
Reach-misses_example = Reach-misses true 2 page_url add_page

one_page-IsCache : IsCache one_page page_cells
unfolding added evict
one_page-IsCache =
    let (t, run, c) =
      add_cache_element-added 0 memory page 9 page_url [] empty-IsCache page_fits refl in
    subst (λ s. IsCache s page_cells) (ok-state (sym run ∙ add_runs)) c

-- A second page, behind the first.
abbrev next_memory : Allocation
next_memory = record memory { element = 6 }

abbrev two_pages : Store
two_pages = state_of (add_cache_element 1 next_memory page 9 (bytes "GET /b") one_page)

abbrev two_cells : Cells
two_cells = page_cells ++ (6, new_item page 9 (bytes "GET /b")) ∷ []

second_runs : add_cache_element 1 next_memory page 9 (bytes "GET /b") one_page ≡ ok true two_pages
unfolding add_cache_element
second_runs = refl

two_pages-IsCache : IsCache two_pages two_cells
unfolding added evict
two_pages-IsCache =
    let (t, run, c) =
      add_cache_element-added 0 next_memory page 9 (bytes "GET /b") page_cells one_page-IsCache
        (omega arith) refl in
    subst (λ s. IsCache s two_cells) (ok-state (sym run ∙ second_runs)) c

-- The first page's element, unlinked, goes to the end.
abbrev front_removed : Store
front_removed = state_of (lru_remove 5 two_pages)

front_runs : lru_remove 5 two_pages ≡ ok tt front_removed
unfolding lru_remove add_cache_element
front_runs = refl

front-Linked : Linked front_removed (6 ∷ [])
front-Linked =
    let (t, run, l, _) = lru_remove-erase 5 two_pages-IsCache.linked refl in
    subst (λ s. Linked s (6 ∷ [])) (ok-state (sym run ∙ front_runs)) l

front_holds : (e : CacheElement) × (front_removed.heap 5 ≡ some e)
unfolding lru_remove add_cache_element
front_holds = (_, refl)

-- The two pages with every bucket leading to the first.
abbrev hashed_pages : Store
hashed_pages = record two_pages { hash_table = λ i. 5 }

hashed-Linked : Linked hashed_pages (5 ∷ 6 ∷ [])
hashed-Linked =
    let l = two_pages-IsCache.linked in
    record { distinct = l.distinct; nodes = l.nodes; head = l.head; tail = l.tail }

hashed-Chain : Chain hashed_pages.heap 5 (5 ∷ [])
unfolding add_cache_element
hashed-Chain = (_, refl, (λ e. omega (arith, e)), refl, refl)

hashed_listed : (q : Ptr) → has q (5 ∷ []) ≡ true → has q (5 ∷ 6 ∷ []) ≡ true
hashed_listed q h = ground arith
