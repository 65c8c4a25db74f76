-- ===== src/Cache/History.antt =====
-- All that the program does to the cache, in any order.
use multi_threaded_proxy_ser.Base.{
  Bool-cases, inl, inr, ltb, subst, ◌⊎◌, ℕ, suc, ◌<◌, ◌^◌, ◌≡◌, refl, Bool, false, Option, none, [],
  ◌∷◌, arith, Bytes, has, ◌∙◌, sym,
}
use multi_threaded_proxy_ser.Cache.Store.{Ptr, null, Heap, Store, Run, ok}
use multi_threaded_proxy_ser.Cache.Ops.{
  max_element_size, footprint, make_room, Allocation, add_cache_element, remove_unlocked, find,
  cache_lookup,
}
use multi_threaded_proxy_ser.Cache.Refine.{Cells, addresses, Holds, IsCache, evict}
use multi_threaded_proxy_ser.Cache.Evict.{remove_unlocked-IsCache, remove_unlocked-empty}
use multi_threaded_proxy_ser.Cache.Add.{
  added, add_cache_element-added, add_cache_element-large, room_for,
}
use multi_threaded_proxy_ser.Cache.Lookup.{cache_lookup-misses, find-misses}

-- `main` before it accepts connections: the counter is a zeroed global, `lru_init` clears the ends
-- and a loop clears the buckets.
abbrev pub cleared : Heap → Store
cleared h = record {
  heap = h;
  lru_head = null;
  lru_tail = null;
  hash_table = λ i. null;
  cache_size = 0;
}

-- `malloc` does not hand out an address that is in use when it is called, which is when the
-- evictions are done.
abbrev pub IsFresh : ℕ → Ptr → ℕ → Store → Type 0
IsFresh fuel p need s =
    (u : Store)
    → make_room (suc s.cache_size) fuel need s ≡ ok tt u
    → (p ≡ null) ⊎ (u.heap p ≡ none)

-- A call on the cache that returns.
pub data Step (s t : Store) : Type 0 where
  add :
      (fuel : ℕ) (m : Allocation) (content : Bytes) (size : ℕ) (url : Bytes) (done : Bool)
      → footprint size url < 2 ^ 31
      → IsFresh (suc fuel) m.element (footprint size url) s
      → add_cache_element (suc fuel) m content size url s ≡ ok done t
      → Step s t
  remove : (fuel : ℕ) → remove_unlocked (suc fuel) s ≡ ok tt t → Step s t
  look :
      (alloc : Bool) (fuel : ℕ) (url : Bytes) (found : Option Bytes × ℕ)
      → cache_lookup alloc (suc fuel) url s ≡ ok found t
      → Step s t
  diagnose : (fuel : ℕ) (url : Bytes) (p : Ptr) → find (suc fuel) url s ≡ ok p t → Step s t

pub data Reach (s : Store) : Store → Type 0 where
  start : Reach s s
  later : {t u : Store} → Reach s t → Step t u → Reach s u

pub cleared-IsCache : (h : Heap) → IsCache (cleared h) []
cleared-IsCache h = record {
  linked = record { distinct = (refl, tt); nodes = λ p m. cc; head = refl; tail = refl };
  holds = tt;
  size = refl;
  bounded = omega arith;
  unhashed = λ i. refl;
}

-- A fresh address is none of the cache's own.
not-has_of_fresh :
    (h : Heap) (cs : Cells) (p : Ptr) → Holds h cs → h p ≡ none → has p (addresses cs) ≡ false
not-has_of_fresh h [] p k e = refl
not-has_of_fresh h (c ∷ cs) p k e = ground (arith, not-has_of_fresh h cs p k.1 e, k.0)

pub ok-state : {A : Type 0} {a b : A} {s t : Store} → Run.ok a s ≡ ok b t → s ≡ t
ok-state e = cc

fresh-out :
    {s : Store} (fuel : ℕ) (p : Ptr) (size : ℕ) (url : Bytes) (cs : Cells)
    → IsFresh (suc fuel) p (footprint size url) s
    → IsCache s cs
    → ltb max_element_size (footprint size url) ≡ false
    → has p (addresses (evict (footprint size url) cs)) ≡ false
fresh-out fuel p size url cs fresh c fine =
    let (u, room, cu) = room_for fuel size url cs c fine in
    elim (fresh u room) [
      | inl nil ↦ rw nil cu.linked.distinct.0
      | inr free ↦ not-has_of_fresh u.heap (evict (footprint size url) cs) p cu.holds free
    ]

module _ {s t : Store} where
  add-IsCache :
      (fuel : ℕ) (m : Allocation) (content : Bytes) (size : ℕ) (url : Bytes) (done : Bool)
      (cs : Cells)
      → footprint size url < 2 ^ 31
      → IsFresh (suc fuel) m.element (footprint size url) s
      → add_cache_element (suc fuel) m content size url s ≡ ok done t
      → IsCache s cs
      → IsCache t (added m content size url cs)
  unfolding added
  add-IsCache fuel m content size url done cs small fresh run c =
      let need = footprint size url in
      elim (Bool-cases (ltb max_element_size need)) [
        | inl large ↦ rw large (
            subst (λ v. IsCache v cs)
              (ok-state
                (sym (add_cache_element-large (suc fuel) m content size url s small large) ∙ run))
              c)
        | inr fine ↦
            let (u, same, cu) =
              add_cache_element-added fuel m content size url cs c small
                (fresh-out fuel m.element size url cs fresh c fine) in
            subst (λ v. IsCache v (added m content size url cs)) (ok-state (sym same ∙ run)) cu
      ]

  remove-IsCache :
      (fuel : ℕ) (cs : Cells)
      → remove_unlocked (suc fuel) s ≡ ok tt t
      → IsCache s cs
      → (ds : Cells) × IsCache t ds
  remove-IsCache fuel [] run c =
      ([], subst (λ u. IsCache u []) (ok-state (sym (remove_unlocked-empty (suc fuel) c) ∙ run)) c)
  remove-IsCache fuel ((x, i) ∷ cs) run c =
      let (u, same, cu, _) = remove_unlocked-IsCache fuel c in
      (cs, subst (λ v. IsCache v cs) (ok-state (sym same ∙ run)) cu)

  Step-IsCache : Step s t → (cs : Cells) → IsCache s cs → (ds : Cells) × IsCache t ds
  Step-IsCache (add fuel m content size url done small fresh run) cs c =
      (added m content size url cs, add-IsCache fuel m content size url done cs small fresh run c)
  Step-IsCache (remove fuel run) cs c = remove-IsCache fuel cs run c
  Step-IsCache (look alloc fuel url found run) cs c = (
    cs,
    subst (λ u. IsCache u cs) (ok-state (sym (cache_lookup-misses alloc fuel url c) ∙ run)) c,
  )
  Step-IsCache (diagnose fuel url p run) cs c =
      (cs, subst (λ u. IsCache u cs) (ok-state (sym (find-misses fuel url c) ∙ run)) c)

-- From start-up on, every state that is reached by calls on the cache is a cache: linked,
-- counted, within bounds, and without an element in a bucket. The sizes that are asked for stay
-- below 2 ^ 31, and `malloc` gives addresses that are not in use.
pub Reach-IsCache : {h : Heap} {t : Store} → Reach (cleared h) t → (cs : Cells) × IsCache t cs
Reach-IsCache {h} start = ([], cleared-IsCache h)
Reach-IsCache (later r st) = let (cs, c) = Reach-IsCache r in Step-IsCache st cs c

-- However the cache was filled by calls from start-up on, a lookup of any key misses and changes
-- nothing: nothing is ever put into a bucket.
pub Reach-misses :
    {h : Heap} {t : Store} (alloc : Bool) (fuel : ℕ) (url : Bytes)
    → Reach (cleared h) t
    → cache_lookup alloc (suc fuel) url t ≡ ok (none, 0) t
Reach-misses alloc fuel url r = cache_lookup-misses alloc fuel url (Reach-IsCache r).1
