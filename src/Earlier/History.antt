-- ===== src/Earlier/History.antt =====
-- Any history of calls of the earlier server's cache that come back.
use multi_threaded_proxy_ser.Base.{
  ℕ, suc, ◌^◌, ◌<◌, ◌⊎◌, ◌≡◌, refl, ◌∙◌, sym, subst, Bool, true, false, Option, some, List, [], ◌∷◌,
  Bytes, same_refl, arith, inl, inr,
}
use multi_threaded_proxy_ser.Earlier.Cache.{
  CacheElement, Cache, Run, returned, empty_cache, find, find_loop, acquire, release, footprint,
  remove_cache_element, remove_oldest, add_cache_element, new_element,
}
use multi_threaded_proxy_ser.Earlier.Bounds.{
  IsUnlocked, added, add_cache_element-IsAdded, IsAdded-IsUnlocked,
}
use multi_threaded_proxy_ser.Earlier.Remove.{remove_cache_element-IsRemoved}
use multi_threaded_proxy_ser.Earlier.Find.{find-IsLookup}

-- A call on the cache that comes back.
pub data Step (s t : Cache) : Type 0 where
  look :
      (url : Bytes) (now : ℕ) (site : Option CacheElement)
      → find url now s ≡ returned site t
      → Step s t
  remove : (done : Unit {0}) → remove_cache_element s ≡ returned done t → Step s t
  add :
      (fuel : ℕ) (given : Bool) (content : Bytes) (size : ℕ) (url : Bytes) (now : ℕ) (ret : Bool)
      → footprint size url < 2 ^ 31
      → add_cache_element (suc fuel) given content size url now s ≡ returned ret t
      → Step s t

-- The caches after calls that came back, in any order.
pub data Reach : Cache → Type 0 where
  start : Reach empty_cache
  later : {s t : Cache} → Reach s → Step s t → Reach t

returned-cache : {A : Type 0} {a b : A} {s t : Cache} → Run.returned a s ≡ returned b t → s ≡ t
returned-cache e = cc

empty_cache-IsUnlocked : IsUnlocked empty_cache
unfolding empty_cache
empty_cache-IsUnlocked = record { size = refl; bounded = omega arith; free = refl }

list-cases :
    (l : List CacheElement)
    → (l ≡ []) ⊎ ((e : CacheElement) × (m : List CacheElement) × (l ≡ e ∷ m))
list-cases [] = inl refl
list-cases (e ∷ l) = inr (e, l, refl)

remove_cache_element-IsUnlocked :
    (s t : Cache) (done : Unit {0})
    → IsUnlocked s
    → remove_cache_element s ≡ returned done t
    → IsUnlocked t
unfolding remove_cache_element remove_oldest acquire release
remove_cache_element-IsUnlocked s t done c e = elim (list-cases s.elements) [
  | inl n ↦
      let same : record s { locked = false } ≡ s = λ i. record s { locked = sym c.free i } in
      let run : remove_cache_element s ≡ returned tt s = ground (arith, n, c.free, same) in
      subst IsUnlocked (returned-cache (sym run ∙ e)) c
  | inr (d, l, n) ↦
      let (u, run, r, cu) = remove_cache_element-IsRemoved s d l c n in
      subst IsUnlocked (returned-cache (sym run ∙ e)) cu
]

Step-IsUnlocked : (s t : Cache) → Step s t → IsUnlocked s → IsUnlocked t
Step-IsUnlocked s t (look url now site e) c =
    let (site', u, run, found, cu) = find-IsLookup url now s c in
    subst IsUnlocked (returned-cache (sym run ∙ e)) cu
Step-IsUnlocked s t (remove done e) c = remove_cache_element-IsUnlocked s t done c e
Step-IsUnlocked s t (add fuel given content size url now ret small e) c =
    IsAdded-IsUnlocked content size url now s ret t c
      (add_cache_element-IsAdded fuel given content size url now s ret t c small e)

pub Reach-IsUnlocked : {s : Cache} → Reach s → IsUnlocked s
Reach-IsUnlocked start = empty_cache-IsUnlocked
Reach-IsUnlocked (later r step) = Step-IsUnlocked _ _ step (Reach-IsUnlocked r)

-- In the earlier server, a response whose add_cache_element returned 1 is what the next find with
-- its key returns, with its data, its length and the time of the search. The cache was held by
-- nobody before and its counter right, and the footprint is in the range of an `int`.
pub find-add_cache_element :
    (fuel : ℕ) (given : Bool) (content : Bytes) (size : ℕ) (url : Bytes) (now moment : ℕ)
    (s s' : Cache)
    → IsUnlocked s
    → footprint size url < 2 ^ 31
    → add_cache_element (suc fuel) given content size url now s ≡ returned true s'
    → (s'' : Cache) × (find url moment s'
        ≡ returned (some (new_element content size url moment)) s'')
unfolding find find_loop acquire release
find-add_cache_element fuel given content size url now moment s s' c small e =
    elim (add_cache_element-IsAdded fuel given content size url now s true s' c small e) [
      | inl (r, _) ↦ absurd (ground (arith, r))
      | inr (r, e', room) ↦
          let t = added content size url now s in
          (
            record t { elements = new_element content size url moment ∷ s.elements },
            ground (arith, e', c.free, same_refl url),
          )
    ]
