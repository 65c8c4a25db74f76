-- ===== src/Earlier/Bounds.antt =====
-- The size counter of the earlier server, and when its add_cache_element comes back.
use multi_threaded_proxy_ser.Base.{
  ℕ, suc, ◌+◌, ◌^◌, ◌≤◌, ◌<◌, ◌≡◌, ◌⊎◌, refl, sym, ◌∙◌, ap, subst, Bool-cases, inl, inr, ◌&&◌, ltb,
  Bool, true, false, List, [], ◌∷◌, arith, Bytes, if◌then◌else◌, leb, length,
}
use multi_threaded_proxy_ser.Earlier.Cache.{
  CacheElement, Cache, new_element, Run, returned, blocked, fault, acquire, release, footprint,
  max_size, max_element_size, make_room, remove_cache_element, add_locked, insert,
  add_cache_element,
}

-- What the elements of a list take together.
abbrev pub total : List CacheElement → ℕ
total [] = 0
total (e ∷ l) = footprint e.len e.url + total l

-- The counter of a cache that nobody holds is what its elements take, and at most the limit.
pub record IsUnlocked (s : Cache) : Type 0 where
  pub size : s.cache_size ≡ total s.elements
  pub bounded : total s.elements ≤ max_size
  pub free : s.locked ≡ false

abbrev pub added : Bytes → ℕ → Bytes → ℕ → Cache → Cache
added content size url now s = record s {
  elements = new_element content size url now ∷ s.elements;
  cache_size = s.cache_size + footprint size url;
  locked = false;
}

-- On a cache that nobody holds and whose counter is right, with a footprint in the range of an
-- `int`, add_cache_element of the earlier server returns 0 for an element above the limit of one,
-- and never returns when the element does not fit beside the others, since it holds the lock that
-- remove_cache_element waits for. Else it puts the element in front of the list and returns 1,
-- unless a `malloc` fails or the text of the data is too long for the size that is given.
pub add_cache_element_lem :
    (fuel : ℕ) (given : Bool) (content : Bytes) (size : ℕ) (url : Bytes) (now : ℕ) (s : Cache)
    → IsUnlocked s
    → footprint size url < 2 ^ 31
    → add_cache_element (suc fuel) given content size url now s ≡ (
        if leb (footprint size url) max_element_size
        then (if leb (total s.elements + footprint size url) max_size
            then (if given && ltb (length content) (size + 10)
                then returned true (added content size url now s)
                else fault)
            else blocked)
        else returned false s)
unfolding add_cache_element add_locked insert make_room remove_cache_element acquire release
add_cache_element_lem fuel given content size url now s c small =
    let same : record s { locked = false } ≡ s = λ i. record s { locked = sym c.free i } in
    let fits = given && ltb (length content) (size + 10) in
    elim (Bool-cases (leb (footprint size url) max_element_size)) [
      | inr f ↦ ground (arith, c.size, c.bounded, c.free, small, same, f)
      | inl f ↦ elim (Bool-cases (leb (total s.elements + footprint size url) max_size)) [
        | inr g ↦ ground (arith, c.size, c.bounded, c.free, small, same, f, g)
        | inl g ↦ elim (Bool-cases fits) [
          | inr k ↦ ground (arith, c.size, c.bounded, c.free, small, same, f, g, k)
          | inl k ↦ ground (arith, c.size, c.bounded, c.free, small, same, f, g, k)
        ]
      ]
    ]

added-IsUnlocked :
    (content : Bytes) (size : ℕ) (url : Bytes) (now : ℕ) (s : Cache)
    → IsUnlocked s
    → total s.elements + footprint size url ≤ max_size
    → IsUnlocked (added content size url now s)
added-IsUnlocked content size url now s c room = record {
  size = omega (arith, c.size);
  bounded = omega (arith, room);
  free = refl;
}

-- What a call that comes back leaves.
abbrev pub IsAdded : Bytes → ℕ → Bytes → ℕ → Cache → Bool → Cache → Type 0
IsAdded content size url now s ret s' =
    ((ret ≡ false) × (s' ≡ s))
    ⊎ ((ret ≡ true)
        × (s' ≡ added content size url now s)
        × (total s.elements + footprint size url ≤ max_size))

abbrev ret_of : Run Bool → Bool
ret_of (returned b s) = b
ret_of _ = false

abbrev cache_of : Cache → Run Bool → Cache
cache_of d (returned b s) = s
cache_of d _ = d

pub add_cache_element-IsAdded :
    (fuel : ℕ) (given : Bool) (content : Bytes) (size : ℕ) (url : Bytes) (now : ℕ) (s : Cache)
    (ret : Bool) (s' : Cache)
    → IsUnlocked s
    → footprint size url < 2 ^ 31
    → add_cache_element (suc fuel) given content size url now s ≡ returned ret s'
    → IsAdded content size url now s ret s'
add_cache_element-IsAdded fuel given content size url now s ret s' c small e =
    let branches = sym (add_cache_element_lem fuel given content size url now s c small) ∙ e in
    elim (Bool-cases (leb (footprint size url) max_element_size)) [
      | inr f ↦
          let back : returned false s ≡ returned ret s' = ground (arith, branches, f) in
          inl (ap ret_of (sym back), ap (cache_of s) (sym back))
      | inl f ↦ elim (Bool-cases (leb (total s.elements + footprint size url) max_size)) [
        | inr g ↦ absurd (ground (arith, branches, f, g))
        | inl g ↦ elim (Bool-cases (given && ltb (length content) (size + 10))) [
          | inr k ↦ absurd (ground (arith, branches, f, g, k))
          | inl k ↦
              let back : returned true (added content size url now s) ≡ returned ret s' =
                ground (arith, branches, f, g, k) in
              inr (ap ret_of (sym back), ap (cache_of s) (sym back), ground (arith, g))
        ]
      ]
    ]

pub IsAdded-IsUnlocked :
    (content : Bytes) (size : ℕ) (url : Bytes) (now : ℕ) (s : Cache) (ret : Bool) (s' : Cache)
    → IsUnlocked s
    → IsAdded content size url now s ret s'
    → IsUnlocked s'
IsAdded-IsUnlocked content size url now s ret s' c (inl (r, e)) = subst IsUnlocked (sym e) c
IsAdded-IsUnlocked content size url now s ret s' c (inr (r, e, room)) =
    subst IsUnlocked (sym e) (added-IsUnlocked content size url now s c room)
