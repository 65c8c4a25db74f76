-- ===== src/Earlier/Find.antt =====
-- find stops at the first element with the key and changes nothing but its time.
use multi_threaded_proxy_ser.Base.{
  ℕ, ◌≡◌, refl, ap, ◌∙◌, sym, true, false, Option, none, some, List, [], ◌∷◌, ◌++◌, arith, Bytes,
  same, Bool-cases, inl, inr, ◌⊎◌,
}
use multi_threaded_proxy_ser.Earlier.Cache.{
  CacheElement, Cache, returned, acquire, release, find_loop, find,
}
use multi_threaded_proxy_ser.Earlier.Bounds.{total, IsUnlocked}

-- No element has the key.
abbrev pub NoneWith : Bytes → List CacheElement → Type 0
NoneWith url [] = Unit {0}
NoneWith url (e ∷ l) = (same e.url url ≡ false) × NoneWith url l

abbrev pub used : ℕ → CacheElement → CacheElement
used now e = record e { lru_time_track = now }

-- The first element with the key, with what stands in front of it and behind it.
pub record IsHit (url : Bytes) (l : List CacheElement) : Type 0 where
  pub front : List CacheElement
  pub site : CacheElement
  pub back : List CacheElement
  pub parts : l ≡ front ++ site ∷ back
  pub key : same site.url url ≡ true
  pub first : NoneWith url front

abbrev pub IsFound :
    Bytes → ℕ → List CacheElement → Option CacheElement × List CacheElement → Type 0
IsFound url now l r =
    (NoneWith url l × (r ≡ (none, l)))
    ⊎ ((h : IsHit url l) × (r ≡ (some (used now h.site), h.front ++ used now h.site ∷ h.back)))

find_loop-IsFound :
    (url : Bytes) (now : ℕ) (l : List CacheElement) → IsFound url now l (find_loop url now l)
unfolding find_loop
find_loop-IsFound url now [] = inl (tt, refl)
find_loop-IsFound url now (e ∷ l) = elim (Bool-cases (same e.url url)) [
  | inl b ↦ inr (
    record { front = []; site = e; back = l; parts = refl; key = b; first = tt },
    ground (arith, b),
  )
  | inr b ↦ elim (find_loop-IsFound url now l) [
    | inl (n, r) ↦ inl ((b, n), ground (arith, b, r))
    | inr (h, r) ↦ inr (
      record {
        front = e ∷ h.front;
        site = h.site;
        back = h.back;
        parts = ap (◌∷◌ e) h.parts;
        key = h.key;
        first = (b, h.first);
      },
      ground (arith, b, r),
    )
  ]
]

total-used :
    (now : ℕ) (front : List CacheElement) (site : CacheElement) (back : List CacheElement)
    → total (front ++ used now site ∷ back) ≡ total (front ++ site ∷ back)
total-used now [] site back = refl
total-used now (e ∷ front) site back = omega (arith, total-used now front site back)

-- What find does to the cache `s`, and what it returns.
abbrev pub IsLookup : Bytes → ℕ → Cache → Option CacheElement → Cache → Type 0
IsLookup url now s site s' =
    (NoneWith url s.elements × (site ≡ none) × (s' ≡ s))
    ⊎ ((h : IsHit url s.elements) × (site ≡ some (used now h.site))
        × (s'.elements ≡ h.front ++ used now h.site ∷ h.back))

-- In the earlier server, on a cache that nobody holds and whose counter is right, find comes back
-- with such a cache: it returns NULL and changes nothing if no element has the key, and else the
-- first that has it, of which only the time is changed, to the present.
pub find-IsLookup :
    (url : Bytes) (now : ℕ) (s : Cache)
    → IsUnlocked s
    → (site : Option CacheElement) × (s' : Cache) × (find url now s ≡ returned site s')
      × IsLookup url now s site s'
      × IsUnlocked s'
unfolding find acquire release
find-IsLookup url now s c = elim (find_loop-IsFound url now s.elements) [
  | inl (n, r) ↦
      let same : record s { locked = false } ≡ s = λ i. record s { locked = sym c.free i } in
      (none, s, ground (arith, c.free, r, same), inl (n, refl, refl), c)
  | inr (h, r) ↦
      let l = h.front ++ used now h.site ∷ h.back in
      let size = total-used now h.front h.site h.back ∙ ap total (sym h.parts) in
      (
        some (used now h.site),
        record { elements = l; cache_size = s.cache_size; locked = false },
        ground (arith, c.free, r),
        inr (h, refl, refl),
        record {
          size = omega (arith, size, c.size);
          bounded = omega (arith, size, c.bounded);
          free = refl;
        },
      )
]
