-- ===== src/Earlier/Remove.antt =====
-- remove_cache_element takes out an element of the least time.
use multi_threaded_proxy_ser.Base.{
  ℕ, suc, ◌+◌, ◌≤◌, ◌<◌, ◌≡◌, refl, ap, ◌∙◌, sym, subst, append-nil, false, List, [], ◌∷◌, ◌++◌,
  arith, append_assoc, ltb, length, length-append, Bool-cases, inl, inr,
}
use multi_threaded_proxy_ser.Earlier.Cache.{
  CacheElement, Cache, returned, max_size, acquire, release, footprint, oldest_loop, unlink_at,
  remove_oldest, remove_cache_element,
}
use multi_threaded_proxy_ser.Earlier.Bounds.{total, IsUnlocked}

-- Every element was used after the time `t`.
abbrev pub AreNewer : ℕ → List CacheElement → Type 0
AreNewer t [] = Unit {0}
AreNewer t (e ∷ l) = (t < e.lru_time_track) × AreNewer t l

-- No element was used before the time `t`.
abbrev pub AreNotOlder : ℕ → List CacheElement → Type 0
AreNotOlder t [] = Unit {0}
AreNotOlder t (e ∷ l) = (t ≤ e.lru_time_track) × AreNotOlder t l

-- The first element with the least time of `l`, with what stands in front of it and behind it.
pub record IsOldest (temp : CacheElement) (place : ℕ) (l : List CacheElement) : Type 0 where
  pub front : List CacheElement
  pub back : List CacheElement
  pub parts : l ≡ front ++ temp ∷ back
  pub at : place ≡ length front
  pub newer : AreNewer temp.lru_time_track front
  pub not_older : AreNotOlder temp.lru_time_track back

AreNewer-append :
    (t : ℕ) (l m : List CacheElement) → AreNewer t l → AreNewer t m → AreNewer t (l ++ m)
AreNewer-append t [] m a b = b
AreNewer-append t (e ∷ l) m a b = (a.0, AreNewer-append t l m a.1 b)

AreNewer-before : (t u : ℕ) (l : List CacheElement) → u < t → AreNewer t l → AreNewer u l
AreNewer-before t u [] h a = tt
AreNewer-before t u (e ∷ l) h a = (omega (arith, a.0), AreNewer-before t u l h a.1)

AreNewer-AreNotOlder : (t u : ℕ) (l : List CacheElement) → u < t → AreNotOlder t l → AreNewer u l
AreNewer-AreNotOlder t u [] h a = tt
AreNewer-AreNotOlder t u (e ∷ l) h a = (omega (arith, a.0), AreNewer-AreNotOlder t u l h a.1)

AreNotOlder-snoc :
    (t : ℕ) (l : List CacheElement) (e : CacheElement)
    → AreNotOlder t l
    → t ≤ e.lru_time_track
    → AreNotOlder t (l ++ e ∷ [])
AreNotOlder-snoc t [] e a h = (h, tt)
AreNotOlder-snoc t (d ∷ l) e a h = (a.0, AreNotOlder-snoc t l e a.1 h)

IsOldest-of :
    {r r' : CacheElement × ℕ} {l l' : List CacheElement}
    → r ≡ r'
    → l ≡ l'
    → IsOldest r.0 r.1 l
    → IsOldest r'.0 r'.1 l'
IsOldest-of {r} {r'} {l} {l'} e f o =
    subst (λ q. IsOldest q.0 q.1 l') e (subst (IsOldest r.0 r.1) f o)

-- The elements `front`, `temp` and `mid` have been looked at.
oldest_loop-IsOldest :
    (front : List CacheElement) (temp : CacheElement) (mid l : List CacheElement) (place next : ℕ)
    → place ≡ length front
    → next ≡ length front + 1 + length mid
    → AreNewer temp.lru_time_track front
    → AreNotOlder temp.lru_time_track mid
    → let r = oldest_loop temp place next l in IsOldest r.0 r.1 (front ++ temp ∷ (mid ++ l))
unfolding oldest_loop
oldest_loop-IsOldest front temp mid [] place next p n newer not_older = record {
  front = front;
  back = mid ++ [];
  parts = refl;
  at = p;
  newer = newer;
  not_older = subst (AreNotOlder temp.lru_time_track) (sym (append-nil mid)) not_older;
}
oldest_loop-IsOldest front temp mid (e ∷ l) place next p n newer not_older =
    elim (Bool-cases (ltb e.lru_time_track temp.lru_time_track)) [
      | inl b ↦
          let turn : oldest_loop temp place next (e ∷ l) ≡ oldest_loop e next (suc next) l =
            ground (arith, b) in
          let before : e.lru_time_track < temp.lru_time_track = ground (arith, b) in
          let newer' =
            AreNewer-append e.lru_time_track front (temp ∷ mid)
              (AreNewer-before temp.lru_time_track e.lru_time_track front before newer)
              (
                before,
                AreNewer-AreNotOlder temp.lru_time_track e.lru_time_track mid before not_older,
              ) in
          let len = length-append front (temp ∷ mid) in
          IsOldest-of (sym turn) (append_assoc front (temp ∷ mid) (e ∷ l)) (
            oldest_loop-IsOldest (front ++ temp ∷ mid) e [] l next (suc next)
              (omega (arith, n, len)) (omega (arith, n, len)) newer' tt)
      | inr b ↦
          let turn : oldest_loop temp place next (e ∷ l) ≡ oldest_loop temp place (suc next) l =
            ground (arith, b) in
          let not_before : temp.lru_time_track ≤ e.lru_time_track = ground (arith, b) in
          let len = length-append mid (e ∷ []) in
          IsOldest-of (sym turn) (ap (λ x. front ++ temp ∷ x) (append_assoc mid (e ∷ []) l)) (
            oldest_loop-IsOldest front temp (mid ++ e ∷ []) l place (suc next) p
              (omega (arith, n, len)) newer
              (AreNotOlder-snoc temp.lru_time_track mid e not_older not_before))
    ]

unlink_at-front :
    (front : List CacheElement) (temp : CacheElement) (back : List CacheElement)
    → unlink_at (length front) (front ++ temp ∷ back) ≡ front ++ back
unfolding unlink_at
unlink_at-front [] temp back = refl
unlink_at-front (e ∷ front) temp back = ap (◌∷◌ e) (unlink_at-front front temp back)

total-middle :
    (front : List CacheElement) (temp : CacheElement) (back : List CacheElement)
    → total (front ++ temp ∷ back) ≡ footprint temp.len temp.url + total (front ++ back)
total-middle [] temp back = refl
total-middle (e ∷ front) temp back = omega (arith, total-middle front temp back)

-- The element `temp` is gone from `s`: it is the first with the least time.
pub record IsRemoved (s s' : Cache) : Type 0 where
  pub temp : CacheElement
  pub front : List CacheElement
  pub back : List CacheElement
  pub parts : s.elements ≡ front ++ temp ∷ back
  pub newer : AreNewer temp.lru_time_track front
  pub not_older : AreNotOlder temp.lru_time_track back
  pub left : s'.elements ≡ front ++ back

remove-parts :
    (s : Cache) (e : CacheElement) (l : List CacheElement)
    (o : (r : CacheElement × ℕ) × (oldest_loop e 0 1 l ≡ r) × IsOldest r.0 r.1 (e ∷ l))
    → IsUnlocked s
    → s.elements ≡ e ∷ l
    → let rest = o.2.front ++ o.2.back in
      remove_cache_element s
      ≡ returned tt (record { elements = rest; cache_size = total rest; locked = false })
unfolding remove_cache_element remove_oldest acquire release
remove-parts s e l (r, run, o) c shape =
    let gone : unlink_at r.1 (e ∷ l) ≡ o.front ++ o.back =
      ap (λ x. unlink_at r.1 x) o.parts
      ∙ ap (λ n. unlink_at n (o.front ++ r.0 ∷ o.back)) o.at
      ∙ unlink_at-front o.front r.0 o.back in
    let size = ap total (shape ∙ o.parts) ∙ total-middle o.front r.0 o.back in
    ground (arith, run, gone, size, c.size, c.bounded, c.free, shape)

-- In the earlier server, on a cache with an element, that nobody holds and whose counter is right,
-- remove_cache_element comes back, has taken out the first of the elements with the least time, and
-- leaves such a cache.
pub remove_cache_element-IsRemoved :
    (s : Cache) (e : CacheElement) (l : List CacheElement)
    → IsUnlocked s
    → s.elements ≡ e ∷ l
    → (s' : Cache) × (remove_cache_element s ≡ returned tt s') × IsRemoved s s' × IsUnlocked s'
remove_cache_element-IsRemoved s e l c shape =
    let o = oldest_loop-IsOldest [] e [] l 0 1 refl refl tt tt in
    let rest = o.front ++ o.back in
    let r = oldest_loop e 0 1 l in
    let size = ap total (shape ∙ o.parts) ∙ total-middle o.front r.0 o.back in
    let small : total rest ≤ max_size = omega (arith, size, c.bounded) in
    (
      record { elements = rest; cache_size = total rest; locked = false },
      remove-parts s e l (r, refl, o) c shape,
      record {
        temp = r.0;
        front = o.front;
        back = o.back;
        parts = shape ∙ o.parts;
        newer = o.newer;
        not_older = o.not_older;
        left = refl;
      },
      record { size = refl; bounded = small; free = refl },
    )
