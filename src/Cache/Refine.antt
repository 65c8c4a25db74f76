-- ===== src/Cache/Refine.antt =====
-- The cache as a queue of items: what a store stands for, least recently used first.
use multi_threaded_proxy_ser.Base.{
  ℕ, ◌+◌, ◌≤◌, ◌≡◌, refl, ap, ◌∙◌, true, false, Option, none, some, List, [], ◌∷◌, ◌++◌, arith,
  Bytes, if◌then◌else◌, ltb, has, length,
}
use multi_threaded_proxy_ser.Cache.Store.{Ptr, null, CacheElement, Heap, Store}
use multi_threaded_proxy_ser.Cache.Linked.{Linked, payload}
use multi_threaded_proxy_ser.Cache.Ops.{footprint, max_size}

pub record Item : Type 0 where
  pub url : Bytes
  pub content : Bytes
  pub len : ℕ

abbrev pub item : Option CacheElement → Option Item
item none = none
item (some e) = some (record { url = e.url; content = e.content; len = e.len })

-- An item and the address at which it is stored.
abbrev pub Cells : Type 0
Cells = List (Ptr × Item)

abbrev pub addresses : Cells → List Ptr
addresses [] = []
addresses ((p, _) ∷ cs) = p ∷ addresses cs

abbrev pub items : Cells → List Item
items [] = []
items ((_, i) ∷ cs) = i ∷ items cs

abbrev pub Holds : Heap → Cells → Type 0
Holds h [] = Unit {0}
Holds h ((p, i) ∷ cs) = (item (h p) ≡ some i) × Holds h cs

-- The bytes that the items take, by the code's own count.
abbrev pub total : List Item → ℕ
total [] = 0
total (i ∷ is) = footprint i.len i.url + total is

-- A store that stands for `cs`. No bucket of the hash table has an element.
pub record IsCache (s : Store) (cs : Cells) : Type 0 where
  pub linked : Linked s (addresses cs)
  pub holds : Holds s.heap cs
  pub size : s.cache_size ≡ total (items cs)
  pub bounded : total (items cs) ≤ max_size
  pub unhashed : (i : ℕ) → s.hash_table i ≡ null

-- The oldest items go until `need` more bytes fit.
unfoldable pub evict : ℕ → Cells → Cells
evict need [] = []
evict need (c ∷ cs) = if ltb max_size (total (items (c ∷ cs)) + need) then evict need cs else c ∷ cs

pub item-payload : (a b : Option CacheElement) → payload a ≡ payload b → item a ≡ item b
item-payload none none e = refl
item-payload none (some b) e = cc
item-payload (some a) none e = cc
item-payload (some a) (some b) e = ground arith

pub Holds-frame :
    (g h : Heap) (cs : Cells)
    → ((p : Ptr) → has p (addresses cs) ≡ true → item (g p) ≡ item (h p))
    → Holds h cs
    → Holds g cs
Holds-frame g h [] same k = tt
Holds-frame g h ((p, i) ∷ cs) same k =
    (same p (ground arith) ∙ k.0, Holds-frame g h cs (λ q m. same q (ground arith)) k.1)

pub Holds-append :
    (h : Heap) (cs : Cells) (p : Ptr) (i : Item)
    → Holds h cs
    → item (h p) ≡ some i
    → Holds h (cs ++ (p, i) ∷ [])
Holds-append h [] p i k e = (e, tt)
Holds-append h (c ∷ cs) p i k e = (k.0, Holds-append h cs p i k.1 e)

pub addresses-append :
    (cs : Cells) (p : Ptr) (i : Item) → addresses (cs ++ (p, i) ∷ []) ≡ addresses cs ++ p ∷ []
addresses-append [] p i = refl
addresses-append (c ∷ cs) p i = ap (◌∷◌ c.0) (addresses-append cs p i)

pub total-append :
    (cs : Cells) (p : Ptr) (i : Item)
    → total (items (cs ++ (p, i) ∷ [])) ≡ total (items cs) + footprint i.len i.url
total-append [] p i = omega arith
total-append (c ∷ cs) p i = omega (arith, total-append cs p i)

-- Every item takes at least the room of its struct.
pub length-le-total : (cs : Cells) → length cs ≤ total (items cs)
length-le-total [] = omega arith
length-le-total (c ∷ cs) = omega (arith, length-le-total cs)

-- After the evictions the new bytes fit.
pub evict-fits :
    (need : ℕ) (cs : Cells) → need ≤ max_size → total (items (evict need cs)) + need ≤ max_size
unfolding evict
evict-fits need [] h = omega arith
evict-fits need (c ∷ cs) h = ground (arith, evict-fits need cs h)

pub has-evict :
    (need : ℕ) (cs : Cells) (p : Ptr)
    → has p (addresses cs) ≡ false
    → has p (addresses (evict need cs)) ≡ false
unfolding evict
has-evict need [] p h = refl
has-evict need (c ∷ cs) p h = ground (arith, has-evict need cs p)
