-- ===== src/Cache/Linked.antt =====
-- The invariant of the doubly linked list, and what lru_remove and lru_append_tail do to it.
use native.Mathlib.Decide.{ℕ_discrete}
use multi_threaded_proxy_ser.Base.{
  erase, has-erase, not-has-erase, not-has-erase_self, erase-Distinct, sym, subst, ◌≡◌, refl, ◌≢◌,
  true, false, Option, none, some, List, [], ◌∷◌, ◌++◌, arith, ◌==◌, if◌then◌else◌, has, Distinct,
}
use multi_threaded_proxy_ser.Cache.Store.{
  Ptr, null, CacheElement, Heap, Store, ok, modify, load, update,
}
use multi_threaded_proxy_ser.Cache.Lru.{set_next, set_prev, lru_remove, lru_append_tail}
use multi_threaded_proxy_ser.Cache.Order.{
  succ_in, pred_in, has-append, append-Distinct, succ_in-erase, pred_in-erase, succ_in-append,
  succ_in-append_self, pred_in-append, pred_in-append_self, pred_in-has, succ_in-has, pred_in-ne,
  succ_in-ne, head-append,
}

-- The element at `p` is linked to its neighbours in `xs`.
pub record IsNode (h : Heap) (xs : List Ptr) (p : Ptr) : Type 0 where
  pub element : CacheElement
  pub holds : h p ≡ some element
  pub prev : element.lru_prev ≡ pred_in null xs p
  pub next : element.lru_next ≡ succ_in null xs p

-- The list holds the distinct addresses `xs`, least recently used first.
pub record Linked (s : Store) (xs : List Ptr) : Type 0 where
  pub distinct : Distinct (null ∷ xs)
  pub nodes : (p : Ptr) → has p xs ≡ true → IsNode s.heap xs p
  pub head : s.lru_head ≡ succ_in null xs null
  pub tail : s.lru_tail ≡ pred_in null xs null

-- What the list's operations leave alone in an element.
abbrev pub unlinked : CacheElement → CacheElement
unlinked e = record e { lru_prev = null; lru_next = null }

abbrev pub payload : Option CacheElement → Option CacheElement
payload none = none
payload (some e) = some (unlinked e)

-- The two stores differ in the list's links and ends only.
pub record SameBut (s t : Store) : Type 0 where
  pub payloads : (p : Ptr) → payload (t.heap p) ≡ payload (s.heap p)
  pub table : t.hash_table ≡ s.hash_table
  pub size : t.cache_size ≡ s.cache_size

pub ne_null : (p : Ptr) (xs : List Ptr) → has null xs ≡ false → has p xs ≡ true → p ≢ null
ne_null p xs h m e = ground (arith, e)

pub load-ok :
    (s : Store) (p : Ptr) {e : CacheElement} → p ≢ null → s.heap p ≡ some e → load p s ≡ ok e s
unfolding load
load-ok s p h k = ground arith

-- The heap and the ends once `x`, with the links of `e`, is out of the list.
abbrev bypass_next : Heap → CacheElement → Heap
bypass_next h e = if e.lru_prev == null then h else modify h e.lru_prev (set_next e.lru_next)

abbrev bypass_prev : Heap → CacheElement → Heap
bypass_prev h e = if e.lru_next == null then h else modify h e.lru_next (set_prev e.lru_prev)

abbrev removed : Store → Ptr → CacheElement → Store
removed s x e = record s {
  heap = modify (modify (bypass_prev (bypass_next s.heap e) e) x (set_prev null)) x (set_next null);
  lru_head = if e.lru_prev == null then e.lru_next else s.lru_head;
  lru_tail = if e.lru_next == null then e.lru_prev else s.lru_tail;
}

module _ {s : Store} {xs : List Ptr} (l : Linked s xs) (x : Ptr) (m : has x xs ≡ true) where
  lru_remove-removed :
      (e : CacheElement)
      → s.heap x ≡ some e
      → e.lru_prev ≡ pred_in null xs x
      → e.lru_next ≡ succ_in null xs x
      → lru_remove x s ≡ ok tt (removed s x e)
  unfolding lru_remove load update modify
  lru_remove-removed e h p n =
      let x0 = ne_null x xs l.distinct.0 m in
      let a = pred_in null xs x in
      let b = succ_in null xs x in
      let ax = pred_in-ne null xs x l.distinct m in
      let bx = succ_in-ne null xs x l.distinct l.distinct.0 (ground arith) x0 in
      ground (arith, x0, l.nodes a, l.nodes b, pred_in-has null xs x, succ_in-has null xs x, ax, bx)

  removed-IsNode :
      (e : CacheElement)
      → e.lru_prev ≡ pred_in null xs x
      → e.lru_next ≡ succ_in null xs x
      → (q : Ptr) → q ≢ x
      → has q xs ≡ true
      → IsNode (removed s x e).heap (erase x xs) q
  unfolding modify
  removed-IsNode e p n q qx w =
      let node = l.nodes q w in
      let c = node.element in
      let q0 = ne_null q xs l.distinct.0 w in
      record {
        element = record c {
          lru_prev = if e.lru_next == q then e.lru_prev else c.lru_prev;
          lru_next = if e.lru_prev == q then e.lru_next else c.lru_next;
        };
        holds = ground (arith, node.holds);
        prev = ground (arith, node.prev, pred_in-erase null xs x q l.distinct m);
        next = ground (arith, node.next, succ_in-erase null xs x q l.distinct m);
      }

  removed-Linked :
      (e : CacheElement)
      → e.lru_prev ≡ pred_in null xs x
      → e.lru_next ≡ succ_in null xs x
      → Linked (removed s x e) (erase x xs)
  removed-Linked e p n =
      let x0 = ne_null x xs l.distinct.0 m in
      let gone = not-has-erase_self x xs l.distinct.1 in
      record {
        distinct = (not-has-erase x null xs l.distinct.0, erase-Distinct x xs l.distinct.1);
        nodes = λ q w.
            let qx : q ≢ x = λ k. ground (arith, k, gone) in
            removed-IsNode e p n q qx (ground (arith, has-erase x q xs qx));
        head = ground (arith, l.head, succ_in-erase null xs x null l.distinct m);
        tail = ground (arith, l.tail, pred_in-erase null xs x null l.distinct m);
      }

  removed-SameBut : (e : CacheElement) → SameBut s (removed s x e)
  unfolding modify
  removed-SameBut e = record { payloads = λ q. ground arith; table = refl; size = refl }

-- The heap and the ends once `x` follows the old tail.
abbrev extend_heap : Store → Ptr → Heap
extend_heap s x =
    let h = modify (modify s.heap x (set_prev s.lru_tail)) x (set_next null) in
    if s.lru_tail == null then h else modify h s.lru_tail (set_next x)

abbrev appended : Store → Ptr → Store
appended s x = record s {
  heap = extend_heap s x;
  lru_head = if s.lru_head == null then x else s.lru_head;
  lru_tail = x;
}

module _ {s : Store} {xs : List Ptr} (l : Linked s xs) (x : Ptr) {e : CacheElement} (x0 : x ≢ null)
    (h : s.heap x ≡ some e) (out : has x xs ≡ false) where
  lru_append_tail-appended : lru_append_tail x s ≡ ok tt (appended s x)
  unfolding lru_append_tail load update modify
  lru_append_tail-appended =
      ground (arith, l.tail, l.nodes (pred_in null xs null), pred_in-has null xs null)

  appended-IsNode :
      (q : Ptr) → q ≢ x → has q xs ≡ true → IsNode (appended s x).heap (xs ++ x ∷ []) q
  unfolding modify
  appended-IsNode q qx w =
      let node = l.nodes q w in
      let c = node.element in
      let q0 = ne_null q xs l.distinct.0 w in
      record {
        element = record c { lru_next = if s.lru_tail == q then x else c.lru_next };
        holds = ground (arith, node.holds);
        prev = ground (arith, node.prev, pred_in-append null xs x q qx w);
        next =
            ground (arith, node.next, l.tail, succ_in-append null xs x q l.distinct l.distinct.0);
      }

  appended-IsNode_self : IsNode (appended s x).heap (xs ++ x ∷ []) x
  unfolding modify
  appended-IsNode_self =
      let last = pred_in-append_self null xs x out l.distinct.0 x0 in
      record {
        element = record e { lru_prev = s.lru_tail; lru_next = null };
        holds = ground (arith, h, l.tail, pred_in-has null xs null);
        prev = ground (arith, l.tail, last);
        next = ground (arith, succ_in-append_self null xs x);
      }

  appended-Linked : Linked (appended s x) (xs ++ x ∷ [])
  appended-Linked = record {
    distinct = ground (arith, has-append null xs x, append-Distinct xs x l.distinct.1 out);
    nodes = λ q w. elim (ℕ_discrete q x) [
      | yes here ↦
          subst (λ p. IsNode (appended s x).heap (xs ++ x ∷ []) p) (sym here) appended-IsNode_self
      | no there ↦ appended-IsNode q there (ground (arith, has-append q xs x there))
    ];
    head = ground (arith, l.head, head-append xs x);
    tail = ground (arith, pred_in-append_self null xs x);
  }

  appended-SameBut : SameBut s (appended s x)
  unfolding modify
  appended-SameBut = record { payloads = λ q. ground arith; table = refl; size = refl }

-- `lru_remove` takes an address that is in the list out of it and changes nothing but links.
pub lru_remove-erase :
    {s : Store} {xs : List Ptr} (x : Ptr)
    → Linked s xs
    → has x xs ≡ true
    → (t : Store) × (lru_remove x s ≡ ok tt t) × Linked t (erase x xs) × SameBut s t
lru_remove-erase {s} {xs} x l m =
    let node = l.nodes x m in
    let e = node.element in
    (
      removed s x e,
      lru_remove-removed l x m e node.holds node.prev node.next,
      removed-Linked l x m e node.prev node.next,
      removed-SameBut l x m e,
    )

-- `lru_append_tail` makes an element that is not in the list, at an address other than NULL, the
-- most recently used one, and changes nothing but links.
pub lru_append_tail-append :
    {s : Store} {xs : List Ptr} (x : Ptr) {e : CacheElement}
    → Linked s xs
    → x ≢ null
    → s.heap x ≡ some e
    → has x xs ≡ false
    → (t : Store) × (lru_append_tail x s ≡ ok tt t) × Linked t (xs ++ x ∷ []) × SameBut s t
lru_append_tail-append {s} x l x0 h out = (
  appended s x,
  lru_append_tail-appended l x x0 h out,
  appended-Linked l x x0 h out,
  appended-SameBut l x x0 h out,
)
