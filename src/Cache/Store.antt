-- ===== src/Cache/Store.antt =====
-- The cache's memory: `struct cache_element` at addresses, the list's two ends, the bucket array
-- and the size counter. A read through NULL or a dangling pointer is a fault.
use multi_threaded_proxy_ser.Base.{ℕ, Option, none, some, Bytes, ◌==◌, if◌then◌else◌}

abbrev pub Ptr : Type 0
Ptr = ℕ

abbrev pub null : Ptr
null = 0

-- `data` holds the bytes before the terminator. The field `next` is never used.
pub record CacheElement : Type 0 where
  pub content : Bytes
  pub len : ℕ
  pub url : Bytes
  pub hash_next : Ptr
  pub lru_prev : Ptr
  pub lru_next : Ptr

abbrev pub Heap : Type 0
Heap = Ptr → Option CacheElement

-- `cache_size` is the bit pattern of an `int`.
pub record Store : Type 0 where
  pub heap : Heap
  pub lru_head : Ptr
  pub lru_tail : Ptr
  pub hash_table : ℕ → Ptr
  pub cache_size : ℕ

pub data Run (A : Type 0) : Type 0 where
  ok : A → Store → Run A
  fault : Run A
  out_of_fuel : Run A

abbrev pub Cmd : Type 0 → Type 0
Cmd A = Store → Run A

abbrev pub pure : {A : Type 0} → A → Cmd A
pure = ok

module _ {A B : Type 0} where
  abbrev pub and_then : Run A → (A → Cmd B) → Run B
  and_then (ok a s) k = k a s
  and_then fault k = fault
  and_then out_of_fuel k = out_of_fuel

  infixl 5 ◌>>=◌ ◌>>◌
  abbrev pub ◌>>=◌ : Cmd A → (A → Cmd B) → Cmd B
  m >>= k = λ s. and_then (m s) k

  abbrev pub ◌>>◌ : Cmd A → Cmd B → Cmd B
  m >> n = m >>= λ _. n

-- `*p`
unfoldable pub load : Ptr → Cmd CacheElement
load p s = if p == null then fault else elim (s.heap p) [ none ↦ fault | some e ↦ ok e s ]

abbrev pub on_some : (CacheElement → CacheElement) → Option CacheElement → Option CacheElement
on_some f none = none
on_some f (some e) = some (f e)

-- The heap in which the element at `p` is changed by `f`.
unfoldable pub modify : Heap → Ptr → (CacheElement → CacheElement) → Heap
modify h p f q = if p == q then on_some f (h q) else h q

-- The heap in which `p` holds `c`; `none` gives the address back.
unfoldable pub write : Heap → Ptr → Option CacheElement → Heap
write h p c q = if p == q then c else h q

-- A write to a field of `*p`.
unfoldable pub update : Ptr → (CacheElement → CacheElement) → Cmd (Unit {0})
unfolding load modify
update p f = do _ ← load p; λ s. ok tt (record s { heap = modify s.heap p f })

unfoldable pub free : Ptr → Cmd (Unit {0})
unfolding load write
free p = do _ ← load p; λ s. ok tt (record s { heap = write s.heap p none })
