-- ===== src/Cache/Ops.antt =====
-- find, the lookup of thread_fn, _remove_cache_element_unlocked and add_cache_element. Each is one
-- step of the shared state: the last two hold `rwlock` alone, and lookups, which share it, write the
-- list under `lru_mutex` only.
use multi_threaded_proxy_ser.Base.{
  ℕ, zero, suc, ◌+◌, ◌-◌, ◌*◌, ◌%◌, ◌^◌, Bool, true, false, ◌&&◌, Option, none, some, Bytes, same,
  ◌==◌, if◌then◌else◌, ltb, length, take,
}
use multi_threaded_proxy_ser.Hash.{fnv1a_hash}
use multi_threaded_proxy_ser.Cache.Store.{
  Ptr, null, CacheElement, Cmd, ok, out_of_fuel, pure, ◌>>=◌, ◌>>◌, load, update, write, free,
}
use multi_threaded_proxy_ser.Cache.Lru.{lru_remove, lru_append_tail, lru_get_lru}

abbrev pub max_size : ℕ
max_size = 200 * 2 ^ 20

abbrev pub max_element_size : ℕ
max_element_size = 10 * 2 ^ 20

-- `sizeof(cache_element)` on an LP64 target: five pointers and `next`, and a padded `int`.
abbrev pub sizeof_cache_element : ℕ
sizeof_cache_element = 56

-- `a > b` between `int`s given by their bit patterns, at a constant `b` that is not negative.
abbrev pub int_gt : ℕ → ℕ → Bool
int_gt a b = ltb a (2 ^ 31) && ltb b a

-- The walk along a bucket chain: the first element with the key, or NULL.
unfoldable pub find_loop : ℕ → Bytes → Ptr → Cmd Ptr
unfolding load
find_loop zero url site = λ _. out_of_fuel
find_loop (suc fuel) url site =
    if site == null
    then pure null
    else do e ← load site; if same e.url url then pure site else find_loop fuel url e.hash_next

abbrev bucket : ℕ → Cmd Ptr
bucket i s = ok (s.hash_table i) s

-- `lru_remove(site); lru_append_tail(site);` on a hit
unfoldable pub touch : Ptr → Cmd (Unit {0})
touch site = lru_remove site >> lru_append_tail site

unfoldable pub find : ℕ → Bytes → Cmd Ptr
unfolding find_loop touch fnv1a_hash
find fuel url = do
  first ← bucket (fnv1a_hash url)
  site ← find_loop fuel url first
  if site == null then pure null else (touch site >> pure site)

-- The block of thread_fn at `cache_lookup`: a copy of the element's data, and its length. `alloc`
-- says whether the `malloc` of the copy succeeds.
unfoldable pub cache_lookup : Bool → ℕ → Bytes → Cmd (Option Bytes × ℕ)
unfolding find_loop touch fnv1a_hash load
cache_lookup alloc fuel url = do
  first ← bucket (fnv1a_hash url)
  site ← find_loop fuel url first
  if site == null then pure (none, 0) else do
    touch site
    e ← load site
    pure (if alloc then some (take e.len e.content) else none, e.len)

abbrev set_bucket : ℕ → Ptr → Cmd (Unit {0})
set_bucket i p s = ok tt (record s { hash_table = λ j. if i == j then p else s.hash_table j })

-- `h->hash_next = temp->hash_next;`
unfoldable pub relink : Ptr → Ptr → Cmd (Unit {0})
unfolding load update
relink temp h = do t ← load temp; update h (λ e. record e { hash_next = t.hash_next })

-- The walk to the predecessor of `temp` in its bucket chain, and the unlinking.
unfoldable pub unlink_loop : ℕ → Ptr → Ptr → Cmd (Unit {0})
unfolding load relink
unlink_loop zero temp h = λ _. out_of_fuel
unlink_loop (suc fuel) temp h = if h == null then pure tt else do
  e ← load h
  if e.hash_next == temp then relink temp h else unlink_loop fuel temp e.hash_next

-- `index` is `fnv1a_hash(temp->url)`.
abbrev unlink_from : ℕ → ℕ → Ptr → Ptr → Cmd (Unit {0})
unlink_from fuel index temp next s =
    if s.hash_table index == temp
    then set_bucket index next s
    else unlink_loop fuel temp (s.hash_table index) s

unfoldable pub unlink_bucket : ℕ → Ptr → Cmd (Unit {0})
unfolding unlink_loop fnv1a_hash load
unlink_bucket fuel temp = do t ← load temp; unlink_from fuel (fnv1a_hash t.url) temp t.hash_next

-- What an element takes of `cache_size`.
abbrev pub footprint : ℕ → Bytes → ℕ
footprint size url = size + 1 + length url + sizeof_cache_element

-- `cache_size - len - sizeof(cache_element) - strlen(url) - 1`, stored in an `int`
abbrev pub shrink : CacheElement → Cmd (Unit {0})
shrink e s =
    ok tt
      (record s { cache_size = (s.cache_size + 2 ^ 32 - footprint e.len e.url % 2 ^ 32) % 2 ^ 32 })

-- `_remove_cache_element_unlocked`
unfoldable pub remove_unlocked : ℕ → Cmd (Unit {0})
unfolding lru_remove unlink_bucket lru_get_lru load free
remove_unlocked fuel = do
  temp ← lru_get_lru
  if temp == null
      then pure tt
      else do lru_remove temp; unlink_bucket fuel temp; e ← load temp; shrink e; free temp

-- The loop of add_cache_element that makes room for `element_size` more bytes.
unfoldable pub make_room : ℕ → ℕ → ℕ → Cmd (Unit {0})
unfolding remove_unlocked
make_room zero fuel element_size s = out_of_fuel
make_room (suc rounds) fuel element_size s =
    let again = (remove_unlocked fuel >> make_room rounds fuel element_size) s in
    if int_gt ((s.cache_size + element_size) % 2 ^ 32) max_size then again else ok tt s

-- What the three calls of `malloc` return: the address of the element and the memory that it
-- finds there, and whether the copies of the data and of the url are given.
pub record Allocation : Type 0 where
  pub element : Ptr
  pub raw : CacheElement
  pub data_given : Bool
  pub url_given : Bool

-- The new element's fields; the others keep what the memory held.
abbrev pub new_element : CacheElement → Bytes → ℕ → Bytes → CacheElement
new_element raw content size url = record raw { content = take size content; len = size; url = url }

abbrev place : Ptr → CacheElement → Cmd (Unit {0})
place p e s = ok tt (record s { heap = write s.heap p (some e) })

-- `cache_size += element_size; return 1;`
abbrev grow : ℕ → Cmd Bool
grow element_size s = ok true (record s { cache_size = (s.cache_size + element_size) % 2 ^ 32 })

-- From the allocation on: the copies, the links and the size. An early return frees what it got.
unfoldable pub insert : Allocation → Bytes → ℕ → Bytes → ℕ → Cmd Bool
unfolding lru_append_tail write
insert m content size url element_size =
    if m.element == null
    then pure false
    else if m.data_given && m.url_given
    then (do
      place m.element (new_element m.raw content size url)
      lru_append_tail m.element
      grow element_size)
    else pure false

unfoldable pub add_cache_element : ℕ → Allocation → Bytes → ℕ → Bytes → Cmd Bool
unfolding make_room insert
add_cache_element fuel m content size url s =
    let element_size = footprint size url % 2 ^ 32 in
    if int_gt element_size max_element_size
    then ok false s
    else (make_room (suc s.cache_size) fuel element_size >> insert m content size url element_size)
        s
