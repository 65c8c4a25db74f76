-- ===== src/Earlier/Cache.antt =====
-- The cache of proxy_server_without_cache.c: a list from `head` on, whose elements carry the time
-- of their last use. A call that locks `lock` while its own thread holds it never returns.
use multi_threaded_proxy_ser.Base.{
  ℕ, zero, suc, ◌+◌, ◌-◌, ◌*◌, ◌%◌, ◌^◌, Bool, true, false, ◌&&◌, Option, none, some, List, [], ◌∷◌,
  Bytes, same, if◌then◌else◌, ltb, length,
}

abbrev pub max_size : ℕ
max_size = 200 * 2 ^ 20

abbrev pub max_element_size : ℕ
max_element_size = 10 * 2 ^ 20

-- `sizeof(cache_element)` on an LP64 target: three pointers, a time, and a padded `int`.
abbrev pub sizeof_cache_element : ℕ
sizeof_cache_element = 40

-- `content` is the text of the field `data`.
pub record CacheElement : Type 0 where
  pub content : Bytes
  pub len : ℕ
  pub url : Bytes
  pub lru_time_track : ℕ

-- The globals: the list from `head` on, the pattern of the `int` `cache_size`, and whether `lock`
-- is held.
pub record Cache : Type 0 where
  pub elements : List CacheElement
  pub cache_size : ℕ
  pub locked : Bool

unfoldable pub empty_cache : Cache
empty_cache = record { elements = []; cache_size = 0; locked = false }

-- `fault` is a write outside of the memory that was given.
pub data Run (A : Type 0) : Type 0 where
  returned : A → Cache → Run A
  blocked : Run A
  fault : Run A
  out_of_fuel : Run A

abbrev pub Cmd : Type 0 → Type 0
Cmd A = Cache → Run A

module _ {A B : Type 0} where
  abbrev continue : (A → Cmd B) → Run A → Run B
  continue f (returned a s) = f a s
  continue f blocked = blocked
  continue f fault = fault
  continue f out_of_fuel = out_of_fuel

  infixl 5 ◌>>=◌
  abbrev pub ◌>>=◌ : Cmd A → (A → Cmd B) → Cmd B
  (m >>= f) s = continue f (m s)

  infixl 5 ◌>>◌
  abbrev pub ◌>>◌ : Cmd A → Cmd B → Cmd B
  m >> n = m >>= λ _. n

abbrev pub pure : {A : Type 0} → A → Cmd A
pure a = returned a

-- `pthread_mutex_lock(&lock)`
unfoldable pub acquire : Cmd (Unit {0})
acquire s = if s.locked then blocked else returned tt (record s { locked = true })

-- `pthread_mutex_unlock(&lock)`
unfoldable pub release : Cmd (Unit {0})
release s = returned tt (record s { locked = false })

abbrev pub keep_found :
    CacheElement → Option CacheElement × List CacheElement → Option CacheElement × List CacheElement
keep_found e (found, l) = (found, e ∷ l)

-- The loop of find at the time `now`: the element that it stops at, and the list that it leaves.
unfoldable pub find_loop : Bytes → ℕ → List CacheElement → Option CacheElement × List CacheElement
find_loop url now [] = (none, [])
find_loop url now (e ∷ l) =
    if same e.url url
    then (some (record e { lru_time_track = now }), record e { lru_time_track = now } ∷ l)
    else keep_found e (find_loop url now l)

abbrev pub search_list : Bytes → ℕ → Cmd (Option CacheElement)
search_list url now s =
    let (site, l) = find_loop url now s.elements in returned site (record s { elements = l })

unfoldable pub find : Bytes → ℕ → Cmd (Option CacheElement)
unfolding acquire release find_loop
find url now = do acquire; site ← search_list url now; release; pure site

-- The loop of remove_cache_element: `temp` is the oldest element so far and stands at `place`, and
-- `next` is the place of `q->next`. The result is the element in `temp` and its place.
unfoldable pub oldest_loop : CacheElement → ℕ → ℕ → List CacheElement → CacheElement × ℕ
oldest_loop temp place next [] = (temp, place)
oldest_loop temp place next (e ∷ l) =
    if ltb e.lru_time_track temp.lru_time_track
    then oldest_loop e next (suc next) l
    else oldest_loop temp place (suc next) l

-- `head = head->next` at the place 0, and else `p->next = temp->next`.
unfoldable pub unlink_at : ℕ → List CacheElement → List CacheElement
unlink_at place [] = []
unlink_at zero (e ∷ l) = l
unlink_at (suc place) (e ∷ l) = e ∷ unlink_at place l

-- What an element takes of `cache_size`.
abbrev pub footprint : ℕ → Bytes → ℕ
footprint size url = size + 1 + length url + sizeof_cache_element

-- `cache_size - len - sizeof(cache_element) - strlen(url) - 1`, stored in an `int`
abbrev pub shrink : CacheElement → ℕ → ℕ
shrink temp cache_size = (cache_size + 2 ^ 32 - footprint temp.len temp.url % 2 ^ 32) % 2 ^ 32

unfoldable pub remove_oldest : Cmd (Unit {0})
unfolding oldest_loop unlink_at
remove_oldest s = elim s.elements [
  | [] ↦ returned tt s
  | e ∷ l ↦
      let (temp, place) = oldest_loop e 0 1 l in
      returned tt
        (record s { elements = unlink_at place (e ∷ l); cache_size = shrink temp s.cache_size })
]

unfoldable pub remove_cache_element : Cmd (Unit {0})
unfolding acquire release remove_oldest
remove_cache_element = do acquire; remove_oldest; release

-- `a > b` between `int`s given by their bit patterns, at a constant `b` that is not negative.
abbrev pub int_gt : ℕ → ℕ → Bool
int_gt a b = ltb a (2 ^ 31) && ltb b a

-- The loop of add_cache_element that makes room for `element_size` more bytes.
unfoldable pub make_room : ℕ → ℕ → Cmd (Unit {0})
unfolding remove_cache_element
make_room zero element_size s = out_of_fuel
make_room (suc fuel) element_size s =
    let again = (remove_cache_element >> make_room fuel element_size) s in
    if int_gt ((s.cache_size + element_size) % 2 ^ 32) max_size then again else returned tt s

abbrev pub new_element : Bytes → ℕ → Bytes → ℕ → CacheElement
new_element content size url now = record {
  content = content;
  len = size;
  url = url;
  lru_time_track = now;
}

-- `malloc(size+10)` for the data, which `strcpy` writes up to its end, and the links. `given` says
-- whether the three calls of `malloc` return memory.
unfoldable pub insert : Bool → Bytes → ℕ → Bytes → ℕ → ℕ → Cmd Bool
insert given content size url element_size now s =
    if given && ltb (length content) (size + 10)
    then returned true (record s {
      elements = new_element content size url now ∷ s.elements;
      cache_size = (s.cache_size + element_size) % 2 ^ 32;
    })
    else fault

-- The part under the lock.
unfoldable pub add_locked : ℕ → Bool → Bytes → ℕ → Bytes → ℕ → Cmd Bool
unfolding make_room insert
add_locked fuel given content size url now s =
    let element_size = footprint size url % 2 ^ 32 in
    if int_gt element_size max_element_size
    then returned false s
    else (make_room fuel element_size >> insert given content size url element_size now) s

unfoldable pub add_cache_element : ℕ → Bool → Bytes → ℕ → Bytes → ℕ → Cmd Bool
unfolding acquire release add_locked
add_cache_element fuel given content size url now = do
  acquire
  ret ← add_locked fuel given content size url now
  release
  pure ret
