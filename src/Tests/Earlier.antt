-- ===== src/Tests/Earlier.antt =====
-- Runs of the earlier server: its cache with one response, and its loop over an answer.
use multi_threaded_proxy_ser.Base.{
  ◌≡◌, refl, ℕ, ◌+◌, ◌-◌, true, false, Option, some, List, [], ◌∷◌, Bytes, bytes, length, arith,
  ltb, leb, if◌then◌else◌, ◌&&◌,
}
use multi_threaded_proxy_ser.Earlier.Cache.{
  Cache, returned, blocked, fault, empty_cache, remove_cache_element, add_cache_element,
  new_element, footprint, max_size, max_element_size,
}
use multi_threaded_proxy_ser.Earlier.Bounds.{IsUnlocked, total, added, add_cache_element_lem}
use multi_threaded_proxy_ser.Earlier.Remove.{IsRemoved, remove_cache_element-IsRemoved}
use multi_threaded_proxy_ser.Earlier.History.{Reach, start, later, add, Reach-IsUnlocked}

abbrev one : Cache
one = added (bytes "hello") 5 (bytes "/a") 7 empty_cache

empty-IsUnlocked : IsUnlocked empty_cache
empty-IsUnlocked = Reach-IsUnlocked start

one-added :
    add_cache_element 1 true (bytes "hello") 5 (bytes "/a") 7 empty_cache ≡ returned true one
unfolding empty_cache
one-added =
    add_cache_element_lem 0 true (bytes "hello") 5 (bytes "/a") 7 empty_cache empty-IsUnlocked
      (omega arith)

one-Reach : Reach one
one-Reach = later start (add 0 true (bytes "hello") 5 (bytes "/a") 7 true (omega arith) one-added)

one-IsUnlocked : IsUnlocked one
one-IsUnlocked = Reach-IsUnlocked one-Reach

-- An element that leaves little room beside it.
abbrev large : Cache
large = record {
  elements = new_element [] (max_size - 141) (bytes "/") 3 ∷ [];
  cache_size = max_size - 99;
  locked = false;
}

add_cache_element_lem_example : add_cache_element 1 true [] 100 (bytes "/b") 9 large ≡ (
    if leb (footprint 100 (bytes "/b")) max_element_size
    then (if leb (total large.elements + footprint 100 (bytes "/b")) max_size
        then (if true && ltb (length {A = ℕ} []) (100 + 10)
            then returned true (added [] 100 (bytes "/b") 9 large)
            else fault)
        else blocked)
    else returned false large)
add_cache_element_lem_example =
    add_cache_element_lem 0 true [] 100 (bytes "/b") 9 large
      (record { size = refl; bounded = omega arith; free = refl }) (omega arith)

remove_cache_element-IsRemoved_example :
    (s' : Cache) × (remove_cache_element one ≡ returned tt s') × IsRemoved one s' × IsUnlocked s'
unfolding empty_cache
remove_cache_element-IsRemoved_example =
    remove_cache_element-IsRemoved one (new_element (bytes "hello") 5 (bytes "/a") 7) []
      one-IsUnlocked refl

-- Of two answers the second is not sent whole.
abbrev answers : List Bytes
answers = bytes "abc" ∷ bytes "defg" ∷ []

abbrev send_three : ℕ → ℕ → Option ℕ
send_three t n = some 3
