-- ===== src/Tests/Pending.antt =====
-- Runs of the pending table: one thread fetches a key, a second waits for it and leaves.
unfoldable use multi_threaded_proxy_ser.Base.{same}
use multi_threaded_proxy_ser.Base.{
  ℕ, zero, suc, ◌+◌, ◌≤◌, ◌≡◌, refl, ◌≢◌, ◌↔◌, Bool, true, false, Option, none, some, [], ◌∷◌,
  Bytes, bytes, arith, count, has, take, if◌then◌else◌,
}
use multi_threaded_proxy_ser.Hash.{pending_hash}
use multi_threaded_proxy_ser.Pending.Table.{
  Ptr, null, Pending, PendingEntry, init, pending_wait_or_register, pending_complete, is_completed,
  drop_ref, find_pending, find_in, url_field, unlink_in,
}
use multi_threaded_proxy_ser.Pending.System.{
  System, Reach, start, started, later, register, join, complete, wake, leave,
}
use multi_threaded_proxy_ser.Pending.Inv.{in_table}
use multi_threaded_proxy_ser.Pending.Safety.{
  is_completed-returns, drop_ref-returns, Reach-ref_count,
}
use multi_threaded_proxy_ser.Pending.Keys.{IsShort, fetchers}
use multi_threaded_proxy_ser.Pending.SingleFlight.{single_flight}
use multi_threaded_proxy_ser.Pending.Fetched.{IsFetched, wait_or_register-IsFetched}
use multi_threaded_proxy_ser.Pending.Long.{long_key_stays}

abbrev page : Bytes
page = bytes "GET /"

abbrev mem_of : Option (Ptr × Pending) → Pending
mem_of none = init
mem_of (some (p, m)) = m

abbrev or_init : Option Pending → Pending
or_init none = init
or_init (some m) = m

abbrev one_fetch : System
one_fetch = record {
  mem = mem_of (pending_wait_or_register 5 page init);
  fetching = page ∷ [];
  waiting = [];
  leaving = [];
}

five-ne_null : 5 ≢ null
five-ne_null e = omega (arith, e)

six-ne_null : 6 ≢ null
six-ne_null e = omega (arith, e)

seven-ne_null : 7 ≢ null
seven-ne_null e = omega (arith, e)

page-IsShort : IsShort page
page-IsShort = omega arith

registers : pending_wait_or_register 5 page init ≡ some (null, one_fetch.mem)
unfolding pending_wait_or_register find_pending find_in url_field pending_complete unlink_in
    drop_ref is_completed pending_hash same
registers = refl

fetch : Reach IsShort one_fetch
fetch = later started (register 5 page page-IsShort five-ne_null refl registers)

-- A second thread, which is given the entry at 5.
abbrev one_waiter : System
one_waiter = record one_fetch {
  mem = mem_of (pending_wait_or_register 6 page one_fetch.mem);
  waiting = 5 ∷ [];
}

joins : pending_wait_or_register 6 page one_fetch.mem ≡ some (5, one_waiter.mem)
unfolding pending_wait_or_register find_pending find_in url_field pending_complete unlink_in
    drop_ref is_completed pending_hash same
joins = refl

six_free : one_fetch.mem.heap 6 ≡ none
unfolding pending_wait_or_register find_pending find_in url_field pending_complete unlink_in
    drop_ref is_completed pending_hash same
six_free = refl

wait : Reach IsShort one_waiter
wait = later fetch (join 6 page page-IsShort six-ne_null six_free five-ne_null joins)

abbrev fetched : System
fetched = record one_waiter { mem = or_init (pending_complete page one_waiter.mem); fetching = [] }

completes : pending_complete page one_waiter.mem ≡ some fetched.mem
unfolding pending_wait_or_register find_pending find_in url_field pending_complete unlink_in
    drop_ref is_completed pending_hash same
completes = refl

done : Reach IsShort fetched
done = later wait (complete [] page [] refl completes)

abbrev woken : System
woken = record fetched { waiting = []; leaving = 5 ∷ [] }

sees : is_completed 5 fetched.mem ≡ some true
unfolding pending_wait_or_register find_pending find_in url_field pending_complete unlink_in
    drop_ref is_completed pending_hash same
sees = refl

wakes : Reach IsShort woken
wakes = later done (wake [] 5 [] refl sees)

is_completed-returns_example : (b : Bool) × (is_completed 5 fetched.mem ≡ some b)
is_completed-returns_example = is_completed-returns 5 done (omega arith)

drop_ref-returns_example : (m : Pending) × (drop_ref 5 woken.mem ≡ some m)
drop_ref-returns_example = drop_ref-returns 5 wakes (omega arith)

abbrev waited_entry : PendingEntry
waited_entry = record { url = page; ref_count = 2; completed = false }

waited_holds : one_waiter.mem.heap 5 ≡ some waited_entry
unfolding pending_wait_or_register find_pending find_in url_field pending_complete unlink_in
    drop_ref is_completed pending_hash same
waited_holds = refl

Reach-ref_count_example :
    waited_entry.ref_count
    ≡ count 5 one_waiter.waiting
      + count 5 one_waiter.leaving
      + (if in_table one_waiter.mem.pending_table 5 waited_entry then 1 else 0)
Reach-ref_count_example = Reach-ref_count 5 waited_entry wait waited_holds

-- The last reference is given up.
abbrev idle : System
idle = record woken { mem = or_init (drop_ref 5 woken.mem); leaving = [] }

leaves : drop_ref 5 woken.mem ≡ some idle.mem
unfolding pending_wait_or_register find_pending find_in url_field pending_complete unlink_in
    drop_ref is_completed pending_hash same
leaves = refl

rest : Reach IsShort idle
rest = later wakes (leave [] 5 [] refl leaves)

idle_unlisted : (i : ℕ) → has 5 (idle.mem.pending_table i) ≡ false
unfolding pending_wait_or_register find_pending find_in url_field pending_complete unlink_in
    drop_ref is_completed pending_hash same
idle_unlisted i = ground arith

single_flight_example : fetchers page one_waiter.fetching ≤ 1
single_flight_example = single_flight page wait

-- A third thread asks for the page while it is being fetched.
wait_or_register-IsFetched_example :
    (r : Ptr × Pending) × (pending_wait_or_register 7 page one_waiter.mem ≡ some r)
    × ((r.0 ≡ null) ↔ (¬ IsFetched page one_waiter.fetching))
wait_or_register-IsFetched_example = wait_or_register-IsFetched 7 page wait seven-ne_null

abbrev repeated : ℕ → Bytes
repeated zero = []
repeated (suc n) = 97 ∷ repeated n

abbrev long_page : Bytes
long_page = repeated 600

abbrev AnyKey : Bytes → Type 0
AnyKey url = Unit {0}

abbrev long_fetch : System
long_fetch = record start {
  mem = mem_of (pending_wait_or_register 5 long_page init);
  fetching = long_page ∷ [];
}

long_registers : pending_wait_or_register 5 long_page init ≡ some (null, long_fetch.mem)
unfolding pending_wait_or_register find_pending find_in url_field pending_complete unlink_in
    drop_ref is_completed pending_hash same
long_registers = refl

fetch_long : Reach AnyKey long_fetch
fetch_long = later started (register 5 long_page tt five-ne_null refl long_registers)

six_unused : long_fetch.mem.heap 6 ≡ none
unfolding pending_wait_or_register find_pending find_in url_field pending_hash
six_unused = refl

-- A second thread asks for the key that is fetched already.
long_key_stays_example :
    (m : Pending) × (pending_wait_or_register 6 long_page long_fetch.mem ≡ some (null, m))
    × (pending_complete long_page m ≡ some m)
    × (m.heap 6 ≡ some (record { url = take 511 long_page; ref_count = 1; completed = false }))
    × (m.pending_table (pending_hash (take 511 long_page))
        ≡ 6 ∷ long_fetch.mem.pending_table (pending_hash (take 511 long_page)))
long_key_stays_example =
    long_key_stays 6 long_page fetch_long tt (λ e. omega (arith, e)) six_unused (omega arith)
