-- ===== src/Tests/Server.antt =====
-- Runs of the server: two connections are accepted, one thread fetches and a second one waits.
use multi_threaded_proxy_ser.Base.{
  ℕ, ◌+◌, ◌≤◌, ◌≡◌, ◌≢◌, refl, true, false, Option, none, some, List, [], ◌∷◌, Bytes, bytes, arith,
}
unfoldable use multi_threaded_proxy_ser.Base.{same}
use multi_threaded_proxy_ser.Hash.{pending_hash}
use multi_threaded_proxy_ser.Pending.Table.{
  Ptr, null, Pending, PendingEntry, init, pending_wait_or_register, find_pending, find_in,
  url_field,
}
use multi_threaded_proxy_ser.Pending.System.{register, join}
use multi_threaded_proxy_ser.Pending.Keys.{IsShort}
use multi_threaded_proxy_ser.Cache.Store.{Heap}
use multi_threaded_proxy_ser.Cache.History.{cleared}
use multi_threaded_proxy_ser.Worker.Accept.{Accepting, accepting_start, start_thread, max_clients}
use multi_threaded_proxy_ser.Server.System.{
  Starting, Server, Reach, initial, later, accept, enter, request, server_start,
}
use multi_threaded_proxy_ser.Server.Bounds.{at_work, Reach-at_work, ref_count-le}
use multi_threaded_proxy_ser.Server.Slots.{IsLast, read_socket-IsLast, accept_loop-one}
use multi_threaded_proxy_ser.Server.Progress.{Steps, IsDrained, Reach-drains}
use multi_threaded_proxy_ser.Server.Main.{Calls, Globals, main}
use multi_threaded_proxy_ser.Server.Started.{IsStarted, main-IsStarted}

abbrev page : Bytes
page = bytes "GET /"

abbrev memory : Heap
memory = λ p. none

abbrev first : Accepting
first = start_thread accepting_start 5 1

abbrev second : Accepting
second = start_thread first 6 2

abbrev threads : List Starting
threads = record { connection = 1; place = 1 } ∷ record { connection = 0; place = 0 } ∷ []

abbrev both_wait : Server
both_wait = record (server_start memory) {
  accepting = second;
  accepted = 5 ∷ 6 ∷ [];
  starting = threads;
}

both : Reach IsShort memory both_wait
both =
    later (later initial (accept 5 true (accept_loop-one 5 accepting_start (omega arith))))
      (accept 6 true (accept_loop-one 6 first (omega arith)))

read_socket-IsLast_example : IsLast 0 (5 ∷ 6 ∷ []) 5
read_socket-IsLast_example =
    read_socket-IsLast (record { connection = 1; place = 1 } ∷ [])
      (record { connection = 0; place = 0 }) [] both refl

abbrev first_reads : Server
first_reads = record both_wait {
  starting = record { connection = 1; place = 1 } ∷ [];
  seamaphore = 399;
  idle = 1;
  served = (0, 5) ∷ [];
}

reads : Reach IsShort memory first_reads
reads = later both (
    enter (record { connection = 1; place = 1 } ∷ []) (record { connection = 0; place = 0 }) [] refl
      (omega arith))

abbrev second_reads : Server
second_reads = record first_reads {
  starting = [];
  seamaphore = 398;
  idle = 2;
  served = (1, 6) ∷ (0, 5) ∷ [];
}

read : Reach IsShort memory second_reads
read = later reads (enter [] (record { connection = 1; place = 1 }) [] refl (omega arith))

abbrev mem_of : Option (Ptr × Pending) → Pending
mem_of none = init
mem_of (some (p, m)) = m

-- The first thread is the one to fetch.
abbrev fetching : Server
fetching = record second_reads {
  idle = 1;
  pending = record {
    mem = mem_of (pending_wait_or_register 5 page init);
    fetching = page ∷ [];
    waiting = [];
    leaving = [];
  };
}

nonnull : (n : ℕ) → 0 + 5 ≤ n → n ≢ null
nonnull n k e = omega (arith, k, e)

page-IsShort : IsShort page
page-IsShort = omega arith

registers : pending_wait_or_register 5 page init ≡ some (null, fetching.pending.mem)
unfolding pending_wait_or_register find_pending find_in url_field pending_hash same
registers = refl

fetch : Reach IsShort memory fetching
fetch =
    later read
      (request (register 5 page page-IsShort (nonnull 5 (omega arith)) refl registers) refl)

-- The second one waits for the entry at 5.
abbrev both_work : Server
both_work = record fetching {
  idle = 0;
  pending = record {
    mem = mem_of (pending_wait_or_register 6 page fetching.pending.mem);
    fetching = page ∷ [];
    waiting = 5 ∷ [];
    leaving = [];
  };
}

joins : pending_wait_or_register 6 page fetching.pending.mem ≡ some (5, both_work.pending.mem)
unfolding pending_wait_or_register find_pending find_in url_field pending_hash same
joins = refl

six_free : fetching.pending.mem.heap 6 ≡ none
unfolding pending_wait_or_register find_pending find_in url_field pending_hash same
six_free = refl

work : Reach IsShort memory both_work
work = later fetch (
    request
      (join 6 page page-IsShort (nonnull 6 (omega arith)) six_free (nonnull 5 (omega arith)) joins)
      refl)

Reach-at_work_example : 398 + at_work both_work ≡ max_clients
Reach-at_work_example = Reach-at_work work

abbrev waited_entry : PendingEntry
waited_entry = record { url = page; ref_count = 2; completed = false }

waited_holds : both_work.pending.mem.heap 5 ≡ some waited_entry
unfolding pending_wait_or_register find_pending find_in url_field pending_hash same
waited_holds = refl

ref_count-le_example : 2 ≤ 401
ref_count-le_example = ref_count-le 5 waited_entry work waited_holds

Reach-drains_example :
    (t : Server) × Steps IsShort both_work t × IsDrained t × (t.accepted ≡ 5 ∷ 6 ∷ [])
Reach-drains_example = Reach-drains work

-- main with the argument 8080, which gets a socket to listen on.
abbrev calls : Calls
calls = record {
  args = bytes "proxy" ∷ bytes "8080" ∷ [];
  atoi = λ s. 8080;
  socket = some 3;
  bind = λ fd port. true;
  listen = λ fd. true;
}

-- Globals whose tables are not empty.
abbrev used : Globals
used = record {
  store = record (cleared memory) { lru_head = 3; lru_tail = 3; hash_table = λ i. 3 };
  pending = record { heap = λ p. none; pending_table = λ i. 5 ∷ [] };
  pools = λ i. record { head = []; count = 7 };
}

main-IsStarted_example : IsStarted calls used (main calls used)
main-IsStarted_example = main-IsStarted calls used
