-- ===== src/Server/System.antt =====
-- The whole server as a step relation: main accepts, and each thread waits for the semaphore, reads
-- its socket from the array, works on the pending table and the cache, and posts the semaphore.
use multi_threaded_proxy_ser.Base.{
  ℕ, zero, suc, ◌+◌, ◌-◌, ◌<◌, ◌≡◌, Bool, Option, none, some, List, [], ◌∷◌, ◌++◌, Bytes, length,
  if◌then◌else◌,
}
use multi_threaded_proxy_ser.Pending.System
use multi_threaded_proxy_ser.Pending.System.{System, start, register, join, complete, wake, leave}
use multi_threaded_proxy_ser.Cache.Store.{Heap, Store}
use multi_threaded_proxy_ser.Cache.History
use multi_threaded_proxy_ser.Cache.History.{cleared}
use multi_threaded_proxy_ser.Worker.Thread.{Answers, ended, thread_fn}
use multi_threaded_proxy_ser.Worker.Accept.{
  Accepting, waiting, accept_loop, accepting_start, max_clients,
}

-- A thread that waits for the semaphore: the number of its connection, and the place of the array
-- that `&Connected_socketId[i]` points to.
pub record Starting : Type 0 where
  pub connection : ℕ
  pub place : ℕ

-- `idle` counts the threads behind `sem_wait` that are not in the pending table. `accepted` lists
-- the sockets that `accept` returned, and `served` each thread's connection and the socket that it
-- read.
pub record Server : Type 0 where
  pub accepting : Accepting
  pub accepted : List ℕ
  pub starting : List Starting
  pub seamaphore : ℕ
  pub idle : ℕ
  pub pending : System
  pub cache : Store
  pub served : List (ℕ × ℕ)

-- The idle threads after a step on the pending table: a thread that registers or joins was idle, and
-- one that has completed or left is idle again.
abbrev pub idle_after : {Key : Bytes → Type 0} {p q : System} → System.Step Key p q → ℕ → Option ℕ
idle_after (register fresh url k f0 free run) zero = none
idle_after (register fresh url k f0 free run) (suc n) = some n
idle_after (join fresh url k f0 free p0 run) zero = none
idle_after (join fresh url k f0 free p0 run) (suc n) = some n
idle_after (complete us url vs at run) n = some (suc n)
idle_after (wake ps p qs at done) n = some n
idle_after (leave ps p qs at run) n = some (suc n)

-- The threads for a new connection: one more, unless `pthread_create` fails.
abbrev pub started : Bool → ℕ → Accepting → List Starting → List Starting
started created connection a l =
    if created then record { connection = connection; place = a.i } ∷ l else l

abbrev pub read_socket : Server → Starting → ℕ
read_socket s t = s.accepting.connected_socket_id t.place

-- `Key` says which keys are asked for.
pub data Step (Key : Bytes → Type 0) (s : Server) : Server → Type 0 where
  -- One turn of the loop of `main`.
  accept :
      (socket : ℕ) (created : Bool) {a : Accepting}
      → accept_loop (some socket ∷ []) s.accepting ≡ waiting a
      → Step Key s (record s {
        accepting = a;
        accepted = s.accepted ++ socket ∷ [];
        starting = started created (length s.accepted) s.accepting s.starting;
      })
  -- `sem_wait`, and the read of the socket behind it.
  enter :
      (us : List Starting) (t : Starting) (vs : List Starting)
      → s.starting ≡ us ++ t ∷ vs
      → 0 < s.seamaphore
      → Step Key s (record s {
        starting = us ++ vs;
        seamaphore = s.seamaphore - 1;
        idle = suc s.idle;
        served = (t.connection, read_socket s t) ∷ s.served;
      })
  -- A thread's call on the pending table.
  request :
      {q : System} {idle : ℕ} (step : System.Step Key s.pending q)
      → idle_after step s.idle ≡ some idle
      → Step Key s (record s { pending = q; idle = idle })
  -- A call on the cache, by a thread that looks up or by one that fetches.
  store :
      {c : Store}
      → 0 < s.idle + length s.pending.fetching
      → History.Step s.cache c
      → Step Key s (record s { cache = c })
  -- A thread comes to its end: it has posted the semaphore as often as its run of thread_fn says.
  -- Its calls answer as `a` says.
  finish :
      (n : ℕ) (a : Answers) (sent : Bytes) (closed posts : ℕ)
      → s.idle ≡ suc n
      → thread_fn a 2 ≡ ended sent closed posts
      → Step Key s (record s { idle = n; seamaphore = s.seamaphore + posts })

abbrev pub server_start : Heap → Server
server_start h = record {
  accepting = accepting_start;
  accepted = [];
  starting = [];
  seamaphore = max_clients;
  idle = 0;
  pending = start;
  cache = cleared h;
  served = [];
}

pub data Reach (Key : Bytes → Type 0) (h : Heap) : Server → Type 0 where
  initial : Reach Key h (server_start h)
  later : {s t : Server} → Reach Key h s → Step Key s t → Reach Key h t
