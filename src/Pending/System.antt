-- ===== src/Pending/System.antt =====
-- Any number of threads over one pending table, interleaved in any order. A thread is known by
-- where it stands: it fetches a key, waits for an entry, or is about to leave an entry.
use multi_threaded_proxy_ser.Base.{◌≡◌, ◌≢◌, true, none, some, List, [], ◌∷◌, ◌++◌, Bytes}
use multi_threaded_proxy_ser.Pending.Table.{
  Ptr, null, Pending, pending_wait_or_register, drop_ref, is_completed, pending_complete, init,
}

pub record System : Type 0 where
  pub mem : Pending
  pub fetching : List Bytes
  pub waiting : List Ptr
  pub leaving : List Ptr

-- `Key` says which keys are asked for. `fresh` is the unused address that `malloc` returns if the
-- key is new. Its failure, which the code does not test, is a fault of `create_pending_entry` and no
-- step.
pub data Step (Key : Bytes → Type 0) (s : System) : System → Type 0 where
  -- `pending_wait_or_register` returns NULL, and the thread goes on to `handle_request`.
  register :
      (fresh : Ptr) (url : Bytes) {m : Pending}
      → Key url
      → fresh ≢ null
      → s.mem.heap fresh ≡ none
      → pending_wait_or_register fresh url s.mem ≡ some (null, m)
      → Step Key s (record s { mem = m; fetching = url ∷ s.fetching })
  -- It returns an entry, and the thread goes on to `pending_wait`.
  join :
      (fresh : Ptr) (url : Bytes) {p : Ptr} {m : Pending}
      → Key url
      → fresh ≢ null
      → s.mem.heap fresh ≡ none
      → p ≢ null
      → pending_wait_or_register fresh url s.mem ≡ some (p, m)
      → Step Key s (record s { mem = m; waiting = p ∷ s.waiting })
  -- The fetch is over, whether it succeeded or not.
  complete :
      (us : List Bytes) (url : Bytes) (vs : List Bytes) {m : Pending}
      → s.fetching ≡ us ++ url ∷ vs
      → pending_complete url s.mem ≡ some m
      → Step Key s (record s { mem = m; fetching = us ++ vs })
  -- A waiting thread leaves the loop of `pending_wait`.
  wake :
      (ps : List Ptr) (p : Ptr) (qs : List Ptr)
      → s.waiting ≡ ps ++ p ∷ qs
      → is_completed p s.mem ≡ some true
      → Step Key s (record s { waiting = ps ++ qs; leaving = p ∷ s.leaving })
  -- It gives up its reference.
  leave :
      (ps : List Ptr) (p : Ptr) (qs : List Ptr) {m : Pending}
      → s.leaving ≡ ps ++ p ∷ qs
      → drop_ref p s.mem ≡ some m
      → Step Key s (record s { mem = m; leaving = ps ++ qs })

abbrev pub start : System
start = record { mem = init; fetching = []; waiting = []; leaving = [] }

pub data Reach (Key : Bytes → Type 0) : System → Type 0 where
  started : Reach Key start
  later : {s t : System} → Reach Key s → Step Key s t → Reach Key t
